-- ===== src/Mempool/Appending.antt =====
-- mempool/aligned_allocator.go: Append keeps the contents.
use nbio.Base.{
  ℕ, ◌+◌, ◌-◌, ◌≤◌, ◌≡◌, inl, inr, ap, ◌∙◌, true, false, Option, none, some, ◌++◌, Bytes, length,
  take, drop, leb, if◌then◌else◌, arith, take_whole, take-append_length, length-append, length-drop,
  length-take, Bool-cases,
}
use nbio.Mempool.{Buf, cap, Pools, malloc, free, append, copy, contents, copied, free_old}
use nbio.Mempool.Pools.{PutAt}
use nbio.Mempool.Allocation.{Own, Sound, Allocated, Fits-Own, malloc-Allocated, free-Sound}

contents-copy :
    (b : Buf) (src : Bytes)
    → b.len ≡ length src
    → b.len ≤ cap b
    → (contents (copy b src) ≡ src) × (cap (copy b src) ≡ cap b)
contents-copy b src e l =
    let whole : take b.len src ≡ src = take_whole b.len src (omega arith) in
    let size = length-append src (drop (length src) b.array) in
    let left = length-drop (length src) b.array in
    rw whole (
      ap (λ n. take n (src ++ drop (length src) b.array)) e
          ∙ take-append_length src (drop (length src) b.array),
      omega arith,
    )

-- Append gives the bytes with more behind them, in a buffer that Free takes back.
abbrev pub Appended : Bytes → Option (Buf × Pools) → Type 0
Appended t none = ⊥
Appended t (some (b, ps)) = (contents b ≡ t) × Own b × Sound ps

append_more :
    (choice : ℕ) (b : Buf) (more : Bytes) (ps : Pools)
    → leb (length more) (cap b - b.len) ≡ true
    → append choice b more ps
      ≡ some (
        record {
          array = take b.len b.array ++ more ++ drop (b.len + length more) b.array;
          len = b.len + length more;
        },
        ps,
      )
unfolding append
append_more choice b more ps e =
    ap
      (λ t.
        if t
        then some (
          record {
            array = take b.len b.array ++ more ++ drop (b.len + length more) b.array;
            len = b.len + length more;
          },
          ps,
        )
        else free_old b (copied (contents b ++ more) (malloc choice (b.len + length more) ps)))
      e

append_anew :
    (choice : ℕ) (b : Buf) (more : Bytes) (ps : Pools)
    → leb (length more) (cap b - b.len) ≡ false
    → append choice b more ps
      ≡ free_old b (copied (contents b ++ more) (malloc choice (b.len + length more) ps))
unfolding append
append_anew choice b more ps e =
    ap
      (λ t.
        if t
        then some (
          record {
            array = take b.len b.array ++ more ++ drop (b.len + length more) b.array;
            len = b.len + length more;
          },
          ps,
        )
        else free_old b (copied (contents b ++ more) (malloc choice (b.len + length more) ps)))
      e

with_room :
    (b : Buf) (more : Bytes) (ps : Pools)
    → b.len ≤ cap b
    → length more ≤ cap b - b.len
    → Own b
    → Sound ps
    → Appended (contents b ++ more) (
        some (
          record {
            array = take b.len b.array ++ more ++ drop (b.len + length more) b.array;
            len = b.len + length more;
          },
          ps,
        ))
with_room b more ps l room own s =
    let t = take b.len b.array ++ more in
    let rest = drop (b.len + length more) b.array in
    let kept = length-take b.len b.array in
    let size = length-append (take b.len b.array) more in
    let all = length-append t rest in
    let left = length-drop (b.len + length more) b.array in
    let front : b.len + length more ≡ length t = omega arith in
    let same : length (t ++ rest) ≡ cap b = omega arith in
    (ap (λ n. take n (t ++ rest)) front ∙ take-append_length t rest, rw same own, s)

after_free :
    (t : Bytes) (c : Buf) (y : Option Pools)
    → contents c ≡ t
    → Own c
    → PutAt 0 11 y
    → Appended t (elim y [ none ↦ none | some qs ↦ some (c, qs) ])
after_free t c none e own p = p
after_free t c (some qs) e own p = (e, own, p)

moved :
    (b : Buf) (t : Bytes) (x : Option (Buf × Pools))
    → Own b
    → Allocated (length t) x
    → Appended t (free_old b (copied t x))
moved b t none own h = h
moved b t (some (c, qs)) own (len, room, fits, s) =
    let own_c = Fits-Own (length t) (cap c) fits in
    let (same, width) = contents-copy c t len (omega arith) in
    after_free t (copy c t) (free b qs) same (rw width own_c) (free-Sound b qs own s).0

-- Append gives the contents with the bytes behind them, in a buffer with a pool's capacity or one that Free refuses, and the
-- pools hold buffers of their own capacities only. They did so before, and the buffer is such a one.
pub append-Appended :
    (choice : ℕ) (b : Buf) (more : Bytes) (ps : Pools)
    → b.len ≤ cap b
    → Own b
    → Sound ps
    → Appended (contents b ++ more) (append choice b more ps)
append-Appended choice b more ps l own s = elim (Bool-cases (leb (length more) (cap b - b.len))) [
  | inl room ↦ rw (append_more choice b more ps room) (with_room b more ps l (ground arith) own s)
  | inr full ↦
      let size : b.len + length more ≡ length (contents b ++ more) =
        omega (arith, length-append (contents b) more, length-take b.len b.array) in
      let t = contents b ++ more in
      rw (append_anew choice b more ps full, size)
        (moved b t (malloc choice (length t) ps) own (malloc-Allocated choice (length t) ps s))
]
