-- ===== src/Mempool/Pools.antt =====
-- mempool/aligned_allocator.go: what is in the pools, and what Get and Put make of it.
use nbio.Base.{
  ℕ, zero, suc, ◌+◌, ◌^◌, ◌≤◌, ◌<◌, ◌≡◌, refl, ap, ◌∙◌, true, Option, none, some, List, [], ◌∷◌,
  length, ◌==◌, arith, all_below, all_below_sound, leb, Bool-cases, inl, inr, false,
}
use nbio.Mempool.{
  Buf, cap, pool_size, max_aligned_buffer_size, get_pool_from, aligned_index, make, Pools, pick,
  got, get_at, put_at,
}

abbrev AllOf : ℕ → List Buf → Type 0
AllOf n [] = Unit {0}
AllOf n (b ∷ bs) = (cap b ≡ n) × AllOf n bs

-- Each pool, from number `i` on, has buffers of its own capacity.
abbrev pub InClass : ℕ → Pools → Type 0
InClass i [] = Unit {0}
InClass i (p ∷ ps) = AllOf (pool_size i) p × InClass (suc i) ps

pub length-make : (n : ℕ) → cap (make n) ≡ n
unfolding make
length-make zero = refl
length-make (suc n) = omega (arith, length-make n)

-- A size for which the last of the pools has room gets a pool that has room for it.
get_pool_from_lem :
    (k i size : ℕ)
    → size ≤ 2 ^ (i + k + 5)
    → (size ≤ pool_size (get_pool_from (suc k) i size)) × (get_pool_from (suc k) i size < i + suc k)
unfolding get_pool_from
get_pool_from_lem zero i size h =
    let here : i + 0 + 5 ≡ i + 5 = omega arith in
    let last : size ≤ 2 ^ (i + 5) = rw here at h in ground arith
get_pool_from_lem (suc k) i size h =
    let next : i + suc k + 5 ≡ suc i + k + 5 = omega arith in
    let more = get_pool_from_lem k (suc i) size (rw next at h) in ground arith

pub aligned_index_lem :
    (size : ℕ)
    → size ≤ max_aligned_buffer_size
    → (size ≤ pool_size (aligned_index size)) × (aligned_index size < 11)
unfolding aligned_index
aligned_index_lem size h = get_pool_from_lem 10 0 size h

-- The pool that a size gets is the first with room for it.
get_pool_from_first :
    (k i size j : ℕ) → i ≤ j → j < get_pool_from k i size → j < i + k → pool_size j < size
unfolding get_pool_from
get_pool_from_first zero i size j l h b = absurd (omega arith)
get_pool_from_first (suc k) i size j l h b = elim (Bool-cases (leb size (pool_size i))) [
  | inl room ↦ absurd (omega (arith, rw room at h))
  | inr full ↦ elim (Bool-cases (j == i)) [
    | inl e ↦ let same : j ≡ i = ground arith in rw same (ground arith)
    | inr ne ↦
        let later : suc i ≤ j = ground arith in
        get_pool_from_first k (suc i) size j later (rw full at h) (omega arith)
  ]
]

pub aligned_index_first :
    (size : ℕ) → (j : ℕ) → j < aligned_index size → j < 11 → pool_size j < size
unfolding aligned_index
aligned_index_first size j h b = get_pool_from_first 11 0 size j (omega arith) h (omega arith)

index_table : all_below 11 (λ i. aligned_index (pool_size i) == i) ≡ true
unfolding all_below aligned_index
index_table = refl

pub aligned_index-pool_size : (i : ℕ) → i < 11 → aligned_index (pool_size i) ≡ i
aligned_index-pool_size i h = let same = all_below_sound 11 _ i index_table h in ground arith

abbrev Picked : ℕ → Option (Buf × List Buf) → Type 0
Picked n none = Unit {0}
Picked n (some (b, bs)) = (cap b ≡ n) × AllOf n bs

pick-Picked : (n k : ℕ) (bs : List Buf) → AllOf n bs → Picked n (pick k bs)
pick-Picked n k [] h = tt
pick-Picked n zero (b ∷ bs) h = h
pick-Picked n (suc k) (b ∷ bs) h = kept (pick k bs) (pick-Picked n k bs h.1)
  where
    kept :
        (x : Option (Buf × List Buf))
        → Picked n x
        → Picked n (elim x [ none ↦ none | some y ↦ some (y.0, b ∷ y.1) ])
    kept none h' = tt
    kept (some y) h' = (h'.0, (h.0, h'.1))

got_lem :
    (i : ℕ) (p : List Buf) (x : Option (Buf × List Buf))
    → AllOf (pool_size i) p
    → Picked (pool_size i) x
    → (cap (got i p x).0 ≡ pool_size i) × AllOf (pool_size i) (got i p x).1
got_lem i p none h k = (length-make (pool_size i), h)
got_lem i p (some x) h k = k

-- An item of the pool asked for, and all pools as they should be.
abbrev pub GotAt : ℕ → ℕ → ℕ → Option (Buf × Pools) → Type 0
GotAt n i m none = ⊥
GotAt n i m (some (b, qs)) = (cap b ≡ n) × InClass i qs × (length qs ≡ m)

pub get_at-GotAt :
    (choice idx i : ℕ) (ps : Pools)
    → idx < length ps
    → InClass i ps
    → GotAt (pool_size (i + idx)) i (length ps) (get_at choice idx i ps)
unfolding get_at
get_at-GotAt choice idx i [] l h = absurd (omega arith)
get_at-GotAt choice zero i (p ∷ ps) l h =
    let same : i + 0 ≡ i = omega arith in
    let x = got_lem i p (pick choice p) h.0 (pick-Picked (pool_size i) choice p h.0) in
    rw same (x.0, (x.1, h.1), refl)
get_at-GotAt choice (suc idx) i (p ∷ ps) l h =
    behind (get_at choice idx (suc i) ps) (get_at-GotAt choice idx (suc i) ps (omega arith) h.1)
  where
    behind :
        (x : Option (Buf × Pools))
        → GotAt (pool_size (suc i + idx)) (suc i) (length ps) x
        → GotAt
            (pool_size (i + suc idx))
            i
            (suc (length ps))
            (elim x [ none ↦ none | some y ↦ some (y.0, p ∷ y.1) ])
    behind none k = k
    behind (some y) k =
        let next : suc i + idx ≡ i + suc idx = omega arith in
        (k.0 ∙ ap pool_size next, (h.0, k.1), ap suc k.2)

abbrev pub PutAt : ℕ → ℕ → Option Pools → Type 0
PutAt i m none = ⊥
PutAt i m (some qs) = InClass i qs × (length qs ≡ m)

pub put_at-PutAt :
    (idx i : ℕ) (b : Buf) (ps : Pools)
    → idx < length ps
    → cap b ≡ pool_size (i + idx)
    → InClass i ps
    → PutAt i (length ps) (put_at idx b ps)
unfolding put_at
put_at-PutAt idx i b [] l e h = absurd (omega arith)
put_at-PutAt zero i b (p ∷ ps) l e h =
    let same : i + 0 ≡ i = omega arith in (((e ∙ ap pool_size same, h.0), h.1), refl)
put_at-PutAt (suc idx) i b (p ∷ ps) l e h =
    let next : i + suc idx ≡ suc i + idx = omega arith in
    behind (put_at idx b ps)
      (put_at-PutAt idx (suc i) b ps (omega arith) (e ∙ ap pool_size next) h.1)
  where
    behind :
        (x : Option Pools)
        → PutAt (suc i) (length ps) x
        → PutAt i (suc (length ps)) (elim x [ none ↦ none | some qs ↦ some (p ∷ qs) ])
    behind none k = k
    behind (some qs) k = ((h.0, k.0), ap suc k.1)

-- alignedPools[i]
unfoldable pub pool_at : ℕ → Pools → List Buf
pool_at i [] = []
pool_at zero (p ∷ ps) = p
pool_at (suc i) (p ∷ ps) = pool_at i ps

-- The buffer is the first of its pool, and nothing else is changed.
abbrev pub Entered : ℕ → Buf → Pools → Option Pools → Type 0
Entered idx b ps none = ⊥
Entered idx b ps (some qs) =
    (pool_at idx qs ≡ b ∷ pool_at idx ps)
    × ((j : ℕ) → (j == idx) ≡ false → pool_at j qs ≡ pool_at j ps)

pub put_at-Entered :
    (idx : ℕ) (b : Buf) (ps : Pools) → idx < length ps → Entered idx b ps (put_at idx b ps)
unfolding put_at pool_at
put_at-Entered idx b [] l = absurd (omega arith)
put_at-Entered zero b (p ∷ ps) l = (refl, others)
  where
    others : (j : ℕ) → (j == 0) ≡ false → pool_at j ((b ∷ p) ∷ ps) ≡ pool_at j (p ∷ ps)
    others zero ne = absurd (ground arith)
    others (suc j) ne = refl
put_at-Entered (suc idx) b (p ∷ ps) l =
    behind (put_at idx b ps) (put_at-Entered idx b ps (omega arith))
  where
    behind :
        (x : Option Pools)
        → Entered idx b ps x
        → Entered (suc idx) b (p ∷ ps) (elim x [ none ↦ none | some qs ↦ some (p ∷ qs) ])
    behind none k = k
    behind (some qs) k = (k.0, others)
      where
        others : (j : ℕ) → (j == suc idx) ≡ false → pool_at j (p ∷ qs) ≡ pool_at j (p ∷ ps)
        others zero ne = refl
        others (suc j) ne = k.1 j (ground arith)
