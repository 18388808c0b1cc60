-- ===== src/Mempool/Allocation.antt =====
-- mempool/aligned_allocator.go: Malloc and Free keep the pools as they should be.
use nbio.Base.{
  ℕ, ◌+◌, ◌%◌, ◌≤◌, ◌<◌, ◌≡◌, ◌⊎◌, inl, inr, refl, ap, ◌∙◌, true, false, not, ◌||◌, Option, none,
  some, length, leb, ltb, ◌==◌, if◌then◌else◌, arith, Bool-cases,
}
use nbio.Mempool.{
  Buf, cap, pool_size, max_aligned_buffer_size, aligned_index, make, Pools, get_at, put_at, cut,
  malloc, free,
}
use nbio.Mempool.Pools.{
  InClass, GotAt, get_at-GotAt, PutAt, put_at-PutAt, Entered, put_at-Entered, length-make,
  aligned_index_lem, aligned_index-pool_size, aligned_index_first,
}

-- A pool's number, and a buffer with that pool's capacity.
abbrev IsPooled : ℕ → ℕ → Type 0
IsPooled i n = (i < 11) × (n ≡ pool_size i)

-- The capacity of a pool; or one that Free leaves alone, beyond all pools or no multiple of the smallest.
abbrev OwnCap : ℕ → Type 0
OwnCap n = ((i : ℕ) × IsPooled i n) ⊎ ((max_aligned_buffer_size < n) ⊎ ((n % 32 == 0) ≡ false))

abbrev pub Own : Buf → Type 0
Own b = OwnCap (cap b)

-- The capacity of the smallest pool with room for the size, or beyond all of them the size itself.
abbrev Fits : ℕ → ℕ → Type 0
Fits size n =
    ((i : ℕ) × IsPooled i n × ((j : ℕ) → j < i → pool_size j < size))
    ⊎ ((max_aligned_buffer_size < size) × (n ≡ size))

abbrev pub Sound : Pools → Type 0
Sound ps = InClass 0 ps × (length ps ≡ 11)

-- Malloc gives a buffer of the length asked for that Free takes back, and the pools are as they should be.
abbrev pub Allocated : ℕ → Option (Buf × Pools) → Type 0
Allocated size none = ⊥
Allocated size (some (b, ps)) = (b.len ≡ size) × (size ≤ cap b) × Fits size (cap b) × Sound ps

pub Fits-Own : (size n : ℕ) → Fits size n → OwnCap n
Fits-Own size n (inl (i, pooled, _)) = inl (i, pooled)
Fits-Own size n (inr (big, e)) = inr (inl (omega arith))

cut-Allocated :
    (size idx : ℕ) (x : Option (Buf × Pools))
    → size ≤ pool_size idx
    → idx < 11
    → ((j : ℕ) → j < idx → pool_size j < size)
    → GotAt (pool_size idx) 0 11 x
    → Allocated size (cut size x)
cut-Allocated size idx none l k first g = g
cut-Allocated size idx (some (b, ps)) l k first (e, h, m) =
    let fits : ltb (cap b) size ≡ false = ground arith in
    rw fits (refl, omega arith, inl (idx, (k, e), first), (h, m))

malloc_pooled :
    (choice size : ℕ) (ps : Pools)
    → leb size max_aligned_buffer_size ≡ true
    → malloc choice size ps ≡ cut size (get_at choice (aligned_index size) 0 ps)
unfolding malloc
malloc_pooled choice size ps e =
    ap (λ t. if t then cut size (get_at choice (aligned_index size) 0 ps) else some (make size, ps))
      e

malloc_made :
    (choice size : ℕ) (ps : Pools)
    → leb size max_aligned_buffer_size ≡ false
    → malloc choice size ps ≡ some (make size, ps)
unfolding malloc
malloc_made choice size ps e =
    ap (λ t. if t then cut size (get_at choice (aligned_index size) 0 ps) else some (make size, ps))
      e

len-make : (n : ℕ) → (make n).len ≡ n
unfolding make
len-make n = refl

-- From pools that hold buffers of their own capacities only, Malloc gives a buffer of the length asked for, which does not
-- go beyond its capacity, whichever buffer the pool picks: the capacity is that of the smallest pool with room for it, or
-- the length itself where it is beyond all pools; and the pools still hold buffers of their own capacities only.
pub malloc-Allocated :
    (choice size : ℕ) (ps : Pools) → Sound ps → Allocated size (malloc choice size ps)
malloc-Allocated choice size ps s = elim (Bool-cases (leb size max_aligned_buffer_size)) [
  | inl small ↦
      let (room, index) = aligned_index_lem size (ground arith) in
      let there : aligned_index size < length ps = omega (arith, s.1) in
      let same : 0 + aligned_index size ≡ aligned_index size = omega arith in
      let found : GotAt (pool_size (aligned_index size)) 0 11
          (get_at choice (aligned_index size) 0 ps) =
        rw (s.1, same) at (get_at-GotAt choice (aligned_index size) 0 ps there s.0) in
      rw (malloc_pooled choice size ps small) (
        cut-Allocated size (aligned_index size) (get_at choice (aligned_index size) 0 ps) room index
          (λ j h. aligned_index_first size j h (omega arith)) found)
  | inr big ↦
      let size_eq = length-make size in
      let wide : max_aligned_buffer_size < cap (make size) = ground arith in
      rw (malloc_made choice size ps big)
        (len-make size, omega arith, inr (omega arith, size_eq), s)
]

free_left :
    (b : Buf) (ps : Pools)
    → (not (cap b % 32 == 0) || ltb max_aligned_buffer_size (cap b)) ≡ true
    → free b ps ≡ some ps
unfolding free
free_left b ps e = ap (λ t. if t then some ps else put_at (aligned_index (cap b)) b ps) e

free_put :
    (b : Buf) (ps : Pools)
    → (not (cap b % 32 == 0) || ltb max_aligned_buffer_size (cap b)) ≡ false
    → free b ps ≡ put_at (aligned_index (cap b)) b ps
unfolding free
free_put b ps e = ap (λ t. if t then some ps else put_at (aligned_index (cap b)) b ps) e

-- A capacity that Free takes is a pool's, and the index that it computes is that pool's.
put_class :
    (b : Buf)
    → (not (cap b % 32 == 0) || ltb max_aligned_buffer_size (cap b)) ≡ false
    → Own b
    → (aligned_index (cap b) < 11) × (cap b ≡ pool_size (aligned_index (cap b)))
put_class b e (inl (i, (k, same))) =
    let index : aligned_index (cap b) ≡ i = ap aligned_index same ∙ aligned_index-pool_size i k in
    rw index (k, same)
put_class b e (inr (inl h)) = ground arith
put_class b e (inr (inr h)) = ground arith

free-PutAt : (b : Buf) (ps : Pools) → Own b → Sound ps → PutAt 0 11 (free b ps)
free-PutAt b ps own s =
    elim (Bool-cases (not (cap b % 32 == 0) || ltb max_aligned_buffer_size (cap b))) [
      | inl left ↦ rw (free_left b ps left) s
      | inr put ↦
          let (index, class) = put_class b put own in
          let there : aligned_index (cap b) < length ps = omega (arith, s.1) in
          let same : aligned_index (cap b) ≡ 0 + aligned_index (cap b) = omega arith in
          rw (free_put b ps put) (
            rw s.1 at
              (put_at-PutAt (aligned_index (cap b)) 0 b ps there (class ∙ ap pool_size same) s.0))
    ]

-- A buffer with the capacity of a pool is the first of that pool; any other is left alone.
abbrev pub Freed : Buf → Pools → Option Pools → Type 0
Freed b ps x =
    ((i : ℕ) × IsPooled i (cap b) × Entered i b ps x)
    ⊎ (((max_aligned_buffer_size < cap b) ⊎ ((cap b % 32 == 0) ≡ false)) × (x ≡ some ps))

free-Freed : (b : Buf) (ps : Pools) → Own b → Sound ps → Freed b ps (free b ps)
free-Freed b ps own s =
    elim (Bool-cases (not (cap b % 32 == 0) || ltb max_aligned_buffer_size (cap b))) [
      | inl left ↦ rw (free_left b ps left) (inr (refused left, refl))
      | inr put ↦
          let pooled = put_class b put own in
          let there : aligned_index (cap b) < length ps = omega (arith, s.1, pooled.0) in
          rw (free_put b ps put)
            (inl (aligned_index (cap b), pooled, put_at-Entered (aligned_index (cap b)) b ps there))
    ]
  where
    refused :
        (not (cap b % 32 == 0) || ltb max_aligned_buffer_size (cap b)) ≡ true
        → (max_aligned_buffer_size < cap b) ⊎ ((cap b % 32 == 0) ≡ false)
    refused left = ground arith

-- Free of a buffer with a pool's capacity, or with one that is beyond all pools or no multiple of 32: with a pool's
-- capacity the buffer becomes the first of that pool and no other pool changes, and else no pool changes; and the pools
-- still hold buffers of their own capacities only, as they did before.
pub free-Sound :
    (b : Buf) (ps : Pools) → Own b → Sound ps → PutAt 0 11 (free b ps) × Freed b ps (free b ps)
free-Sound b ps own s = (free-PutAt b ps own s, free-Freed b ps own s)
