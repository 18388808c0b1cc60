-- ===== src/Mempool/Tests.antt =====
-- mempool/aligned_allocator.go: runs on small pools.
use nbio.Base.{
  ℕ, ◌≡◌, inl, refl, Option, none, some, [], ◌∷◌, Bytes, codes, Bool, true, false, arith,
}
use nbio.Mempool.{Buf, make, Pools, malloc, free}
use nbio.Mempool.Pools.{PutAt}
use nbio.Mempool.Allocation.{Own, Sound, Allocated, Freed, malloc-Allocated, free-Sound}

abbrev empty_pools : Pools
empty_pools = [] ∷ [] ∷ [] ∷ [] ∷ [] ∷ [] ∷ [] ∷ [] ∷ [] ∷ [] ∷ [] ∷ []

empty_pools-Sound : Sound empty_pools
empty_pools-Sound = ((tt, (tt, (tt, (tt, (tt, (tt, (tt, (tt, (tt, (tt, (tt, tt))))))))))), refl)

abbrev is_panic : Option (Buf × Pools) → Bool
is_panic none = true
is_panic (some x) = false

abbrev malloc_from : Option Pools → ℕ → Option (Buf × Pools)
malloc_from none size = none
malloc_from (some ps) size = malloc 0 size ps

-- A buffer of 96 bytes that was not allocated here goes into the pool of 128, and the next Malloc of 100 panics.
foreign_buffer : is_panic (malloc_from (free (make 96) empty_pools) 100) ≡ true
unfolding malloc free make
foreign_buffer = refl

-- A buffer that was freed is given out again.
freed_buffer : is_panic (malloc_from (free (make 128) empty_pools) 100) ≡ false
unfolding malloc free make
freed_buffer = refl

malloc-Allocated_example : Allocated 100 (malloc 0 100 empty_pools)
malloc-Allocated_example = malloc-Allocated 0 100 empty_pools empty_pools-Sound

abbrev zeros_of_32 : Bytes
zeros_of_32 = codes "................................"

abbrev small : Buf
small = record { array = zeros_of_32; len = 3 }

small-Own : Own small
small-Own = inl (0, (omega arith, refl))

free-Sound_example :
    PutAt 0 11 (free small empty_pools) × Freed small empty_pools (free small empty_pools)
free-Sound_example = free-Sound small empty_pools small-Own empty_pools-Sound
