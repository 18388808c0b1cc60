-- ===== src/Mempool.antt =====
-- mempool/aligned_allocator.go: pools of buffers by size. sync.Pool is a parameter of each Get: `choice` is the item that it takes, and none
-- behind the end, where it calls New.
pub mod Pools
pub mod Allocation
pub mod Appending
mod Tests
use nbio.Base.{
  ℕ, zero, suc, ◌+◌, ◌-◌, ◌^◌, ◌%◌, Bool, not, ◌||◌, Option, none, some, List, [], ◌∷◌, ◌++◌, Bytes,
  length, take, drop, leb, ltb, ◌==◌, if◌then◌else◌, ℤ, pos, negsuc,
}

-- A slice from the start of its array: the length of the array is the capacity.
pub record Buf : Type 0 where
  pub array : Bytes
  pub len : ℕ

abbrev pub cap : Buf → ℕ
cap b = length b.array

abbrev pub contents : Buf → Bytes
contents b = take b.len b.array

abbrev pub min_aligned_buffer_size_bits : ℕ
min_aligned_buffer_size_bits = 5

abbrev pub max_aligned_buffer_size : ℕ
max_aligned_buffer_size = 32768

abbrev pub aligned_pool_bucket_num : ℕ
aligned_pool_bucket_num = 11

-- poolSizes[i]
abbrev pub pool_size : ℕ → ℕ
pool_size i = 2 ^ (i + min_aligned_buffer_size_bits)

-- The loop of getPoolBySize, with `k` pools left.
unfoldable pub get_pool_from : ℕ → ℕ → ℕ → ℕ
get_pool_from zero i size = 0xFF
get_pool_from (suc k) i size =
    let next = get_pool_from k (suc i) size in if leb size (pool_size i) then i else next

-- alignedIndexes[size]
unfoldable pub aligned_index : ℕ → ℕ
unfolding get_pool_from
aligned_index size = get_pool_from aligned_pool_bucket_num 0 size

abbrev zeros : ℕ → Bytes
zeros zero = []
zeros (suc n) = 0 ∷ zeros n

-- make([]byte, n)
unfoldable pub make : ℕ → Buf
make n = record { array = zeros n; len = n }

-- alignedPools
abbrev pub Pools : Type 0
Pools = List (List Buf)

-- One item out of a pool.
abbrev pub pick : ℕ → List Buf → Option (Buf × List Buf)
pick n [] = none
pick zero (b ∷ bs) = some (b, bs)
pick (suc n) (b ∷ bs) = elim (pick n bs) [ none ↦ none | some x ↦ some (x.0, b ∷ x.1) ]

abbrev pub got : ℕ → List Buf → Option (Buf × List Buf) → Buf × List Buf
got i p none = (make (pool_size i), p)
got i p (some x) = x

-- alignedPools[idx].Get(), where the first pool of the list is number `i`; `none` is a panic.
unfoldable pub get_at : ℕ → ℕ → ℕ → Pools → Option (Buf × Pools)
unfolding make
get_at choice idx i [] = none
get_at choice zero i (p ∷ ps) = let (b, q) = got i p (pick choice p) in some (b, q ∷ ps)
get_at choice (suc idx) i (p ∷ ps) = elim (get_at choice idx (suc i) ps) [
  | none ↦ none
  | some x ↦ some (x.0, p ∷ x.1)
]

-- alignedPools[idx].Put(b)
unfoldable pub put_at : ℕ → Buf → Pools → Option Pools
put_at idx b [] = none
put_at zero b (p ∷ ps) = some ((b ∷ p) ∷ ps)
put_at (suc idx) b (p ∷ ps) = elim (put_at idx b ps) [ none ↦ none | some qs ↦ some (p ∷ qs) ]

-- b[:size], which panics beyond the capacity.
abbrev pub cut : ℕ → Option (Buf × Pools) → Option (Buf × Pools)
cut size none = none
cut size (some (b, ps)) = if ltb (cap b) size then none else some (record b { len = size }, ps)

-- Malloc, of a size that is not negative.
unfoldable pub malloc : ℕ → ℕ → Pools → Option (Buf × Pools)
unfolding aligned_index get_at make
malloc choice size ps =
    if leb size max_aligned_buffer_size
    then cut size (get_at choice (aligned_index size) 0 ps)
    else some (make size, ps)

-- Free
unfoldable pub free : Buf → Pools → Option Pools
unfolding aligned_index put_at
free b ps =
    if not (cap b % 32 == 0) || ltb max_aligned_buffer_size (cap b)
    then some ps
    else put_at (aligned_index (cap b)) b ps

-- copy(dst, src); Append copies twice, here both parts at once.
abbrev pub copy : Buf → Bytes → Buf
copy dst src = record dst { array = take dst.len src ++ drop (length (take dst.len src)) dst.array }

abbrev pub free_old : Buf → Option (Buf × Pools) → Option (Buf × Pools)
free_old b none = none
free_old b (some (c, ps)) = elim (free b ps) [ none ↦ none | some qs ↦ some (c, qs) ]

abbrev pub copied : Bytes → Option (Buf × Pools) → Option (Buf × Pools)
copied src none = none
copied src (some (b, ps)) = some (copy b src, ps)

-- Realloc
unfoldable pub realloc : ℕ → Buf → ℕ → Pools → Option (Buf × Pools)
unfolding malloc free
realloc choice b size ps =
    if leb size (cap b)
    then some (record b { len = size }, ps)
    else free_old b (copied (contents b) (malloc choice size ps))

-- Append
unfoldable pub append : ℕ → Buf → Bytes → Pools → Option (Buf × Pools)
unfolding malloc free
append choice b more ps =
    if leb (length more) (cap b - b.len)
    then some (
      record {
        array = take b.len b.array ++ more ++ drop (b.len + length more) b.array;
        len = b.len + length more;
      },
      ps,
    )
    else free_old b (copied (contents b ++ more) (malloc choice (b.len + length more) ps))
