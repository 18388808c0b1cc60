-- ===== src/Http/Body.antt =====
-- nbhttp/body.go: BodyReader, a body in buffers of the BodyAllocator.

pub mod Rounds
pub mod Reads
pub mod Filling
pub mod Stream
mod Tests
use nbio.Base.{
  ℕ, zero, suc, ◌+◌, ◌-◌, min, Bool, true, false, not, ◌&&◌, List, [], ◌∷◌, ◌++◌, Bytes, length,
  take, Option, none, some, drop, leb, ltb, is_nil, if◌then◌else◌,
}

-- `*pbuf` and its capacity.
pub record Buffer : Type 0 where
  pub content : Bytes
  pub capacity : ℕ

-- The fields of BodyReader. `freed` has what went to BodyAllocator.Free, in that order. `left` is a
-- ℕ: Read takes no more from it than there is while it counts the bytes in the buffers.
pub record BodyReader : Type 0 where
  pub index : ℕ
  pub left : ℕ
  pub buffers : List Buffer
  pub closed : Bool
  pub freed : List Buffer

-- Of Engine: MaxHTTPBodySize, 0 for no limit, and the capacity of a buffer that
-- BodyAllocator.Malloc gives for a size.
pub record Allocation : Type 0 where
  pub max_http_body_size : ℕ
  pub capacity_for : ℕ → ℕ

-- (n, nil) with the n bytes that were copied, or (0, io.EOF).
pub data ReadResult : Type 0 where
  bytes : Bytes → ReadResult
  eof out_of_fuel : ReadResult

unfoldable pub new_body_reader : BodyReader
new_body_reader = record { index = 0; left = 0; buffers = []; closed = false; freed = [] }

-- The head buffer is freed and dropped.
abbrev pub drop_head : BodyReader → Buffer → List Buffer → ℕ → BodyReader
drop_head br b bs n = record br {
  index = 0;
  left = br.left - n;
  buffers = bs;
  freed = br.freed ++ b ∷ [];
}

-- One round of the loop with the head buffer `b`, and `room` bytes of `p` that are not filled: the
-- reader afterwards, and the bytes copied.
unfoldable pub read_round : BodyReader → ℕ → Buffer → List Buffer → BodyReader × Bytes
read_round br room b bs =
    let nc = min room (length b.content - br.index) in
    let copied = take nc (drop br.index b.content) in
    if leb (length b.content) br.index
    then (drop_head br b bs 0, [])
    else if leb (length b.content) (nc + br.index)
    then (drop_head br b bs nc, copied)
    else (record br { index = br.index + nc; left = br.left - nc }, copied)

abbrev pub Again : Type 0
Again = BodyReader → Bytes → BodyReader × ReadResult

abbrev pub read_more : Again → ℕ → BodyReader → Bytes → List Buffer → BodyReader × ReadResult
read_more again need br out [] = (record br { left = 0 }, if is_nil out then eof else bytes out)
read_more again need br out (b ∷ bs) =
    let (next, copied) = read_round br (need - length out) b bs in again next (out ++ copied)

-- `for ncopy < need && br.left > 0`, with `out` the bytes in p[:ncopy].
unfoldable pub read_loop : ℕ → ℕ → Again
unfolding read_round
read_loop zero need br out = (br, out_of_fuel)
read_loop (suc fuel) need br out = elim (ltb (length out) need && ltb 0 br.left) [
  | true ↦ read_more (read_loop fuel need) need br out br.buffers
  | false ↦ (br, bytes out)
]

-- Read with a `p` of `need` bytes. A round drops a buffer or fills `p`, so that a round for each
-- buffer and one more are enough.
unfoldable pub read : BodyReader → ℕ → BodyReader × ReadResult
unfolding read_loop
read br need =
    if br.closed
    then (br, eof)
    else if not (ltb 0 br.left)
    then (br, eof)
    else read_loop (suc (length br.buffers)) need br []

unfoldable pub close : BodyReader → BodyReader
close br =
    if br.closed
    then br
    else record { index = 0; left = 0; buffers = []; closed = true; freed = br.freed ++ br.buffers }

-- RawBodyBuffers
unfoldable pub raw_body_buffers : BodyReader → List Bytes
raw_body_buffers br = from_head br.buffers
  where
    contents : List Buffer → List Bytes
    contents [] = []
    contents (b ∷ bs) = b.content ∷ contents bs

    from_head : List Buffer → List Bytes
    from_head [] = []
    from_head (b ∷ bs) = drop br.index b.content ∷ contents bs

module _ (a : Allocation) where
  abbrev pub malloc : Bytes → Buffer
  malloc more = record { content = more; capacity = a.capacity_for (length more) }

  -- The last buffer is filled up to its capacity, and a new one takes what is left.
  unfoldable pub fill : List Buffer → Bytes → List Buffer
  fill [] more = malloc more ∷ []
  fill (b ∷ []) more =
      let room = b.capacity - length b.content in
      let filled = record b { content = b.content ++ take room more } in
      if is_nil (drop room more) then filled ∷ [] else filled ∷ malloc (drop room more) ∷ []
  fill (b ∷ c ∷ bs) more = b ∷ fill (c ∷ bs) more

  -- append: none is ErrTooLong.
  unfoldable pub append : BodyReader → Bytes → Option BodyReader
  unfolding fill
  append br more =
      if is_nil more
      then some br
      else if ltb 0 a.max_http_body_size && ltb a.max_http_body_size (length more + br.left)
      then none
      else some (record br { left = br.left + length more; buffers = fill br.buffers more })
