-- ===== src/Http/Body/Tests.antt =====
-- A body reader on concrete bytes.
use nbio.Base.{List, ◌+◌, false, [], ◌∷◌, ◌≡◌, refl, codes, arith}
use nbio.Http.Body.{
  BodyReader, Allocation, new_body_reader, append, fill, read, read_loop, bytes, raw_body_buffers,
}
use nbio.Http.Body.Rounds.{Counted}
use nbio.Http.Body.Stream.{Operation, put, get, run, InOrder, run-InOrder}

-- Five bytes of room in each buffer beyond what is asked for, and bodies of at most 12 bytes.
abbrev roomy : Allocation
roomy = record { max_http_body_size = 12; capacity_for = λ n. n + 5 }

abbrev mixed : List Operation
mixed =
    put (codes "abc")
    ∷ get 2
    ∷ put (codes "defghijkl")
    ∷ get 3
    ∷ put (codes "0123456789")
    ∷ get 20
    ∷ []

abbrev half_read : BodyReader
half_read = record {
  index = 2;
  left = 4;
  buffers =
      record { content = codes "abc"; capacity = 3 }
      ∷ record { content = codes "def"; capacity = 8 }
      ∷ [];
  closed = false;
  freed = [];
}

-- The third append does not fit, and the last Read gives what there is.
mixed_out : (run roomy new_body_reader mixed).read_out ≡ codes "abcdefghijkl"
unfolding run append fill read read_loop new_body_reader
mixed_out = refl

across : (read half_read 3).1 ≡ bytes (codes "cde")
unfolding read read_loop
across = refl

raw : raw_body_buffers half_read ≡ codes "c" ∷ codes "def" ∷ []
unfolding raw_body_buffers
raw = refl

new-Counted : Counted new_body_reader
unfolding new_body_reader
new-Counted = record { all_left = refl; index_in = refl }

half_read-Counted : Counted half_read
half_read-Counted = record { all_left = refl; index_in = omega arith }

run-InOrder_example : InOrder new_body_reader (run roomy new_body_reader mixed)
unfolding new_body_reader
run-InOrder_example = run-InOrder roomy mixed new_body_reader new-Counted refl
