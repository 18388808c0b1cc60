-- ===== src/Http/Parser/Tests.antt =====
-- A Processor that records what it is told, and the parser on concrete messages.
use nbio.Base.{
  Bool, true, false, Option, none, some, List, [], ◌∷◌, ◌++◌, ◌≡◌, refl, Bytes, codes, ℤ, pos,
  minus_one,
}
use nbio.Go.Text.{to_upper}
use nbio.Go.Number.{atoi, parse_int}
use nbio.Go.Header.{canonical_header_key, is_header_byte, add, get}
use nbio.Http.Table.{is_valid_method_char, is_valid_method, is_alpha, is_num, is_hex, is_token}
use nbio.Http.Parser.State.{Processor, Parser, new_parser}
use nbio.Http.Parser.Framing.{
  is_framing_key, parse_and_validate_chunk_size, parse_transfer_encoding, parse_content_length,
  parse_trailer, unexpect, trim_end,
}
use nbio.Http.Parser.Loop.{Finish, parse, step_in}
use nbio.Http.Parser.Split.{view}
use nbio.Http.Parser.Stream.{feed, Ready, concat, feed-concat}
use nbio.Http.Parser.Progress.{Ends, parse-Ends}
use nbio.Http.Parser.Lengths.{FramedOutcome, end_headers-Framed}
use nbio.Http.Parser.Fields.{end_headers}

data Event : Type 0 where
  method url proto body : Bytes → Event
  status : ℤ → Bytes → Event
  header trailer : Bytes → Bytes → Event
  content_length : ℤ → Event
  complete clean closing closed deadline : Event
  upgraded : Bytes → Event

abbrev recorder : Processor (List Event)
recorder = record {
  on_method = λ m s. s ++ method m ∷ [];
  on_url = λ u s. (s ++ url u ∷ [], none);
  on_proto = λ v s. (s ++ proto v ∷ [], none);
  on_status = λ n t s. s ++ status n t ∷ [];
  on_header = λ k v s. s ++ header k v ∷ [];
  on_content_length = λ n s. s ++ content_length n ∷ [];
  on_body = λ b s. (s ++ body b ∷ [], none);
  on_trailer_header = λ k v s. s ++ trailer k v ∷ [];
  on_complete = λ s. (s ++ complete ∷ [], false);
  clean = λ s. s ++ clean ∷ [];
  close = λ e s. s ++ closing ∷ [];
  on_close = λ e s. s ++ closed ∷ [];
  upgraded_parse = λ b s. (s ++ upgraded b ∷ [], none);
  set_read_deadline = λ s. s ++ deadline ∷ [];
}

abbrev events : Finish (List Event) → Option (List Event)
events (Finish.ok p) = some p.world
events (Finish.err p e) = none
events Finish.out_of_fuel = none

abbrev server : Parser (List Event)
server = new_parser [] 0 false

-- What a new parser reports of the pieces that it is given one after the other.
trace : Bool → List Bytes → Option (List Event)
unfolding feed parse step_in new_parser is_framing_key parse_and_validate_chunk_size
    parse_transfer_encoding parse_content_length parse_trailer unexpect get trim_end parse_int
    is_valid_method_char is_valid_method is_alpha is_num is_hex is_token to_upper atoi
    canonical_header_key is_header_byte add
trace client ds = events (feed recorder (new_parser [] 0 client) ds)

post :
    trace false (codes "post /a HTTP/1.1\r\nhost: x y\r\nContent-Length: 3 \r\n\r\nabc" ∷ [])
    ≡ some (
        method (codes "POST")
        ∷ url (codes "/a")
        ∷ proto (codes "HTTP/1.1")
        ∷ header (codes "Host") (codes "x y")
        ∷ header (codes "Content-Length") (codes "3 ")
        ∷ content_length (pos 3)
        ∷ body (codes "abc")
        ∷ complete
        ∷ [])
unfolding trace
post = refl

abbrev chunked_pieces : List Bytes
chunked_pieces =
    codes "PUT /x HTTP/1.1\r\nTransfer-Encoding: chunked\r\nTrailer: md5\r\n"
    ∷ codes "\r\n4;v=1\r\nab"
    ∷ codes "cd\r\n0\r\nMd5: q\r\n\r"
    ∷ codes "\n"
    ∷ []

-- A message in four pieces, with an announced trailer.
chunked_trace :
    trace false chunked_pieces
    ≡ some (
        method (codes "PUT")
        ∷ url (codes "/x")
        ∷ proto (codes "HTTP/1.1")
        ∷ header (codes "Transfer-Encoding") (codes "chunked")
        ∷ header (codes "Trailer") (codes "md5")
        ∷ content_length minus_one
        ∷ body (codes "abcd")
        ∷ trailer (codes "Md5") (codes "q")
        ∷ complete
        ∷ [])
unfolding trace
chunked_trace = refl

response :
    trace true (codes "HTTP/1.1 404 Not Found\r\nContent-Length: 0\r\n\r\n" ∷ [])
    ≡ some (
        proto (codes "HTTP/1.1")
        ∷ status (pos 404) (codes "Not")
        ∷ header (codes "Content-Length") (codes "0")
        ∷ content_length (pos 0)
        ∷ complete
        ∷ [])
unfolding trace
response = refl

-- An announced trailer with an empty value is never struck off, and the message is refused.
empty_trailer_refused :
    trace false (
      codes
        "PUT /x HTTP/1.1\r\nTransfer-Encoding: chunked\r\nTrailer: md5\r\n\r\n0\r\nMd5: \r\n\r\n"
      ∷ [])
    ≡ none
unfolding trace
empty_trailer_refused = refl

-- A response with an empty reason phrase: the next header line is taken for the phrase.
empty_reason :
    trace true (codes "HTTP/1.1 204 \r\nServer: a\r\n\r\n" ∷ [])
    ≡ some (
        proto (codes "HTTP/1.1")
        ∷ status (pos 204) (codes "Server:")
        ∷ content_length minus_one
        ∷ complete
        ∷ [])
unfolding trace
empty_reason = refl

plain : (s : List Event) → (recorder.on_complete s).1 ≡ false
plain s = refl

server-Ready : Ready server
unfolding new_parser
server-Ready = record { body = tt; open_state = refl; not_replaced = refl; unlimited = refl }

feed-concat_example :
    view (feed recorder server chunked_pieces)
    ≡ view (parse recorder server (concat chunked_pieces))
feed-concat_example =
    feed-concat recorder plain server
      (codes "PUT /x HTTP/1.1\r\nTransfer-Encoding: chunked\r\nTrailer: md5\r\n")
      (codes "\r\n4;v=1\r\nab" ∷ codes "cd\r\n0\r\nMd5: q\r\n\r" ∷ codes "\n" ∷ []) server-Ready

parse-Ends_example : Ends (parse recorder server (codes "GET / HTTP/1.1\r\n\r\n"))
unfolding new_parser
parse-Ends_example = parse-Ends recorder server (codes "GET / HTTP/1.1\r\n\r\n") tt

-- Both Content-Length and Transfer-Encoding.
abbrev smuggled : Parser (List Event)
smuggled = record server {
  header =
      add (add server.header (codes "Content-Length") (codes "3")) (codes "Transfer-Encoding")
        (codes "chunked");
}

end_headers-Framed_example : FramedOutcome smuggled (end_headers recorder smuggled)
unfolding new_parser
end_headers-Framed_example = end_headers-Framed recorder smuggled refl
