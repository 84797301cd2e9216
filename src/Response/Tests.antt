-- ===== src/Response/Tests.antt =====
-- Responses as bytes.
use cor_rest.Base.{
  Bytes, length, All, codes, strn_case_eq, c_string, ℕ, ◌≡◌, refl, true, none, some, List, [], ◌∷◌,
  ◌++◌, arith,
}
use cor_rest.Response.{drop_cr, until_lf, find_crlf}
use cor_rest.Response.Message.Whole.{
  IsAnnounced, print_response, parse_response-print_response, counted, StatusLine, IsStatusLine,
}
use cor_rest.Response.Message.Headers.{notes, IsHeader}
use cor_rest.Response.Message.{
  decimal_value, to_int, atoi, first_flags, note_header, parse_response, ClientResponse, response,
}
use cor_rest.Response.Complete.Early.{response_complete-status_line}
use cor_rest.Response.Complete.{has_text_case, code_of, response_complete, whole}
use cor_rest.Response.Chunk.Agree.{chunked_complete-dechunk}
use cor_rest.Response.Chunk.Rounds.{Piece, IsPiece}
use cor_rest.Response.Chunk.{
  chunk_digit, chunk_size_from, behind_chunk, complete_loop, chunked_complete, skip_space,
  digits_value, skip_0x, strtol16, dechunk_loop, dechunk, complete, decoded,
}

abbrev crlf : Bytes
crlf = 13 ∷ 10 ∷ []

abbrev wiki : Bytes
wiki =
    codes "4;x"
    ++ crlf
    ++ codes "Wiki"
    ++ crlf
    ++ codes "0B"
    ++ crlf
    ++ codes "pedia in\r\nc"
    ++ crlf
    ++ codes "0"
    ++ crlf
    ++ crlf

dechunk-wiki : dechunk wiki ≡ decoded (codes "Wikipedia in\r\nc")
unfolding dechunk dechunk_loop find_crlf until_lf drop_cr strtol16 skip_space skip_0x digits_value
    chunk_digit behind_chunk c_string
dechunk-wiki = refl

chunked_complete-wiki : chunked_complete wiki ≡ complete 15
unfolding chunked_complete complete_loop find_crlf until_lf drop_cr chunk_size_from chunk_digit
    behind_chunk
chunked_complete-wiki = refl

chunked_complete-dechunk_example : (b : Bytes) × (dechunk wiki ≡ decoded b) × (length b ≡ 15)
chunked_complete-dechunk_example = chunked_complete-dechunk wiki 15 chunked_complete-wiki

abbrev two_pieces : List Piece
two_pieces =
    record { digits = 0 ∷ 4 ∷ []; bytes = codes "Wiki" }
    ∷ record { digits = 11 ∷ []; bytes = codes "pedia in\r\nc" }
    ∷ []

two_pieces-All-IsPiece : All IsPiece two_pieces
two_pieces-All-IsPiece = (
  record { all_digits = omega arith; right = refl; nonempty = omega arith; small = omega arith },
  (
    record { all_digits = omega arith; right = refl; nonempty = omega arith; small = omega arith },
    tt,
  ),
)

abbrev ok_line : StatusLine
ok_line = record {
  version = codes "HTTP/1.1";
  hundreds = b'2';
  tens = b'0';
  ones = b'0';
  reason = codes "OK";
}

abbrev some_headers : List (Bytes × Bytes)
some_headers =
    (codes "X", codes "y")
    ∷ (codes "Content-Length", codes "2")
    ∷ (codes "Connection", codes "close")
    ∷ []

ok_line-IsStatusLine : IsStatusLine ok_line
ok_line-IsStatusLine = record {
  no_space = omega arith;
  one_line = omega arith;
  reason_text = omega arith;
  has_reason = omega arith;
}

some_headers-All-IsHeader : All IsHeader some_headers
some_headers-All-IsHeader = (
  record {
    name_line = omega arith;
    name_text = omega arith;
    no_colon = omega arith;
    value_line = omega arith;
    value_text = omega arith;
    bare = omega arith;
  },
  (
    record {
      name_line = omega arith;
      name_text = omega arith;
      no_colon = omega arith;
      value_line = omega arith;
      value_text = omega arith;
      bare = omega arith;
    },
    (
      record {
        name_line = omega arith;
        name_text = omega arith;
        no_colon = omega arith;
        value_line = omega arith;
        value_text = omega arith;
        bare = omega arith;
      },
      tt,
    ),
  ),
)

two_bytes-IsAnnounced :
    IsAnnounced (notes some_headers first_flags) (counted (codes "ab") (codes "HTTP"))
unfolding note_header has_text_case strn_case_eq atoi skip_space decimal_value to_int
two_bytes-IsAnnounced = (refl, refl)

parse_response-print_response_example :
    (slots : ℕ) × (parse_response
        (λ n. true)
        (λ n. true)
        (print_response ok_line some_headers (counted (codes "ab") (codes "HTTP")))
      ≡ response
          (record {
            status_code = code_of b'2' b'0' b'0';
            status_text = some (codes "OK");
            headers = some_headers;
            header_size = slots;
            body = some (codes "ab");
          })
          (notes some_headers first_flags).keeps_alive)
parse_response-print_response_example =
    parse_response-print_response ok_line some_headers (counted (codes "ab") (codes "HTTP"))
      ok_line-IsStatusLine some_headers-All-IsHeader two_bytes-IsAnnounced

code_of-200 : code_of b'2' b'0' b'0' ≡ 200
unfolding code_of
code_of-200 = refl

response_complete-status_line_example :
    response_complete (codes "HTTP/1.1 200 OK" ++ 0x0a ∷ []) ≡ whole
response_complete-status_line_example =
    response_complete-status_line (codes "HTTP/1.1 200 OK") (omega arith)

abbrev blank_response : ClientResponse
blank_response = record {
  status_code = 0;
  status_text = none;
  headers = [];
  header_size = 10;
  body = none;
}

abbrev header_text : Bytes
header_text = codes "A: b\r\nC:d\r\n\r\n"
