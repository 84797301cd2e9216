-- ===== src/Response/Message.antt =====
-- corRestClientParseResponse and what it calls, with the response of corRestClient.h. The texts that
-- the C code points at in the buffer are values here, as they are after responseDetach: that moves
-- every pointer to the same offset of a copy, so it changes none of them.
pub mod Headers
pub mod Whole
pub mod Fuel
use cor_rest.Base.{
  ltb, leb, ◌==◌, if◌then◌else◌, Bytes, length, take, codes, strn_case_eq, c_string, ℕ, zero, suc,
  ◌+◌, ◌-◌, ◌*◌, ◌%◌, ◌^◌, Bool, true, false, not, ◌&&◌, ◌||◌, Option, none, some, List, [], ◌∷◌,
  ◌++◌,
}
use cor_rest.Response.{find_crlf}
use cor_rest.Response.Chunk.{
  skip_space, dechunk, Long, plus, minus, decoded, cut_short, broken, no_meaning,
}
use cor_rest.Response.Complete.{
  split_colon, skip_blank, has_text_case, is_header, code_of, behind_space,
}

-- CorRestClientResponse: headerV with the size of its array; `none` is NULL.
pub record ClientResponse : Type 0 where
  pub status_code : ℕ
  pub status_text : Option Bytes
  pub headers : List (Bytes × Bytes)
  pub header_size : ℕ
  pub body : Option Bytes

-- parseStatusLine; the answer is the code and the text, `none` is -1.
unfoldable pub parse_status_line : Bytes → Option (ℕ × Option Bytes)
unfolding behind_space code_of c_string
parse_status_line line = elim (behind_space line) [
  | none ↦ none
  | some [] ↦ none
  | some (a ∷ []) ↦ none
  | some (a ∷ b ∷ []) ↦ none
  | some (a ∷ b ∷ c ∷ []) ↦ some (code_of a b c, none)
  | some (a ∷ b ∷ c ∷ d ∷ s) ↦
      let text = if d == b' ' then s else d ∷ s in
      some (code_of a b c, if length text == 0 then none else some (c_string text))
]

-- addResponseHeader; `room` says whether malloc finds space for an array of that size.
unfoldable pub add_response_header : (ℕ → Bool) → Bytes → Bytes → ClientResponse → ClientResponse
add_response_header room name value resp =
    let grown = resp.header_size + 5 in
    if ltb (length resp.headers) resp.header_size
    then record resp { headers = resp.headers ++ (name, value) ∷ [] }
    else if room grown
    then record resp { headers = resp.headers ++ (name, value) ∷ []; header_size = grown }
    else resp

unfoldable pub decimal_value : ℕ → ℕ → Bytes → ℕ
decimal_value most n [] = n
decimal_value most n (c ∷ s) =
    let rest = decimal_value most (n * 10 + (c - b'0')) s in
    let full = decimal_value most most s in
    if not (leb b'0' c && leb c b'9')
    then n
    else if ltb most (n * 10 + (c - b'0'))
    then full
    else rest

-- A long cast to int.
unfoldable pub to_int : Long → Long
to_int (plus n) = let m = n % 2 ^ 32 in if ltb m (2 ^ 31) then plus m else minus (2 ^ 32 - m)
to_int (minus n) = let m = n % 2 ^ 32 in if leb m (2 ^ 31) then minus m else plus (2 ^ 32 - m)

-- atoi of the language's library, which is (int) strtol(s, NULL, 10)
unfoldable pub atoi : Bytes → Long
unfolding skip_space decimal_value to_int
atoi s = elim (skip_space s) [
  | [] ↦ plus 0
  | c ∷ t ↦
      if c == b'-'
      then to_int (minus (decimal_value (2 ^ 63) 0 t))
      else if c == b'+'
      then to_int (plus (decimal_value (2 ^ 63 - 1) 0 t))
      else to_int (plus (decimal_value (2 ^ 63 - 1) 0 (c ∷ t)))
]

-- The three local variables that the headers set.
pub record Flags : Type 0 where
  pub length_header : Long
  pub is_chunked : Bool
  pub keeps_alive : Bool

abbrev pub first_flags : Flags
first_flags = record { length_header = minus 1; is_chunked = false; keeps_alive = true }

-- The tests of parseResponseHeader on a name and a value.
unfoldable pub note_header : Bytes → Bytes → Flags → Flags
unfolding has_text_case
note_header name value f =
    if is_header (codes "Content-Length") name
    then record f { length_header = atoi value }
    else if is_header (codes "Transfer-Encoding") name
    then if has_text_case (codes "chunked") value then record f { is_chunked = true } else f
    else if is_header (codes "Connection") name
    then if strn_case_eq 5 value (codes "close")
      then record f { keeps_alive = false }
      else if strn_case_eq 10 value (codes "keep-alive")
      then record f { keeps_alive = true }
      else f
    else f

-- parseResponseHeader. The walk over blanks ends in the line, which CR or LF ends; a line without a
-- colon changes nothing.
unfoldable pub parse_response_header :
    (ℕ → Bool) → Bytes → ClientResponse → Flags → ClientResponse × Flags
unfolding split_colon skip_blank c_string add_response_header note_header
parse_response_header room line resp f = elim (split_colon line) [
  | none ↦ (resp, f)
  | some (name, behind) ↦
      let value = c_string (skip_blank behind) in
      (add_response_header room (c_string name) value resp, note_header name value f)
]

-- Where the loop over the header lines ends.
pub data ParsedHeaders : Type 0 where
  parsed : ClientResponse → Flags → Bytes → ParsedHeaders
  unparsed : ParsedHeaders

unfoldable pub parse_headers : (ℕ → Bool) → ℕ → ClientResponse → Flags → Bytes → ParsedHeaders
unfolding find_crlf parse_response_header
parse_headers room zero resp f p = parsed resp f p
parse_headers room (suc fuel) resp f [] = parsed resp f []
parse_headers room (suc fuel) resp f (c ∷ p) = elim (find_crlf (c ∷ p)) [
  | none ↦ unparsed
  | some ([], next) ↦ parsed resp f next
  | some (d ∷ line, next) ↦
      let (resp', f') = parse_response_header room (d ∷ line) resp f in
      parse_headers room fuel resp' f' next
]

-- The answer 0 with the response and conn->keepAlive, 1, -1 or -2.
pub data Parsed : Type 0 where
  response : ClientResponse → Bool → Parsed
  more_needed bad_response no_memory no_result : Parsed

-- responseDetach: the copy takes one byte more than there are in the buffer.
unfoldable pub response_detach : (ℕ → Bool) → ℕ → ClientResponse → Bool → Parsed
response_detach room len resp keep = if room (len + 1) then response resp keep else no_memory

unfoldable pub put_body : Option Bytes → ClientResponse → ClientResponse
put_body b resp = record resp { body = b }

abbrev pub bodyless : ℕ → Bool
bodyless code = code == 204 || code == 304 || leb 100 code && ltb code 200

-- The body by its framing, from `p` on.
unfoldable pub parse_body : (ℕ → Bool) → ℕ → ClientResponse → Flags → Bytes → Parsed
unfolding dechunk response_detach put_body
parse_body room len resp f p =
    let done : Option Bytes → Parsed =
      λ b. response_detach room len (put_body b resp) f.keeps_alive in
    if f.is_chunked
    then elim (dechunk p) [
      | decoded b ↦ done (some b)
      | cut_short ↦ more_needed
      | broken ↦ bad_response
      | no_meaning ↦ no_result
    ]
    else elim f.length_header [
      | plus n ↦ if ltb (length p) n then more_needed else done (some (take n p))
      | minus zero ↦ done (some [])
      | minus (suc zero) ↦
          if bodyless resp.status_code
          then done none
          else if not f.keeps_alive
          then done (some p)
          else done none
      | minus (suc (suc n)) ↦ done none
    ]

-- corRestClientParseResponse. `grow` is malloc for the array of headers, `room` the allocation of
-- the copy.
unfoldable pub parse_response : (ℕ → Bool) → (ℕ → Bool) → Bytes → Parsed
unfolding find_crlf parse_status_line parse_headers parse_body
parse_response grow room buf = elim (find_crlf buf) [
  | none ↦ more_needed
  | some (line, next) ↦ elim (parse_status_line line) [
    | none ↦ bad_response
    | some (code, text) ↦
        let resp : ClientResponse = record {
          status_code = code;
          status_text = text;
          headers = [];
          header_size = 10;
          body = none;
        } in
        elim (parse_headers grow (length next) resp first_flags next) [
          | unparsed ↦ more_needed
          | parsed resp' f p ↦ parse_body room (length buf) resp' f p
        ]
  ]
]
