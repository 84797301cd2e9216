-- ===== src/Response/Complete.antt =====
-- scanHeaderValue and corRestClientResponseComplete: whether a buffer holds a whole response. An
-- overflow of the int of a Content-Length is undefined behaviour.
pub mod Early
use cor_rest.Base.{
  ltb, leb, ◌==◌, if◌then◌else◌, Bytes, length, take, drop, codes, strn_case_eq, ℕ, zero, suc, ◌+◌,
  ◌-◌, ◌*◌, ◌%◌, ◌^◌, Bool, true, false, not, ◌&&◌, ◌||◌, Option, none, some, [], ◌∷◌,
}
use cor_rest.Response.{cons_line, find_crlf}
use cor_rest.Response.Chunk.{
  chunked_complete, Completion, complete, incomplete, malformed, undefined,
}

-- What the headers say of the body; `none` is a contentLength of -1.
pub record Framing : Type 0 where
  pub content_length : Option ℕ
  pub chunked : Bool
  pub keep_alive : Bool

abbrev pub no_framing : Framing
no_framing = record { content_length = none; chunked = false; keep_alive = true }

-- The bytes before the first colon, and those behind it.
unfoldable pub split_colon : Bytes → Option (Bytes × Bytes)
split_colon [] = none
split_colon (c ∷ s) =
    let rest = cons_line c (split_colon s) in if c == b':' then some ([], s) else rest

unfoldable pub skip_blank : Bytes → Bytes
skip_blank [] = []
skip_blank (c ∷ s) = let rest = skip_blank s in if c == b' ' || c == 0x09 then rest else c ∷ s

-- The digits at the front of a value; `none` where they overflow an int.
unfoldable pub scan_digits : ℕ → Bytes → Option ℕ
scan_digits n [] = some n
scan_digits n (c ∷ s) =
    let rest = scan_digits (n * 10 + (c - b'0')) s in
    if not (leb b'0' c && leb c b'9')
    then some n
    else if leb (2 ^ 31) (n * 10 + (c - b'0'))
    then none
    else rest

unfoldable pub has_text_case : Bytes → Bytes → Bool
has_text_case t [] = strn_case_eq (length t) [] t
has_text_case t (c ∷ s) = strn_case_eq (length t) (c ∷ s) t || has_text_case t s

abbrev pub is_header : Bytes → Bytes → Bool
is_header name line_name =
    length line_name == length name && strn_case_eq (length name) line_name name

-- scanHeaderValue on the name and the value of a line; `none` is undefined behaviour.
unfoldable pub scan_named : Bytes → Bytes → Framing → Option Framing
unfolding scan_digits has_text_case
scan_named name value f =
    if is_header (codes "Content-Length") name
    then elim (scan_digits 0 value) [
      | none ↦ none
      | some n ↦ some (record f { content_length = some n })
    ]
    else if is_header (codes "Transfer-Encoding") name
    then some (if has_text_case (codes "chunked") value then record f { chunked = true } else f)
    else if is_header (codes "Connection") name
    then some (
        if strn_case_eq 5 value (codes "close")
        then record f { keep_alive = false }
        else if strn_case_eq 10 value (codes "keep-alive")
        then record f { keep_alive = true }
        else f)
    else some f

-- scanHeaderValue
unfoldable pub scan_header_value : Bytes → Framing → Option Framing
unfolding split_colon skip_blank
scan_header_value line f = elim (split_colon line) [
  | none ↦ some f
  | some (name, value) ↦ scan_named name (skip_blank value) f
]

-- Where the loop over the header lines ends: with what they say and what is behind them, in the
-- middle of a line, or in undefined behaviour.
pub data HeadersEnd : Type 0 where
  headers_end : Framing → Bytes → HeadersEnd
  in_header undefined_header : HeadersEnd

-- The loop over the header lines, which also ends where the buffer does.
unfoldable pub header_loop : ℕ → Framing → Bytes → HeadersEnd
unfolding find_crlf
header_loop zero f p = headers_end f p
header_loop (suc fuel) f [] = headers_end f []
header_loop (suc fuel) f (c ∷ p) = elim (find_crlf (c ∷ p)) [
  | none ↦ in_header
  | some ([], next) ↦ headers_end f next
  | some (d ∷ line, next) ↦ elim (scan_header_value (d ∷ line) f) [
    | none ↦ undefined_header
    | some f' ↦ header_loop fuel f' next
  ]
]

abbrev pub signed : ℕ → ℕ
signed c = if ltb c 128 then c else c + (2 ^ 32 - 256)

-- (p[0] - '0') * 100 + (p[1] - '0') * 10 + (p[2] - '0'), the pattern of an int
unfoldable pub code_of : ℕ → ℕ → ℕ → ℕ
code_of a b c = (signed a * 100 + signed b * 10 + signed c + (2 ^ 32 - 5328)) % 2 ^ 32

unfoldable pub no_body : ℕ → Bool
no_body code = code == 204 || code == 304 || leb 100 code && ltb code 200

-- From the first space on, that space left out.
unfoldable pub behind_space : Bytes → Option Bytes
behind_space [] = none
behind_space (c ∷ s) = let rest = behind_space s in if c == b' ' then some s else rest

unfoldable pub code_at : Bytes → ℕ
unfolding code_of
code_at (a ∷ b ∷ c ∷ s) = code_of a b c
code_at _ = 0

-- Whether the status line says that there is no body. The space is looked for before the body only.
unfoldable pub status_bodyless : Bytes → ℕ → Bool
unfolding behind_space no_body code_at
status_bodyless buf head = elim (behind_space (take head buf)) [
  | none ↦ false
  | some s ↦ no_body (code_at (drop (head - length s) buf))
]

-- The answer 0, 1 or -1 of corRestClientResponseComplete.
pub data Answer : Type 0 where
  whole partial malformed_body no_answer : Answer

abbrev pub answer_of : Completion → Answer
answer_of (complete n) = whole
answer_of incomplete = partial
answer_of malformed = malformed_body
answer_of undefined = no_answer

-- What follows the loop over the header lines.
unfoldable pub body_complete : Bytes → Framing → Bytes → Answer
unfolding chunked_complete status_bodyless
body_complete buf f p =
    if f.chunked then answer_of (chunked_complete p) else elim f.content_length [
      | some n ↦ if leb n (length p) then whole else partial
      | none ↦
          if status_bodyless buf (length buf - length p)
          then whole
          else if not f.keep_alive
          then partial
          else whole
    ]

-- corRestClientResponseComplete
unfoldable pub response_complete : Bytes → Answer
unfolding find_crlf header_loop body_complete
response_complete buf = elim (find_crlf buf) [
  | none ↦ partial
  | some (line, next) ↦ elim (header_loop (length next) no_framing next) [
    | in_header ↦ partial
    | undefined_header ↦ no_answer
    | headers_end f p ↦ body_complete buf f p
  ]
]
