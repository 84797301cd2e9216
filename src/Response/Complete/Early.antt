-- ===== src/Response/Complete/Early.antt =====
-- Where the bytes that have come end with a header line, the headers are taken as ended.
use cor_rest.Base.{
  ◌==◌, Bool-cases, Bytes, length, All, ◌-◌, ◌≡◌, refl, ◌≢◌, inl, inr, false, some, [], ◌∷◌, ◌++◌,
  arith,
}
use cor_rest.Response.{drop_cr, until_lf, find_crlf}
use cor_rest.Response.Complete.{
  header_loop, status_bodyless, body_complete, response_complete, whole,
}

-- Bytes with no LF among them.
abbrev pub IsLine : Bytes → Type 0
IsLine = All (λ c. c ≢ 0x0a)

pub until_lf-line_append : (s r : Bytes) → IsLine s → until_lf (s ++ 0x0a ∷ r) ≡ some (s, r)
unfolding until_lf
until_lf-line_append [] r h = refl
until_lf-line_append (c ∷ s) r h =
    let later = until_lf-line_append s r h.1 in
    let other : (c == 0x0a) ≡ false = ground arith in ground arith

pub find_crlf-line_append :
    (s r : Bytes) → IsLine s → find_crlf (s ++ 0x0a ∷ r) ≡ some (drop_cr s, r)
unfolding find_crlf
find_crlf-line_append s r h = let found = until_lf-line_append s r h in ground arith

-- A status line, of whatever status, without any header line behind it yet counts as a whole
-- response.
pub response_complete-status_line :
    (line : Bytes) → IsLine line → response_complete (line ++ 0x0a ∷ []) ≡ whole
unfolding response_complete header_loop body_complete
response_complete-status_line line h =
    let found = find_crlf-line_append line [] h in
    elim (Bool-cases (status_bodyless (line ++ 0x0a ∷ []) (length (line ++ 0x0a ∷ []) - 0))) [
      | inl e ↦ ground arith
      | inr e ↦ ground arith
    ]
