-- ===== src/Response/Message/Headers.antt =====
-- Header lines that are written out are read back.
use mathlib.Core.List.{append_assoc, append-nil}
use cor_rest.Base.{
  ltb, ◌==◌, Bool-cases, Bytes, length, length-append, All, All-append, IsText, c_string_lem, ℕ,
  zero, suc, ◌+◌, ◌<◌, ◌≡◌, refl, sym, ap, ◌∙◌, subst, ◌≢◌, inl, inr, Bool, true, false, some, List,
  [], ◌∷◌, ◌++◌, arith,
}
use cor_rest.Response.{drop_cr, until_lf, find_crlf}
use cor_rest.Response.Chunk.Rounds.{drop_cr-line}
use cor_rest.Response.Complete.{split_colon, skip_blank}
use cor_rest.Response.Complete.Early.{IsLine, find_crlf-line_append}
use cor_rest.Response.Message.{
  add_response_header, note_header, parse_response_header, parse_headers, ClientResponse, Flags,
  parsed,
}

abbrev pub StartsBare : Bytes → Type 0
StartsBare [] = Unit
StartsBare (c ∷ s) = (c ≢ b' ') × (c ≢ 0x09)

-- A header that can be written out: a name without colon, and a value that no blank begins.
pub record IsHeader (h : Bytes × Bytes) : Type 0 where
  pub name_line : IsLine h.0
  pub name_text : IsText h.0
  pub no_colon : All (λ c. c ≢ b':') h.0
  pub value_line : IsLine h.1
  pub value_text : IsText h.1
  pub bare : StartsBare h.1

abbrev pub header_line : Bytes × Bytes → Bytes
header_line (name, value) = name ++ b':' ∷ b' ' ∷ value

abbrev pub print_headers : List (Bytes × Bytes) → Bytes → Bytes
print_headers [] rest = 0x0d ∷ 0x0a ∷ rest
print_headers (h ∷ hs) rest = header_line h ++ 0x0d ∷ 0x0a ∷ print_headers hs rest

abbrev pub notes : List (Bytes × Bytes) → Flags → Flags
notes [] f = f
notes (h ∷ hs) f = notes hs (note_header h.0 h.1 f)

pub find_crlf-crlf : (s r : Bytes) → IsLine s → find_crlf (s ++ 0x0d ∷ 0x0a ∷ r) ≡ some (s, r)
find_crlf-crlf s r h =
    let line =
      find_crlf-line_append (s ++ 0x0d ∷ []) r
        (All-append (λ c. c ≢ 0x0a) s (0x0d ∷ []) h (omega arith, tt)) in
    subst (λ t. find_crlf t ≡ some (s, r)) (append_assoc s (0x0d ∷ []) (0x0a ∷ r))
      (line ∙ ap (λ t. some (t, r)) (drop_cr-line s))

split_colon-append :
    (s r : Bytes) → All (λ c. c ≢ b':') s → split_colon (s ++ b':' ∷ r) ≡ some (s, r)
unfolding split_colon
split_colon-append [] r h = refl
split_colon-append (c ∷ s) r h =
    let later = split_colon-append s r h.1 in
    let other : (c == b':') ≡ false = ground arith in ground arith

skip_blank-bare : (s : Bytes) → StartsBare s → skip_blank s ≡ s
unfolding skip_blank
skip_blank-bare [] h = refl
skip_blank-bare (c ∷ s) h = ground arith

skip_blank-value : (s : Bytes) → StartsBare s → skip_blank (b' ' ∷ s) ≡ s
unfolding skip_blank
skip_blank-value s h = skip_blank-bare s h

parse_response_header-print :
    (room : ℕ → Bool) (h : Bytes × Bytes) (resp : ClientResponse) (f : Flags)
    → IsHeader h
    → parse_response_header room (header_line h) resp f
      ≡ (add_response_header room h.0 h.1 resp, note_header h.0 h.1 f)
unfolding parse_response_header
parse_response_header-print room (name, value) resp f ok =
    let split = split_colon-append name (b' ' ∷ value) ok.no_colon in
    let bare = skip_blank-value value ok.bare in
    let n = c_string_lem name ok.name_text in
    let v = c_string_lem value ok.value_text in ground arith

parse_headers-step :
    (room : ℕ → Bool) (fuel : ℕ) (resp : ClientResponse) (f : Flags) (p line next : Bytes)
    (q : ClientResponse × Flags)
    → find_crlf p ≡ some (line, next)
    → 0 < length line
    → parse_response_header room line resp f ≡ q
    → parse_headers room (suc fuel) resp f p ≡ parse_headers room fuel q.0 q.1 next
unfolding parse_headers find_crlf until_lf
parse_headers-step room fuel resp f [] line next q found some_bytes h = absurd (ground arith)
parse_headers-step room fuel resp f (c ∷ p) [] next q found some_bytes h = absurd (omega arith)
parse_headers-step room fuel resp f (c ∷ p) (d ∷ line) next q found some_bytes h = ground arith

add_response_header-room :
    (h : Bytes × Bytes) (resp : ClientResponse)
    → (slots : ℕ) × (add_response_header (λ n. true) h.0 h.1 resp
        ≡ record resp { headers = resp.headers ++ h ∷ []; header_size = slots })
unfolding add_response_header
add_response_header-room h resp = elim (Bool-cases (ltb (length resp.headers) resp.header_size)) [
  | inl e ↦ (resp.header_size, ground arith)
  | inr e ↦ (resp.header_size + 5, ground arith)
]

length-header_line : (h : Bytes × Bytes) → 0 < length (header_line h)
length-header_line (name, value) = omega (arith, length-append name (b':' ∷ b' ' ∷ value))

IsLine-header_line : (h : Bytes × Bytes) → IsHeader h → IsLine (header_line h)
IsLine-header_line (name, value) ok =
    All-append (λ c. c ≢ 0x0a) name (b':' ∷ b' ' ∷ value) ok.name_line
      (omega arith, (omega arith, ok.value_line))

-- The header lines with malloc never failing: all are added in order, the flags are noted, and what
-- is behind the empty line is left.
pub parse_headers-print :
    (fuel : ℕ) (hs : List (Bytes × Bytes)) (resp : ClientResponse) (f : Flags) (rest : Bytes)
    → length hs < fuel
    → All IsHeader hs
    → (slots : ℕ) × (parse_headers (λ n. true) fuel resp f (print_headers hs rest)
        ≡ parsed
            (record resp { headers = resp.headers ++ hs; header_size = slots })
            (notes hs f)
            rest)
unfolding parse_headers until_lf drop_cr
parse_headers-print zero hs resp f rest enough h = absurd (omega arith)
parse_headers-print (suc fuel) [] resp f rest enough h = (
  resp.header_size,
  ap (λ hs. parsed (record resp { headers = hs }) f rest) (sym (append-nil resp.headers)),
)
parse_headers-print (suc fuel) (h ∷ hs) resp f rest enough ok =
    let (slots, added) = add_response_header-room h resp in
    let (slots', later) =
      parse_headers-print fuel hs
        (record resp { headers = resp.headers ++ h ∷ []; header_size = slots })
        (note_header h.0 h.1 f) rest (omega arith) ok.1 in
    let line =
      parse_response_header-print (λ n. true) h resp f ok.0
      ∙ ap (λ r. (r, note_header h.0 h.1 f)) added in
    let found =
      find_crlf-crlf (header_line h) (print_headers hs rest) (IsLine-header_line h ok.0) in
    (
      slots',
      parse_headers-step (λ n. true) fuel resp f (print_headers (h ∷ hs) rest) (header_line h) _ _
            found (length-header_line h) line
          ∙ later
          ∙ ap
              (λ l.
                parsed (record resp { headers = l; header_size = slots' }) (notes (h ∷ hs) f) rest)
              (append_assoc resp.headers (h ∷ []) hs),
    )
