-- ===== src/Response/Message/Whole.antt =====
-- A response that is written out is read back.
use cor_rest.Base.{
  ltb, ◌==◌, Bytes, length, length-append, take-append, All, IsText, c_string_lem, ℕ, ◌<◌, ◌≡◌,
  refl, ◌≢◌, true, false, none, some, List, [], ◌∷◌, ◌++◌, arith,
}
use cor_rest.Response.Chunk.{plus}
use cor_rest.Response.Chunk.Rounds.{print_pieces, all_bytes, Piece, IsPiece}
use cor_rest.Response.Complete.{code_of, behind_space}
use cor_rest.Response.Complete.Early.{IsLine}
use cor_rest.Response.Message.{
  parse_status_line, first_flags, response_detach, put_body, parse_body, parse_response,
  ClientResponse, Flags, response,
}
use cor_rest.Response.Message.Headers.{
  header_line, print_headers, notes, find_crlf-crlf, parse_headers-print, IsHeader,
}
use cor_rest.Response.Chunk.RoundTrip.{dechunk-print_pieces}

-- A body as it is sent, with what comes behind it: as it is, or in chunks.
pub data Sent : Type 0 where
  counted : Bytes → Bytes → Sent
  in_pieces : List Piece → Bytes → Sent

abbrev pub sent_text : Sent → Bytes
sent_text (counted b rest) = b ++ rest
sent_text (in_pieces ps rest) = print_pieces ps rest

abbrev pub sent_body : Sent → Bytes
sent_body (counted b rest) = b
sent_body (in_pieces ps rest) = all_bytes ps

-- The headers announce the body as it is sent.
abbrev pub IsAnnounced : Flags → Sent → Type 0
IsAnnounced f (counted b rest) = (f.is_chunked ≡ false) × (f.length_header ≡ plus (length b))
IsAnnounced f (in_pieces ps rest) = (f.is_chunked ≡ true) × All IsPiece ps

parse_body-sent :
    (len : ℕ) (resp : ClientResponse) (f : Flags) (t : Sent)
    → IsAnnounced f t
    → parse_body (λ n. true) len resp f (sent_text t)
      ≡ response (put_body (some (sent_body t)) resp) f.keeps_alive
unfolding parse_body response_detach
parse_body-sent len resp f (counted b rest) h =
    let there : ltb (length (b ++ rest)) (length b) ≡ false =
      ground (arith, length-append b rest) in
    let front = take-append b rest in ground arith
parse_body-sent len resp f (in_pieces ps rest) h =
    let (c, d) = dechunk-print_pieces ps rest h.1 in ground arith

-- A status line: the version, three bytes of a code, and the reason.
pub record StatusLine : Type 0 where
  pub version : Bytes
  pub hundreds : ℕ
  pub tens : ℕ
  pub ones : ℕ
  pub reason : Bytes

abbrev pub status_line : StatusLine → Bytes
status_line s = s.version ++ b' ' ∷ s.hundreds ∷ s.tens ∷ s.ones ∷ b' ' ∷ s.reason

pub record IsStatusLine (s : StatusLine) : Type 0 where
  pub no_space : All (λ c. c ≢ b' ') s.version
  pub one_line : IsLine (status_line s)
  pub reason_text : IsText s.reason
  pub has_reason : 0 < length s.reason

behind_space-append : (s r : Bytes) → All (λ c. c ≢ b' ') s → behind_space (s ++ b' ' ∷ r) ≡ some r
unfolding behind_space
behind_space-append [] r h = refl
behind_space-append (c ∷ s) r h =
    let later = behind_space-append s r h.1 in
    let other : (c == b' ') ≡ false = ground arith in ground arith

parse_status_line-print :
    (s : StatusLine)
    → IsStatusLine s
    → parse_status_line (status_line s) ≡ some (code_of s.hundreds s.tens s.ones, some s.reason)
unfolding parse_status_line
parse_status_line-print s ok =
    let behind =
      behind_space-append s.version (s.hundreds ∷ s.tens ∷ s.ones ∷ b' ' ∷ s.reason) ok.no_space in
    let text = c_string_lem s.reason ok.reason_text in
    let nonempty : (length s.reason == 0) ≡ false = ground (arith, ok.has_reason) in ground arith

abbrev pub print_response : StatusLine → List (Bytes × Bytes) → Sent → Bytes
print_response s hs t = status_line s ++ 0x0d ∷ 0x0a ∷ print_headers hs (sent_text t)

length-print_headers :
    (hs : List (Bytes × Bytes)) (rest : Bytes) → length hs < length (print_headers hs rest)
length-print_headers [] rest = omega arith
length-print_headers (h ∷ hs) rest = omega (
  arith,
  length-append (header_line h) (0x0d ∷ 0x0a ∷ print_headers hs rest),
  length-print_headers hs rest,
)

-- With memory at hand, a response that is written out, its body announced by the last header of each
-- kind as counted or as chunked, is read as its code, its reason, its headers in order and its body,
-- with the keep-alive flag that its headers say, whatever comes behind the body.
pub parse_response-print_response :
    (s : StatusLine) (hs : List (Bytes × Bytes)) (t : Sent)
    → IsStatusLine s
    → All IsHeader hs
    → IsAnnounced (notes hs first_flags) t
    → (slots : ℕ) × (parse_response (λ n. true) (λ n. true) (print_response s hs t)
        ≡ response
            (record {
              status_code = code_of s.hundreds s.tens s.ones;
              status_text = some s.reason;
              headers = hs;
              header_size = slots;
              body = some (sent_body t);
            })
            (notes hs first_flags).keeps_alive)
unfolding parse_response put_body
parse_response-print_response s hs t line heads announced =
    let next = print_headers hs (sent_text t) in
    let found = find_crlf-crlf (status_line s) next line.one_line in
    let status = parse_status_line-print s line in
    let start : ClientResponse = record {
      status_code = code_of s.hundreds s.tens s.ones;
      status_text = some s.reason;
      headers = [];
      header_size = 10;
      body = none;
    } in
    let (slots, all_heads) =
      parse_headers-print (length next) hs start first_flags (sent_text t)
        (length-print_headers hs (sent_text t)) heads in
    let sent =
      parse_body-sent (length (print_response s hs t))
        (record start { headers = hs; header_size = slots }) (notes hs first_flags) t announced in
    (slots, ground arith)
