-- ===== src/Response/Message/Fuel.antt =====
-- Both loops over the header lines end.
use cor_rest.Base.{
  Option-cases, Bytes, length, ℕ, zero, suc, ◌+◌, ◌≤◌, ◌≡◌, refl, inl, inr, Bool, some, [], ◌∷◌,
  arith,
}
use cor_rest.Response.{find_crlf}
use cor_rest.Response.Chunk.Fuel.{find_crlf-shorter}
use cor_rest.Response.Complete.{scan_header_value, header_loop, Framing}
use cor_rest.Response.Message.{parse_response_header, parse_headers, ClientResponse, Flags}

module _ (f g : ℕ)
    (same : (h : Framing) (p : Bytes)
      → length p ≤ f
      → length p ≤ g
      → header_loop f h p ≡ header_loop g h p) where
  header_round :
      (h : Framing) (c : ℕ) (p line next : Bytes)
      → find_crlf (c ∷ p) ≡ some (line, next)
      → length next ≤ f
      → length next ≤ g
      → header_loop (suc f) h (c ∷ p) ≡ header_loop (suc g) h (c ∷ p)
  unfolding header_loop
  header_round h c p [] next found x y = ground arith
  header_round h c p (d ∷ line) next found x y =
      elim (Option-cases (scan_header_value (d ∷ line) h)) [
        | inl e ↦ ground arith
        | inr (h', e) ↦ let rest = same h' next x y in ground arith
      ]

header_loop-agree :
    (f g : ℕ) (h : Framing) (p : Bytes)
    → length p ≤ f
    → length p ≤ g
    → header_loop f h p ≡ header_loop g h p
unfolding header_loop
header_loop-agree zero zero h p x y = refl
header_loop-agree zero (suc g) h [] x y = refl
header_loop-agree zero (suc g) h (c ∷ p) x y = absurd (omega arith)
header_loop-agree (suc f) zero h [] x y = refl
header_loop-agree (suc f) zero h (c ∷ p) x y = absurd (omega arith)
header_loop-agree (suc f) (suc g) h [] x y = refl
header_loop-agree (suc f) (suc g) h (c ∷ p) x y = elim (Option-cases (find_crlf (c ∷ p))) [
  | inl e ↦ ground arith
  | inr ((line, next), found) ↦
      let short = find_crlf-shorter (c ∷ p) line next found in
      header_round f g (λ h' p' x' y'. header_loop-agree f g h' p' x' y') h c p line next found
        (omega arith) (omega arith)
]

module _ (room : ℕ → Bool) (f g : ℕ)
    (same : (r : ClientResponse) (h : Flags) (p : Bytes)
      → length p ≤ f
      → length p ≤ g
      → parse_headers room f r h p ≡ parse_headers room g r h p) where
  parse_round :
      (r : ClientResponse) (h : Flags) (c : ℕ) (p line next : Bytes)
      → find_crlf (c ∷ p) ≡ some (line, next)
      → length next ≤ f
      → length next ≤ g
      → parse_headers room (suc f) r h (c ∷ p) ≡ parse_headers room (suc g) r h (c ∷ p)
  unfolding parse_headers
  parse_round r h c p [] next found x y = ground arith
  parse_round r h c p (d ∷ line) next found x y =
      let q = parse_response_header room (d ∷ line) r h in
      let rest = same q.0 q.1 next x y in ground arith

parse_headers-agree :
    (room : ℕ → Bool) (f g : ℕ) (r : ClientResponse) (h : Flags) (p : Bytes)
    → length p ≤ f
    → length p ≤ g
    → parse_headers room f r h p ≡ parse_headers room g r h p
unfolding parse_headers
parse_headers-agree room zero zero r h p x y = refl
parse_headers-agree room zero (suc g) r h [] x y = refl
parse_headers-agree room zero (suc g) r h (c ∷ p) x y = absurd (omega arith)
parse_headers-agree room (suc f) zero r h [] x y = refl
parse_headers-agree room (suc f) zero r h (c ∷ p) x y = absurd (omega arith)
parse_headers-agree room (suc f) (suc g) r h [] x y = refl
parse_headers-agree room (suc f) (suc g) r h (c ∷ p) x y = elim (Option-cases (find_crlf (c ∷ p))) [
  | inl e ↦ ground arith
  | inr ((line, next), found) ↦
      let short = find_crlf-shorter (c ∷ p) line next found in
      parse_round room f g (λ r' h' p' x' y'. parse_headers-agree room f g r' h' p' x' y') r h c p
        line next found (omega arith) (omega arith)
]

-- The loops over the header lines, of the check and of the parser, end: with more fuel than there
-- are bytes they answer as with as much as there are bytes.
pub headers-fuel :
    (room : ℕ → Bool) (extra : ℕ) (p : Bytes) (f : Framing) (h : Flags) (r : ClientResponse)
    → (header_loop (length p + extra) f p ≡ header_loop (length p) f p)
      × (parse_headers room (length p + extra) r h p ≡ parse_headers room (length p) r h p)
headers-fuel room extra p f h r = (
  header_loop-agree (length p + extra) (length p) f p (omega arith) (omega arith),
  parse_headers-agree room (length p + extra) (length p) r h p (omega arith) (omega arith),
)
