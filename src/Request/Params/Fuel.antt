-- ===== src/Request/Params/Fuel.antt =====
-- The loop over the query string ends.
use cor_rest.Base.{
  ◌==◌, Bool-cases, Option-cases, Bytes, length, ℕ, zero, suc, ◌+◌, ◌≤◌, ◌<◌, ◌≡◌, refl, ap, inl,
  inr, Bool, ◌||◌, some, [], ◌∷◌, arith,
}
use cor_rest.Request.{split_at, uri_param_add, scan_name, decoded_text, params_loop, RequestIn}

scan_name-le : (s : Bytes) → length (scan_name s).1 ≤ length s
unfolding scan_name
scan_name-le [] = omega arith
scan_name-le (c ∷ s) = elim (Bool-cases (c == b'=' || c == b'&')) [
  | inl e ↦ rw e (omega arith)
  | inr e ↦ rw e (omega (arith, scan_name-le s))
]

split_at-shorter : (c : ℕ) (s t : Bytes) → (split_at c s).1 ≡ some t → length t < length s
unfolding split_at
split_at-shorter c [] t e = absurd (ground arith)
split_at-shorter c (d ∷ s) t e = elim (Bool-cases (d == c)) [
  | inl hit ↦ let same : s ≡ t = ground arith in omega (arith, ap length same)
  | inr miss ↦
      let later : (split_at c s).1 ≡ some t = ground arith in
      omega (arith, split_at-shorter c s t later)
]

-- What the loop does with what stands behind a name.
module _ (room : ℕ → Bool) (f g : ℕ)
    (same : (p : Bytes) (r : RequestIn)
      → length p ≤ f
      → length p ≤ g
      → params_loop room f p r ≡ params_loop room g p r) where
  params_round :
      (c : ℕ) (p at : Bytes) (r : RequestIn)
      → (scan_name (c ∷ p)).1 ≡ at
      → length at ≤ suc f
      → length at ≤ suc g
      → params_loop room (suc f) (c ∷ p) r ≡ params_loop room (suc g) (c ∷ p) r
  unfolding params_loop
  params_round c p [] r e h k = ground arith
  params_round c p (d ∷ behind) r e h k = elim (Bool-cases (d == b'=')) [
    | inr amp ↦
        let rest =
          same behind (uri_param_add room (decoded_text (scan_name (c ∷ p)).0) [] r) (omega arith)
            (omega arith) in
        ground arith
    | inl eq ↦ elim (Option-cases (split_at b'&' behind).1) [
      | inl last ↦ ground arith
      | inr (p', more) ↦
          let short = split_at-shorter b'&' behind p' more in
          let value = (split_at b'&' behind).0 in
          let rest =
            same p' (uri_param_add room (decoded_text (scan_name (c ∷ p)).0) (decoded_text value) r)
              (omega arith) (omega arith) in
          ground arith
    ]
  ]

params_loop-agree :
    (room : ℕ → Bool) (f g : ℕ) (p : Bytes) (r : RequestIn)
    → length p ≤ f
    → length p ≤ g
    → params_loop room f p r ≡ params_loop room g p r
unfolding params_loop
params_loop-agree room zero zero p r h k = refl
params_loop-agree room zero (suc g) [] r h k = refl
params_loop-agree room zero (suc g) (c ∷ p) r h k = absurd (omega arith)
params_loop-agree room (suc f) zero [] r h k = refl
params_loop-agree room (suc f) zero (c ∷ p) r h k = absurd (omega arith)
params_loop-agree room (suc f) (suc g) [] r h k = refl
params_loop-agree room (suc f) (suc g) (c ∷ p) r h k =
    params_round room f g (λ p' r' x y. params_loop-agree room f g p' r' x y) c p
      (scan_name (c ∷ p)).1 r refl (omega (arith, scan_name-le (c ∷ p)))
      (omega (arith, scan_name-le (c ∷ p)))

-- The loop over a query string ends, whatever the string and the allocations: with more fuel than
-- there are bytes it answers as with as much as there are bytes.
pub params_loop-fuel :
    (room : ℕ → Bool) (extra : ℕ) (p : Bytes) (r : RequestIn)
    → params_loop room (length p + extra) p r ≡ params_loop room (length p) p r
params_loop-fuel room extra p r =
    params_loop-agree room (length p + extra) (length p) p r (omega arith) (omega arith)
