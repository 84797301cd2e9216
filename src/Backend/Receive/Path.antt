-- ===== src/Backend/Receive/Path.antt =====
-- The path: encoded by the client, decoded by the server.
use cor_rest.Base.{
  ltb, ◌==◌, lt→ltb, Bool-cases, Bytes, length, All, ℕ, ◌/◌, ◌%◌, ◌<◌, ◌≡◌, refl, ap, ◌∙◌, ◌≢◌, inl,
  inr, true, false, [], ◌∷◌, arith,
}
use cor_rest.Url.{must_encode, hex_digit, encode_bytes}
use cor_rest.Url.Decode.{IsByte}
use cor_rest.Url.RoundTrip.{length-encode_bytes, IsSafe}
use cor_rest.Request.{drop_slash}
use cor_rest.Request.Params.RoundTrip.{kept_path}

drop_slash-cons : (x : ℕ) (t : Bytes) → 0 < length t → drop_slash (x ∷ t) ≡ x ∷ drop_slash t
unfolding drop_slash
drop_slash-cons x [] h = absurd (omega arith)
drop_slash-cons x (y ∷ t) h = refl

encode_bytes-nonempty : (c : ℕ) (s : Bytes) → 0 < length (encode_bytes (c ∷ s))
encode_bytes-nonempty c s = omega (arith, length-encode_bytes (c ∷ s))

hex_digit-no_slash : (d : ℕ) → d < 16 → (hex_digit d == b'/') ≡ false
unfolding hex_digit
hex_digit-no_slash d h = ground arith

must_encode-no_slash : (c : ℕ) → must_encode c ≡ true → (c == b'/') ≡ false
unfolding must_encode
must_encode-no_slash c h = ground arith

-- A slash at the end is no part of an escape.
drop_slash-encode_bytes :
    (s : Bytes) → All IsByte s → drop_slash (encode_bytes s) ≡ encode_bytes (drop_slash s)
unfolding drop_slash encode_bytes
drop_slash-encode_bytes [] h = refl
drop_slash-encode_bytes (c ∷ []) h = elim (Bool-cases (must_encode c)) [
  | inl e ↦
      let digit = hex_digit-no_slash (c % 16) (omega arith) in
      let other = must_encode-no_slash c e in rw (e, digit, other, e) refl
  | inr e ↦ elim (Bool-cases (c == b'/')) [
    | inl slash ↦ rw (e, slash) refl
    | inr other ↦ rw (e, other, e) refl
  ]
]
drop_slash-encode_bytes (c ∷ d ∷ s) h =
    let rest = encode_bytes (d ∷ s) in
    let more = encode_bytes-nonempty d s in
    let later = drop_slash-encode_bytes (d ∷ s) h.1 in
    elim (Bool-cases (must_encode c)) [
      | inl e ↦ rw e (
          ap (λ t. b'%' ∷ hex_digit (c / 16) ∷ t)
            (drop_slash-cons (hex_digit (c % 16)) rest more ∙ ap (◌∷◌ (hex_digit (c % 16))) later))
      | inr e ↦ rw e (drop_slash-cons c rest more ∙ ap (◌∷◌ c) later)
    ]

kept_path-one : (c : ℕ) → IsByte c → kept_path (encode_bytes (c ∷ [])) ≡ encode_bytes (c ∷ [])
unfolding encode_bytes drop_slash
kept_path-one c h = elim (Bool-cases (must_encode c)) [
  | inl e ↦ let digit = hex_digit-no_slash (c % 16) (omega arith) in rw (e, digit) refl
  | inr e ↦ rw e refl
]

pub kept_path-encode_bytes :
    (s : Bytes) → All IsByte s → kept_path (encode_bytes s) ≡ encode_bytes (kept_path s)
kept_path-encode_bytes [] h = unfold encode_bytes in refl
kept_path-encode_bytes (c ∷ []) h = kept_path-one c h.0
kept_path-encode_bytes (c ∷ d ∷ s) h =
    let long : ltb 1 (length (encode_bytes (c ∷ d ∷ s))) ≡ true =
      lt→ltb 1 (length (encode_bytes (c ∷ d ∷ s)))
        (omega (arith, length-encode_bytes (c ∷ d ∷ s))) in
    let long' : ltb 1 (length (c ∷ d ∷ s)) ≡ true = ground arith in
    rw (long, long') (drop_slash-encode_bytes (c ∷ d ∷ s) h)

pub drop_slash-All : (s : Bytes) → All IsByte s → All IsByte (drop_slash s)
unfolding drop_slash
drop_slash-All [] h = tt
drop_slash-All (c ∷ []) h = elim (Bool-cases (c == b'/')) [ inl e ↦ rw e tt | inr e ↦ rw e h ]
drop_slash-All (c ∷ d ∷ s) h = (h.0, drop_slash-All (d ∷ s) h.1)

pub kept_path-All : (s : Bytes) → All IsByte s → All IsByte (kept_path s)
kept_path-All s h = elim (Bool-cases (ltb 1 (length s))) [
  | inl e ↦ rw e (drop_slash-All s h)
  | inr e ↦ rw e h
]

must_encode-no_mark : (c : ℕ) → must_encode c ≡ false → c ≢ b'?'
unfolding must_encode
must_encode-no_mark c h = ground arith

-- An encoded path has no "?".
pub encode_bytes-no_mark : (s : Bytes) → All IsSafe s → All (λ c. c ≢ b'?') s
encode_bytes-no_mark [] h = tt
encode_bytes-no_mark (c ∷ s) h = (
  elim h.0 [ inl e ↦ omega (arith, e) | inr e ↦ must_encode-no_mark c e ],
  encode_bytes-no_mark s h.1,
)
