-- ===== src/Request/Params.antt =====
-- A query string that is written out is read back.
pub mod RoundTrip
pub mod Fuel
use mathlib.Core.List.{append_assoc}
use cor_rest.Base.{
  ◌==◌, Bool-cases, Bytes, All, ℕ, suc, ◌/◌, ◌%◌, ◌<◌, ◌≡◌, refl, ◌≢◌, inl, inr, Bool, true, false,
  ◌||◌, none, some, List, [], ◌∷◌, ◌++◌, arith,
}
use cor_rest.Url.{must_encode, hex_digit, encode_bytes, url_value_encode, url_value_decode}
use cor_rest.Url.Decode.{IsByte}
use cor_rest.Url.RoundTrip.{url_value_decode-encode, IsSafe}
use cor_rest.Request.{
  split_at, uri_param_add, scan_name, decoded_text, params_loop, KeyValue, RequestIn,
}

abbrev pub encoded : Bytes → Bytes
encoded v = url_value_encode true (some v)

-- Parameters as a client writes them, between "&", with the encoding that it has.
abbrev pub print_with : (Bytes → Bytes) → List (Bytes × Bytes) → Bytes
print_with enc [] = []
print_with enc ((name, value) ∷ []) = enc name ++ b'=' ∷ enc value
print_with enc ((name, value) ∷ q ∷ qs) =
    enc name ++ b'=' ∷ (enc value ++ b'&' ∷ print_with enc (q ∷ qs))

abbrev pub print_params : List (Bytes × Bytes) → Bytes
print_params = print_with encoded

-- A parameter of bytes 1 to 255, with no "=" in its name, which the encoder leaves alone.
pub record IsParam (q : Bytes × Bytes) : Type 0 where
  pub name_bytes : All IsByte q.0
  pub no_equals : All (λ c. c ≢ b'=') q.0
  pub value_bytes : All IsByte q.1

abbrev pub as_param : Bytes × Bytes → KeyValue
as_param (name, value) = record { key = name; value = value; bit = 0 }

pub decoded_text-encoded : (v : Bytes) → All IsByte v → decoded_text (encoded v) ≡ v
unfolding decoded_text url_value_decode
decoded_text-encoded v h = let same = url_value_decode-encode v h in ground arith

pub must_encode-amp : (c : ℕ) → must_encode c ≡ false → c ≢ b'&'
unfolding must_encode
must_encode-amp c h = ground arith

abbrev pub EndsNoName : ℕ → Type 0
EndsNoName c = (c ≢ b'=') × (c ≢ b'&')

pub hex_digit-EndsNoName : (d : ℕ) → d < 16 → EndsNoName (hex_digit d)
unfolding hex_digit
hex_digit-EndsNoName d h = (ground arith, ground arith)

pub encode_bytes-All-EndsNoName :
    (s : Bytes) → All IsByte s → All (λ c. c ≢ b'=') s → All EndsNoName (encode_bytes s)
unfolding encode_bytes
encode_bytes-All-EndsNoName [] h k = tt
encode_bytes-All-EndsNoName (c ∷ s) h k = elim (Bool-cases (must_encode c)) [
  | inl e ↦ rw e (
    (omega arith, omega arith),
    (
      hex_digit-EndsNoName (c / 16) (omega arith),
      (hex_digit-EndsNoName (c % 16) (omega arith), encode_bytes-All-EndsNoName s h.1 k.1),
    ),
  )
  | inr e ↦ rw e ((k.0, must_encode-amp c e), encode_bytes-All-EndsNoName s h.1 k.1)
]

pub safe_no_amp : (s : Bytes) → All IsSafe s → All (λ c. c ≢ b'&') s
safe_no_amp [] h = tt
safe_no_amp (c ∷ s) h =
    (elim h.0 [ inl e ↦ omega (arith, e) | inr e ↦ must_encode-amp c e ], safe_no_amp s h.1)

pub scan_name-append : (s r : Bytes) → All EndsNoName s → scan_name (s ++ b'=' ∷ r) ≡ (s, b'=' ∷ r)
unfolding scan_name
scan_name-append [] r h = refl
scan_name-append (c ∷ s) r h =
    let later = scan_name-append s r h.1 in
    let other : (c == b'=' || c == b'&') ≡ false = ground (arith, h.0) in ground arith

pub split_at-append :
    (d : ℕ) (s r : Bytes) → All (λ c. c ≢ d) s → split_at d (s ++ d ∷ r) ≡ (s, some r)
unfolding split_at
split_at-append d [] r h = ground arith
split_at-append d (c ∷ s) r h =
    let later = split_at-append d s r h.1 in
    let other : (c == d) ≡ false = ground (arith, h.0) in ground arith

pub split_at-All : (d : ℕ) (s : Bytes) → All (λ c. c ≢ d) s → split_at d s ≡ (s, none)
unfolding split_at
split_at-All d [] h = refl
split_at-All d (c ∷ s) h =
    let later = split_at-All d s h.1 in
    let other : (c == d) ≡ false = ground (arith, h.0) in ground arith

-- One round of the loop, on a parameter with "=".
pub params_loop-more :
    (room : ℕ → Bool) (fuel : ℕ) (p name behind value p' : Bytes) (r : RequestIn)
    → scan_name p ≡ (name, b'=' ∷ behind)
    → split_at b'&' behind ≡ (value, some p')
    → params_loop room (suc fuel) p r
      ≡ params_loop room fuel p' (uri_param_add room (decoded_text name) (decoded_text value) r)
unfolding params_loop scan_name
params_loop-more room fuel [] name behind value p' r s h = absurd (ground arith)
params_loop-more room fuel (c ∷ p) name behind value p' r s h = ground arith

pub params_loop-last :
    (room : ℕ → Bool) (fuel : ℕ) (p name behind value : Bytes) (r : RequestIn)
    → scan_name p ≡ (name, b'=' ∷ behind)
    → split_at b'&' behind ≡ (value, none)
    → params_loop room (suc fuel) p r
      ≡ uri_param_add room (decoded_text name) (decoded_text value) r
unfolding params_loop scan_name
params_loop-last room fuel [] name behind value r s h = absurd (ground arith)
params_loop-last room fuel (c ∷ p) name behind value r s h = ground arith
