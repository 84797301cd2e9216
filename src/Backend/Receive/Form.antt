-- ===== src/Backend/Receive/Form.antt =====
-- The query as clients write it: a space is "+", and the rest is percent-encoded.
use cor_rest.Base.{
  ◌==◌, if◌then◌else◌, ==→eq, Bool-cases, Bytes, length, length-append, All, All-append, IsText,
  c_string_lem, ℕ, ◌/◌, ◌%◌, ◌<◌, ◌≡◌, refl, sym, ap, ◌∙◌, ◌≢◌, inl, inr, false, List, [], ◌∷◌,
  ◌++◌, arith,
}
use cor_rest.Url.{must_encode, hex_digit, escape_at, decode_bytes}
use cor_rest.Url.Decode.{IsByte}
use cor_rest.Url.RoundTrip.{decode_bytes-plain, decode_bytes-escaped, IsByte-IsText}
use cor_rest.Request.{decoded_text}
use cor_rest.Request.Params.{print_with, must_encode-amp, EndsNoName, hex_digit-EndsNoName, IsParam}
use cor_rest.Request.Params.RoundTrip.{IsCarried}
use cor_rest.Backend.Receive.{plus_to_space}

unfoldable pub form_encode : Bytes → Bytes
form_encode [] = []
form_encode (c ∷ s) =
    let rest = form_encode s in
    if c == b' '
    then b'+' ∷ rest
    else if must_encode c
    then b'%' ∷ hex_digit (c / 16) ∷ hex_digit (c % 16) ∷ rest
    else c ∷ rest

-- What the server parses of a value
abbrev pub spaced : Bytes → Bytes
spaced v = plus_to_space (form_encode v)

plus_to_space-append : (s t : Bytes) → plus_to_space (s ++ t) ≡ plus_to_space s ++ plus_to_space t
unfolding plus_to_space
plus_to_space-append [] t = refl
plus_to_space-append (x ∷ s) t = ap (◌∷◌ (if x == b'+' then b' ' else x)) (plus_to_space-append s t)

pub plus_to_space-print_with :
    (enc : Bytes → Bytes) (q : Bytes × Bytes) (qs : List (Bytes × Bytes))
    → plus_to_space (print_with enc (q ∷ qs)) ≡ print_with (λ v. plus_to_space (enc v)) (q ∷ qs)
unfolding plus_to_space
plus_to_space-print_with enc q [] = plus_to_space-append (enc q.0) (b'=' ∷ enc q.1)
plus_to_space-print_with enc q (q' ∷ qs) =
    let rest = print_with enc (q' ∷ qs) in
    plus_to_space-append (enc q.0) (b'=' ∷ (enc q.1 ++ b'&' ∷ rest))
    ∙ ap (λ t. plus_to_space (enc q.0) ++ b'=' ∷ t)
        (plus_to_space-append (enc q.1) (b'&' ∷ rest)
          ∙ ap (λ t. plus_to_space (enc q.1) ++ b'&' ∷ t) (plus_to_space-print_with enc q' qs))

-- The three ways of a byte through both
abbrev spaced_byte : ℕ → Bytes → Bytes
spaced_byte c t =
    if c == b' '
    then b' ' ∷ t
    else if must_encode c
    then b'%' ∷ hex_digit (c / 16) ∷ hex_digit (c % 16) ∷ t
    else c ∷ t

hex_digit-no_plus : (d : ℕ) → d < 16 → (hex_digit d == b'+') ≡ false
unfolding hex_digit
hex_digit-no_plus d h = ground arith

must_encode-no_plus : (c : ℕ) → must_encode c ≡ false → (c == b'+') ≡ false
unfolding must_encode
must_encode-no_plus c h = ground arith

spaced-cons : (c : ℕ) (s : Bytes) → IsByte c → spaced (c ∷ s) ≡ spaced_byte c (spaced s)
unfolding plus_to_space form_encode
spaced-cons c s h = elim (Bool-cases (c == b' ')) [
  | inl e ↦ rw e refl
  | inr e ↦ elim (Bool-cases (must_encode c)) [
    | inl e' ↦
        let high = hex_digit-no_plus (c / 16) (omega arith) in
        let low = hex_digit-no_plus (c % 16) (omega arith) in rw (e, e', high, low) refl
    | inr e' ↦ let other = must_encode-no_plus c e' in rw (e, e', other) refl
  ]
]

decode_bytes-space : (s : Bytes) → decode_bytes (b' ' ∷ s) ≡ b' ' ∷ decode_bytes s
unfolding decode_bytes escape_at
decode_bytes-space [] = refl
decode_bytes-space (h ∷ []) = refl
decode_bytes-space (h ∷ l ∷ s) = refl

decode_bytes_nil : decode_bytes (spaced []) ≡ []
unfolding decode_bytes form_encode plus_to_space
decode_bytes_nil = refl

decode_bytes-spaced : (v : Bytes) → All IsByte v → decode_bytes (spaced v) ≡ v
decode_bytes-spaced [] h = decode_bytes_nil
decode_bytes-spaced (c ∷ s) h =
    let later = decode_bytes-spaced s h.1 in
    ap decode_bytes (spaced-cons c s h.0) ∙ elim (Bool-cases (c == b' ')) [
      | inl e ↦ rw e (
          decode_bytes-space (spaced s)
          ∙ ap (◌∷◌ b' ') later
          ∙ ap (λ x. x ∷ s) (sym (==→eq c b' ' e)))
      | inr e ↦ elim (Bool-cases (must_encode c)) [
        | inl e' ↦ rw (e, e') (decode_bytes-escaped c (spaced s) h.0.1 ∙ ap (◌∷◌ c) later)
        | inr e' ↦ rw (e, e') (decode_bytes-plain c (spaced s) e' ∙ ap (◌∷◌ c) later)
      ]
    ]

decoded_text-spaced : (v : Bytes) → All IsByte v → decoded_text (spaced v) ≡ v
unfolding decoded_text
decoded_text-spaced v h = rw (decode_bytes-spaced v h) (c_string_lem v (IsByte-IsText v h))

-- What stands in such a value ends no name and no value.
spaced-All :
    (P : ℕ → Type 0) (v : Bytes)
    → P b' '
    → P b'%'
    → ((d : ℕ) → d < 16 → P (hex_digit d))
    → All (λ c. must_encode c ≡ false → P c) v
    → All IsByte v
    → All P (spaced v)
spaced-All P [] space lead digit other h = unfold form_encode in unfold plus_to_space in tt
spaced-All P (c ∷ s) space lead digit other h =
    let later = spaced-All P s space lead digit other.1 h.1 in
    rw (spaced-cons c s h.0) (elim (Bool-cases (c == b' ')) [
      | inl e ↦ rw e (space, later)
      | inr e ↦ elim (Bool-cases (must_encode c)) [
        | inl e' ↦
            rw (e, e') (lead, (digit (c / 16) (omega arith), (digit (c % 16) (omega arith), later)))
        | inr e' ↦ rw (e, e') (other.0 e', later)
      ]
    ])

names_whole :
    (s : Bytes) → All (λ c. c ≢ b'=') s → All (λ c. must_encode c ≡ false → EndsNoName c) s
names_whole [] h = tt
names_whole (c ∷ s) h = (λ e. (h.0, must_encode-amp c e), names_whole s h.1)

values_whole : (s : Bytes) → All (λ c. must_encode c ≡ false → c ≢ b'&') s
values_whole [] = tt
values_whole (c ∷ s) = (must_encode-amp c, values_whole s)

hex_digit-no_amp : (d : ℕ) → d < 16 → hex_digit d ≢ b'&'
hex_digit-no_amp d h = (hex_digit-EndsNoName d h).1

IsParam-IsCarried : (q : Bytes × Bytes) → IsParam q → IsCarried spaced q
IsParam-IsCarried q ok = record {
  name_whole =
      spaced-All EndsNoName q.0 (omega arith, omega arith) (omega arith, omega arith)
        hex_digit-EndsNoName (names_whole q.0 ok.no_equals) ok.name_bytes;
  value_whole =
      spaced-All (λ c. c ≢ b'&') q.1 (omega arith) (omega arith) hex_digit-no_amp (values_whole q.1)
        ok.value_bytes;
  name_back = decoded_text-spaced q.0 ok.name_bytes;
  value_back = decoded_text-spaced q.1 ok.value_bytes;
}

pub All-IsCarried-spaced : (qs : List (Bytes × Bytes)) → All IsParam qs → All (IsCarried spaced) qs
All-IsCarried-spaced [] ok = tt
All-IsCarried-spaced (q ∷ qs) ok = (IsParam-IsCarried q ok.0, All-IsCarried-spaced qs ok.1)

hex_digit-pos : (d : ℕ) → d < 16 → 0 < hex_digit d
unfolding hex_digit
hex_digit-pos d h = ground arith

form_encode-IsText : (v : Bytes) → All IsByte v → IsText (form_encode v)
unfolding form_encode
form_encode-IsText [] h = tt
form_encode-IsText (c ∷ s) h =
    let later = form_encode-IsText s h.1 in
    elim (Bool-cases (c == b' ')) [
      | inl e ↦ rw e (omega arith, later)
      | inr e ↦ elim (Bool-cases (must_encode c)) [
        | inl e' ↦
            rw (e, e')
              (
                omega arith,
                (
                  hex_digit-pos (c / 16) (omega arith),
                  (hex_digit-pos (c % 16) (omega arith), later),
                ),
              )
        | inr e' ↦ rw (e, e') (h.0.0, later)
      ]
    ]

pub print_with-IsText :
    (q : Bytes × Bytes) (qs : List (Bytes × Bytes))
    → All IsParam (q ∷ qs)
    → IsText (print_with form_encode (q ∷ qs))
print_with-IsText q [] ok =
    let name = form_encode-IsText q.0 ok.0.name_bytes in
    let value = form_encode-IsText q.1 ok.0.value_bytes in
    All-append (λ c. 0 < c) (form_encode q.0) (b'=' ∷ form_encode q.1) name (omega arith, value)
print_with-IsText q (q' ∷ qs) ok =
    let name = form_encode-IsText q.0 ok.0.name_bytes in
    let value = form_encode-IsText q.1 ok.0.value_bytes in
    let rest = print_with form_encode (q' ∷ qs) in
    All-append (λ c. 0 < c) (form_encode q.0) (b'=' ∷ (form_encode q.1 ++ b'&' ∷ rest)) name
      (
        omega arith,
        All-append (λ c. 0 < c) (form_encode q.1) (b'&' ∷ rest) value
            (omega arith, print_with-IsText q' qs ok.1),
      )

pub print_with-nonempty :
    (enc : Bytes → Bytes) (q : Bytes × Bytes) (qs : List (Bytes × Bytes))
    → 0 < length (print_with enc (q ∷ qs))
print_with-nonempty enc q [] = omega (arith, length-append (enc q.0) (b'=' ∷ enc q.1))
print_with-nonempty enc q (q' ∷ qs) =
    omega (arith, length-append (enc q.0) (b'=' ∷ (enc q.1 ++ b'&' ∷ print_with enc (q' ∷ qs))))
