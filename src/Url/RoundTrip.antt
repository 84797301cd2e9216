-- ===== src/Url/RoundTrip.antt =====
-- Encoding and decoding are inverse, and the buffer is as long as the count says.
use cor_rest.Base.{
  Bool-cases, Bytes, length, All, IsText, c_string_lem, ℕ, ◌+◌, ◌/◌, ◌%◌, ◌<◌, ◌≡◌, refl, ap, ◌∙◌,
  ◌⊎◌, inl, inr, true, false, none, some, [], ◌∷◌, arith,
}
use cor_rest.Url.{
  must_encode, hex_digit, extra, encode_bytes, url_value_encode, hex_val, escape_at, decode_bytes,
  url_value_decode,
}
use cor_rest.Url.Decode.{IsByte}

hex_val-hex_digit : (d : ℕ) → d < 16 → hex_val (hex_digit d) ≡ some d
unfolding hex_val hex_digit
hex_val-hex_digit d h = ground arith

-- The three bytes that stand for c decode to c.
escape_at-hex_digit :
    (c : ℕ) → c < 256 → escape_at b'%' (hex_digit (c / 16)) (hex_digit (c % 16)) ≡ some c
unfolding escape_at
escape_at-hex_digit c h =
    rw (hex_val-hex_digit (c / 16) (omega arith), hex_val-hex_digit (c % 16) (omega arith))
      (ap some (omega arith))

pub escape_at-plain : (c h l : ℕ) → must_encode c ≡ false → escape_at c h l ≡ none
unfolding must_encode escape_at
escape_at-plain c h l e = ground arith

-- A byte that needs no encoding passes the decoder whatever follows it.
pub decode_bytes-plain :
    (c : ℕ) (s : Bytes) → must_encode c ≡ false → decode_bytes (c ∷ s) ≡ c ∷ decode_bytes s
unfolding decode_bytes
decode_bytes-plain c [] e = refl
decode_bytes-plain c (h ∷ []) e = refl
decode_bytes-plain c (h ∷ l ∷ s) e = ground (arith, escape_at-plain c h l e)

pub decode_bytes-escaped :
    (c : ℕ) (s : Bytes)
    → c < 256
    → decode_bytes (b'%' ∷ hex_digit (c / 16) ∷ hex_digit (c % 16) ∷ s) ≡ c ∷ decode_bytes s
unfolding decode_bytes
decode_bytes-escaped c s h = ground (arith, escape_at-hex_digit c h)

decode_bytes-encode_bytes : (v : Bytes) → All IsByte v → decode_bytes (encode_bytes v) ≡ v
unfolding encode_bytes
decode_bytes-encode_bytes [] h = unfold decode_bytes in refl
decode_bytes-encode_bytes (c ∷ cs) h = elim (Bool-cases (must_encode c)) [
  | inl e ↦ rw e (
      decode_bytes-escaped c (encode_bytes cs) h.0.1
      ∙ ap (◌∷◌ c) (decode_bytes-encode_bytes cs h.1))
  | inr e ↦
      rw e
        (decode_bytes-plain c (encode_bytes cs) e ∙ ap (◌∷◌ c) (decode_bytes-encode_bytes cs h.1))
]

-- A value with nothing to encode is left alone by the encoding loop.
encode_bytes_plain : (v : Bytes) → extra v ≡ 0 → encode_bytes v ≡ v
unfolding encode_bytes extra
encode_bytes_plain [] h = refl
encode_bytes_plain (c ∷ cs) h = ground (arith, encode_bytes_plain cs)

pub url_value_encode-some : (v : Bytes) → url_value_encode true (some v) ≡ encode_bytes v
unfolding url_value_encode
url_value_encode-some v = ground (arith, encode_bytes_plain v)

pub IsByte-IsText : (v : Bytes) → All IsByte v → IsText v
IsByte-IsText [] h = tt
IsByte-IsText (c ∷ cs) h = (h.0.0, IsByte-IsText cs h.1)

-- Every value of bytes 1 to 255, encoded with room for the result, decodes to itself.
pub url_value_decode-encode :
    (v : Bytes) → All IsByte v → url_value_decode (some (url_value_encode true (some v))) ≡ some v
unfolding url_value_decode
url_value_decode-encode v h =
    rw (url_value_encode-some v, decode_bytes-encode_bytes v h)
      (ap some (c_string_lem v (IsByte-IsText v h)))

-- The encoding loop writes exactly the `strlen(value) + extra` bytes that were allocated.
pub length-encode_bytes : (v : Bytes) → length (encode_bytes v) ≡ length v + extra v
unfolding encode_bytes extra
length-encode_bytes [] = omega arith
length-encode_bytes (c ∷ cs) = ground (arith, length-encode_bytes cs)

-- The bytes that may stand in an encoded value: the escape lead, and what needs no encoding.
abbrev pub IsSafe : ℕ → Type 0
IsSafe c = (c ≡ b'%') ⊎ (must_encode c ≡ false)

hex_digit-IsSafe : (d : ℕ) → d < 16 → must_encode (hex_digit d) ≡ false
unfolding must_encode hex_digit
hex_digit-IsSafe d h = ground arith

pub encode_bytes-All-IsSafe : (v : Bytes) → All IsByte v → All IsSafe (encode_bytes v)
unfolding encode_bytes
encode_bytes-All-IsSafe [] h = tt
encode_bytes-All-IsSafe (c ∷ cs) h = elim (Bool-cases (must_encode c)) [
  | inl e ↦ rw e (
    inl refl,
    (
      inr (hex_digit-IsSafe (c / 16) (omega arith)),
      (inr (hex_digit-IsSafe (c % 16) (omega arith)), encode_bytes-All-IsSafe cs h.1),
    ),
  )
  | inr e ↦ rw e (inr e, encode_bytes-All-IsSafe cs h.1)
]

-- With room for the result, an encoded value holds only "%" and bytes that need no encoding.
pub url_value_encode-All-IsSafe :
    (v : Bytes) → All IsByte v → All IsSafe (url_value_encode true (some v))
url_value_encode-All-IsSafe v h = rw (url_value_encode-some v) (encode_bytes-All-IsSafe v h)
