-- ===== src/Client/Base64/RoundTrip.antt =====
-- A reader of Base64, by RFC 4648, gets the bytes back.
use cor_rest.Base.{
  leb, ◌==◌, if◌then◌else◌, Bytes, length, All, ℕ, ◌+◌, ◌-◌, ◌*◌, ◌/◌, ◌%◌, ◌^◌, ◌≤◌, ◌<◌, ◌≡◌,
  refl, ap, ◌∙◌, false, ◌&&◌, Option, none, some, [], ◌∷◌, ◌++◌, arith,
}
use cor_rest.Client.Base64.{alphabet, sextet, base64}

-- The value of a byte of the alphabet.
unfoldable pub letter_value : ℕ → Option ℕ
letter_value c =
    if leb b'A' c && leb c b'Z'
    then some (c - b'A')
    else if leb b'a' c && leb c b'z'
    then some (c - b'a' + 26)
    else if leb b'0' c && leb c b'9'
    then some (c - b'0' + 52)
    else if c == b'+'
    then some 62
    else if c == b'/'
    then some 63
    else none

unfoldable pub with_letter : {A : Type 0} → ℕ → (ℕ → Option A) → Option A
unfolding letter_value
with_letter c f = elim (letter_value c) [ none ↦ none | some n ↦ f n ]

abbrev pub put_bytes : Bytes → Option Bytes → Option Bytes
put_bytes front none = none
put_bytes front (some s) = some (front ++ s)

-- Four letters at a time, the last of them with "=" for what is not there.
unfoldable pub read_base64 : Bytes → Option Bytes
unfolding with_letter
read_base64 [] = some []
read_base64 (p ∷ q ∷ r ∷ s ∷ rest) =
    let later = read_base64 rest in
    with_letter p λ i. with_letter q λ j.
      if r == b'='
      then some ((i * 4 + j / 16) ∷ [])
      else with_letter r λ k.
        if s == b'='
        then some ((i * 4 + j / 16) ∷ (j % 16 * 16 + k / 4) ∷ [])
        else with_letter s
            λ l. put_bytes ((i * 4 + j / 16) ∷ (j % 16 * 16 + k / 4) ∷ (k % 4 * 64 + l) ∷ []) later
read_base64 _ = none

letter_value-alphabet : (n : ℕ) → n < 64 → letter_value (alphabet n) ≡ some n
unfolding alphabet letter_value
letter_value-alphabet n h = ground arith

alphabet-pad : (n : ℕ) → n < 64 → (alphabet n == b'=') ≡ false
unfolding alphabet
alphabet-pad n h = ground arith

-- The three bytes that four sextets of a 24-bit number stand for.
module _ (a b c : ℕ) (ha : a < 256) (hb : b < 256) (hc : c < 256) where
  abbrev word : ℕ
  word = a * 2 ^ 16 + b * 2 ^ 8 + c

  first_byte : sextet word 18 * 4 + sextet word 12 / 16 ≡ a
  first_byte = omega arith

  second_byte : sextet word 12 % 16 * 16 + sextet word 6 / 4 ≡ b
  second_byte = omega arith

  third_byte : sextet word 6 % 4 * 64 + sextet word 0 ≡ c
  third_byte = omega arith

read_quad :
    (i j k l : ℕ) (rest : Bytes)
    → i < 64
    → j < 64
    → k < 64
    → l < 64
    → read_base64 (alphabet i ∷ alphabet j ∷ alphabet k ∷ alphabet l ∷ rest)
      ≡ put_bytes
          ((i * 4 + j / 16) ∷ (j % 16 * 16 + k / 4) ∷ (k % 4 * 64 + l) ∷ [])
          (read_base64 rest)
unfolding read_base64 with_letter
read_quad i j k l rest hi hj hk hl =
    let pad = alphabet-pad k hk in
    let pad' = alphabet-pad l hl in
    let at_i = letter_value-alphabet i hi in
    let at_j = letter_value-alphabet j hj in
    let at_k = letter_value-alphabet k hk in let at_l = letter_value-alphabet l hl in ground arith

read_three :
    (i j k : ℕ)
    → i < 64
    → j < 64
    → k < 64
    → read_base64 (alphabet i ∷ alphabet j ∷ alphabet k ∷ b'=' ∷ [])
      ≡ some ((i * 4 + j / 16) ∷ (j % 16 * 16 + k / 4) ∷ [])
unfolding read_base64 with_letter
read_three i j k hi hj hk =
    let pad = alphabet-pad k hk in
    let at_i = letter_value-alphabet i hi in
    let at_j = letter_value-alphabet j hj in let at_k = letter_value-alphabet k hk in ground arith

read_two :
    (i j : ℕ)
    → i < 64
    → j < 64
    → read_base64 (alphabet i ∷ alphabet j ∷ b'=' ∷ b'=' ∷ []) ≡ some ((i * 4 + j / 16) ∷ [])
unfolding read_base64 with_letter
read_two i j hi hj =
    let at_i = letter_value-alphabet i hi in let at_j = letter_value-alphabet j hj in ground arith

-- The text that is made of any bytes below 256 is read back as these bytes.
pub read_base64-base64 : (s : Bytes) → All (λ c. c < 256) s → read_base64 (base64 s) ≡ some s
unfolding base64
read_base64-base64 [] h = unfold read_base64 in refl
read_base64-base64 (a ∷ []) h =
    let v = a * 2 ^ 16 in
    read_two (sextet v 18) (sextet v 12) (omega arith) (omega arith)
    ∙ ap (λ x. some (x ∷ [])) (omega (arith, h.0))
read_base64-base64 (a ∷ b ∷ []) h =
    let v = a * 2 ^ 16 + b * 2 ^ 8 in
    read_three (sextet v 18) (sextet v 12) (sextet v 6) (omega arith) (omega arith) (omega arith)
    ∙ ap (λ x. some (x ∷ (sextet v 12 % 16 * 16 + sextet v 6 / 4) ∷ [])) (omega (arith, h.0, h.1.0))
    ∙ ap (λ x. some (a ∷ x ∷ [])) (omega (arith, h.0, h.1.0))
read_base64-base64 (a ∷ b ∷ c ∷ s) h =
    let v = word a b c h.0 h.1.0 h.1.1.0 in
    read_quad (sextet v 18) (sextet v 12) (sextet v 6) (sextet v 0) (base64 s) (omega arith)
      (omega arith) (omega arith) (omega arith)
    ∙ ap
        (put_bytes (
          (sextet v 18 * 4 + sextet v 12 / 16)
          ∷ (sextet v 12 % 16 * 16 + sextet v 6 / 4)
          ∷ (sextet v 6 % 4 * 64 + sextet v 0)
          ∷ []))
        (read_base64-base64 s h.1.1.1)
    ∙ ap
        (λ x.
          some
            (x ∷ (sextet v 12 % 16 * 16 + sextet v 6 / 4) ∷ (sextet v 6 % 4 * 64 + sextet v 0) ∷ s))
        (first_byte a b c h.0 h.1.0 h.1.1.0)
    ∙ ap (λ x. some (a ∷ x ∷ (sextet v 6 % 4 * 64 + sextet v 0) ∷ s))
        (second_byte a b c h.0 h.1.0 h.1.1.0)
    ∙ ap (λ x. some (a ∷ b ∷ x ∷ s)) (third_byte a b c h.0 h.1.0 h.1.1.0)

-- With its NUL the text fits the len * 4 / 3 + 4 bytes that it is given room for, and it is no
-- shorter than four letters for every three bytes.
pub length-base64 :
    (s : Bytes)
    → (length (base64 s) + 1 ≤ length s * 4 / 3 + 4) × (length s * 4 ≤ length (base64 s) * 3)
unfolding base64
length-base64 [] = (omega arith, omega arith)
length-base64 (a ∷ []) = (omega arith, omega arith)
length-base64 (a ∷ b ∷ []) = (omega arith, omega arith)
length-base64 (a ∷ b ∷ c ∷ s) = let (l, m) = length-base64 s in (omega (arith, l), omega (arith, m))
