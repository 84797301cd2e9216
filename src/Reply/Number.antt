-- ===== src/Reply/Number.antt =====
-- strtoull on the digits of a number.
use cor_rest.Base.{
  leb, ◌==◌, Bytes, length, All, ℕ, ◌+◌, ◌-◌, ◌*◌, ◌^◌, ◌≤◌, ◌<◌, ◌≡◌, refl, sym, ap, ◌∙◌, subst,
  false, not, ◌&&◌, ◌||◌, some, [], ◌∷◌, arith,
}
use cor_rest.Reply.{digits_ull, or_most, skip_isspace, strtoull}

abbrev pub IsDigit : ℕ → Type 0
IsDigit c = (b'0' ≤ c) × (c ≤ b'9')

-- What digits stand for, behind those of n
abbrev pub value : ℕ → Bytes → ℕ
value n [] = n
value n (c ∷ s) = value (n * 10 + (c - b'0')) s

-- The digits of a number that 64 bits hold
pub record IsNumber (text : Bytes) (v : ℕ) : Type 0 where
  pub digits : All IsDigit text
  pub some_digits : 0 < length text
  pub is_value : value 0 text ≡ v
  pub fits : v < 2 ^ 64

value-ge : (n : ℕ) (s : Bytes) → n ≤ value n s
value-ge n [] = omega arith
value-ge n (c ∷ s) = omega (arith, value-ge (n * 10 + (c - b'0')) s)

digits_ull-value :
    (n : ℕ) (s : Bytes) → All IsDigit s → value n s < 2 ^ 64 → digits_ull n s ≡ some (value n s)
unfolding digits_ull
digits_ull-value n [] h small = refl
digits_ull-value n (c ∷ s) h small =
    let next = n * 10 + (c - b'0') in
    let digit : not (leb b'0' c && leb c b'9') ≡ false = ground (arith, h.0) in
    let fits : leb (2 ^ 64) next ≡ false = ground (arith, value-ge next s, small) in
    rw (digit, fits) (digits_ull-value next s h.1 small)

strtoull-digits :
    (text : Bytes)
    → All IsDigit text
    → 0 < length text
    → value 0 text < 2 ^ 64
    → strtoull text ≡ value 0 text
unfolding strtoull skip_isspace
strtoull-digits [] h some_digits small = absurd (omega arith)
strtoull-digits (c ∷ s) h some_digits small =
    let no_space : (c == 0x20 || leb 0x09 c && leb c 0x0d) ≡ false = ground (arith, h.0) in
    let no_minus : (c == b'-') ≡ false = ground (arith, h.0) in
    let no_plus : (c == b'+') ≡ false = ground (arith, h.0) in
    let at_digit : skip_isspace (c ∷ s) ≡ c ∷ s = rw (no_space, skip_isspace) refl in
    rw (at_digit, no_minus, no_plus, strtoull) (ap or_most (digits_ull-value 0 (c ∷ s) h small))

pub strtoull-IsNumber : (text : Bytes) (v : ℕ) → IsNumber text v → strtoull text ≡ v
strtoull-IsNumber text v h =
    let small = subst (λ n. n < 2 ^ 64) (sym h.is_value) h.fits in
    strtoull-digits text h.digits h.some_digits small ∙ h.is_value
