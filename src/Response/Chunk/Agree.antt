-- ===== src/Response/Chunk/Agree.antt =====
-- The read-only check of a chunked body and the decoder agree.
use cor_rest.Base.{
  ltb, leb, ◌==◌, Bool-cases, Option-cases, Bytes, length, take, drop, length-append, length-take,
  c_string, ℕ, zero, suc, ◌+◌, ◌-◌, ◌*◌, ◌^◌, ◌≤◌, ◌≡◌, refl, sym, ap, ◌∙◌, subst, inl, inr, true,
  false, ◌||◌, some, [], ◌∷◌, ◌++◌, arith,
}
use cor_rest.Response.{find_crlf}
use cor_rest.Response.Chunk.{
  chunk_digit, chunk_size_from, behind_chunk, complete_loop, chunked_complete, is_space, skip_space,
  digits_value, skip_0x, strtol16, dechunk_loop, dechunk, ChunkSize, size, bad_size, overflowed,
  complete, plus, decoded,
}

-- A byte that a size line can hold: a hexadecimal digit or the semicolon.
pub record IsSizeByte (c : ℕ) : Type 0 where
  pub not_nul : (c == 0) ≡ false
  pub not_space : is_space c ≡ false
  pub not_minus : (c == b'-') ≡ false
  pub not_plus : (c == b'+') ≡ false
  pub not_x : (c == b'x' || c == b'X') ≡ false

IsSizeByte-chunk_digit : (c d : ℕ) → chunk_digit c ≡ some d → IsSizeByte c
unfolding chunk_digit
IsSizeByte-chunk_digit c d h = record {
  not_nul = ground arith;
  not_space = ground arith;
  not_minus = ground arith;
  not_plus = ground arith;
  not_x = ground arith;
}

IsSizeByte-semicolon : (c : ℕ) → (c == b';') ≡ true → IsSizeByte c
IsSizeByte-semicolon c h = record {
  not_nul = ground arith;
  not_space = ground arith;
  not_minus = ground arith;
  not_plus = ground arith;
  not_x = ground arith;
}

IsSizeByte-chunk_size_from :
    (n c k : ℕ) (s : Bytes) → chunk_size_from n (c ∷ s) ≡ size k → IsSizeByte c
unfolding chunk_size_from
IsSizeByte-chunk_size_from n c k s h = elim (Option-cases (chunk_digit c)) [
  | inr (d, e) ↦ IsSizeByte-chunk_digit c d e
  | inl e ↦ IsSizeByte-semicolon c (ground arith)
]

digits_value-chunk_size_from :
    (n k : ℕ) (s : Bytes)
    → chunk_size_from n s ≡ size k
    → digits_value (2 ^ 63 - 1) n (c_string s) ≡ k
unfolding chunk_size_from digits_value c_string
digits_value-chunk_size_from n k [] h = ground arith
digits_value-chunk_size_from n k (c ∷ s) h =
    let nonzero = (IsSizeByte-chunk_size_from n c k s h).not_nul in
    elim (Option-cases (chunk_digit c)) [
      | inl e ↦ ground arith
      | inr (d, e) ↦
          let small : leb (2 ^ 63) (n * 16 + d) ≡ false = ground arith in
          let later : chunk_size_from (n * 16 + d) s ≡ size k = ground arith in
          let rest = digits_value-chunk_size_from (n * 16 + d) k s later in
          let fits : ltb (2 ^ 63 - 1) (n * 16 + d) ≡ false = ground arith in ground arith
    ]

skip_0x-second :
    (c x : ℕ) (s : Bytes) → (x == b'x' || x == b'X') ≡ false → skip_0x (c ∷ x ∷ s) ≡ c ∷ x ∷ s
unfolding skip_0x
skip_0x-second c x s h = ground arith

skip_0x-c_string :
    (n c k : ℕ) (s : Bytes)
    → chunk_size_from n (c ∷ s) ≡ size k
    → skip_0x (c ∷ c_string s) ≡ c ∷ c_string s
unfolding c_string skip_0x chunk_size_from
skip_0x-c_string n c k [] h = refl
skip_0x-c_string n c k (x ∷ s) h = elim (Bool-cases (x == 0)) [
  | inl nul ↦ rw nul refl
  | inr z ↦ elim (Option-cases (chunk_digit c)) [
    | inl e ↦
        let semi : (c == b';') ≡ true = ground arith in
        let first : (c == b'0') ≡ false = ground arith in rw (z, first) refl
    | inr (d, e) ↦
        let later : chunk_size_from (n * 16 + d) (x ∷ s) ≡ size k = ground arith in
        rw z (
          skip_0x-second c x (c_string s)
            (IsSizeByte-chunk_size_from (n * 16 + d) x k s later).not_x)
  ]
]

strtol16_plain :
    (c : ℕ) (t : Bytes)
    → IsSizeByte c
    → skip_0x (c ∷ t) ≡ c ∷ t
    → strtol16 (c ∷ t) ≡ plus (digits_value (2 ^ 63 - 1) 0 (c ∷ t))
unfolding strtol16 skip_space
strtol16_plain c t b h =
    let space = b.not_space in let minus' = b.not_minus in let plus' = b.not_plus in ground arith

-- Where the check reads a size from the line, strtol reads the same size from it.
pub strtol16-chunk_size_from :
    (k : ℕ) (line : Bytes) → chunk_size_from 0 line ≡ size k → strtol16 (c_string line) ≡ plus k
unfolding c_string chunk_size_from strtol16 skip_space
strtol16-chunk_size_from k [] h = ground arith
strtol16-chunk_size_from k (c ∷ s) h =
    let b = IsSizeByte-chunk_size_from 0 c k s h in
    let nul : c_string (c ∷ s) ≡ c ∷ c_string s = rw (b.not_nul) refl in
    let value = digits_value-chunk_size_from 0 k (c ∷ s) h in
    subst (λ t. strtol16 t ≡ plus k) (sym nul)
      (strtol16_plain c (c_string s) b (skip_0x-c_string 0 c k s h)
        ∙ ap plus (subst (λ t. digits_value (2 ^ 63 - 1) 0 t ≡ k) nul value))

-- What the loop of the decoder answers when the loop of the check finds a complete body.
pub Decodes : ℕ → ℕ → Bytes → Bytes → Type 0
Decodes fuel n out src = (b : Bytes) × (dechunk_loop fuel out src ≡ decoded b) × (length b ≡ n)

dechunk_loop-step :
    (fuel n : ℕ) (out line next src' : Bytes) (k c : ℕ) (src : Bytes)
    → find_crlf (c ∷ src) ≡ some (line, next)
    → strtol16 (c_string line) ≡ plus (suc k)
    → leb (2 ^ 63) (suc k + 2) ≡ false
    → ltb (length next) (suc k + 2) ≡ false
    → behind_chunk (drop (suc k) next) ≡ some src'
    → Decodes fuel n (out ++ take (suc k) next) src'
    → Decodes (suc fuel) n out (c ∷ src)
unfolding dechunk_loop Decodes
dechunk_loop-step fuel n out line next src' k c src found value small long behind (b, e, l) =
    (b, ground arith, l)

-- The same below one size line, by the size that the check reads from it.
complete_line-Decodes :
    (fuel m n : ℕ) (out line next : Bytes) (c : ℕ) (src : Bytes) (z : ChunkSize)
    → ((m' : ℕ) (out' src' : Bytes)
        → complete_loop fuel m' src' ≡ complete n
        → length out' ≡ m'
        → Decodes fuel n out' src')
    → complete_loop (suc fuel) m (c ∷ src) ≡ complete n
    → length out ≡ m
    → find_crlf (c ∷ src) ≡ some (line, next)
    → chunk_size_from 0 line ≡ z
    → Decodes (suc fuel) n out (c ∷ src)
unfolding complete_loop Decodes dechunk_loop
complete_line-Decodes fuel m n out line next c src bad_size ih h l found at = absurd (ground arith)
complete_line-Decodes fuel m n out line next c src overflowed ih h l found at =
    absurd (ground arith)
complete_line-Decodes fuel m n out line next c src (size zero) ih h l found at =
    let value = strtol16-chunk_size_from 0 line at in
    let same : m ≡ n = ground arith in (out, ground arith, l ∙ same)
complete_line-Decodes fuel m n out line next c src (size (suc k)) ih h l found at =
    let value = strtol16-chunk_size_from (suc k) line at in
    let small : leb (2 ^ 63) (suc k + 2) ≡ false = ground arith in
    let long : ltb (length next) (suc k + 2) ≡ false = ground arith in
    elim (Option-cases (behind_chunk (drop (suc k) next))) [
      | inl e ↦ absurd (ground arith)
      | inr (src', e) ↦
          let later : complete_loop fuel (m + suc k) src' ≡ complete n = ground arith in
          let room : suc k ≤ length next = ground arith in
          dechunk_loop-step fuel n out line next src' k c src found value small long e (
            ih (m + suc k) (out ++ take (suc k) next) src' later
              (omega (arith, length-append out (take (suc k) next), length-take (suc k) next room)))
    ]

pub complete_loop-Decodes :
    (fuel m n : ℕ) (out src : Bytes)
    → complete_loop fuel m src ≡ complete n
    → length out ≡ m
    → Decodes fuel n out src
unfolding complete_loop Decodes
complete_loop-Decodes zero m n out src h l = absurd (ground arith)
complete_loop-Decodes (suc fuel) m n out [] h l = absurd (ground arith)
complete_loop-Decodes (suc fuel) m n out (c ∷ src) h l = elim (Option-cases (find_crlf (c ∷ src))) [
  | inl e ↦ absurd (ground arith)
  | inr ((line, next), e) ↦
      complete_line-Decodes fuel m n out line next c src _
        (λ m' out' src' h' l'. complete_loop-Decodes fuel m' n out' src' h' l') h l e refl
]

-- Where the read-only check finds a complete chunked body of n bytes, the decoder, run on the same
-- bytes, answers 0 and leaves a body of n bytes.
pub chunked_complete-dechunk :
    (src : Bytes) (n : ℕ)
    → chunked_complete src ≡ complete n
    → (b : Bytes) × (dechunk src ≡ decoded b) × (length b ≡ n)
unfolding chunked_complete dechunk Decodes
chunked_complete-dechunk src n h = complete_loop-Decodes (length src) 0 n [] src h refl
