-- ===== src/Response/Chunk/Fuel.antt =====
-- Both loops over a chunked body end: fuel beyond the number of bytes changes nothing.
use cor_rest.Base.{
  ◌==◌, Bool-cases, Option-cases, Bytes, length, take, drop, length-drop, c_string, ℕ, zero, suc,
  ◌+◌, ◌≤◌, ◌<◌, ◌≡◌, refl, ap, inl, inr, ◌&&◌, Option, none, some, [], ◌∷◌, ◌++◌, arith,
}
use cor_rest.Response.{cons_line, until_lf, find_crlf}
use cor_rest.Response.Chunk.{
  chunk_size_from, behind_chunk, complete_loop, chunked_complete, strtol16, dechunk_loop, dechunk,
  ChunkSize, size, bad_size, overflowed, Long, plus, minus,
}

until_lf-shorter-cons :
    (c : ℕ) (s line next : Bytes) (o : Option (Bytes × Bytes))
    → ((l n : Bytes) → o ≡ some (l, n) → length n < length s)
    → cons_line c o ≡ some (line, next)
    → length next < suc (length s)
until_lf-shorter-cons c s line next none ih e = absurd (ground arith)
until_lf-shorter-cons c s line next (some (l, n)) ih e =
    let same : n ≡ next = ground arith in omega (arith, ih l n refl, ap length same)

until_lf-shorter : (s line next : Bytes) → until_lf s ≡ some (line, next) → length next < length s
unfolding until_lf
until_lf-shorter [] line next e = absurd (ground arith)
until_lf-shorter (c ∷ s) line next e = elim (Bool-cases (c == 0x0a)) [
  | inl hit ↦ let same : s ≡ next = ground arith in omega (arith, ap length same)
  | inr miss ↦
      let later : cons_line c (until_lf s) ≡ some (line, next) = ground arith in
      until_lf-shorter-cons c s line next (until_lf s) (λ l n p. until_lf-shorter s l n p) later
]

pub find_crlf-shorter :
    (s line next : Bytes) → find_crlf s ≡ some (line, next) → length next < length s
unfolding find_crlf
find_crlf-shorter s line next e = elim (Option-cases (until_lf s)) [
  | inl p ↦ absurd (ground arith)
  | inr ((l, n), p) ↦
      let same : n ≡ next = ground arith in omega (arith, until_lf-shorter s l n p, ap length same)
]

behind_chunk-shorter : (s r : Bytes) → behind_chunk s ≡ some r → length r ≤ length s
unfolding behind_chunk
behind_chunk-shorter [] r e = absurd (ground arith)
behind_chunk-shorter (c ∷ []) r e = ground arith
behind_chunk-shorter (c ∷ d ∷ s) r e = elim (Bool-cases (c == 0x0d && d == 0x0a)) [
  | inl both ↦ let same : s ≡ r = ground arith in omega (arith, ap length same)
  | inr other ↦ elim (Bool-cases (c == 0x0a)) [
    | inl lf ↦ let same : d ∷ s ≡ r = ground arith in omega (arith, ap length same)
    | inr neither ↦ absurd (ground arith)
  ]
]

module _ (c : ℕ) (src line next : Bytes) (found : find_crlf (c ∷ src) ≡ some (line, next)) where
  rest-shorter :
      (k : ℕ) (src' : Bytes) → behind_chunk (drop k next) ≡ some src' → length src' ≤ length src
  rest-shorter k src' e = omega (
    arith,
    find_crlf-shorter (c ∷ src) line next found,
    behind_chunk-shorter (drop k next) src' e,
    length-drop k next,
  )

complete_line-fuel :
    (f g n c : ℕ) (src line next : Bytes) (z : ChunkSize)
    → length (c ∷ src) ≤ suc f
    → length (c ∷ src) ≤ suc g
    → find_crlf (c ∷ src) ≡ some (line, next)
    → chunk_size_from 0 line ≡ z
    → ((n' : ℕ) (src' : Bytes)
        → length src' ≤ f
        → length src' ≤ g
        → complete_loop f n' src' ≡ complete_loop g n' src')
    → complete_loop (suc f) n (c ∷ src) ≡ complete_loop (suc g) n (c ∷ src)
unfolding complete_loop
complete_line-fuel f g n c src line next bad_size h k found at ih = ground arith
complete_line-fuel f g n c src line next overflowed h k found at ih = ground arith
complete_line-fuel f g n c src line next (size zero) h k found at ih = ground arith
complete_line-fuel f g n c src line next (size (suc i)) h k found at ih =
    elim (Option-cases (behind_chunk (drop (suc i) next))) [
      | inl e ↦ ground arith
      | inr (src', e) ↦
          let short = rest-shorter c src line next found (suc i) src' e in
          let same = ih (n + suc i) src' (omega arith) (omega arith) in ground arith
    ]

pub complete_loop-fuel :
    (f g n : ℕ) (src : Bytes)
    → length src ≤ f
    → length src ≤ g
    → complete_loop f n src ≡ complete_loop g n src
unfolding complete_loop
complete_loop-fuel zero zero n src h k = refl
complete_loop-fuel zero (suc g) n [] h k = refl
complete_loop-fuel zero (suc g) n (c ∷ src) h k = absurd (omega arith)
complete_loop-fuel (suc f) zero n [] h k = refl
complete_loop-fuel (suc f) zero n (c ∷ src) h k = absurd (omega arith)
complete_loop-fuel (suc f) (suc g) n [] h k = refl
complete_loop-fuel (suc f) (suc g) n (c ∷ src) h k = elim (Option-cases (find_crlf (c ∷ src))) [
  | inl e ↦ ground arith
  | inr ((line, next), found) ↦
      complete_line-fuel f g n c src line next _ h k found refl
        (λ n' src' p q. complete_loop-fuel f g n' src' p q)
]

dechunk_line-fuel :
    (f g c : ℕ) (out src line next : Bytes) (z : Long)
    → length (c ∷ src) ≤ suc f
    → length (c ∷ src) ≤ suc g
    → find_crlf (c ∷ src) ≡ some (line, next)
    → strtol16 (c_string line) ≡ z
    → ((out' src' : Bytes)
        → length src' ≤ f
        → length src' ≤ g
        → dechunk_loop f out' src' ≡ dechunk_loop g out' src')
    → dechunk_loop (suc f) out (c ∷ src) ≡ dechunk_loop (suc g) out (c ∷ src)
unfolding dechunk_loop
dechunk_line-fuel f g c out src line next (plus zero) h k found at ih = ground arith
dechunk_line-fuel f g c out src line next (minus zero) h k found at ih = ground arith
dechunk_line-fuel f g c out src line next (minus (suc i)) h k found at ih = ground arith
dechunk_line-fuel f g c out src line next (plus (suc i)) h k found at ih =
    elim (Option-cases (behind_chunk (drop (suc i) next))) [
      | inl e ↦ ground arith
      | inr (src', e) ↦
          let short = rest-shorter c src line next found (suc i) src' e in
          let same = ih (out ++ take (suc i) next) src' (omega arith) (omega arith) in ground arith
    ]

pub dechunk_loop-fuel :
    (f g : ℕ) (out src : Bytes)
    → length src ≤ f
    → length src ≤ g
    → dechunk_loop f out src ≡ dechunk_loop g out src
unfolding dechunk_loop
dechunk_loop-fuel zero zero out src h k = refl
dechunk_loop-fuel zero (suc g) out [] h k = refl
dechunk_loop-fuel zero (suc g) out (c ∷ src) h k = absurd (omega arith)
dechunk_loop-fuel (suc f) zero out [] h k = refl
dechunk_loop-fuel (suc f) zero out (c ∷ src) h k = absurd (omega arith)
dechunk_loop-fuel (suc f) (suc g) out [] h k = refl
dechunk_loop-fuel (suc f) (suc g) out (c ∷ src) h k = elim (Option-cases (find_crlf (c ∷ src))) [
  | inl e ↦ ground arith
  | inr ((line, next), found) ↦
      dechunk_line-fuel f g c out src line next _ h k found refl
        (λ out' src' p q. dechunk_loop-fuel f g out' src' p q)
]

-- Both loops over a chunked body end: with more fuel than there are bytes, the answers of the check
-- and of the decoder are the same as with as much as there are bytes.
pub chunked-fuel :
    (extra : ℕ) (src : Bytes)
    → (complete_loop (length src + extra) 0 src ≡ chunked_complete src)
      × (dechunk_loop (length src + extra) [] src ≡ dechunk src)
unfolding chunked_complete dechunk
chunked-fuel extra src = (
  complete_loop-fuel (length src + extra) (length src) 0 src (omega arith) (omega arith),
  dechunk_loop-fuel (length src + extra) (length src) [] src (omega arith) (omega arith),
)
