-- ===== src/Response/Chunk/Rounds.antt =====
-- One printed chunk is one round of the check and of the decoder.
use cor_rest.Base.{
  ltb, leb, ◌==◌, if◌then◌else◌, Bool-cases, Bytes, length, take, drop, length-append, take-append,
  drop-append, All, c_string, ℕ, zero, suc, ◌+◌, ◌-◌, ◌*◌, ◌^◌, ◌≤◌, ◌<◌, ◌≡◌, refl, sym, ap, ◌∙◌,
  subst, inl, inr, false, some, List, [], ◌∷◌, ◌++◌, map, arith,
}
use cor_rest.Response.{drop_cr, until_lf, find_crlf}
use cor_rest.Response.Chunk.{
  chunk_digit, chunk_size_from, behind_chunk, complete_loop, strtol16, dechunk_loop, size, plus,
}
use cor_rest.Response.Chunk.Agree.{strtol16-chunk_size_from}

-- A chunk as a sender makes it: the hexadecimal digits of its size, and its bytes.
pub record Piece : Type 0 where
  pub digits : List ℕ
  pub bytes : Bytes

abbrev pub print_digit : ℕ → ℕ
print_digit d = if ltb d 10 then b'0' + d else b'a' + (d - 10)

abbrev pub number_from : ℕ → List ℕ → ℕ
number_from n [] = n
number_from n (d ∷ ds) = number_from (n * 16 + d) ds

-- The size is not zero, is the number of the bytes and is less than 2^31.
pub record IsPiece (p : Piece) : Type 0 where
  pub all_digits : All (λ d. d < 16) p.digits
  pub right : number_from 0 p.digits ≡ length p.bytes
  pub nonempty : 0 < length p.bytes
  pub small : length p.bytes < 2 ^ 31

-- The pieces, with CRLF at the end of each line and each piece, the last chunk and what is behind it.
abbrev pub print_pieces : List Piece → Bytes → Bytes
print_pieces [] rest = b'0' ∷ 0x0d ∷ 0x0a ∷ 0x0d ∷ 0x0a ∷ rest
print_pieces (p ∷ ps) rest =
    map print_digit p.digits ++ 0x0d ∷ 0x0a ∷ (p.bytes ++ 0x0d ∷ 0x0a ∷ print_pieces ps rest)

abbrev pub all_bytes : List Piece → Bytes
all_bytes [] = []
all_bytes (p ∷ ps) = p.bytes ++ all_bytes ps

chunk_digit-print_digit : (d : ℕ) → d < 16 → chunk_digit (print_digit d) ≡ some d
unfolding chunk_digit
chunk_digit-print_digit d h = elim (Bool-cases (ltb d 10)) [
  | inl e ↦ ground arith
  | inr e ↦ ground arith
]

number_from-le : (n : ℕ) (ds : List ℕ) → n ≤ number_from n ds
number_from-le n [] = omega arith
number_from-le n (d ∷ ds) = omega (arith, number_from-le (n * 16 + d) ds)

chunk_size_from-print :
    (n : ℕ) (ds : List ℕ)
    → All (λ d. d < 16) ds
    → number_from n ds < 2 ^ 31
    → chunk_size_from n (map print_digit ds) ≡ size (number_from n ds)
unfolding chunk_size_from
chunk_size_from-print n [] h k = refl
chunk_size_from-print n (d ∷ ds) h k =
    let digit = chunk_digit-print_digit d h.0 in
    let more = number_from-le (n * 16 + d) ds in
    let fits : leb (2 ^ 63) (n * 16 + d) ≡ false = ground arith in
    let later = chunk_size_from-print (n * 16 + d) ds h.1 k in ground arith

until_lf-line :
    (ds : List ℕ) (rest : Bytes)
    → All (λ d. d < 16) ds
    → until_lf (map print_digit ds ++ 0x0d ∷ 0x0a ∷ rest)
      ≡ some (map print_digit ds ++ 0x0d ∷ [], rest)
unfolding until_lf
until_lf-line [] rest h = refl
until_lf-line (d ∷ ds) rest h =
    let other : (print_digit d == 0x0a) ≡ false = ground arith in
    let later = until_lf-line ds rest h.1 in rw (other, later) refl

pub drop_cr-line : (s : Bytes) → drop_cr (s ++ 0x0d ∷ []) ≡ s
unfolding drop_cr
drop_cr-line [] = refl
drop_cr-line (c ∷ []) = refl
drop_cr-line (c ∷ d ∷ s) = ap (◌∷◌ c) (drop_cr-line (d ∷ s))

find_crlf-line :
    (ds : List ℕ) (rest : Bytes)
    → All (λ d. d < 16) ds
    → find_crlf (map print_digit ds ++ 0x0d ∷ 0x0a ∷ rest) ≡ some (map print_digit ds, rest)
unfolding find_crlf
find_crlf-line ds rest h =
    let line = until_lf-line ds rest h in
    let bare = drop_cr-line (map print_digit ds) in ground arith

module _ (fuel : ℕ) (line next src' : Bytes) where
  complete_loop-go :
      (src : Bytes) (m : ℕ)
      → find_crlf src ≡ some (line, next)
      → chunk_size_from 0 line ≡ size m
      → 0 < m
      → m < 2 ^ 31
      → m + 2 ≤ length next
      → behind_chunk (drop m next) ≡ some src'
      → (n : ℕ) → complete_loop (suc fuel) n src ≡ complete_loop fuel (n + m) src'
  unfolding complete_loop find_crlf until_lf
  complete_loop-go [] m found at some_bytes small long behind n = absurd (ground arith)
  complete_loop-go (c ∷ s) zero found at some_bytes small long behind n = absurd (omega arith)
  complete_loop-go (c ∷ s) (suc k) found at some_bytes small long behind n =
      let fits : leb (2 ^ 63) (suc k + 2) ≡ false = ground arith in
      let there : ltb (length next) (suc k + 2) ≡ false = ground arith in ground arith

  dechunk_loop-go :
      (src : Bytes) (m : ℕ)
      → find_crlf src ≡ some (line, next)
      → strtol16 (c_string line) ≡ plus m
      → 0 < m
      → m < 2 ^ 31
      → m + 2 ≤ length next
      → behind_chunk (drop m next) ≡ some src'
      → (out : Bytes)
      → dechunk_loop (suc fuel) out src ≡ dechunk_loop fuel (out ++ take m next) src'
  unfolding dechunk_loop find_crlf until_lf
  dechunk_loop-go [] m found at some_bytes small long behind out = absurd (ground arith)
  dechunk_loop-go (c ∷ s) zero found at some_bytes small long behind out = absurd (omega arith)
  dechunk_loop-go (c ∷ s) (suc k) found at some_bytes small long behind out =
      let fits : leb (2 ^ 63) (suc k + 2) ≡ false = ground arith in
      let there : ltb (length next) (suc k + 2) ≡ false = ground arith in ground arith

-- One round of either loop, on a line that names the size m.
module _ (fuel m : ℕ) (src line next src' : Bytes) (found : find_crlf src ≡ some (line, next))
    (at : chunk_size_from 0 line ≡ size m) (some_bytes : 0 < m) (small : m < 2 ^ 31)
    (long : m + 2 ≤ length next) (behind : behind_chunk (drop m next) ≡ some src') where
  complete_loop-round : (n : ℕ) → complete_loop (suc fuel) n src ≡ complete_loop fuel (n + m) src'
  complete_loop-round n =
      complete_loop-go fuel line next src' src m found at some_bytes small long behind n

  dechunk_loop-round :
      (out : Bytes) → dechunk_loop (suc fuel) out src ≡ dechunk_loop fuel (out ++ take m next) src'
  dechunk_loop-round out =
      dechunk_loop-go fuel line next src' src m found (strtol16-chunk_size_from m line at)
        some_bytes small long behind out

-- One printed piece, with anything behind it, is one round.
module _ (p : Piece) (ok : IsPiece p) (rest : Bytes) where
  abbrev printed : Bytes
  printed = map print_digit p.digits ++ 0x0d ∷ 0x0a ∷ (p.bytes ++ 0x0d ∷ 0x0a ∷ rest)

  behind_chunk-piece :
      behind_chunk (drop (length p.bytes) (p.bytes ++ 0x0d ∷ 0x0a ∷ rest)) ≡ some rest
  unfolding behind_chunk
  behind_chunk-piece =
      subst (λ t. behind_chunk t ≡ some rest) (sym (drop-append p.bytes (0x0d ∷ 0x0a ∷ rest))) refl

  piece_found : find_crlf printed ≡ some (map print_digit p.digits, p.bytes ++ 0x0d ∷ 0x0a ∷ rest)
  piece_found = find_crlf-line p.digits (p.bytes ++ 0x0d ∷ 0x0a ∷ rest) ok.all_digits

  piece_size : chunk_size_from 0 (map print_digit p.digits) ≡ size (length p.bytes)
  piece_size =
      let fits : number_from 0 p.digits < 2 ^ 31 = omega (arith, ok.right, ok.small) in
      chunk_size_from-print 0 p.digits ok.all_digits fits ∙ ap size ok.right

  piece_long : length p.bytes + 2 ≤ length (p.bytes ++ 0x0d ∷ 0x0a ∷ rest)
  piece_long = omega (arith, length-append p.bytes (0x0d ∷ 0x0a ∷ rest))

  pub complete_loop-piece :
      (fuel n : ℕ)
      → complete_loop (suc fuel) n printed ≡ complete_loop fuel (n + length p.bytes) rest
  complete_loop-piece fuel n =
      complete_loop-round fuel (length p.bytes) printed _ _ rest piece_found piece_size ok.nonempty
        ok.small piece_long behind_chunk-piece n

  pub dechunk_loop-piece :
      (fuel : ℕ) (out : Bytes)
      → dechunk_loop (suc fuel) out printed ≡ dechunk_loop fuel (out ++ p.bytes) rest
  dechunk_loop-piece fuel out =
      dechunk_loop-round fuel (length p.bytes) printed _ _ rest piece_found piece_size ok.nonempty
        ok.small piece_long behind_chunk-piece out
      ∙ ap (λ t. dechunk_loop fuel (out ++ t) rest) (take-append p.bytes (0x0d ∷ 0x0a ∷ rest))
