-- ===== src/Response/Chunk.antt =====
-- chunkedComplete and dechunk of corRestClientParse.c. A buffer has fewer than 2^31 bytes, so the
-- body length does not overflow; a chunk size is a long, whose overflow is undefined behaviour.
pub mod Fuel
pub mod Agree
pub mod Rounds
pub mod RoundTrip
use cor_rest.Base.{
  ltb, leb, ◌==◌, if◌then◌else◌, Bytes, length, take, drop, c_string, ℕ, zero, suc, ◌+◌, ◌-◌, ◌*◌,
  ◌^◌, Bool, ◌&&◌, ◌||◌, Option, none, some, [], ◌∷◌, ◌++◌,
}
use cor_rest.Response.{find_crlf}

unfoldable pub chunk_digit : ℕ → Option ℕ
chunk_digit c =
    if leb b'0' c && leb c b'9'
    then some (c - b'0')
    else if leb b'a' c && leb c b'f'
    then some (c - b'a' + 10)
    else if leb b'A' c && leb c b'F'
    then some (c - b'A' + 10)
    else none

pub data ChunkSize : Type 0 where
  size : ℕ → ChunkSize
  bad_size overflowed : ChunkSize

-- The loop over the size line.
unfoldable pub chunk_size_from : ℕ → Bytes → ChunkSize
chunk_size_from n [] = size n
chunk_size_from n (c ∷ s) = elim (chunk_digit c) [
  | some d ↦
      let rest = chunk_size_from (n * 16 + d) s in
      if leb (2 ^ 63) (n * 16 + d) then overflowed else rest
  | none ↦ if c == b';' then size n else bad_size
]

-- The answer of chunkedComplete: 0 with the length of the body, 1 or -1.
pub data Completion : Type 0 where
  complete : ℕ → Completion
  incomplete malformed undefined : Completion

-- What follows a chunk of n bytes and the end of line behind it.
unfoldable pub behind_chunk : Bytes → Option Bytes
behind_chunk (c ∷ d ∷ s) =
    if c == 0x0d && d == 0x0a then some s else if c == 0x0a then some (d ∷ s) else none
behind_chunk (c ∷ []) = if c == 0x0a then some [] else none
behind_chunk [] = none

-- chunkedComplete, from `src` on; the fuel bounds the chunks.
unfoldable pub complete_loop : ℕ → ℕ → Bytes → Completion
unfolding find_crlf behind_chunk
complete_loop zero n src = incomplete
complete_loop (suc fuel) n [] = incomplete
complete_loop (suc fuel) n (c ∷ src) = elim (find_crlf (c ∷ src)) [
  | none ↦ incomplete
  | some (line, next) ↦ elim (chunk_size_from 0 line) [
    | bad_size ↦ malformed
    | overflowed ↦ undefined
    | size zero ↦ complete n
    | size (suc k) ↦
        if leb (2 ^ 63) (suc k + 2)
        then undefined
        else if ltb (length next) (suc k + 2)
        then incomplete
        else elim (behind_chunk (drop (suc k) next)) [
          | none ↦ incomplete
          | some src' ↦ complete_loop fuel (n + suc k) src'
        ]
  ]
]

unfoldable pub chunked_complete : Bytes → Completion
unfolding complete_loop
chunked_complete src = complete_loop (length src) 0 src

abbrev pub is_space : ℕ → Bool
is_space c = c == 0x20 || leb 0x09 c && leb c 0x0d

unfoldable pub skip_space : Bytes → Bytes
skip_space [] = []
skip_space (c ∷ s) = let rest = skip_space s in if is_space c then rest else c ∷ s

-- The digits at the front of a text, as a number that stops growing at LONG_MAX, or one more than
-- that for a negative one.
unfoldable pub digits_value : ℕ → ℕ → Bytes → ℕ
digits_value most n [] = n
digits_value most n (c ∷ s) = elim (chunk_digit c) [
  | none ↦ n
  | some d ↦
      let rest = digits_value most (n * 16 + d) s in
      let full = digits_value most most s in if ltb most (n * 16 + d) then full else rest
]

unfoldable pub skip_0x : Bytes → Bytes
skip_0x (z ∷ x ∷ s) = if z == b'0' && (x == b'x' || x == b'X') then s else z ∷ x ∷ s
skip_0x s = s

-- A long: its sign and its size.
pub data Long : Type 0 where
  plus minus : ℕ → Long

-- strtol(s, NULL, 16) of the language's library
unfoldable pub strtol16 : Bytes → Long
strtol16 s = elim (skip_space s) [
  | [] ↦ plus 0
  | c ∷ t ↦
      if c == b'-'
      then minus (digits_value (2 ^ 63) 0 (skip_0x t))
      else if c == b'+'
      then plus (digits_value (2 ^ 63 - 1) 0 (skip_0x t))
      else plus (digits_value (2 ^ 63 - 1) 0 (skip_0x (c ∷ t)))
]

-- The answer of dechunk: 0 with the body, 1 or -1. A memmove of a negative size is undefined.
pub data Dechunked : Type 0 where
  decoded : Bytes → Dechunked
  cut_short broken no_meaning : Dechunked

-- dechunk, from `src` on, with what has been written at `dst`.
unfoldable pub dechunk_loop : ℕ → Bytes → Bytes → Dechunked
unfolding find_crlf behind_chunk strtol16 c_string
dechunk_loop zero out src = cut_short
dechunk_loop (suc fuel) out [] = cut_short
dechunk_loop (suc fuel) out (c ∷ src) = elim (find_crlf (c ∷ src)) [
  | none ↦ cut_short
  | some (line, next) ↦ elim (strtol16 (c_string line)) [
    | minus zero ↦ decoded out
    | minus (suc k) ↦ if k == 0 && length next == 0 then cut_short else no_meaning
    | plus zero ↦ decoded out
    | plus (suc k) ↦
        if leb (2 ^ 63) (suc k + 2)
        then no_meaning
        else if ltb (length next) (suc k + 2)
        then cut_short
        else elim (behind_chunk (drop (suc k) next)) [
          | none ↦ broken
          | some src' ↦ dechunk_loop fuel (out ++ take (suc k) next) src'
        ]
  ]
]

-- dechunk
unfoldable pub dechunk : Bytes → Dechunked
unfolding dechunk_loop
dechunk src = dechunk_loop (length src) [] src
