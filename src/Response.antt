-- ===== src/Response.antt =====
-- corRestClientParse.c. A buffer is the list of its bytes; a pointer into it is what follows there.
pub mod Chunk
pub mod Complete
pub mod Message
mod Tests
use cor_rest.Base.{◌==◌, if◌then◌else◌, Bytes, ℕ, Option, none, some, [], ◌∷◌}

unfoldable pub drop_cr : Bytes → Bytes
drop_cr [] = []
drop_cr (c ∷ []) = if c == 0x0d then [] else c ∷ []
drop_cr (c ∷ d ∷ s) = c ∷ drop_cr (d ∷ s)

abbrev pub cons_line : ℕ → Option (Bytes × Bytes) → Option (Bytes × Bytes)
cons_line c none = none
cons_line c (some (line, rest)) = some (c ∷ line, rest)

-- The bytes before the first LF, and those behind it.
unfoldable pub until_lf : Bytes → Option (Bytes × Bytes)
until_lf [] = none
until_lf (c ∷ s) = let rest = cons_line c (until_lf s) in if c == 0x0a then some ([], s) else rest

-- findCRLF: the line, without a CR at its end, and what is behind it; `none` is NULL.
unfoldable pub find_crlf : Bytes → Option (Bytes × Bytes)
find_crlf s = elim (until_lf s) [ none ↦ none | some (line, rest) ↦ some (drop_cr line, rest) ]
