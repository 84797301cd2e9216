-- ===== src/Response/Chunk/RoundTrip.antt =====
-- A body that is sent in chunks is read back.
use mathlib.Core.List.{append_assoc, append-nil}
use cor_rest.Base.{
  Bytes, length, length-append, All, c_string, ℕ, suc, ◌+◌, ◌-◌, ◌≤◌, ◌≡◌, refl, sym, ap, ◌∙◌, List,
  [], ◌∷◌, ◌++◌, map, arith,
}
use cor_rest.Response.{drop_cr, until_lf, find_crlf}
use cor_rest.Response.Chunk.{
  chunk_digit, chunk_size_from, complete_loop, chunked_complete, skip_space, digits_value, skip_0x,
  strtol16, dechunk_loop, dechunk, complete, decoded,
}
use cor_rest.Response.Chunk.Fuel.{complete_loop-fuel, dechunk_loop-fuel}
use cor_rest.Response.Chunk.Rounds.{
  print_digit, print_pieces, all_bytes, complete_loop-piece, dechunk_loop-piece, Piece, IsPiece,
}

last_lem :
    (fuel n : ℕ) (out rest : Bytes)
    → (complete_loop (suc fuel) n (print_pieces [] rest) ≡ complete n)
      × (dechunk_loop (suc fuel) out (print_pieces [] rest) ≡ decoded out)
unfolding complete_loop dechunk_loop find_crlf until_lf drop_cr chunk_size_from chunk_digit strtol16
    skip_space skip_0x digits_value c_string
last_lem fuel n out rest = (refl, refl)

pieces_lem :
    (ps : List Piece) (fuel n : ℕ) (out rest : Bytes)
    → All IsPiece ps
    → (complete_loop (suc (length ps + fuel)) n (print_pieces ps rest)
        ≡ complete (n + length (all_bytes ps)))
      × (dechunk_loop (suc (length ps + fuel)) out (print_pieces ps rest)
          ≡ decoded (out ++ all_bytes ps))
pieces_lem [] fuel n out rest h =
    let (c, d) = last_lem (0 + fuel) n out rest in
    (c ∙ ap complete (omega arith), d ∙ ap decoded (sym (append-nil out)))
pieces_lem (p ∷ ps) fuel n out rest h =
    let (c, d) = pieces_lem ps fuel (n + length p.bytes) (out ++ p.bytes) rest h.1 in
    let more : suc (length ps) + fuel ≡ suc (length ps + fuel) = omega arith in
    rw more (
      complete_loop-piece p h.0 (print_pieces ps rest) (suc (length ps + fuel)) n
          ∙ c
          ∙ ap complete (omega (arith, length-append p.bytes (all_bytes ps))),
      dechunk_loop-piece p h.0 (print_pieces ps rest) (suc (length ps + fuel)) out
          ∙ d
          ∙ ap decoded (append_assoc out p.bytes (all_bytes ps)),
    )

length-print_pieces :
    (ps : List Piece) (rest : Bytes) → suc (length ps) ≤ length (print_pieces ps rest)
length-print_pieces [] rest = omega arith
length-print_pieces (p ∷ ps) rest = omega (
  arith,
  length-print_pieces ps rest,
  length-append (map print_digit p.digits)
      (0x0d ∷ 0x0a ∷ (p.bytes ++ 0x0d ∷ 0x0a ∷ print_pieces ps rest)),
  length-append p.bytes (0x0d ∷ 0x0a ∷ print_pieces ps rest),
)

-- A body that is sent in nonempty pieces of fewer than 2^31 bytes, each behind its size in
-- hexadecimal, and ended by an empty chunk, is complete for the check with the length of its pieces,
-- and the decoder makes of it the pieces put together, whatever is behind it.
pub dechunk-print_pieces :
    (ps : List Piece) (rest : Bytes)
    → All IsPiece ps
    → (chunked_complete (print_pieces ps rest) ≡ complete (length (all_bytes ps)))
      × (dechunk (print_pieces ps rest) ≡ decoded (all_bytes ps))
unfolding chunked_complete dechunk
dechunk-print_pieces ps rest h =
    let text = print_pieces ps rest in
    let spare = length text - suc (length ps) in
    let enough : length text ≡ suc (length ps + spare) =
      omega (arith, length-print_pieces ps rest) in
    let (c, d) = pieces_lem ps spare 0 [] rest h in
    (
      complete_loop-fuel (length text) (suc (length ps + spare)) 0 text (omega arith)
            (omega (arith, enough))
          ∙ c
          ∙ ap complete (omega arith),
      dechunk_loop-fuel (length text) (suc (length ps + spare)) [] text (omega arith)
            (omega (arith, enough))
          ∙ d,
    )
