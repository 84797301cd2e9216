-- ===== src/Client/Proxy/List.antt =====
-- The loop over a no-proxy list, entry by entry.
use cor_rest.Base.{
  ltb, ◌==◌, if◌then◌else◌, ltb→lt, lt→ltb, &&→both, Bool-cases, Bytes, length, drop, length-drop,
  ℕ, zero, suc, ◌≤◌, ◌<◌, ◌≡◌, refl, sym, ap, ◌∙◌, ◌↔◌, ◌⊎◌, inl, inr, Bool, true, false, ◌&&◌,
  ◌||◌, some, List, [], ◌∷◌, arith,
}
use cor_rest.Client.Proxy.{before, entry_matches, skip_separators, no_proxy_loop, no_proxy_match}
use cor_rest.Client.Proxy.Entry.{Spares, entry_matches-Spares}

abbrev is_separator : ℕ → Bool
is_separator c = c == b',' || c == b' '

abbrev add_first : ℕ → List Bytes → List Bytes
add_first c [] = (c ∷ []) ∷ []
add_first c (e ∷ es) = (c ∷ e) ∷ es

-- A list cut at each comma and each space, with empty pieces between two of them
abbrev pub pieces : Bytes → List Bytes
pieces [] = [] ∷ []
pieces (c ∷ s) = let rest = pieces s in if is_separator c then [] ∷ rest else add_first c rest

-- Some piece that is not empty spares the host.
abbrev pub SomeSpares : Bytes → List Bytes → Type 0
SomeSpares host [] = ⊥
SomeSpares host (e ∷ es) = ((0 < length e) × Spares host e) ⊎ SomeSpares host es

abbrev matches_piece : Bytes → Bytes → Bool
unfolding entry_matches
matches_piece host e = ltb 0 (length e) && entry_matches host e

abbrev any_matches : Bytes → List Bytes → Bool
unfolding matches_piece
any_matches host [] = false
any_matches host (e ∷ es) = let rest = any_matches host es in matches_piece host e || rest

abbrev others : Bytes → List Bytes
others [] = []
others (c ∷ s) = pieces s

abbrev at_end : Bytes → Bytes
unfolding before
at_end s = drop (length (before b',' b' ' s)) s

pieces-before : (s : Bytes) → pieces s ≡ before b',' b' ' s ∷ others (at_end s)
unfolding before at_end
pieces-before [] = refl
pieces-before (c ∷ s) = elim (Bool-cases (is_separator c)) [
  | inl sep ↦ rw sep refl
  | inr other ↦ rw other (ap (add_first c) (pieces-before s))
]

any_matches-others :
    (host s : Bytes) → any_matches host (pieces (at_end s)) ≡ any_matches host (others (at_end s))
unfolding before at_end any_matches matches_piece
any_matches-others host [] = refl
any_matches-others host (c ∷ s) = elim (Bool-cases (is_separator c)) [
  | inl sep ↦ rw (sep, sep) refl
  | inr other ↦ rw other (any_matches-others host s)
]

any_matches-skip :
    (host s : Bytes) → any_matches host (pieces (skip_separators s)) ≡ any_matches host (pieces s)
unfolding skip_separators any_matches matches_piece
any_matches-skip host [] = refl
any_matches-skip host (c ∷ s) = elim (Bool-cases (is_separator c)) [
  | inl sep ↦ rw sep (any_matches-skip host s)
  | inr other ↦ rw (other, other) refl
]

length-skip-le : (s : Bytes) → length (skip_separators s) ≤ length s
unfolding skip_separators
length-skip-le [] = omega arith
length-skip-le (c ∷ s) = elim (Bool-cases (is_separator c)) [
  | inl sep ↦ rw sep (omega (arith, length-skip-le s))
  | inr other ↦ rw other (omega arith)
]

length-at_end-le : (c : ℕ) (s : Bytes) → length (at_end (skip_separators (c ∷ s))) ≤ length s
unfolding skip_separators before at_end
length-at_end-le c s = elim (Bool-cases (is_separator c)) [
  | inl sep ↦
      let t = skip_separators s in
      rw sep (omega (arith, length-drop (length (before b',' b' ' t)) t, length-skip-le s))
  | inr other ↦ rw (other, other) (omega (arith, length-drop (length (before b',' b' ' s)) s))
]

no_proxy_loop-any_matches :
    (fuel : ℕ) (host s : Bytes)
    → length s < fuel
    → no_proxy_loop fuel host s ≡ any_matches host (pieces s)
unfolding no_proxy_loop any_matches matches_piece at_end
no_proxy_loop-any_matches zero host s enough = absurd (omega arith)
no_proxy_loop-any_matches (suc fuel) host [] enough = refl
no_proxy_loop-any_matches (suc fuel) host (c ∷ s) enough =
    let t = skip_separators (c ∷ s) in
    let first = matches_piece host (before b',' b' ' t) in
    let rest =
      no_proxy_loop-any_matches fuel host (at_end t)
        (omega (arith, length-at_end-le c s, enough)) in
    ap (λ b. first || b) (rest ∙ any_matches-others host t)
    ∙ sym (ap (any_matches host) (pieces-before t))
    ∙ any_matches-skip host (c ∷ s)

any_matches-SomeSpares :
    (host : Bytes) (es : List Bytes) → any_matches host es ≡ true ↔ SomeSpares host es
unfolding any_matches matches_piece
any_matches-SomeSpares host [] = (λ h. absurd (ground (arith, h)), λ s. absurd s)
any_matches-SomeSpares host (e ∷ es) =
    let one = entry_matches-Spares host e in
    let more = any_matches-SomeSpares host es in
    (
      λ h. elim (Bool-cases (matches_piece host e)) [
        | inl yes_here ↦
            let (some_bytes, m) = &&→both (ltb 0 (length e)) (entry_matches host e) yes_here in
            inl (ltb→lt 0 (length e) some_bytes, one.0 m)
        | inr not_here ↦ inr (more.0 (ground (arith, h, not_here)))
      ],
      λ s. elim s [
        | inl (some_bytes, here) ↦
            let m = one.1 here in
            let there = lt→ltb 0 (length e) some_bytes in ground (arith, m, there)
        | inr there ↦ let m = more.1 there in ground (arith, m)
      ],
    )

-- A host needs no proxy exactly if, of the pieces that the no-proxy list is cut into at its commas and
-- spaces, some piece that is not empty is "*" or, less its port and a dot before it, is the host or a
-- domain that the host is in, in upper or lower case.
pub no_proxy_match-SomeSpares :
    (list host : Bytes) → no_proxy_match (some list) host ≡ true ↔ SomeSpares host (pieces list)
unfolding no_proxy_match
no_proxy_match-SomeSpares list host =
    let loop = no_proxy_loop-any_matches (suc (length list)) host list (omega arith) in
    let iff = any_matches-SomeSpares host (pieces list) in
    (λ m. iff.0 (sym loop ∙ m), λ s. loop ∙ iff.1 s)
