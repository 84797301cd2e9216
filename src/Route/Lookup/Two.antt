-- ===== src/Route/Lookup/Two.antt =====
-- A route with two wildcards: its first literal is compared by length and sum alone.
use cor_rest.Base.{
  ◌==◌, Bool-cases, Option-cases, Bytes, length, take, drop, length-append, take-append,
  drop-append, All-drop, All-split, codes, index_text, c_string, IsText, c_string_lem,
  index_text_split, ℕ, ◌+◌, ◌-◌, ◌≤◌, ◌<◌, ◌≡◌, refl, sym, ap, ◌∙◌, subst, ◌≢◌, inl, inr, Bool,
  true, false, ◌||◌, none, some, [], ◌∷◌, ◌++◌, arith,
}
use cor_rest.Route.{service_expand, ServiceSimplified, Service}
use cor_rest.Route.Pattern.{IsLiteral, char_sum, two_wildcards}
use cor_rest.Route.Prepared.{between, expand-IsTwo, IsTwo}
use cor_rest.Route.Lookup.{
  request_prepare, sum_before, text_at, put_nul, is_component, match_first, match_suffix, match_two,
  match_service, hit, miss,
}
use cor_rest.Route.Lookup.Sums.{lookup_one, sum_before-prefix}

module _ (s : Service) (pre mid : Bytes) (g : Bool) (o : IsTwo pre mid [] g s)
    (lead w0 w1 : Bytes) where
  abbrev path : Bytes
  path = lead ++ (w0 ++ (mid ++ w1))

  match_two_lead :
      length lead ≡ length pre
      → IsText path
      → index_text mid (w0 ++ (mid ++ w1)) ≡ some (length w0)
      → is_component g w0 ≡ true
      → match_two s path
        ≡ hit
            (put_nul path (length pre + length w0))
            (length pre ∷ (length pre + length w0 + length mid) ∷ [])
  unfolding match_two match_suffix match_first
  match_two_lead same text first comp = ground (
    arith,
    o,
    start,
    ap (take (length w0)) start,
    c_string_lem rest (All-split (λ c. 0 < c) lead rest text).1,
    ap (λ n. take n rest) (ends),
    take-append w0 (mid ++ w1),
  )
    where
      rest : Bytes
      rest = w0 ++ (mid ++ w1)

      start : drop (length pre) path ≡ rest
      start = ap (λ n. drop n path) (sym same) ∙ drop-append lead rest

      ends : length pre + length w0 - length pre ≡ length w0
      ends = omega arith

  sum_before_lead :
      (stray : ℕ → ℕ)
      → (0 < length pre) × (length pre ≤ 64)
      → length lead ≡ length pre
      → sum_before stray (request_prepare path).0 (length pre) ≡ char_sum 0 lead
  sum_before_lead stray fit same =
      ap (sum_before stray (request_prepare path).0) (sym same)
      ∙ sum_before-prefix stray lead (w0 ++ (mid ++ w1)) (omega arith) (omega arith)

  lookup_one_lead :
      (stray : ℕ → ℕ)
      → (0 < length pre) × (length pre ≤ 64)
      → length lead ≡ length pre
      → char_sum 0 lead ≡ char_sum 0 pre
      → 0 < length mid
      → lookup_one stray s path ≡ match_two s path
  unfolding match_service
  lookup_one_lead stray fit same sums some_mid = ground (
    arith,
    o,
    sum_before_lead stray fit same,
    length-append lead (w0 ++ (mid ++ w1)),
    length-append w0 (mid ++ w1),
    length-append mid w1,
  )

-- A route "literal*middle*" (or with "**" first), its first literal of 1 to 64 bytes and its middle
-- of 1 to 15, matches every path with no NUL that has the middle behind a first wildcard's component,
-- provided that the bytes before are as many as the literal's and have the same sum: what they are,
-- and in which order, is not compared.
pub lookup_one-same_sum :
    (stray : ℕ → ℕ) (simple : ServiceSimplified) (pre mid : Bytes) (g : Bool) (lead w0 w1 : Bytes)
    → simple.simple_url ≡ two_wildcards pre g mid false []
    → IsLiteral pre × IsLiteral mid
    → (0 < length pre) × (length pre ≤ 64)
    → (0 < length mid) × (length mid < 16)
    → (length lead ≡ length pre) × (char_sum 0 lead ≡ char_sum 0 pre)
    → IsText (lead ++ (w0 ++ (mid ++ w1)))
    → index_text mid (w0 ++ (mid ++ w1)) ≡ some (length w0)
    → is_component g w0 ≡ true
    → lookup_one stray (service_expand simple) (lead ++ (w0 ++ (mid ++ w1)))
      ≡ hit
          (put_nul (lead ++ (w0 ++ (mid ++ w1))) (length pre + length w0))
          (length pre ∷ (length pre + length w0 + length mid) ∷ [])
lookup_one-same_sum stray simple pre mid g lead w0 w1 at lits fit fit_mid same text first comp =
    lookup_one_lead (service_expand simple) pre mid g two lead w0 w1 stray fit same.0 same.1
      fit_mid.0
    ∙ match_two_lead (service_expand simple) pre mid g two lead w0 w1 same.0 text first comp
  where
    or_false : (b : Bool) → (b || false) ≡ b
    or_false true = refl
    or_false false = refl

    ne : mid ≢ []
    ne e = absurd (omega (arith, ap length e, fit_mid.0))

    two : IsTwo pre mid [] g (service_expand simple)
    two =
        subst (λ b. IsTwo pre mid [] b (service_expand simple)) (or_false g)
          (expand-IsTwo simple pre g mid false [] at lits.0 lits.1 ne tt fit_mid.1 (omega arith))

c_string-IsLiteral : (s : Bytes) → IsLiteral s → IsLiteral (c_string s)
unfolding c_string
c_string-IsLiteral [] h = tt
c_string-IsLiteral (c ∷ s) h = elim (Bool-cases (c == 0)) [
  | inl e ↦ rw e tt
  | inr e ↦ rw e (h.0, c_string-IsLiteral s h.1)
]

index_text-no_star : (m s : Bytes) → IsLiteral s → index_text (m ++ codes "*") s ≡ none
index_text-no_star m s h = elim (Option-cases (index_text (m ++ codes "*") s)) [
  | inl e ↦ e
  | inr (i, e) ↦
      let t = m ++ codes "*" in
      let split = index_text_split t s i e in
      let front =
        (All-split (λ c. c ≢ b'*') (take i s ++ t) (drop (i + length t) s)
          (subst IsLiteral split h)).0 in
      let star_free =
        (All-split (λ c. c ≢ b'*') m (codes "*")
          (All-split (λ c. c ≢ b'*') (take i s) t front).1).1 in
      absurd (star_free.0 refl)
]

-- A route "literal*middle**", with two stars at its second wildcard, a middle of 1 to 14 bytes and
-- nothing behind it, looks for the middle with a "*"
-- behind it: a path without a "*" never matches, and is left as it was.
pub lookup_one-double_second :
    (stray : ℕ → ℕ) (simple : ServiceSimplified) (pre mid p : Bytes) (g : Bool)
    → simple.simple_url ≡ two_wildcards pre g mid true []
    → IsLiteral pre × IsLiteral mid
    → (0 < length mid) × (length mid < 15)
    → IsLiteral p
    → lookup_one stray (service_expand simple) p ≡ miss p
unfolding match_service match_two
lookup_one-double_second stray simple pre mid p g at lits fit_mid lit = ground (
  arith,
  two,
  index_text-no_star mid (text_at p (service_expand simple).chars_before_first_wildcard)
      (c_string-IsLiteral _ (All-drop (λ c. c ≢ b'*') _ p lit)),
)
  where
    ne : mid ≢ []
    ne e = absurd (omega (arith, ap length e, fit_mid.0))

    two : IsTwo pre (between true mid) [] (g || true) (service_expand simple)
    two =
        expand-IsTwo simple pre g mid true [] at lits.0 lits.1 ne tt
          (omega (arith, length-append mid (codes "*"))) (omega arith)
