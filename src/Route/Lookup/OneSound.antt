-- ===== src/Route/Lookup/OneSound.antt =====
-- Conversely, a path that matches a route with one wildcard fills it.
use mathlib.Core.List.{append-nil}
use cor_rest.Base.{
  ltb, ltb→lt, Bool-cases, tests, Bytes, length, take, drop, length-append, drop-append, drop-drop,
  append-take-drop, length-drop, length-take, All-drop, All-split, strn_eq, IsText, c_string_lem,
  strn_eq_left, strn_eq_right, ℕ, ◌+◌, ◌-◌, ◌≤◌, ◌<◌, ◌≡◌, refl, sym, ap, ◌∙◌, subst, ◌≢◌, inl, inr,
  Bool, true, List, [], ◌∷◌, ◌++◌, arith,
}
use cor_rest.Route.{service_expand, ServiceSimplified, Service}
use cor_rest.Route.Lookup.Sums.{lookup_one}
use cor_rest.Route.Lookup.One.{match_service-one, match_filled, Fills}
use cor_rest.Route.Pattern.{IsLiteral, star, one_wildcard}
use cor_rest.Route.Prepared.{expand-IsOne, IsOne}
use cor_rest.Route.Lookup.{text_at, is_component, match_one, match_service, hit}

ne_append : (w s : Bytes) → w ≢ [] → w ++ s ≢ []
ne_append [] s h = absurd (h refl)
ne_append (c ∷ w) s h = λ e. cc

ends_with : (t x s : Bytes) → s ≡ t ++ x → length s ≡ length t → s ≡ t
ends_with t [] s e h = e ∙ append-nil t
ends_with t (c ∷ x) s e h = absurd (omega (arith, ap length e, length-append t (c ∷ x)))

no_suffix_sound :
    (s : Service) (pre : Bytes) (g : Bool) (r : Bytes) (b : Bytes) (ws : List ℕ)
    → IsOne pre g [] s
    → IsText (pre ++ r)
    → match_one (length (pre ++ r)) s (pre ++ r) ≡ hit b ws
    → is_component g r ≡ true
unfolding match_one
no_suffix_sound s pre g r b ws o ht h = ground (
  arith,
  o,
  c_string_lem (pre ++ r) ht,
  drop-append pre r,
  c_string_lem r (All-split (λ c. 0 < c) pre r ht).1,
)

module _ (s : Service) (pre : Bytes) (g : Bool) (d : ℕ) (suf r : Bytes)
    (o : IsOne pre g (d ∷ suf) s) where
  abbrev before : ℕ
  before = length r - length (d ∷ suf)

  suffix_sound :
      (b : Bytes) (ws : List ℕ)
      → IsText (pre ++ r)
      → match_one (length (pre ++ r)) s (pre ++ r) ≡ hit b ws
      → (length (d ∷ suf) < length r)
        × (strn_eq (length (d ∷ suf)) (drop before r) (d ∷ suf) ≡ true)
        × (is_component g (take before r) ≡ true)
  unfolding match_one
  suffix_sound b ws ht h =
      elim (Bool-cases (ltb (length pre + length (d ∷ suf)) (length (pre ++ r)))) [
        | inr e ↦ absurd (ground (arith, o))
        | inl e ↦
            let ends : length (pre ++ r) - length (d ∷ suf) ≡ length pre + before =
              omega (tests, length-append pre r, ltb→lt _ _ e) in
            let start : drop (length (pre ++ r) - length (d ∷ suf)) (pre ++ r) ≡ drop before r =
              ap (λ n. drop n (pre ++ r)) ends
              ∙ sym (drop-drop (length pre) before (pre ++ r))
              ∙ ap (drop before) (drop-append pre r) in
            let taken : length (pre ++ r) - length (d ∷ suf) - length pre ≡ before =
              omega (arith, ends) in
            ground (
              arith,
              o,
              length-append pre r,
              start,
              ap (λ n. take n r) taken,
              drop-append pre r,
              c_string_lem (drop before r)
                  (All-drop (λ c. 0 < c) before r (All-split (λ c. 0 < c) pre r ht).1),
            )
      ]

  suffix-Fills :
      (b : Bytes) (ws : List ℕ)
      → IsText (pre ++ r)
      → match_one (length (pre ++ r)) s (pre ++ r) ≡ hit b ws
      → Fills pre g (d ∷ suf) (pre ++ r) (take before r)
  suffix-Fills b ws ht h =
      let (long, same, comp) = suffix_sound b ws ht h in
      let rest : drop before r ≡ d ∷ suf =
        ends_with (d ∷ suf) _ (drop before r) (strn_eq_right (d ∷ suf) (drop before r) same)
          (omega (arith, length-drop before r)) in
      record {
        path_is = ap (◌++◌ pre) (sym (append-take-drop before r) ∙ ap (◌++◌ (take before r)) rest);
        some_text = λ e. absurd (omega (arith, ap length e, length-take before r));
        component = comp;
      }

Fills-of_match :
    (s : Service) (pre : Bytes) (g : Bool) (suf r b : Bytes) (ws : List ℕ)
    → IsOne pre g suf s
    → IsText (pre ++ r)
    → r ≢ []
    → match_one (length (pre ++ r)) s (pre ++ r) ≡ hit b ws
    → (w : Bytes) × Fills pre g suf (pre ++ r) w
Fills-of_match s pre g [] r b ws o ht ne h = (
  r,
  record {
    path_is = ap (◌++◌ pre) (sym (append-nil r));
    some_text = ne;
    component = no_suffix_sound s pre g r b ws o ht h;
  },
)
Fills-of_match s pre g (d ∷ suf) r b ws o ht ne h = (_, suffix-Fills s pre g d suf r o b ws ht h)

-- A hit means that the path starts with the route's literal, and goes on.
prefix_of_hit :
    (stray : ℕ → ℕ) (s : Service) (pre : Bytes) (g : Bool) (suf p b : Bytes) (ws : List ℕ)
    → IsOne pre g suf s
    → IsText p
    → lookup_one stray s p ≡ hit b ws
    → (p ≡ pre ++ drop (length pre) p) × (length pre < length p)
unfolding match_service match_one
prefix_of_hit stray s pre g suf p b ws o ht h =
    ground (arith, o, c_string_lem p ht, strn_eq_left pre (star g ++ suf) p)

-- What a hit gives to the service routine: the wildcard that fills the route, readable at its offset.
pub record Captures (pre : Bytes) (g : Bool) (suf p b : Bytes) (ws : List ℕ) (w : Bytes)
    : Type 0 where
  pub fills : Fills pre g suf p w
  pub offsets : ws ≡ length pre ∷ []
  pub reads : text_at b (length pre) ≡ w

module _ (stray : ℕ → ℕ) (simple : ServiceSimplified) (pre : Bytes) (g : Bool) (suf p : Bytes)
    (at : simple.simple_url ≡ one_wildcard pre g suf) (literals : IsLiteral pre × IsLiteral suf)
    (fit : (0 < length pre) × (length pre ≤ 64) × (length suf < 16)) (text : IsText p) where
  one : IsOne pre g suf (service_expand simple)
  one = expand-IsOne simple pre g suf at literals.0 literals.1 fit.2

  -- A route "literal*literal" or "literal**literal", its first literal of 1 to 64 bytes and its last
  -- of at most 15, matches a path with no NUL that puts a nonempty text in the place of the wildcard,
  -- for "*" one component or a URL; the routine reads that text at the wildcard's offset.
  pub lookup_one_complete :
      (w : Bytes)
      → Fills pre g suf p w
      → (b : Bytes) × (lookup_one stray (service_expand simple) p ≡ hit b (length pre ∷ []))
        × (text_at b (length pre) ≡ w)
  lookup_one_complete w f =
      let text' = subst IsText f.path_is text in
      let (b, m, r) =
        match_filled (service_expand simple) pre g suf w one text' f.some_text f.component in
      (
        b,
        subst (λ q. lookup_one stray (service_expand simple) q ≡ hit b (length pre ∷ []))
            (sym f.path_is)
            (match_service-one stray (service_expand simple) pre g suf one fit.0 fit.1 (w ++ suf)
                (ne_append w suf f.some_text)
              ∙ m),
        r,
      )

  captured :
      (b b' : Bytes) (ws : List ℕ) (w : Bytes)
      → lookup_one stray (service_expand simple) p ≡ hit b ws
      → lookup_one stray (service_expand simple) p ≡ hit b' (length pre ∷ [])
      → text_at b' (length pre) ≡ w
      → (ws ≡ length pre ∷ []) × (text_at b (length pre) ≡ w)
  captured b b' ws w h k r =
      let same : hit b ws ≡ hit b' (length pre ∷ []) = sym h ∙ k in
      (cc, (let e : b ≡ b' = cc in rw e r))

  -- Conversely such a route matches only those paths: on a hit some text that fills the wildcard is
  -- what the one offset handed out reads as.
  pub lookup_one_sound :
      (b : Bytes) (ws : List ℕ)
      → lookup_one stray (service_expand simple) p ≡ hit b ws
      → (w : Bytes) × Captures pre g suf p b ws w
  lookup_one_sound b ws h =
      let (split, long) = prefix_of_hit stray (service_expand simple) pre g suf p b ws one text h in
      let r = drop (length pre) p in
      let ne : r ≢ [] = λ e. absurd (omega (arith, length-drop (length pre) p, ap length e)) in
      let m : match_one (length (pre ++ r)) (service_expand simple) (pre ++ r) ≡ hit b ws =
        sym (match_service-one stray (service_expand simple) pre g suf one fit.0 fit.1 r ne)
        ∙ ap (lookup_one stray (service_expand simple)) (sym split)
        ∙ h in
      let (w, f) =
        Fills-of_match (service_expand simple) pre g suf r b ws one (subst IsText split text) ne
          m in
      let f' : Fills pre g suf p w = subst (λ q. Fills pre g suf q w) (sym split) f in
      let (b', k, x) = lookup_one_complete w f' in
      let (offsets, reads) = captured b b' ws w h k x in
      (w, record { fills = f'; offsets = offsets; reads = reads })
