-- ===== src/Route/Lookup/First.antt =====
-- The loop takes the first service that matches.
use cor_rest.Base.{
  Bytes, length, All, ℕ, ◌≡◌, refl, sym, ap, ◌∙◌, ◌⊎◌, inl, inr, none, some, List, [], ◌∷◌, ◌++◌,
  arith,
}
use cor_rest.Route.{Service}
use cor_rest.Route.Lookup.{
  request_prepare, match_exact, match_one, match_first, match_suffix, match_two, match_rest,
  match_three, match_service, lookup_loop, service_lookup, Outcome, hit, miss, Found,
}
use cor_rest.Route.Lookup.Sums.{lookup_one}

-- A route that ends in a wildcard, or has at most one: nothing is trimmed before it is rejected.
abbrev pub HasNoSuffix : Service → Type 0
HasNoSuffix s = s.match_after_last_wildcard_len ≡ 0

match_two_miss : (s : Service) (p b : Bytes) → HasNoSuffix s → match_two s p ≡ miss b → b ≡ p
unfolding match_two match_suffix match_first
match_two_miss s p b n h = ground arith

match_three_miss : (s : Service) (p b : Bytes) → match_three s p ≡ miss b → b ≡ p
unfolding match_three match_rest
match_three_miss s p b h = ground arith

match_one_miss : (len : ℕ) (s : Service) (p b : Bytes) → match_one len s p ≡ miss b → b ≡ p
unfolding match_one
match_one_miss len s p b h = ground arith

match_service_miss :
    (stray : ℕ → ℕ) (sums : List ℕ) (len : ℕ) (s : Service) (p b : Bytes)
    → HasNoSuffix s
    → match_service stray sums len s p ≡ miss b
    → b ≡ p
unfolding match_service match_exact
match_service_miss stray sums len s p b n h =
    ground (arith, match_one_miss len s p b, match_two_miss s p b n, match_three_miss s p b)

-- How a lookup over `services` came to its answer.
pub record IsFirst (stray : ℕ → ℕ) (services : List Service) (p : Bytes) (s : Service) (f : Found)
    : Type 0 where
  pub before : List Service
  pub after : List Service
  pub splits : services ≡ before ++ s ∷ after
  pub passed : All (λ t. lookup_one stray t p ≡ miss p) before
  pub matched : lookup_one stray s p ≡ hit f.path f.wildcard

some_same : {s t : Service} → some s ≡ some t → s ≡ t
some_same h = cc

module _ (stray : ℕ → ℕ) (p : Bytes) where
  abbrev loop : List Service → Found
  loop ss = lookup_loop stray (request_prepare p).0 (length p) ss p

  Outcome-cases :
      (o : Outcome) → ((b : Bytes) × (w : List ℕ) × (o ≡ hit b w)) ⊎ ((b : Bytes) × (o ≡ miss b))
  Outcome-cases (hit b w) = inl (b, w, refl)
  Outcome-cases (miss b) = inr (b, refl)

  loop-hit :
      (t : Service) (ss : List Service) (b : Bytes) (w : List ℕ)
      → lookup_one stray t p ≡ hit b w
      → loop (t ∷ ss) ≡ record { service = some t; wildcard = w; path = b }
  unfolding lookup_loop
  loop-hit t ss b w e = rw (e, lookup_loop)

  loop-miss :
      (t : Service) (ss : List Service) (b : Bytes)
      → HasNoSuffix t
      → lookup_one stray t p ≡ miss b
      → (loop (t ∷ ss) ≡ loop ss) × (lookup_one stray t p ≡ miss p)
  unfolding lookup_loop
  loop-miss t ss b n e =
      let same = match_service_miss stray (request_prepare p).0 (length p) t p b n e in
      (
        rw (e, lookup_loop) (ap (lookup_loop stray (request_prepare p).0 (length p) ss) same),
        e ∙ ap miss same,
      )

  loop-IsFirst :
      (ss : List Service) (s : Service)
      → All HasNoSuffix ss
      → (loop ss).service ≡ some s
      → IsFirst stray ss p s (loop ss)
  loop-IsFirst [] s n h = absurd (unfold lookup_loop in ground arith)
  loop-IsFirst (t ∷ ss) s n h = elim (Outcome-cases (lookup_one stray t p)) [
    | inl (b, w, e) ↦
        let at = loop-hit t ss b w e in
        let same : t ≡ s = some_same (sym (ap (λ f. f.service) at) ∙ h) in
        rw at (record {
          before = [];
          after = ss;
          splits = ap (λ x. x ∷ ss) same;
          passed = tt;
          matched = ap (λ x. lookup_one stray x p) (sym same) ∙ e;
        })
    | inr (b, e) ↦
        let (at, missed) = loop-miss t ss b n.0 e in
        let r = loop-IsFirst ss s n.1 (sym (ap (λ f. f.service) at) ∙ h) in
        rw at (record {
          before = t ∷ r.before;
          after = r.after;
          splits = ap (◌∷◌ t) r.splits;
          passed = (missed, r.passed);
          matched = r.matched;
        })
  ]

  loop-none :
      (ss : List Service)
      → All HasNoSuffix ss
      → (loop ss).service ≡ none
      → All (λ t. lookup_one stray t p ≡ miss p) ss
  loop-none [] n h = tt
  loop-none (t ∷ ss) n h = elim (Outcome-cases (lookup_one stray t p)) [
    | inl (b, w, e) ↦ absurd (cc (sym (ap (λ f. f.service) (loop-hit t ss b w e)) ∙ h))
    | inr (b, e) ↦
        let (at, missed) = loop-miss t ss b n.0 e in
        (missed, loop-none ss n.1 (sym (ap (λ f. f.service) at) ∙ h))
  ]

-- Among routes that trim no suffix, the lookup answers with the first that matches the path as the
-- request brought it, with that route's wildcards and buffer: each route before it misses.
pub service_lookup-IsFirst :
    (stray : ℕ → ℕ) (services : List Service) (p : Bytes) (s : Service)
    → All HasNoSuffix services
    → (service_lookup stray services p).service ≡ some s
    → IsFirst stray services p s (service_lookup stray services p)
unfolding service_lookup request_prepare
service_lookup-IsFirst stray services p s n h = loop-IsFirst stray p services s n h

-- And it answers NULL only if no route matches.
pub service_lookup-none :
    (stray : ℕ → ℕ) (services : List Service) (p : Bytes)
    → All HasNoSuffix services
    → (service_lookup stray services p).service ≡ none
    → All (λ t. lookup_one stray t p ≡ miss p) services
unfolding service_lookup request_prepare
service_lookup-none stray services p n h = loop-none stray p services n h
