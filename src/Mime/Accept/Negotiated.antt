-- ===== src/Mime/Accept/Negotiated.antt =====
-- What corAcceptParse answers, in terms of the header's entries.
use cor_rest.Base.{
  Bytes, All, ℕ, ◌≡◌, refl, sym, ◌∙◌, subst, ◌≢◌, ◌↔◌, inl, inr, true, false, none, some, List, [],
  ◌∷◌, arith,
}
use cor_rest.Mime.{MimeType, mime_none, json, ld_json, geo_json, merge_patch_json}
use cor_rest.Mime.Accept.{
  double_lt, q_zero, unseen, trim_spaces, token_of, split_entries, note, nothing_seen, choose,
  entry_type, entry_q, negotiate, accept_parse, Double, Seen, Negotiation,
}
use cor_rest.Mime.Accept.Best.{Any, IsNumber, ge_trans, negotiate-Best, Best}
use cor_rest.Mime.Accept.Chosen.{
  IsTop, token_type-ne-merge, chosen, choose-IsTop, choose_none, choose-ne-merge,
}

-- No entry that names one of the three types has a q above this one.
abbrev pub IsHighest : (Bytes → Double) → Double → List Bytes → Type 0
IsHighest q a = All (λ e. entry_type e ≢ mime_none → double_lt a (q e) ≡ false)

-- Some entry names the type with a q above zero, and none has a higher one.
abbrev pub IsPreferred : (Bytes → Double) → MimeType → List Bytes → Type 0
IsPreferred q t es =
    Any (λ e. (entry_type e ≡ t) × (double_lt q_zero (q e) ≡ true) × IsHighest q (q e) es) es

module _ (q : Bytes → Double) (a : Double) (n : Negotiation)
    (top : IsTop a n.seen_json n.seen_ld n.seen_geo) (ha : IsNumber a) (hj : IsNumber n.seen_json.q)
    (hl : IsNumber n.seen_ld.q) (hg : IsNumber n.seen_geo.q) where
  highest_at :
      (e : Bytes)
      → (entry_type e ≡ json → double_lt n.seen_json.q (q e) ≡ false)
      → (entry_type e ≡ ld_json → double_lt n.seen_ld.q (q e) ≡ false)
      → (entry_type e ≡ geo_json → double_lt n.seen_geo.q (q e) ≡ false)
      → entry_type e ≢ mime_none
      → double_lt a (q e) ≡ false
  highest_at e tj tl tg m = go (entry_type e) refl
    where
      go : (t : MimeType) → entry_type e ≡ t → double_lt a (q e) ≡ false
      go mime_none p = absurd (m p)
      go json p = ge_trans a n.seen_json.q (q e) ha hj top.0 (tj p)
      go ld_json p = ge_trans a n.seen_ld.q (q e) ha hl top.1 (tl p)
      go geo_json p = ge_trans a n.seen_geo.q (q e) ha hg top.2 (tg p)
      go merge_patch_json p =
          absurd (token_type-ne-merge (token_of (trim_spaces e)) (unfold entry_type in p))

  IsHighest-All :
      (es : List Bytes)
      → All (λ e. entry_type e ≡ json → double_lt n.seen_json.q (q e) ≡ false) es
      → All (λ e. entry_type e ≡ ld_json → double_lt n.seen_ld.q (q e) ≡ false) es
      → All (λ e. entry_type e ≡ geo_json → double_lt n.seen_geo.q (q e) ≡ false) es
      → IsHighest q a es
  IsHighest-All [] x y z = tt
  IsHighest-All (e ∷ es) x y z = (highest_at e x.0 y.0 z.0, IsHighest-All es x.1 y.1 z.1)

-- To rewrite the items that an `Any` points at.
Any-map :
    {P Q : Bytes → Type 0} → ((e : Bytes) → P e → Q e) → (es : List Bytes) → Any P es → Any Q es
Any-map f [] x = elim x [ ]
Any-map f (e ∷ es) (inl x) = inl (f e x)
Any-map f (e ∷ es) (inr x) = inr (Any-map f es x)

module _ (strtod : Bytes → Double) (es : List Bytes) where
  abbrev final : Negotiation
  final = negotiate strtod es 0 nothing_seen

  Best-json : Best (entry_q strtod) json nothing_seen.seen_json final.seen_json es
  Best-json =
      negotiate-Best strtod json (λ n. n.seen_json) (λ q i n. unfold note in refl)
        (λ u q i n h. unfold note in ground arith) es 0 nothing_seen tt

  Best-ld : Best (entry_q strtod) ld_json nothing_seen.seen_ld final.seen_ld es
  Best-ld =
      negotiate-Best strtod ld_json (λ n. n.seen_ld) (λ q i n. unfold note in refl)
        (λ u q i n h. unfold note in ground arith) es 0 nothing_seen tt

  Best-geo : Best (entry_q strtod) geo_json nothing_seen.seen_geo final.seen_geo es
  Best-geo =
      negotiate-Best strtod geo_json (λ n. n.seen_geo) (λ q i n. unfold note in refl)
        (λ u q i n h. unfold note in ground arith) es 0 nothing_seen tt

  IsPreferred-of :
      (t : MimeType) (s : Seen)
      → Best (entry_q strtod) t (record { q = unseen; order = none }) s es
      → IsTop s.q final.seen_json final.seen_ld final.seen_geo
      → double_lt q_zero s.q ≡ true
      → IsPreferred (entry_q strtod) t es
  IsPreferred-of t s b top pos = elim b.source [
    | inl x ↦ absurd (ground arith)
    | inr x ↦
        Any-map
          (λ e w. (
            w.0,
            rw w.1 pos,
            subst (λ a. IsHighest (entry_q strtod) a es) (sym w.1)
                (IsHighest-All (entry_q strtod) s.q final top b.number Best-json.number
                  Best-ld.number Best-geo.number es Best-json.top Best-ld.top Best-geo.top),
          ))
          es x
  ]

  IsPreferred-cases :
      (t : MimeType) → choose final ≡ t → t ≢ mime_none → IsPreferred (entry_q strtod) t es
  IsPreferred-cases t p m =
      go t p m
        (choose-IsTop final Best-json.number Best-ld.number Best-geo.number (λ e. m (sym p ∙ e)))
    where
      go :
          (t : MimeType)
          → choose final ≡ t
          → t ≢ mime_none
          → (IsTop (chosen final).q final.seen_json final.seen_ld final.seen_geo)
            × (double_lt q_zero (chosen final).q ≡ true)
          → IsPreferred (entry_q strtod) t es
      go mime_none p m c = absurd (m refl)
      go json p m c = IsPreferred-of json final.seen_json Best-json (rw p at c.0) (rw p at c.1)
      go ld_json p m c = IsPreferred-of ld_json final.seen_ld Best-ld (rw p at c.0) (rw p at c.1)
      go geo_json p m c =
          IsPreferred-of geo_json final.seen_geo Best-geo (rw p at c.0) (rw p at c.1)
      go merge_patch_json p m c = absurd (choose-ne-merge final p)

  none-IsHighest : choose final ≡ mime_none → IsHighest (entry_q strtod) q_zero es
  none-IsHighest p =
      let low = choose_none final Best-json.number Best-ld.number Best-geo.number p in
      IsHighest-All (entry_q strtod) q_zero final (low.0, low.1, low.2, refl) tt Best-json.number
        Best-ld.number Best-geo.number es Best-json.top Best-ld.top Best-geo.top

-- A preferred type has an entry that counts, so not every entry is at most zero.
preferred_counts :
    (q : Bytes → Double) (t : MimeType) (hs es : List Bytes)
    → t ≢ mime_none
    → Any (λ e. (entry_type e ≡ t) × (double_lt q_zero (q e) ≡ true) × IsHighest q (q e) hs) es
    → IsHighest q q_zero es
    → ⊥
preferred_counts q t hs [] m x h = x
preferred_counts q t hs (e ∷ es) m (inl x) h =
    let low = h.0 (λ p. m (sym x.0 ∙ p)) in cc (sym x.1 ∙ low)
preferred_counts q t hs (e ∷ es) m (inr x) h = preferred_counts q t hs es m x h.1

module _ (strtod : Bytes → Double) (s : Bytes) (t : MimeType) where
  -- For a header that is not empty, a type that the negotiation answers is named by some entry
  -- (json by a wildcard too) with a q above zero, and no entry that names one of the three types
  -- has a higher q.
  pub accept_parse-IsPreferred :
      s ≢ []
      → accept_parse strtod (some s) ≡ t
      → t ≢ mime_none
      → IsPreferred (entry_q strtod) t (split_entries s)
  unfolding accept_parse
  accept_parse-IsPreferred ne p m = go s ne p
    where
      go :
          (s : Bytes)
          → s ≢ []
          → accept_parse strtod (some s) ≡ t
          → IsPreferred (entry_q strtod) t (split_entries s)
      go [] ne p = absurd (ne refl)
      go (c ∷ s) ne p = IsPreferred-cases strtod (split_entries (c ∷ s)) t p m

module _ (strtod : Bytes → Double) where
  accept_parse_none :
      (c : ℕ) (s : Bytes)
      → IsHighest (entry_q strtod) q_zero (split_entries (c ∷ s))
      → (t : MimeType) → accept_parse strtod (some (c ∷ s)) ≡ t
      → t ≡ mime_none
  accept_parse_none c s h mime_none p = refl
  accept_parse_none c s h t p = absurd (
      preferred_counts (entry_q strtod) t _ (split_entries (c ∷ s)) (λ e. cc)
        (accept_parse-IsPreferred strtod (c ∷ s) t (λ e. cc) p (λ e. cc)) h)

  -- For a header that is not empty, nothing is acceptable exactly when no entry that names one of
  -- the three types (json by a wildcard too) has a q above zero.
  pub accept_parse-none :
      (c : ℕ) (s : Bytes)
      → (accept_parse strtod (some (c ∷ s)) ≡ mime_none)
        ↔ IsHighest (entry_q strtod) q_zero (split_entries (c ∷ s))
  unfolding accept_parse
  accept_parse-none c s = (
    none-IsHighest strtod (split_entries (c ∷ s)),
    λ h. accept_parse_none c s h (accept_parse strtod (some (c ∷ s))) refl,
  )
