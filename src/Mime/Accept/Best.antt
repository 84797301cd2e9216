-- ===== src/Mime/Accept/Best.antt =====
-- The negotiated type has the highest q of the header, and there is none exactly when no entry
-- that names one of the three types has a q above zero.
use cor_rest.Base.{
  Bytes, All, ℕ, ◌+◌, ◌≡◌, refl, sym, ◌∙◌, subst, ◌≢◌, ◌⊎◌, inl, inr, false, List, [], ◌∷◌, arith,
}
use cor_rest.Mime.{MimeType}
use cor_rest.Mime.Accept.{
  double_lt, raise, note, entry_type, entry_q, negotiate, Double, not_a_number, Seen, Negotiation,
}

abbrev pub Any : {A : Type 0} → (A → Type 0) → List A → Type 0
Any P [] = ⊥
Any P (x ∷ xs) = P x ⊎ Any P xs

abbrev pub IsNumber : Double → Type 0
IsNumber not_a_number = ⊥
IsNumber _ = Unit

MimeType-discrete : Discrete MimeType
MimeType-discrete = hlevel

-- "At least" is transitive, from a number.
pub ge_trans :
    (a b c : Double)
    → IsNumber a
    → IsNumber b
    → double_lt a b ≡ false
    → double_lt b c ≡ false
    → double_lt a c ≡ false
ge_trans a b c u v h k = ground arith

-- What a run over the entries makes of one type's record.
pub record Best (q : Bytes → Double) (t : MimeType) (s s' : Seen) (es : List Bytes) : Type 0 where
  pub number : IsNumber s'.q
  pub above : double_lt s'.q s.q ≡ false
  pub top : All (λ e. entry_type e ≡ t → double_lt s'.q (q e) ≡ false) es
  pub source : (s'.q ≡ s.q) ⊎ Any (λ e. (entry_type e ≡ t) × (q e ≡ s'.q)) es

raise-IsNumber : (s : Seen) (q : Double) (i : ℕ) → IsNumber s.q → IsNumber (raise s q i).q
unfolding raise
raise-IsNumber s q i h = ground arith

raise_above : (s : Seen) (q : Double) (i : ℕ) → IsNumber s.q → double_lt (raise s q i).q s.q ≡ false
unfolding raise
raise_above s q i h = ground arith

raise_top : (s : Seen) (q : Double) (i : ℕ) → IsNumber s.q → double_lt (raise s q i).q q ≡ false
unfolding raise
raise_top s q i h = ground arith

raise_source : (s : Seen) (q : Double) (i : ℕ) → ((raise s q i).q ≡ s.q) ⊎ (q ≡ (raise s q i).q)
unfolding raise
raise_source s q i = ground arith

module _ (q : Bytes → Double) (t : MimeType) (e : Bytes) (es : List Bytes) (i : ℕ) where
  Best-hit :
      (s s' : Seen)
      → IsNumber s.q
      → entry_type e ≡ t
      → Best q t (raise s (q e) i) s' es
      → Best q t s s' (e ∷ es)
  Best-hit s s' h p b = record {
    number = b.number;
    above = ge_trans s'.q r.q s.q b.number rn b.above (raise_above s (q e) i h);
    top = (λ _. ge_trans s'.q r.q (q e) b.number rn b.above (raise_top s (q e) i h), b.top);
    source = elim b.source [
      | inl x ↦ elim (raise_source s (q e) i) [
        | inl y ↦ inl (x ∙ y)
        | inr y ↦ inr (inl (p, y ∙ sym x))
      ]
      | inr x ↦ inr (inr x)
    ];
  }
    where
      r : Seen
      r = raise s (q e) i

      rn : IsNumber r.q
      rn = raise-IsNumber s (q e) i h

  Best-miss : (s s' : Seen) → entry_type e ≢ t → Best q t s s' es → Best q t s s' (e ∷ es)
  Best-miss s s' p b = record {
    number = b.number;
    above = b.above;
    top = (λ x. absurd (p x), b.top);
    source = elim b.source [ inl x ↦ inl x | inr x ↦ inr (inr x) ];
  }

Best-nil : (q : Bytes → Double) (t : MimeType) (s : Seen) → IsNumber s.q → Best q t s s []
Best-nil q t s h = record { number = h; above = ground arith; top = tt; source = inl refl }

module _ (strtod : Bytes → Double) (t : MimeType) (sel : Negotiation → Seen)
    (hit : (q : Double) (i : ℕ) (n : Negotiation) → sel (note t q i n) ≡ raise (sel n) q i)
    (miss : (u : MimeType) (q : Double) (i : ℕ) (n : Negotiation)
      → u ≢ t
      → sel (note u q i n) ≡ sel n) where
  pub negotiate-Best :
      (es : List Bytes) (i : ℕ) (n : Negotiation)
      → IsNumber (sel n).q
      → Best (entry_q strtod) t (sel n) (sel (negotiate strtod es i n)) es
  unfolding negotiate
  negotiate-Best [] i n h = Best-nil (entry_q strtod) t (sel n) h
  negotiate-Best (e ∷ es) i n h =
      let n' = note (entry_type e) (entry_q strtod e) i n in
      let out = sel (negotiate strtod es (i + 1) n') in
      elim (MimeType-discrete (entry_type e) t) [
        | yes p ↦
            let at : sel n' ≡ raise (sel n) (entry_q strtod e) i =
              rw p (hit (entry_q strtod e) i n) in
            let go : IsNumber (sel n').q = rw at (raise-IsNumber (sel n) (entry_q strtod e) i h) in
            Best-hit (entry_q strtod) t e es i (sel n) out h p
              (subst (λ s. Best (entry_q strtod) t s out es) at (negotiate-Best es (i + 1) n' go))
        | no p ↦
            let at : sel n' ≡ sel n = miss (entry_type e) (entry_q strtod e) i n p in
            let go : IsNumber (sel n').q = rw at h in
            Best-miss (entry_q strtod) t e es i (sel n) out p
              (subst (λ s. Best (entry_q strtod) t s out es) at (negotiate-Best es (i + 1) n' go))
      ]
