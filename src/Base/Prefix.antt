-- ===== src/Base/Prefix.antt =====
-- What `strncmp` and `strstr` say of the texts that they compare.
use Prim.Native.Nat.{ℕ, zero, suc, ◌+◌}
use mathlib.Core.Path.{◌≡◌, refl, ap}
use mathlib.Core.Logic.{inl, inr}
use mathlib.Core.Bool.{true}
use mathlib.Core.Option.{Option, none, some}
use mathlib.Core.List.{[], ◌∷◌, ◌++◌}
use native.Mathlib.Omega.{arith}
use native.Mathlib.Nat.{zero-add, suc-add}
use cor_rest.Base.Tests.{Bool-cases}
use cor_rest.Base.Lists.{Bytes, length, take, drop}
use cor_rest.Base.Text.{strn_eq, index_text}

pub strn_eq-append : (t x r : Bytes) → strn_eq (length t) (t ++ x) (t ++ r) ≡ true
unfolding strn_eq
strn_eq-append [] x r = refl
strn_eq-append (c ∷ t) x r = ground (arith, strn_eq-append t x r)

pub strn_eq-prefix : (t r : Bytes) → strn_eq (length t) (t ++ r) t ≡ true
unfolding strn_eq
strn_eq-prefix [] r = refl
strn_eq-prefix (c ∷ t) r = ground (arith, strn_eq-prefix t r)

-- Equal up to the length of the pattern's prefix: the text starts with that prefix.
pub strn_eq_left :
    (t x s : Bytes) → strn_eq (length t) (t ++ x) s ≡ true → s ≡ t ++ drop (length t) s
unfolding strn_eq
strn_eq_left [] x s h = refl
strn_eq_left (c ∷ t) x [] h = ground arith
strn_eq_left (c ∷ t) x (d ∷ s) h = ground (arith, strn_eq_left t x s)

pub strn_eq_right : (t s : Bytes) → strn_eq (length t) s t ≡ true → s ≡ t ++ drop (length t) s
unfolding strn_eq
strn_eq_right [] s h = refl
strn_eq_right (c ∷ t) [] h = ground arith
strn_eq_right (c ∷ t) (d ∷ s) h = ground (arith, strn_eq_right t s)

index_text-here :
    (t s : Bytes) (i : ℕ)
    → some 0 ≡ some i
    → strn_eq (length t) s t ≡ true
    → s ≡ take i s ++ t ++ drop (i + length t) s
index_text-here t s zero e h = rw (zero-add (length t)) (strn_eq_right t s h)
index_text-here t s (suc i) e h = absurd (ground arith)

index_text-later :
    (t : Bytes) (c : ℕ) (s : Bytes) (o : Option ℕ) (i : ℕ)
    → elim o [ none ↦ none | some k ↦ some (suc k) ] ≡ some i
    → ((k : ℕ) → o ≡ some k → s ≡ take k s ++ t ++ drop (k + length t) s)
    → c ∷ s ≡ take i (c ∷ s) ++ t ++ drop (i + length t) (c ∷ s)
index_text-later t c s none i e ih = ground arith
index_text-later t c s (some k) zero e ih = absurd (ground arith)
index_text-later t c s (some k) (suc i) e ih =
    let same : k ≡ i = ground arith in rw (suc-add i (length t)) (ap (◌∷◌ c) (ih i (ap some same)))

-- Where `strstr` finds the text, the string splits.
pub index_text_split :
    (t s : Bytes) (i : ℕ) → index_text t s ≡ some i → s ≡ take i s ++ t ++ drop (i + length t) s
unfolding index_text
index_text_split t [] i h = elim (Bool-cases (strn_eq (length t) [] t)) [
  | inl e ↦ index_text-here t [] i (ground arith) e
  | inr e ↦ absurd (ground arith)
]
index_text_split t (c ∷ s) i h = elim (Bool-cases (strn_eq (length t) (c ∷ s) t)) [
  | inl e ↦ index_text-here t (c ∷ s) i (ground arith) e
  | inr e ↦ index_text-later t c s (index_text t s) i (rw e at h) (λ k p. index_text_split t s k p)
]
