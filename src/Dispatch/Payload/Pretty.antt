-- ===== src/Dispatch/Payload/Pretty.antt =====
-- The removal of ?pretty=N leaves the other parameters, in some order.
use mathlib.Core.Logic.{∥∥₁_map}
use mathlib.Core.List.{Perm, Permᴰ}
use mathlib.Core.List.Perm
use mathlib.Core.List.Permᴰ
use cor_rest.Base.{
  if◌then◌else◌, Bool-cases, length, ℕ, zero, suc, ◌≤◌, ◌≡◌, refl, ap, ◌∙◌, inl, inr, List, [], ◌∷◌,
  arith,
}
use cor_rest.Response.Chunk.{Long}
use cor_rest.Response.Message.{atoi}
use cor_rest.Request.{KeyValue}
use cor_rest.Dispatch.{Exchange}
use cor_rest.Dispatch.Payload.{behind, last_first, is_pretty, pretty_loop, take_pretty}

-- The parameters that are not named "pretty"
abbrev pub kept : List KeyValue → List KeyValue
kept [] = []
kept (p ∷ ps) = let rest = kept ps in if is_pretty p then rest else p ∷ rest

kept-Permᴰ : {a b : List KeyValue} → Permᴰ a b → Permᴰ (kept a) (kept b)
kept-Permᴰ Permᴰ.nil = Permᴰ.nil
kept-Permᴰ (Permᴰ.cons {a = a} {b = b} e π) =
    let ih = kept-Permᴰ π in
    elim (Bool-cases (is_pretty b)) [
      | inl t ↦ rw (ap is_pretty e, t) ih
      | inr f ↦ rw (ap is_pretty e, f) (Permᴰ.cons e ih)
    ]
kept-Permᴰ (Permᴰ.swap {a = a} {b = b} {a' = a'} {b' = b'} {l = l} e e') =
    let same = Permᴰ.refl (kept l) in
    let one = ap is_pretty e in
    let two = ap is_pretty e' in
    elim (Bool-cases (is_pretty a')) [
      | inl t ↦ elim (Bool-cases (is_pretty b')) [
        | inl t' ↦ rw (one, two, t, t') same
        | inr f' ↦ rw (one, two, t, f') (Permᴰ.cons e same)
      ]
      | inr f ↦ elim (Bool-cases (is_pretty b')) [
        | inl t' ↦ rw (one, two, f, t') (Permᴰ.cons e' same)
        | inr f' ↦ rw (one, two, f, f') (Permᴰ.swap e e')
      ]
    ]
kept-Permᴰ (Permᴰ.trans π π') = Permᴰ.trans (kept-Permᴰ π) (kept-Permᴰ π')

kept-Perm : (a b : List KeyValue) → Perm a b → Perm (kept a) (kept b)
kept-Perm a b π = ∥∥₁_map π (λ σ. kept-Permᴰ σ)

behind-Perm {ℓ} : {A : Type ℓ} (x : A) (xs : List A) → Perm (behind x xs) (x ∷ xs)
behind-Perm x [] = Perm.rfl
behind-Perm x (y ∷ ys) = Perm.swap x y ys

last_first-Perm {ℓ} : {A : Type ℓ} (xs : List A) → Perm (last_first xs) xs
unfolding last_first
last_first-Perm [] = Perm.rfl
last_first-Perm (x ∷ xs) =
    Perm.trans (behind-Perm x (last_first xs)) (Perm.cons x (last_first-Perm xs))

length-behind {ℓ} : {A : Type ℓ} (x : A) (xs : List A) → length (behind x xs) ≡ suc (length xs)
length-behind x [] = refl
length-behind x (y ∷ ys) = refl

length-last_first {ℓ} : {A : Type ℓ} (xs : List A) → length (last_first xs) ≡ length xs
unfolding last_first
length-last_first [] = refl
length-last_first (x ∷ xs) = length-behind x (last_first xs) ∙ ap suc (length-last_first xs)

pub pretty_loop-Perm :
    (fuel : ℕ) (ps : List KeyValue) (n : Long)
    → length ps ≤ fuel
    → Perm (pretty_loop fuel ps n).0 (kept ps)
unfolding pretty_loop
pretty_loop-Perm zero [] n enough = Perm.rfl
pretty_loop-Perm zero (p ∷ ps) n enough = elim enough [ ]
pretty_loop-Perm (suc fuel) [] n enough = Perm.rfl
pretty_loop-Perm (suc fuel) (p ∷ ps) n enough =
    let again =
      pretty_loop-Perm fuel (last_first ps) (atoi p.value) (omega (arith, length-last_first ps)) in
    let moved = kept-Perm (last_first ps) ps (last_first-Perm ps) in
    elim (Bool-cases (is_pretty p)) [
      | inl pretty ↦
          let step : pretty_loop (suc fuel) (p ∷ ps) n
              ≡ pretty_loop fuel (last_first ps) (atoi p.value) =
            ground (arith, pretty) in
          rw (step, pretty) (Perm.trans again moved)
      | inr other ↦
          let rest = pretty_loop fuel ps n in
          let step : pretty_loop (suc fuel) (p ∷ ps) n ≡ (p ∷ rest.0, rest.1) =
            ground (arith, other) in
          rw (step, other) (Perm.cons p (pretty_loop-Perm fuel ps n (omega arith)))
    ]

-- What the removal of ?pretty=N leaves of the URL parameters is a rearrangement of those that are
-- not named "pretty": every one of these is there as often as before, and no other.
pub take_pretty-Perm :
    (e : Exchange) → Perm (take_pretty e).req.uri_param_v (kept e.req.uri_param_v)
unfolding take_pretty
take_pretty-Perm e =
    let ps = e.req.uri_param_v in pretty_loop-Perm (length ps) ps e.pretty (omega arith)
