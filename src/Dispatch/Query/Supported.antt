-- ===== src/Dispatch/Query/Supported.antt =====
-- The URL parameters of a request against those that its service supports.
use Prim.Native.Nat.{bit_and, bit_or}
use mathlib.Core.List.{append_assoc}
use cor_rest.Base.{
  ltb, ◌==◌, if◌then◌else◌, Bool-cases, Bytes, length, take, get_elem?, length-append, codes, ℕ,
  zero, suc, ◌+◌, ◌≡◌, refl, sym, ap, ◌∙◌, subst, inl, inr, Bool, false, not, ◌&&◌, ◌||◌, Option,
  none, some, List, [], ◌∷◌, ◌++◌, arith,
}
use cor_rest.Route.{Service}
use cor_rest.Params.{param_lookup, Table}
use cor_rest.Request.{KeyValue}
use cor_rest.Dispatch.{problem, Exchange, App, Step, go, respond}
use cor_rest.Dispatch.Query.{
  any_params, set_elem, note_bit, run_param_hook, unsupported, check_params, validate_params,
}

-- Registered, and one of those that the service names.
abbrev pub supports : Table → Service → KeyValue → Bool
supports table s p =
    let bit = param_lookup p.key table in not (bit == 0 || bit_and bit s.supported_params == 0)

-- The first parameter that is not supported
abbrev pub first_bad : Table → Service → List KeyValue → Option KeyValue
first_bad table s [] = none
first_bad table s (p ∷ ps) =
    let rest = first_bad table s ps in if supports table s p then rest else some p

-- The parameters with their bits
abbrev pub with_bits : Table → List KeyValue → List KeyValue
with_bits table [] = []
with_bits table (p ∷ ps) = record p { bit = param_lookup p.key table } ∷ with_bits table ps

-- The mask, with the bits of the parameters in it.
abbrev pub mask_of : Table → List KeyValue → ℕ → ℕ
mask_of table [] mask = mask
mask_of table (p ∷ ps) mask = mask_of table ps (bit_or mask (param_lookup p.key table))

-- A hook for parameters that leaves the request and the mask alone.
abbrev pub KeepsParams : Option (Bytes → Bytes → Exchange → Exchange) → Type 0
KeepsParams none = Unit
KeepsParams (some hook) =
    (k v : Bytes) (e : Exchange)
    → ((hook k v e).req ≡ e.req) × ((hook k v e).uri_param_mask ≡ e.uri_param_mask)

-- With no bad parameter the dispatch goes on with these parameters and this mask; with one, it
-- stops with 400 and the key in the detail.
abbrev pub ParamsOutcome : Option KeyValue → List KeyValue → ℕ → Step → Type 0
ParamsOutcome none ps mask (go e) = (e.req.uri_param_v ≡ ps) × (e.uri_param_mask ≡ mask)
ParamsOutcome none ps mask (respond e) = ⊥
ParamsOutcome (some p) ps mask (go e) = ⊥
ParamsOutcome (some p) ps mask (respond e) =
    (e.out.http_status_code ≡ 400)
    × (e.out.problem_detail ≡ take 511 (codes "Unknown/unsupported URL parameter: " ++ p.key))

get_elem?-append :
    (done : List KeyValue) (p : KeyValue) (ps : List KeyValue)
    → get_elem? (done ++ p ∷ ps) (length done) ≡ some p
get_elem?-append [] p ps = refl
get_elem?-append (d ∷ done) p ps = ground (arith, get_elem?-append done p ps)

set_elem-append :
    (done : List KeyValue) (p q : KeyValue) (ps : List KeyValue)
    → set_elem (done ++ p ∷ ps) (length done) q ≡ done ++ q ∷ ps
unfolding set_elem
set_elem-append [] p q ps = refl
set_elem-append (d ∷ done) p q ps = ap (λ t. d ∷ t) (set_elem-append done p q ps)

run_param_hook-keeps :
    (hook : Option (Bytes → Bytes → Exchange → Exchange)) (p : KeyValue) (e : Exchange)
    → KeepsParams hook
    → ((run_param_hook hook p e).req ≡ e.req)
      × ((run_param_hook hook p e).uri_param_mask ≡ e.uri_param_mask)
unfolding run_param_hook
run_param_hook-keeps none p e keeps = (refl, refl)
run_param_hook-keeps (some hook) p e keeps = keeps p.key p.value e

-- From the parameters `done` on
check_params-outcome :
    (app : App) (s : Service) (done ps : List KeyValue) (e : Exchange)
    → KeepsParams app.param_hook
    → e.req.uri_param_v ≡ done ++ ps
    → ParamsOutcome
        (first_bad app.param_table s ps)
        (done ++ with_bits app.param_table ps)
        (mask_of app.param_table ps e.uri_param_mask)
        (check_params app s (length ps) (length done) e)
unfolding check_params note_bit unsupported problem
check_params-outcome app s done [] e keeps here = (here, refl)
check_params-outcome app s done (p ∷ ps) e keeps here =
    let bit = param_lookup p.key app.param_table in
    let q = record p { bit = bit } in
    let e1 = note_bit (length done) p bit e in
    let e2 = run_param_hook app.param_hook p e1 in
    let found = ap (λ l. get_elem? l (length done)) here ∙ get_elem?-append done p ps in
    let (req, mask) = run_param_hook-keeps app.param_hook p e1 keeps in
    let here' : e2.req.uri_param_v ≡ (done ++ q ∷ []) ++ ps =
      ap (λ r. r.uri_param_v) req
      ∙ ap (λ l. set_elem l (length done) q) here
      ∙ set_elem-append done p q ps
      ∙ sym (append_assoc done (q ∷ []) ps) in
    let rest = check_params-outcome app s (done ++ q ∷ []) ps e2 keeps here' in
    let bad = first_bad app.param_table s ps in
    let tail = with_bits app.param_table ps in
    let step = check_params app s (length ps) in
    let counted =
      subst
        (λ m.
          ParamsOutcome bad ((done ++ q ∷ []) ++ tail) (mask_of app.param_table ps m)
            (step (length (done ++ q ∷ [])) e2))
        mask rest in
    let kept =
      subst
        (λ l.
          ParamsOutcome bad l (mask_of app.param_table ps e1.uri_param_mask)
            (step (length (done ++ q ∷ [])) e2))
        (append_assoc done (q ∷ []) tail) counted in
    let next =
      subst
        (λ n.
          ParamsOutcome bad (done ++ q ∷ tail) (mask_of app.param_table ps e1.uri_param_mask)
            (step n e2))
        (length-append done (q ∷ [])) kept in
    elim (Bool-cases (bit == 0 || bit_and bit s.supported_params == 0)) [
      | inl unknown ↦
          let stop : check_params app s (length (p ∷ ps)) (length done) e
              ≡ respond (unsupported p e1) =
            ground (arith, found, unknown) in
          subst
            (λ st.
              ParamsOutcome (first_bad app.param_table s (p ∷ ps)) (done ++ q ∷ tail)
                (mask_of app.param_table ps e1.uri_param_mask) st)
            (sym stop) (rw unknown (refl, refl))
      | inr known ↦
          let go_on : check_params app s (length (p ∷ ps)) (length done) e
              ≡ step (length done + 1) e2 =
            ground (arith, found, known) in
          subst
            (λ st.
              ParamsOutcome (first_bad app.param_table s (p ∷ ps)) (done ++ q ∷ tail)
                (mask_of app.param_table ps e1.uri_param_mask) st)
            (sym go_on) (rw known next)
    ]

-- No parameters are none to check.
skip_none :
    (app : App) (s : Service) (n : ℕ) (any : Bool) (e : Exchange)
    → any ≡ false
    → (if ltb 0 n && not any then check_params app s n 0 e else go e) ≡ check_params app s n 0 e
unfolding check_params
skip_none app s zero any e some_params = ground arith
skip_none app s (suc n) any e some_params = ground (arith, some_params)

-- A request with parameters, for a service that does not take just any, and a hook that leaves the
-- request and the mask alone: if every parameter is registered and is one of those that the
-- service supports, the dispatch goes on, with the parameter's bit at every parameter and all the
-- bits in the mask; else it stops with 400 and the key of the first that is not in the detail.
pub validate_params-outcome :
    (app : App) (s : Service) (e : Exchange)
    → KeepsParams app.param_hook
    → s.supported_params == any_params ≡ false
    → ParamsOutcome
        (first_bad app.param_table s e.req.uri_param_v)
        (with_bits app.param_table e.req.uri_param_v)
        (mask_of app.param_table e.req.uri_param_v e.uri_param_mask)
        (validate_params app s e)
unfolding validate_params
validate_params-outcome app s e keeps some_params =
    let ps = e.req.uri_param_v in
    subst
      (λ st.
        ParamsOutcome (first_bad app.param_table s ps) (with_bits app.param_table ps)
          (mask_of app.param_table ps e.uri_param_mask) st)
      (sym (skip_none app s (length ps) (s.supported_params == any_params) e some_params))
      (check_params-outcome app s [] ps e keeps refl)
