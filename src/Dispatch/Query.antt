-- ===== src/Dispatch/Query.antt =====
-- corRestProcessRequest: the URL parameters against those that the service supports.
pub mod Supported
use Prim.Native.Nat.{bit_and, bit_or}
use cor_rest.Base.{
  ltb, ◌==◌, if◌then◌else◌, Bytes, length, get_elem?, codes, ℕ, zero, suc, ◌+◌, ◌-◌, ◌^◌, not, ◌&&◌,
  ◌||◌, Option, none, some, List, [], ◌∷◌, ◌++◌,
}
use cor_rest.Route.{Service}
use cor_rest.Params.{param_lookup}
use cor_rest.Request.{KeyValue}
use cor_rest.Dispatch.{problem, Exchange, App, Step, go, respond}

-- 64 bits, all set: any parameter will do.
abbrev pub any_params : ℕ
any_params = 2 ^ 64 - 1

unfoldable pub set_elem {ℓ} : {A : Type ℓ} → List A → ℕ → A → List A
set_elem [] i a = []
set_elem (x ∷ xs) zero a = a ∷ xs
set_elem (x ∷ xs) (suc i) a = x ∷ set_elem xs i a

-- The bit of a parameter, kept with it and in the mask of the request.
unfoldable pub note_bit : ℕ → KeyValue → ℕ → Exchange → Exchange
unfolding set_elem
note_bit i p bit e = record e {
  req = record e.req { uri_param_v = set_elem e.req.uri_param_v i (record p { bit = bit }) };
  uri_param_mask = bit_or e.uri_param_mask bit;
}

unfoldable pub run_param_hook :
    Option (Bytes → Bytes → Exchange → Exchange) → KeyValue → Exchange → Exchange
run_param_hook none p e = e
run_param_hook (some hook) p e = hook p.key p.value e

unfoldable pub unsupported : KeyValue → Exchange → Exchange
unfolding problem
unsupported p e =
    problem 400 (codes "InvalidRequest") (codes "Invalid Request")
      (codes "Unknown/unsupported URL parameter: " ++ p.key) e

-- The loop over the parameters, from the i-th on, in as many rounds as there were parameters; a hook
-- that added some would have the code run more.
unfoldable pub check_params : App → Service → ℕ → ℕ → Exchange → Step
unfolding note_bit run_param_hook unsupported param_lookup
check_params app s zero i e = go e
check_params app s (suc fuel) i e = elim (get_elem? e.req.uri_param_v i) [
  | none ↦ go e
  | some p ↦
      let bit = param_lookup p.key app.param_table in
      let e' = note_bit i p bit e in
      let rest = check_params app s fuel (i + 1) (run_param_hook app.param_hook p e') in
      if bit == 0 || bit_and bit s.supported_params == 0 then respond (unsupported p e') else rest
]

unfoldable pub validate_params : App → Service → Exchange → Step
unfolding check_params
validate_params app s e =
    let n = length e.req.uri_param_v in
    if ltb 0 n && not (s.supported_params == any_params) then check_params app s n 0 e else go e
