-- ===== src/Dispatch/Payload.antt =====
-- corRestProcessRequest: the payload, and the removal of ?pretty=N.
pub mod Pretty
use cor_rest.Base.{
  ltb, if◌then◌else◌, Bytes, length, codes, str_eq, ℕ, zero, suc, Bool, true, false, ◌&&◌, Option,
  none, some, List, [], ◌∷◌,
}
use cor_rest.Request.{KeyValue}
use cor_rest.Response.Chunk.{Long}
use cor_rest.Response.Message.{atoi}
use cor_rest.Dispatch.{Exchange, App}

abbrev or_empty : Option Bytes → Bytes
or_empty none = []
or_empty (some s) = s

-- A payload is parsed; the hook runs on a tree only.
unfoldable pub parse_text : App → Exchange → Exchange
parse_text app e =
    let e1 = app.pre_payload_parse e in
    let (tree, deep) = app.json_parse (or_empty e1.payload) in
    let e2 = record e1 { request_tree = tree; too_deep = deep; key_hook = false } in
    elim tree [ none ↦ e2 | some t ↦ app.payload_parse e2 ]

-- A body that came as a tree: the key hook over it, and the hook if all keys pass.
unfoldable pub replay_tree : App → ℕ → Exchange → Exchange
replay_tree app tree e =
    let e1 = app.pre_payload_parse e in
    let (e2, ok) =
      if e1.key_hook && app.is_container tree then app.key_replay tree e1 else (e1, true) in
    let e3 = record e2 { key_hook = false } in
    if ok then app.payload_parse e3 else record e3 { request_tree = none }

unfoldable pub parse_payload : App → Exchange → Exchange
unfolding parse_text replay_tree
parse_payload app e =
    if ltb 0 e.payload_size
    then parse_text app e
    else elim e.request_tree [ none ↦ e | some tree ↦ replay_tree app tree e ]

abbrev pub behind {ℓ} : {A : Type ℓ} → A → List A → List A
behind x [] = x ∷ []
behind x (y ∷ ys) = y ∷ x ∷ ys

-- A list with its last element moved to the front.
unfoldable pub last_first {ℓ} : {A : Type ℓ} → List A → List A
last_first [] = []
last_first (x ∷ xs) = behind x (last_first xs)

abbrev pub is_pretty : KeyValue → Bool
is_pretty p = str_eq p.key (codes "pretty")

-- The loop over the parameters, from one of them on: one named "pretty" is overwritten by the last.
unfoldable pub pretty_loop : ℕ → List KeyValue → Long → List KeyValue × Long
unfolding last_first str_eq atoi
pretty_loop zero ps n = (ps, n)
pretty_loop (suc fuel) [] n = ([], n)
pretty_loop (suc fuel) (p ∷ ps) n = elim (is_pretty p) [
  | true ↦ pretty_loop fuel (last_first ps) (atoi p.value)
  | false ↦ let (rest, n') = pretty_loop fuel ps n in (p ∷ rest, n')
]

unfoldable pub take_pretty : Exchange → Exchange
unfolding pretty_loop
take_pretty e =
    let ps = e.req.uri_param_v in
    let (rest, n) = pretty_loop (length ps) ps e.pretty in
    record e { req = record e.req { uri_param_v = rest }; pretty = n }
