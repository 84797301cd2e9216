-- ===== src/Params/Registry.antt =====
-- The table is a dictionary in which a later registration of a name hides an earlier one.
use cor_rest.Base.{
  leb, if◌then◌else◌, Bytes, length, take, str_eq, str_eq_iff, ℕ, zero, suc, ◌≡◌, refl, ap, ◌∙◌,
  Bool, true, false, not, some, List, [], ◌∷◌, arith,
}
use cor_rest.Params.{
  param_hash, chain, param_add_loop, param_add, chain_find, param_lookup, Param, Table,
}

-- The dictionary: the bit of the last entry with the name, or else what was there before.
abbrev pub last_bit : Bytes → List Param → ℕ → ℕ
last_bit name [] before = before
last_bit name (p ∷ ps) before = last_bit name ps (if str_eq name p.name then p.bit else before)

chain_find-chain :
    (name : Bytes) (p : Param) (slots : ℕ → List Param)
    → chain_find name (chain (param_hash p.name) p slots (param_hash name))
      ≡ (if str_eq name p.name then p.bit else chain_find name (slots (param_hash name)))
unfolding chain_find chain
chain_find-chain name p slots =
    ground (arith, str_eq_iff name p.name, λ (e : name ≡ p.name). ap param_hash e)

param_add_loop_lem :
    (room : ℕ) (ps : List Param) (name : Bytes) (slots : ℕ → List Param)
    → chain_find name ((param_add_loop room ps slots).0 (param_hash name))
      ≡ last_bit name (take room ps) (chain_find name (slots (param_hash name)))
unfolding param_add_loop
param_add_loop_lem zero [] name slots = refl
param_add_loop_lem (suc room) [] name slots = refl
param_add_loop_lem zero (p ∷ ps) name slots = refl
param_add_loop_lem (suc room) (p ∷ ps) name slots =
    param_add_loop_lem room ps name (chain (param_hash p.name) p slots)
    ∙ ap (last_bit name (take room ps)) (chain_find-chain name p slots)

param_add_loop_done :
    (room : ℕ) (ps : List Param) (slots : ℕ → List Param)
    → (param_add_loop room ps slots).1 ≡ leb (length ps) room
unfolding param_add_loop
param_add_loop_done zero [] slots = refl
param_add_loop_done (suc room) [] slots = ground arith
param_add_loop_done zero (p ∷ ps) slots = ground arith
param_add_loop_done (suc room) (p ∷ ps) slots =
    param_add_loop_done room ps (chain (param_hash p.name) p slots) ∙ ground arith

-- A table that was not ready is cleared, and answers 0.
chain_find_cleared :
    (name : Bytes) (slots : ℕ → List Param) (k : ℕ) (ready : Bool)
    → chain_find name ((if ready then slots else λ j. []) k)
      ≡ (if not ready then 0 else chain_find name (slots k))
unfolding chain_find
chain_find_cleared name slots k true = refl
chain_find_cleared name slots k false = refl

-- After a registration, a name has the bit of the last entry with that name among those for which
-- there was memory, and else the bit that it had before; names that collide in a slot do not
-- disturb one another. The call fails exactly when there was not memory for all of them.
pub param_lookup-param_add :
    (room : ℕ) (ps : List Param) (t : Table) (name : Bytes)
    → (param_lookup name (param_add room (some ps) t).0
        ≡ last_bit name (take room ps) (param_lookup name t))
      × ((param_add room (some ps) t).1 ≡ leb (length ps) room)
unfolding param_lookup param_add
param_lookup-param_add room ps t name = (
  param_add_loop_lem room ps name start ∙ ap (last_bit name (take room ps)) before,
  param_add_loop_done room ps start,
)
  where
    start : ℕ → List Param
    start = if t.ready then t.slots else λ k. []

    before : chain_find name (start (param_hash name)) ≡ param_lookup name t
    before = chain_find_cleared name t.slots (param_hash name) t.ready
