-- ===== src/Params.antt =====
-- corRestParamRegistry.c: the registry of URL parameter names, a hash table with chained slots.
-- A slot's list is its chain from the head. `calloc` can fail: `room` is the number of chain
-- entries for which there is still memory.
pub mod Registry
mod Tests
use cor_rest.Base.{
  ◌==◌, if◌then◌else◌, Bytes, str_eq, ℕ, zero, suc, ◌+◌, ◌*◌, ◌%◌, ◌^◌, Bool, true, false, not,
  Option, none, some, List, [], ◌∷◌,
}

-- CorRestParam
pub record Param : Type 0 where
  pub name : Bytes
  pub bit : ℕ

-- paramHashTable and paramHashReady
pub record Table : Type 0 where
  pub slots : ℕ → List Param
  pub ready : Bool

abbrev pub uint_mod : ℕ
uint_mod = 2 ^ 32

-- The loop of paramHash: 32-bit arithmetic.
unfoldable pub hash_from : ℕ → Bytes → ℕ
hash_from hash [] = hash
hash_from hash (c ∷ s) = hash_from ((hash * 32 % uint_mod + hash + c) % uint_mod) s

-- paramHash, djb2
unfoldable pub param_hash : Bytes → ℕ
param_hash s = hash_from 5381 s % 64

-- A new entry at the head of a slot's chain.
unfoldable pub chain : ℕ → Param → (ℕ → List Param) → ℕ → List Param
chain slot p slots k = if k == slot then p ∷ slots k else slots k

-- The loop of corRestParamAdd; `false` when calloc fails, with what was added before.
unfoldable pub param_add_loop : ℕ → List Param → (ℕ → List Param) → (ℕ → List Param) × Bool
param_add_loop room [] slots = (slots, true)
param_add_loop zero (p ∷ ps) slots = (slots, false)
param_add_loop (suc room) (p ∷ ps) slots =
    param_add_loop room ps (chain (param_hash p.name) p slots)

-- corRestParamAdd; `none` is NULL.
unfoldable pub param_add : ℕ → Option (List Param) → Table → Table × Bool
param_add room none t = (t, true)
param_add room (some ps) t =
    let slots = if t.ready then t.slots else λ k. [] in
    let (slots', done) = param_add_loop room ps slots in
    (record { slots = slots'; ready = true }, done)

-- corRestParamInit
unfoldable pub param_init : ℕ → Option (List Param) → Table → Table × Bool
param_init room ps t = param_add room ps t

-- The walk along a chain.
unfoldable pub chain_find : Bytes → List Param → ℕ
chain_find name [] = 0
chain_find name (p ∷ ps) = if str_eq name p.name then p.bit else chain_find name ps

-- corRestParamLookup
unfoldable pub param_lookup : Bytes → Table → ℕ
param_lookup name t = if not t.ready then 0 else chain_find name (t.slots (param_hash name))
