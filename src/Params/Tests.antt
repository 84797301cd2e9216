-- ===== src/Params/Tests.antt =====
-- The registry at concrete names.
use cor_rest.Base.{leb, length, take, codes, str_eq, ◌%◌, ◌≡◌, refl, false, some, List, [], ◌∷◌}
use cor_rest.Params.{
  hash_from, param_hash, chain, param_add_loop, param_add, chain_find, param_lookup, Param, Table,
}
use cor_rest.Params.Registry.{last_bit, param_lookup-param_add}

abbrev empty_table : Table
empty_table = record { slots = λ k. []; ready = false }

abbrev some_params : List Param
some_params =
    record { name = codes "limit"; bit = 1 }
    ∷ record { name = codes "offset"; bit = 2 }
    ∷ record { name = codes "limit"; bit = 4 }
    ∷ []

hash_ab : param_hash (codes "ab") ≡ 5863208 % 64
unfolding param_hash hash_from
hash_ab = refl

param_lookup-param_add_example :
    (param_lookup (codes "limit") (param_add 3 (some some_params) empty_table).0
      ≡ last_bit (codes "limit") (take 3 some_params) (param_lookup (codes "limit") empty_table))
    × ((param_add 3 (some some_params) empty_table).1 ≡ leb (length some_params) 3)
param_lookup-param_add_example = param_lookup-param_add 3 some_params empty_table (codes "limit")

limit_hidden : param_lookup (codes "limit") (param_add 3 (some some_params) empty_table).0 ≡ 4
unfolding param_lookup param_add param_add_loop chain chain_find param_hash hash_from str_eq
limit_hidden = refl
