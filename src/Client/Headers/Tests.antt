-- ===== src/Client/Headers/Tests.antt =====
-- Twelve headers, and looking one up.
use cor_rest.Base.{
  Bytes, length, codes, strn_case_eq, ◌≤◌, ◌≡◌, refl, true, false, none, some, List, [], ◌∷◌, ◌++◌,
}
use cor_rest.Verb.{get}
use cor_rest.Client.Headers.{
  request_init, free_vector, request_header, request_cleanup, client_response_header, mallocs,
}
use cor_rest.Client.Headers.Owned.{add_headers, block_after, request_cleanup-released}

abbrev via : Bytes × Bytes
via = (codes "Via", codes "1")

abbrev twelve : List (Bytes × Bytes)
twelve = via ∷ via ∷ via ∷ via ∷ via ∷ via ∷ via ∷ via ∷ via ∷ via ∷ via ∷ via ∷ []

one_block : (add_headers (λ n. true) twelve (request_init 5000 get none false)).0 ≡ mallocs 0 ∷ []
unfolding add_headers request_header request_init free_vector
one_block = refl

found :
    client_response_header (codes "location") ((codes "Location", codes "x") ∷ [])
    ≡ some (codes "x")
unfolding client_response_header strn_case_eq
found = refl

request_cleanup-released_example :
    let (calls, r) = add_headers (λ n. true) twelve (request_init 5000 get none false) in
    (block_after 0 (calls ++ (request_cleanup r).0) (some false) ≡ some false)
    × (length r.header_v ≤ r.header_size)
request_cleanup-released_example = request_cleanup-released 5000 get none false (λ n. true) twelve 0
