-- ===== src/Route/Lookup/Tests.antt =====
-- The lookup at concrete routes and paths.
use cor_rest.Base.{
  Bytes, All, codes, str_eq, strn_eq, has_char, index_text, c_string, ℕ, ◌≡◌, refl, false, none,
  some, List, [], ◌∷◌, arith,
}
use cor_rest.Verb.{get}
use cor_rest.Route.{
  char_int, add_int, scan_char, scan, copy16, service_expand, ServiceOptions, ServiceSimplified,
  Service,
}
use cor_rest.Route.Pattern.{char_sum, one_wildcard}
use cor_rest.Route.Lookup.{
  sums_from, request_prepare, sum_before, text_at, put_nul, is_component, match_exact,
  match_service, lookup_loop, service_lookup, hit, miss,
}
use cor_rest.Route.Lookup.Sums.{lookup_one}
use cor_rest.Route.Lookup.Exact.{lookup_one-exact_long}
use cor_rest.Route.Lookup.One.{Fills}
use cor_rest.Route.Lookup.OneSound.{lookup_one_complete, lookup_one_sound, Captures}
use cor_rest.Route.Lookup.Two.{lookup_one-same_sum, lookup_one-double_second}
use cor_rest.Route.Lookup.First.{HasNoSuffix, service_lookup-IsFirst, IsFirst}

abbrev no_options : ServiceOptions
no_options = record {
  uri_at0 = false;
  name_at1 = false;
  uri_at2 = false;
  entity_array_body = false;
  plain_json_body = false;
}

abbrev route : Bytes → ServiceSimplified
route u = record {
  verb = get;
  simple_url = u;
  simple_routine = 1;
  simple_params = 0;
  simple_ld_op = 0;
  simple_check = none;
  simple_options = no_options;
}

-- What lies on the stack outside the sums.
abbrev garbage : ℕ → ℕ
garbage n = 7

exact_hit :
    lookup_one garbage (service_expand (route (codes "/ping"))) (codes "/ping")
    ≡ hit (codes "/ping") []
unfolding service_expand scan scan_char copy16 char_int add_int match_service match_exact sum_before
    request_prepare sums_from str_eq c_string
exact_hit = refl

abbrev long_route : Bytes
long_route = codes "/aaaaaaaaaaaaaaaaaaaaaaaaaaaaaaaaaaaaaaaaaaaaaaaaaaaaaaaaaaaaaaaaaaaaaaaaaaa"

lookup_one-exact_long_example :
    lookup_one garbage (service_expand (route long_route)) long_route ≡ miss long_route
lookup_one-exact_long_example =
    lookup_one-exact_long garbage (route long_route) (omega arith) (omega arith)
      (unfold char_sum char_int add_int in λ e. omega arith)

-- GET /entities/*/attrs, and a path for it.
abbrev attrs_route : ServiceSimplified
attrs_route = route (one_wildcard (codes "/entities/") false (codes "/attrs"))

abbrev attrs_path : Bytes
attrs_path = codes "/entities/urn:1/attrs"

filled : Fills (codes "/entities/") false (codes "/attrs") attrs_path (codes "urn:1")
filled = record {
  path_is = refl;
  some_text = λ e. cc;
  component = unfold is_component has_char in refl;
}

lookup_one_complete_example :
    (b : Bytes) × (lookup_one garbage (service_expand attrs_route) attrs_path ≡ hit b (10 ∷ []))
    × (text_at b 10 ≡ codes "urn:1")
lookup_one_complete_example =
    lookup_one_complete garbage attrs_route (codes "/entities/") false (codes "/attrs") attrs_path
      refl (omega arith) (omega arith) (omega arith) (codes "urn:1") filled

attrs_hit :
    (b : Bytes) × (lookup_one garbage (service_expand attrs_route) attrs_path ≡ hit b (10 ∷ []))
    × (text_at b 10 ≡ codes "urn:1")
attrs_hit =
    lookup_one_complete garbage attrs_route (codes "/entities/") false (codes "/attrs") attrs_path
      refl (omega arith) (omega arith) (omega arith) (codes "urn:1") filled

lookup_one_sound_example :
    (w : Bytes) × Captures
      (codes "/entities/")
      false
      (codes "/attrs")
      attrs_path
      attrs_hit.0
      (10 ∷ [])
      w
lookup_one_sound_example =
    lookup_one_sound garbage attrs_route (codes "/entities/") false (codes "/attrs") attrs_path refl
      (omega arith) (omega arith) (omega arith) attrs_hit.0 (10 ∷ []) attrs_hit.1

-- GET /ab/*/x/* answers for /ba/1/x/2.
lookup_one-same_sum_example :
    lookup_one garbage (service_expand (route (codes "/ab/*/x/*"))) (codes "/ba/1/x/2")
    ≡ hit (put_nul (codes "/ba/1/x/2") 5) (4 ∷ 8 ∷ [])
lookup_one-same_sum_example =
    lookup_one-same_sum garbage (route (codes "/ab/*/x/*")) (codes "/ab/") (codes "/x/") false
      (codes "/ba/") (codes "1") (codes "2") refl (omega arith) (omega arith) (omega arith)
      (refl, unfold char_sum char_int add_int in refl) (omega arith)
      (unfold index_text strn_eq in refl) (unfold is_component has_char in refl)

lookup_one-double_second_example :
    lookup_one garbage (service_expand (route (codes "/a/*/b/**"))) (codes "/a/1/b/2/3")
    ≡ miss (codes "/a/1/b/2/3")
lookup_one-double_second_example =
    lookup_one-double_second garbage (route (codes "/a/*/b/**")) (codes "/a/") (codes "/b/")
      (codes "/a/1/b/2/3") false refl (omega arith) (omega arith) (omega arith)

abbrev two_routes : List Service
two_routes = service_expand (route (codes "/a")) ∷ service_expand (route (codes "/ping")) ∷ []

two_routes-HasNoSuffix : All HasNoSuffix two_routes
unfolding service_expand scan scan_char
two_routes-HasNoSuffix = (refl, (refl, tt))

ping_found :
    (service_lookup garbage two_routes (codes "/ping")).service
    ≡ some (service_expand (route (codes "/ping")))
unfolding service_expand scan scan_char copy16 char_int add_int match_service match_exact sum_before
    request_prepare sums_from str_eq c_string service_lookup lookup_loop
ping_found = refl

service_lookup-IsFirst_example :
    IsFirst garbage two_routes
      (codes "/ping")
      (service_expand (route (codes "/ping")))
      (service_lookup garbage two_routes (codes "/ping"))
service_lookup-IsFirst_example =
    service_lookup-IsFirst garbage two_routes (codes "/ping")
      (service_expand (route (codes "/ping"))) two_routes-HasNoSuffix ping_found

nothing_found : (service_lookup garbage two_routes (codes "/pong")).service ≡ none
unfolding service_expand scan scan_char copy16 char_int add_int match_service match_exact sum_before
    request_prepare sums_from str_eq c_string service_lookup lookup_loop
nothing_found = refl
