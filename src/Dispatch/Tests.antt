-- ===== src/Dispatch/Tests.antt =====
-- Requests as they are dispatched.
use cor_rest.Dispatch.InProcess.{process_in_process, Inner, not_forwarded}
use cor_rest.Dispatch.InProcess.Forwarded.{
  with_space, asks, process_in_process-IsAsked, IsAsked, IsHandedBack,
}
use cor_rest.Request.Params.{IsParam}
use cor_rest.Base.{
  Bytes, length, All, codes, str_eq, strn_eq, has_char, index_text, c_string, ℕ, ◌+◌, ◌≤◌, ◌<◌, ◌≡◌,
  refl, true, false, none, some, List, [], ◌∷◌, ◌++◌, arith,
}
use cor_rest.Verb.{verb_index, verb_to_string, Verb, get, put, post, delete, head, options}
use cor_rest.Mime.{json}
use cor_rest.Route.{
  char_int, add_int, scan_star, scan_double, scan_char, scan, copy16, service_expand,
  service_prepare, ServiceOptions, ServiceSimplified, Service,
}
use cor_rest.Route.Lookup.{
  after_scheme, colon_slashes, is_url_form, sums_from, request_prepare, sum_before, put_nul,
  is_component, match_exact, match_one, match_first, match_suffix, match_two, match_rest,
  match_three, match_service, lookup_loop, service_lookup,
}
use cor_rest.Route.Build.{Routes, all_verbs, distribute, has_url, add_options, filled, routes_build}
use cor_rest.Route.Build.Vectors.{declared, routes_build-declared}
use cor_rest.Route.Build.OptionsOnce.{entries, mentioned, routes_build-options_once, declares}
use cor_rest.Params.{hash_from, param_hash, chain_find, param_lookup, Table}
use cor_rest.Request.{KeyValue, RequestIn}
use cor_rest.Response.Chunk.{plus}
use cor_rest.Reply.{Out}
use cor_rest.Dispatch.{Exchange, App}
use cor_rest.Dispatch.Missing.{has_empty_segment, no_service}
use cor_rest.Dispatch.Missing.Allow.{offered, missing_status, allow_headers, no_service-allow}
use cor_rest.Dispatch.Query.{validate_params}
use cor_rest.Dispatch.Query.Supported.{with_bits, mask_of, ParamsOutcome, validate_params-outcome}
use cor_rest.Dispatch.Serve.{run_service, render, process_request}
use cor_rest.Dispatch.Serve.Ready.{process_request-ran, Checked}
use cor_rest.Dispatch.Options.{matched_url, options_handler}
use cor_rest.Dispatch.Options.Allow.{options_handler-allow}

abbrev plain_options : ServiceOptions
plain_options = record {
  uri_at0 = false;
  name_at1 = false;
  uri_at2 = false;
  entity_array_body = false;
  plain_json_body = false;
}

abbrev simple : Verb → Bytes → ℕ → ServiceSimplified
simple v u routine = record {
  verb = v;
  simple_url = u;
  simple_routine = routine;
  simple_params = 5;
  simple_ld_op = 0;
  simple_check = none;
  simple_options = plain_options;
}

abbrev demo_services : List ServiceSimplified
demo_services =
    simple get (codes "/a") 1 ∷ simple post (codes "/a") 2 ∷ simple delete (codes "/b") 3 ∷ []

abbrev demo_routes : Routes
demo_routes = filled (service_prepare none) 9 demo_services

abbrev demo_table : Table
demo_table = record {
  slots =
      λ k. record { name = codes "limit"; bit = 1 } ∷ record { name = codes "count"; bit = 2 } ∷ [];
  ready = true;
}

abbrev demo_routine : ℕ → Exchange → Exchange
demo_routine n e = record e {
  out = record e.out { http_status_code = 200 + n };
  out_payload = some (codes "{}");
}

abbrev demo_app : App
demo_app = record {
  pre_dispatch = λ e. e;
  admit = none;
  pre_payload_parse = λ e. e;
  payload_parse = λ e. e;
  param_hook = none;
  pre_service = λ e. (e, true);
  payload_render = λ e. e;
  routine = demo_routine;
  json_parse = λ t. (some 1, false);
  json_render = λ e. some (codes "{}");
  json_size = λ e. 2;
  is_container = λ t. true;
  key_replay = λ t e. (e, true);
  accept_geo_json = false;
  param_table = demo_table;
  routes = demo_routes;
  stray = λ n. 0;
}

abbrev parameter : Bytes → Bytes → KeyValue
parameter k v = record { key = k; value = v; bit = 0 }

abbrev demo_request : Verb → Bytes → List KeyValue → RequestIn
demo_request v path ps = record {
  verb = v;
  url_path = path;
  url_path_len = length path;
  url_params = none;
  uri_param_v = ps;
  uri_param_size = 10;
  http_header_v = [];
  http_header_size = 10;
  content_type = none;
  content_mime = json;
  accept = none;
}

abbrev blank_out : Out
blank_out = record {
  http_status_code = 200;
  problem_type = none;
  problem_title = none;
  problem_detail = [];
  late = none;
  content_type = none;
  header_v = [];
  payload_size = 0;
  no_render = false;
  has_tree = false;
}

abbrev demo : Verb → Bytes → List KeyValue → Exchange
demo v path ps = record {
  req = demo_request v path ps;
  verb_string = some (codes "DEMO");
  wildcard = [];
  uri_param_mask = 0;
  pretty = plus 0;
  content_length_missing = false;
  payload = none;
  payload_size = 0;
  request_tree = none;
  too_deep = false;
  key_hook = false;
  upgrade_refused = false;
  self_forward_depth = 0;
  service = none;
  out = blank_out;
  out_payload = none;
}

abbrev demo_service : Service
demo_service = service_prepare none (simple get (codes "/a") 1)

-- PUT /a: GET, POST, HEAD and OPTIONS are there.
abbrev put_a : Exchange
put_a = demo put (codes "/a") []

four_others : offered demo_app (codes "/a") put all_verbs ≡ get ∷ post ∷ head ∷ options ∷ []
unfolding c_string verb_index service_lookup lookup_loop filled match_service service_prepare
    service_expand scan scan_char request_prepare add_int char_int sum_before sums_from match_exact
    has_char index_text str_eq strn_eq add_options distribute has_url after_scheme colon_slashes
    is_component is_url_form match_first match_one match_rest match_suffix match_three match_two
    put_nul copy16 scan_double scan_star
four_others = refl

no_service-allow_example :
    ((no_service demo_app put_a).out.http_status_code
      ≡ missing_status (offered demo_app (c_string (codes "/a")) put all_verbs))
    × ((no_service demo_app put_a).out.header_v
        ≡ [] ++ allow_headers (offered demo_app (c_string (codes "/a")) put all_verbs))
unfolding has_empty_segment index_text c_string strn_eq
no_service-allow_example = no_service-allow demo_app put_a refl

routes_build-declared_example :
    demo_routes head ≡ service_prepare none (simple get (codes "/a") 1) ∷ []
unfolding routes_build declared
routes_build-declared_example =
    routes_build-declared none 9 (λ n. true) demo_services demo_routes head refl refl refl

routes_build-options_once_example : entries (codes "/a") (demo_routes options) ≡ 1
unfolding routes_build declared has_url mentioned str_eq entries
routes_build-options_once_example =
    routes_build-options_once none 9 (λ n. true) demo_services demo_routes (codes "/a") tt refl

abbrev options_a : Exchange
options_a = record put_a { service = some demo_service }

options_handler-allow_example :
    ((options_handler demo_app options_a).out.http_status_code ≡ 204)
    × ((options_handler demo_app options_a).out.header_v
        ≡ (codes "Allow", codes "GET, POST, HEAD, OPTIONS") ∷ [])
    × (length (codes "GET, POST, HEAD, OPTIONS") < 128)
unfolding routes_build matched_url mentioned declares str_eq verb_to_string verb_index
    service_prepare service_expand
options_handler-allow_example =
    options_handler-allow demo_app options_a none 9 (λ n. true) demo_services tt refl

abbrev limit_pretty : List KeyValue
limit_pretty =
    parameter (codes "limit") (codes "5")
    ∷ parameter (codes "pretty") (codes "2")
    ∷ parameter (codes "count") (codes "x")
    ∷ []

abbrev get_a : Exchange
get_a = demo get (codes "/a") limit_pretty

-- `count` is registered, but is not one of the service's; `pretty` would not be, so it is not here.
abbrev limit_count : Exchange
limit_count =
    demo get (codes "/a")
      (parameter (codes "limit") (codes "5") ∷ parameter (codes "count") (codes "x") ∷ [])

validate_params-outcome_example :
    ParamsOutcome
      (some (parameter (codes "count") (codes "x")))
      (with_bits demo_table limit_count.req.uri_param_v)
      (mask_of demo_table limit_count.req.uri_param_v 0)
      (validate_params demo_app demo_service limit_count)
unfolding param_lookup param_hash hash_from chain_find str_eq service_prepare service_expand
validate_params-outcome_example = validate_params-outcome demo_app demo_service limit_count tt refl

-- GET /a?limit=5 runs the first routine.
abbrev get_limit : Exchange
get_limit = demo get (codes "/a") (parameter (codes "limit") (codes "5") ∷ [])

process_request-ran_example :
    (get_limit.content_length_missing ≡ false)
    × (get_limit.upgrade_refused ≡ false)
    × ((y : Exchange) × Checked demo_app demo_service y
        × ((process_request demo_app get_limit).0
            ≡ render demo_app (run_service demo_app demo_service y)))
unfolding process_request service_lookup lookup_loop filled match_service service_prepare
    service_expand scan scan_char request_prepare add_int char_int sum_before sums_from match_exact
    chain_find
process_request-ran_example = process_request-ran demo_app get_limit demo_service refl

-- A request to the own server, and one from within eight others.
abbrev inner : Inner
inner = record {
  has_inner = false;
  inner_room = λ n. false;
  inner_copies = λ s. false;
  inner_vector = λ n. false;
  inner_spaces = plus 0;
}

abbrev limit_param : Bytes × Bytes
limit_param = (codes "limit", codes "5")

limit_IsParam : All IsParam (limit_param ∷ [])
limit_IsParam =
    (record { name_bytes = omega arith; no_equals = omega arith; value_bytes = omega arith }, tt)

process_in_process-IsAsked_example :
    let f = asks get (codes "/a/") (limit_param ∷ []) [] b'x' [] in
    (put_a.self_forward_depth < 8
      → (e : Exchange) × IsHandedBack
          (process_request demo_app e).0
          (process_in_process demo_app (with_space inner) (some put_a) f)
        × IsAsked get (codes "/a/") (limit_param ∷ []) [] (codes "x") 0 e)
    × (8 ≤ put_a.self_forward_depth
        → process_in_process demo_app (with_space inner) (some put_a) f ≡ not_forwarded)
process_in_process-IsAsked_example =
    process_in_process-IsAsked demo_app inner put_a get (codes "/a/") limit_param [] [] b'x' []
      (omega arith) limit_IsParam
