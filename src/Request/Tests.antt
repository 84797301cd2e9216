-- ===== src/Request/Tests.antt =====
-- Requests as a client sends them.
use cor_rest.Base.{Bytes, length, All, codes, ◌≡◌, refl, true, List, [], ◌∷◌, ◌++◌, map, arith}
use cor_rest.Verb.{verb_from_string}
use cor_rest.Url.{must_encode, hex_digit, extra, encode_bytes, url_value_encode}
use cor_rest.Request.{drop_slash, state_init, uri_params_parse, RequestIn}
use cor_rest.Request.Params.{print_params, as_param, IsParam}
use cor_rest.Request.Params.RoundTrip.{kept_path, uri_params_parse-print_params}

abbrev two_params : List (Bytes × Bytes)
two_params = (codes "q", codes "a=b&c") ∷ (codes "limit", []) ∷ []

two_params_text : print_params two_params ≡ codes "q=a=b%26c&limit="
unfolding url_value_encode extra encode_bytes must_encode hex_digit
two_params_text = refl

two_params-All-IsParam : All IsParam two_params
two_params-All-IsParam = (
  record { name_bytes = omega arith; no_equals = omega arith; value_bytes = omega arith },
  (record { name_bytes = omega arith; no_equals = omega arith; value_bytes = omega arith }, tt),
)

uri_params_parse-print_params_example :
    (let r =
        uri_params_parse
          (λ n. true)
          (state_init (codes "/entities/" ++ b'?' ∷ print_params two_params) (codes "GET")) in
      (r.url_path ≡ kept_path (codes "/entities/"))
      × (r.url_path_len ≡ length (kept_path (codes "/entities/")))
      × (r.uri_param_v ≡ map as_param two_params)
      × (r.verb ≡ verb_from_string (codes "GET")))
uri_params_parse-print_params_example =
    uri_params_parse-print_params (codes "/entities/") (codes "GET") (codes "q", codes "a=b&c")
      ((codes "limit", []) ∷ []) (omega arith) two_params-All-IsParam

entities_path : kept_path (codes "/entities/") ≡ codes "/entities"
unfolding drop_slash
entities_path = refl

abbrev some_headers : List (Bytes × Bytes)
some_headers =
    (codes "accept", codes "*/*") ∷ (codes "CONTENT-TYPE", codes "application/ld+json") ∷ []

abbrev new_request : RequestIn
new_request = state_init (codes "/x") (codes "GET")
