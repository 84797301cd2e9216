-- ===== src/Reply/Tests.antt =====
-- Answers to requests as they come.
use cor_rest.Base.{
  Bytes, codes, str_eq, str_case_eq, strn_case_eq, ℕ, ◌≡◌, refl, ◌↔◌, true, false, Option, none,
  some, List, [], ◌∷◌, ◌++◌,
}
use cor_rest.Verb.{post, options}
use cor_rest.Reply.{
  rest_problem, body_policy_check, hdr_add, add_all, add_some, prefers, first_allow, type_of_answer,
  decimal, max_age_text, add_preflight, add_cors, response_header_v_build, Problem, Out, Cors,
}
use cor_rest.Reply.Headers.{response_header_v_build-IsAnswer, IsAnswer}
use cor_rest.Reply.Number.{IsNumber}
use cor_rest.Reply.Policy.{api_root, SendsBody, IsTooLarge, body_policy_check-missing}

abbrev ok_answer : Out
ok_answer = record {
  http_status_code = 200;
  problem_type = none;
  problem_title = none;
  problem_detail = [];
  late = none;
  content_type = some (codes "application/ld+json");
  header_v = (codes "Allow", codes "GET") ∷ [];
  payload_size = 5;
  no_render = false;
  has_tree = true;
}

abbrev too_long : ℕ → ℕ → Problem
too_long n limit = record {
  status = 413;
  problem_type = codes "RequestEntityTooLarge";
  title = codes "Too Large";
  detail = codes "too large";
}

abbrev no_header : Option Bytes
no_header = none

abbrev open_cors : Cors
open_cors = record {
  allow_origin = some (codes "*");
  allow_headers = none;
  max_age = 86400;
  expose_headers = none;
}

abbrev preferring : List (Bytes × Bytes)
preferring = (codes "prefer", codes "NGSI-LD=1.8") ∷ []

five_headers :
    response_header_v_build 5 true open_cors options preferring ok_answer
    ≡ (codes "Content-Type", codes "application/ld+json")
      ∷ (codes "Preference-Applied", codes "ngsi-ld=1.9.1")
      ∷ (codes "Allow", codes "GET")
      ∷ (codes "Access-Control-Allow-Origin", codes "*")
      ∷ (codes "Access-Control-Allow-Methods", codes "GET")
      ∷ []
unfolding response_header_v_build add_some type_of_answer prefers add_all add_cors add_preflight
    hdr_add first_allow str_eq str_case_eq strn_case_eq max_age_text decimal
five_headers = refl

age_text : max_age_text true 86400 ≡ some (codes "86400")
unfolding max_age_text decimal
age_text = refl

response_header_v_build-IsAnswer_example :
    IsAnswer 5 true open_cors options preferring ok_answer
      (response_header_v_build 5 true open_cors options preferring ok_answer)
response_header_v_build-IsAnswer_example =
    response_header_v_build-IsAnswer 5 true open_cors options preferring ok_answer

body_policy_check-missing_example :
    (let r =
        body_policy_check 512 too_long 1000 post
          (some (codes "/ngsi-ld/v1/entities"))
          no_header
          ok_answer in
      ((r.1 ≡ true) ↔ (
        SendsBody post
        × (no_header ≡ none)
        × ((rest : Bytes) × (codes "/ngsi-ld/v1/entities" ≡ api_root ++ rest))))
      × (r.1 ≡ true → (r.0.http_status_code ≡ 411) × (r.0.problem_type ≡ ok_answer.problem_type))
      × ((text : Bytes) (v : ℕ)
          → no_header ≡ some text
          → IsNumber text v
          → (IsTooLarge 1000 v post (codes "/ngsi-ld/v1/entities")
              → r.0 ≡ rest_problem 512 (too_long v 1000) ok_answer)
            × (¬ IsTooLarge 1000 v post (codes "/ngsi-ld/v1/entities") → r.0 ≡ ok_answer)))
body_policy_check-missing_example =
    body_policy_check-missing 512 too_long 1000 post (codes "/ngsi-ld/v1/entities") no_header
      ok_answer

abbrev late_one : Problem
late_one = too_long 1 2
