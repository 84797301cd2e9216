-- ===== src/Backend/Receive/Tests.antt =====
-- A request with a "+" for a space and one that is meant.
use cor_rest.Base.{
  if◌then◌else◌, Bytes, All, codes, str_case_eq, ◌≡◌, refl, true, false, Option, none, some, List,
  [], ◌∷◌, arith,
}
use cor_rest.Response.Chunk.{plus}
use cor_rest.Dispatch.{Exchange}
use cor_rest.Request.Params.{print_with, IsParam}
use cor_rest.Url.{must_encode, hex_digit}
use cor_rest.Backend.Receive.{pass_on, http_request_cb, Setting}
use cor_rest.Backend.Receive.Form.{form_encode}
use cor_rest.Backend.Receive.Sent.{with_memory, sent_conn, http_request_cb-sent_conn, IsReceived}

unfoldable find_header : Bytes → List (Bytes × Bytes) → Option Bytes
unfolding str_case_eq
find_header name [] = none
find_header name ((key, value) ∷ hs) =
    let rest = find_header name hs in if str_case_eq key name then some value else rest

abbrev plain : Setting
unfolding find_header
plain = record {
  room = λ n. false;
  copies = λ s. false;
  has_state = false;
  pretty_spaces = plus 0;
  max_request = 1000;
  too_large = λ n m. record { status = 413; problem_type = []; title = []; detail = [] };
  http_header = find_header;
  upgrade_hook = none;
  upgrades = false;
}

abbrev tower : Bytes × Bytes
tower = (codes "q", codes "Eiffel Tower+")

abbrev length_4 : List (Bytes × Bytes)
length_4 = (codes "content-length", codes "4") ∷ []

as_form : print_with form_encode (tower ∷ []) ≡ codes "q=Eiffel+Tower%2B"
unfolding form_encode must_encode hex_digit
as_form = refl

tower-IsParam : All IsParam (tower ∷ [])
tower-IsParam =
    (record { name_bytes = omega arith; no_equals = omega arith; value_bytes = omega arith }, tt)

no_upgrade_there : plain.http_header (codes "Upgrade") length_4 ≡ none
unfolding plain find_header str_case_eq
no_upgrade_there = refl

http_request_cb-sent_conn_example :
    (e : Exchange) × (http_request_cb
        (with_memory plain)
        true
        false
        (sent_conn (codes "POST") (codes "/a b//") (tower ∷ []) length_4 (some (codes "{ }~")))
      ≡ pass_on true false e)
    × IsReceived plain (codes "POST") (codes "/a b//") (tower ∷ []) length_4 (codes "{ }~") e
http_request_cb-sent_conn_example =
    http_request_cb-sent_conn plain true false (codes "POST") (codes "/a b//") tower [] length_4
      b'{' (codes " }~") no_upgrade_there (omega arith) tower-IsParam
