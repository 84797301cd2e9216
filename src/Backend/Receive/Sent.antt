-- ===== src/Backend/Receive/Sent.antt =====
-- A request that a client has encoded arrives as it was meant.
use cor_rest.Base.{
  ltb, ◌==◌, if◌then◌else◌, lt→ltb, Bool-cases, Bytes, length, All, codes, str_case_eq, c_string,
  c_string_lem, ℕ, ◌≡◌, refl, sym, ap, ◌∙◌, subst, ◌↔◌, inl, inr, Bool, true, false, ◌||◌, Option,
  none, some, List, [], ◌∷◌, ◌++◌, map, arith,
}
use cor_rest.Verb.{verb_from_string}
use cor_rest.Url.{encode_bytes}
use cor_rest.Url.Decode.{IsByte}
use cor_rest.Url.RoundTrip.{url_value_encode-some, encode_bytes-All-IsSafe}
use cor_rest.Request.{
  url_path_normalize, state_init, decoded_text, note_known, http_header_add, RequestIn,
}
use cor_rest.Request.Headers.{add_headers, last_value, add_headers-HasHeaders, HasHeaders}
use cor_rest.Request.Params.{print_with, as_param, decoded_text-encoded, split_at-All, IsParam}
use cor_rest.Request.Params.RoundTrip.{with_params, uri_params_parse-print_with, kept_path}
use cor_rest.Mime.{mime_type_parse}
use cor_rest.Reply.Policy.{api_root, SendsBody, body_policy_check-missing}
use cor_rest.Reply.{body_policy_check}
use cor_rest.Dispatch.{Exchange}
use cor_rest.Backend.Receive.{
  exchange_init, on_request, decode_path, copy_headers, plus_to_space, take_query,
  check_body_policy, try_upgrade, take_body, receive_head, pass_on, http_request_cb, HttpConn,
  Setting,
}
use cor_rest.Backend.Receive.Path.{kept_path-encode_bytes, kept_path-All, encode_bytes-no_mark}
use cor_rest.Backend.Receive.Form.{
  form_encode, spaced, plus_to_space-print_with, All-IsCarried-spaced, print_with-IsText,
  print_with-nonempty,
}

-- Where every allocation succeeds
abbrev pub with_memory : Setting → Setting
with_memory c = record c { room = λ n. true; copies = λ s. true; has_state = true }

-- What headers leave alone
abbrev pub SameLine : RequestIn → RequestIn → Type 0
SameLine r s = (r.verb ≡ s.verb) × (r.url_path ≡ s.url_path) × (r.uri_param_v ≡ s.uri_param_v)

note_known-SameLine : (key value : Bytes) (r : RequestIn) → SameLine (note_known key value r) r
unfolding note_known
note_known-SameLine key value r = elim (Bool-cases (str_case_eq key (codes "Content-Type"))) [
  | inl e ↦ rw e (refl, refl, refl)
  | inr e ↦ elim (Bool-cases (str_case_eq key (codes "Accept"))) [
    | inl e' ↦ rw (e, e') (refl, refl, refl)
    | inr e' ↦ rw (e, e') (refl, refl, refl)
  ]
]

pub http_header_add-SameLine :
    (key value : Bytes) (r : RequestIn) → SameLine (http_header_add (λ n. true) key value r) r
unfolding http_header_add
http_header_add-SameLine key value r =
    elim (Bool-cases (ltb (length r.http_header_v) r.http_header_size)) [
      | inl e ↦ rw e (note_known-SameLine key value _)
      | inr e ↦ rw e (note_known-SameLine key value _)
    ]

copy_headers-SameLine :
    (c : Setting) (hs : List (Bytes × Bytes)) (r : RequestIn)
    → SameLine (copy_headers (with_memory c) hs r) r
unfolding copy_headers
copy_headers-SameLine c [] r = (refl, refl, refl)
copy_headers-SameLine c ((key, value) ∷ hs) r =
    let first = http_header_add-SameLine key value r in
    let later = copy_headers-SameLine c hs (http_header_add (λ n. true) key value r) in
    (later.0 ∙ first.0, later.1 ∙ first.1, later.2 ∙ first.2)

copy_headers-add_headers :
    (c : Setting) (hs : List (Bytes × Bytes)) (r : RequestIn)
    → copy_headers (with_memory c) hs r ≡ add_headers (λ n. true) hs r
unfolding copy_headers
copy_headers-add_headers c [] r = refl
copy_headers-add_headers c ((key, value) ∷ hs) r =
    copy_headers-add_headers c hs (http_header_add (λ n. true) key value r)

take_query-print_with :
    (c : Setting) (q : Bytes × Bytes) (qs : List (Bytes × Bytes)) (r : RequestIn)
    → r.uri_param_v ≡ []
    → All IsParam (q ∷ qs)
    → (slots : ℕ) × (take_query (with_memory c) (print_with form_encode (q ∷ qs)) r
        ≡ with_params (map as_param (q ∷ qs)) slots (record r { url_params = none }))
unfolding take_query
take_query-print_with c q qs r empty ok =
    let text = print_with form_encode (q ∷ qs) in
    let r1 = record r { url_params = some (plus_to_space (c_string text)) } in
    let cut = c_string_lem text (print_with-IsText q qs ok) in
    let params = ap some (ap plus_to_space cut ∙ plus_to_space-print_with form_encode q qs) in
    let (slots, parsed) =
      uri_params_parse-print_with spaced q qs r1 params (All-IsCarried-spaced (q ∷ qs) ok) in
    let there = lt→ltb 0 (length text) (print_with-nonempty form_encode q qs) in
    let no_others : RequestIn → RequestIn = λ s. record s { url_params = none } in
    let only = ap (λ l. with_params (l ++ map as_param (q ∷ qs)) slots (no_others r)) empty in
    (slots, rw there (ap no_others parsed ∙ only))

-- A request as a client writes it: its path percent-encoded, its parameters as a form.
abbrev pub sent_conn :
    Bytes → Bytes → List (Bytes × Bytes) → List (Bytes × Bytes) → Option Bytes → HttpConn
sent_conn method path qs hs body = record {
  method = method;
  path = encode_bytes path;
  query = print_with form_encode qs;
  headers = hs;
  body = body;
}

-- What the state says of such a request
pub record Says (method path : Bytes) (qs hs : List (Bytes × Bytes)) (e : Exchange) : Type 0 where
  pub same_method : e.verb_string ≡ some method
  pub same_verb : e.req.verb ≡ verb_from_string method
  pub same_path : e.req.url_path ≡ kept_path (kept_path path)
  pub same_params : e.req.uri_param_v ≡ map as_param qs
  pub same_headers :
      HasHeaders hs
        (last_value (codes "Content-Type") hs none)
        (last_value (codes "Accept") hs none)
        e.req

-- The request's side of the state, in the order of the code.
state_init-path :
    (path method : Bytes)
    → All IsByte path
    → (state_init (encode_bytes path) method).url_path ≡ encode_bytes (kept_path path)
unfolding state_init url_path_normalize
state_init-path path method ok =
    let safe = encode_bytes-All-IsSafe path ok in
    let whole =
      split_at-All b'?' (encode_bytes path) (encode_bytes-no_mark (encode_bytes path) safe) in
    rw whole (kept_path-encode_bytes path ok)

decode_path-path :
    (path : Bytes) (e : Exchange)
    → All IsByte path
    → e.req.url_path ≡ encode_bytes path
    → (decode_path e).req.url_path ≡ kept_path path
unfolding decode_path url_path_normalize
decode_path-path path e ok same =
    let decoded =
      ap decoded_text (same ∙ sym (url_value_encode-some path)) ∙ decoded_text-encoded path ok in
    ap kept_path decoded

-- With memory at hand, a request whose path is percent-encoded and whose parameters, at least one and
-- with no "=" in a name, are written as a form, with "+" for a space, is taken into the state with its method, its path decoded and less up
-- to two slashes at its end, its parameters in order and decoded, and its headers in order.
pub receive_head-sent_conn :
    (c : Setting) (method path : Bytes) (q : Bytes × Bytes) (qs hs : List (Bytes × Bytes))
    (body : Option Bytes)
    → All IsByte path
    → All IsParam (q ∷ qs)
    → Says method path
        (q ∷ qs)
        hs
        (receive_head (with_memory c) (sent_conn method path (q ∷ qs) hs body))
unfolding receive_head check_body_policy
receive_head-sent_conn c method path q qs hs body path_ok ok =
    let e0 = exchange_init c.pretty_spaces (encode_bytes path) method in
    let e1 = record e0 { verb_string = some method } in
    let r1 = (decode_path e1).req in
    let r2 = copy_headers (with_memory c) hs r1 in
    let line = copy_headers-SameLine c hs r1 in
    let start : HasHeaders [] none none r1 =
      unfold exchange_init in
      unfold decode_path in
      unfold url_path_normalize in
      unfold state_init in
      unfold mime_type_parse in
      record { in_order = refl; last_type = refl; classified = refl; last_accept = refl } in
    let named =
      subst
        (HasHeaders hs (last_value (codes "Content-Type") hs none)
          (last_value (codes "Accept") hs none))
        (sym (copy_headers-add_headers c hs r1))
        (add_headers-HasHeaders hs [] none none r1 start) in
    let empty : r1.uri_param_v ≡ [] =
      unfold exchange_init in
      unfold decode_path in unfold url_path_normalize in unfold state_init in refl in
    let verb : r1.verb ≡ verb_from_string method =
      unfold exchange_init in
      unfold decode_path in unfold url_path_normalize in unfold state_init in refl in
    let path_init : e1.req.url_path ≡ encode_bytes (kept_path path) =
      unfold exchange_init in state_init-path path method path_ok in
    let path_kept = decode_path-path (kept_path path) e1 (kept_path-All path path_ok) path_init in
    let (slots, queried) = take_query-print_with c q qs r2 (line.2 ∙ empty) ok in
    record {
      same_method = unfold decode_path in refl;
      same_verb = ap (λ r. r.verb) queried ∙ line.0 ∙ verb;
      same_path = ap (λ r. r.url_path) queried ∙ line.1 ∙ path_kept;
      same_params = ap (λ r. r.uri_param_v) queried;
      same_headers = record {
        in_order = ap (λ r. r.http_header_v) queried ∙ named.in_order;
        last_type = ap (λ r. r.content_type) queried ∙ named.last_type;
        classified =
            ap (λ r. r.content_mime) queried
            ∙ named.classified
            ∙ ap mime_type_parse (sym (ap (λ r. r.content_type) queried));
        last_accept = ap (λ r. r.accept) queried ∙ named.last_accept;
      };
    }

-- Whether the length of the body is missing, in terms of the request
abbrev pub LacksLength : Setting → Bytes → Bytes → List (Bytes × Bytes) → Type 0
LacksLength c method path hs =
    SendsBody (verb_from_string method)
    × (c.http_header (codes "Content-Length") hs ≡ none)
    × ((rest : Bytes) × (kept_path (kept_path path) ≡ api_root ++ rest))

check_body_policy-missing :
    (c : Setting) (hs : List (Bytes × Bytes)) (e : Exchange)
    → e.content_length_missing ≡ false
    → ((check_body_policy c hs e).content_length_missing ≡ true) ↔ (
        SendsBody e.req.verb
        × (c.http_header (codes "Content-Length") hs ≡ none)
        × ((rest : Bytes) × (e.req.url_path ≡ api_root ++ rest)))
unfolding check_body_policy
check_body_policy-missing c hs e off =
    let header = c.http_header (codes "Content-Length") hs in
    let missing =
      (body_policy_check 512 c.too_large c.max_request e.req.verb (some e.req.url_path) header
        e.out).1 in
    let policy =
      body_policy_check-missing 512 c.too_large c.max_request e.req.verb e.req.url_path header
        e.out in
    let same : (e.content_length_missing || missing) ≡ missing = ap (λ b. b || missing) off in
    subst
      (λ b. (b ≡ true) ↔ (
        SendsBody e.req.verb
        × (header ≡ none)
        × ((rest : Bytes) × (e.req.url_path ≡ api_root ++ rest))))
      (sym same) policy.0

receive_head-missing :
    (c : Setting) (method path : Bytes) (q : Bytes × Bytes) (qs hs : List (Bytes × Bytes))
    (body : Option Bytes)
    → All IsByte path
    → All IsParam (q ∷ qs)
    → (let e = receive_head (with_memory c) (sent_conn method path (q ∷ qs) hs body) in
        ((e.content_length_missing ≡ true) ↔ LacksLength c method path hs) × (e.payload ≡ none))
unfolding receive_head
receive_head-missing c method path q qs hs body path_ok ok =
    let e = receive_head (with_memory c) (sent_conn method path (q ∷ qs) hs body) in
    let says = receive_head-sent_conn c method path q qs hs body path_ok ok in
    let e0 = record (exchange_init c.pretty_spaces (encode_bytes path) method) {
      verb_string = some method;
    } in
    let e1 = on_request (copy_headers (with_memory c) hs) (decode_path e0) in
    let e2 = on_request (take_query (with_memory c) (print_with form_encode (q ∷ qs))) e1 in
    let off : e2.content_length_missing ≡ false =
      unfold decode_path in unfold exchange_init in refl in
    let kept = check_body_policy-missing (with_memory c) hs e2 off in
    let by_verb : (e.content_length_missing ≡ true) ↔ (
        SendsBody (verb_from_string method)
        × (c.http_header (codes "Content-Length") hs ≡ none)
        × ((rest : Bytes) × (e2.req.url_path ≡ api_root ++ rest))) =
      subst
        (λ v. (e.content_length_missing ≡ true) ↔ (
          SendsBody v
          × (c.http_header (codes "Content-Length") hs ≡ none)
          × ((rest : Bytes) × (e2.req.url_path ≡ api_root ++ rest))))
        (unfold check_body_policy in says.same_verb) kept in
    (
      subst
          (λ p. (e.content_length_missing ≡ true) ↔ (
            SendsBody (verb_from_string method)
            × (c.http_header (codes "Content-Length") hs ≡ none)
            × ((rest : Bytes) × (p ≡ api_root ++ rest))))
          (unfold check_body_policy in says.same_path) by_verb,
      unfold check_body_policy in unfold decode_path in unfold exchange_init in refl,
    )

-- What becomes of a body of at least one byte
abbrev is_refused : Exchange → Bool
is_refused e = e.content_length_missing || e.out.http_status_code == 413

abbrev with_body : Bytes → Exchange → Exchange
with_body body e = record e { payload = some body; payload_size = length body }

take_body-cases :
    (c : Setting) (b : ℕ) (body : Bytes) (e : Exchange)
    → take_body (with_memory c) (some (b ∷ body)) e
      ≡ (if is_refused e then e else with_body (b ∷ body) e)
unfolding take_body
take_body-cases c b body e =
    let there : ltb 0 (length (b ∷ body)) ≡ true = ground arith in
    elim (Bool-cases e.content_length_missing) [
      | inl missing ↦ ground (arith, missing)
      | inr given ↦ ground (arith, given, there)
    ]

Says-with_body :
    (method path body : Bytes) (qs hs : List (Bytes × Bytes)) (e : Exchange)
    → Says method path qs hs e
    → Says method path qs hs (with_body body e)
Says-with_body method path body qs hs e says = record {
  same_method = says.same_method;
  same_verb = says.same_verb;
  same_path = says.same_path;
  same_params = says.same_params;
  same_headers = says.same_headers;
}

-- What the exchange holds that a request without an upgrade is handed on with
pub record IsReceived (c : Setting) (method path : Bytes) (qs hs : List (Bytes × Bytes))
    (body : Bytes) (e : Exchange) : Type 0 where
  pub says : Says method path qs hs e
  pub missing : (e.content_length_missing ≡ true) ↔ LacksLength c method path hs
  pub has_payload :
      e.payload
      ≡ (if e.content_length_missing || e.out.http_status_code == 413 then none else some body)

take_body-IsReceived :
    (c : Setting) (method path : Bytes) (qs hs : List (Bytes × Bytes)) (b : ℕ) (body : Bytes)
    (e : Exchange)
    → Says method path qs hs e
    → (e.content_length_missing ≡ true) ↔ LacksLength c method path hs
    → e.payload ≡ none
    → IsReceived c method path qs hs (b ∷ body) (take_body (with_memory c) (some (b ∷ body)) e)
take_body-IsReceived c method path qs hs b body e says missing empty =
    subst (IsReceived c method path qs hs (b ∷ body)) (sym (take_body-cases c b body e))
      (elim (Bool-cases (is_refused e)) [
        | inl refused ↦
            rw refused (record {
              says = says;
              missing = missing;
              has_payload = empty ∙ sym (rw refused refl);
            })
        | inr taken ↦ rw taken (record {
          says = Says-with_body method path (b ∷ body) qs hs e says;
          missing = missing;
          has_payload = sym (rw taken refl);
        })
      ])

-- With memory at hand, a request whose path is percent-encoded and whose parameters, at least one and
-- with no "=" in a name, are written as a form, with "+" for a space, with a body of at least one byte
-- and no Upgrade header, is handed on with its method, its path decoded and less up to two slashes at
-- its end, its parameters in order and decoded, and its headers in order; its length counts as missing exactly for a POST, PUT or PATCH under /ngsi-ld/
-- without Content-Length; and it has its body unless that is so or the status is 413.
pub http_request_cb-sent_conn :
    (c : Setting) (handed_off has_coroutine : Bool) (method path : Bytes) (q : Bytes × Bytes)
    (qs hs : List (Bytes × Bytes)) (b : ℕ) (body : Bytes)
    → c.http_header (codes "Upgrade") hs ≡ none
    → All IsByte path
    → All IsParam (q ∷ qs)
    → (e : Exchange) × (http_request_cb
          (with_memory c)
          handed_off
          has_coroutine
          (sent_conn method path (q ∷ qs) hs (some (b ∷ body)))
        ≡ pass_on handed_off has_coroutine e)
      × IsReceived c method path (q ∷ qs) hs (b ∷ body) e
unfolding http_request_cb try_upgrade
http_request_cb-sent_conn c handed_off has_coroutine method path q qs hs b body plain path_ok ok =
    let text = some (b ∷ body) in
    let head = receive_head (with_memory c) (sent_conn method path (q ∷ qs) hs text) in
    let says = receive_head-sent_conn c method path q qs hs text path_ok ok in
    let (missing, empty) = receive_head-missing c method path q qs hs text path_ok ok in
    (
      take_body (with_memory c) text head,
      rw plain refl,
      take_body-IsReceived c method path (q ∷ qs) hs b body head says missing empty,
    )
