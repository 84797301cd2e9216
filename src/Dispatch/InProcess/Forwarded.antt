-- ===== src/Dispatch/InProcess/Forwarded.antt =====
-- A request to the own server arrives as it was asked for.
use cor_rest.Base.{
  ltb, leb, lt→ltb, Bytes, length, take, All, codes, ℕ, ◌+◌, ◌≤◌, ◌<◌, ◌≡◌, refl, sym, ap, ◌∙◌,
  subst, ◌≢◌, ◌⊎◌, inl, inr, Bool, true, false, Option, none, some, List, [], ◌∷◌, ◌++◌, map, arith,
}
use cor_rest.Verb.{verb_from_string, verb_to_string, Verb}
use cor_rest.Verb.RoundTrip.{from_string-to_string}
use cor_rest.Mime.{mime_type_parse}
use cor_rest.Request.{url_path_normalize, state_init, uri_params_parse, http_header_add, RequestIn}
use cor_rest.Request.Headers.{add_headers, last_value, add_headers-HasHeaders, HasHeaders}
use cor_rest.Request.Params.{encoded, print_params, as_param, split_at-append, IsParam}
use cor_rest.Request.Params.RoundTrip.{
  with_params, uri_params_parse-print_with, All-IsCarried, kept_path,
}
use cor_rest.Dispatch.{Exchange, App}
use cor_rest.Dispatch.Serve.{process_request}
use cor_rest.Dispatch.InProcess.{
  add_all_headers, inner_state, body_back, hand_back, process_in_process, Forward, Inner,
  Forwarding, not_forwarded, forwarded,
}
use cor_rest.Backend.Receive.{exchange_init}
use cor_rest.Backend.Receive.Sent.{SameLine, http_header_add-SameLine}

-- Where every allocation succeeds
abbrev pub with_space : Inner → Inner
with_space i = record i {
  has_inner = true;
  inner_room = λ n. true;
  inner_copies = λ s. true;
  inner_vector = λ n. true;
}

add_all_headers-add_headers :
    (room : ℕ → Bool) (hs : List (Bytes × Bytes)) (r : RequestIn)
    → add_all_headers room hs r ≡ add_headers room hs r
unfolding add_all_headers
add_all_headers-add_headers room [] r = refl
add_all_headers-add_headers room ((key, value) ∷ hs) r =
    add_all_headers-add_headers room hs (http_header_add room key value r)

add_all_headers-SameLine :
    (hs : List (Bytes × Bytes)) (r : RequestIn) → SameLine (add_all_headers (λ n. true) hs r) r
unfolding add_all_headers
add_all_headers-SameLine [] r = (refl, refl, refl)
add_all_headers-SameLine ((key, value) ∷ hs) r =
    let first = http_header_add-SameLine key value r in
    let later = add_all_headers-SameLine hs (http_header_add (λ n. true) key value r) in
    (later.0 ∙ first.0, later.1 ∙ first.1, later.2 ∙ first.2)

-- What the application writes: a path, and encoded parameters behind "?"
abbrev pub asks : Verb → Bytes → List (Bytes × Bytes) → List (Bytes × Bytes) → ℕ → Bytes → Forward
asks verb path qs hs b body = record {
  forward_verb = verb;
  forward_path = path ++ b'?' ∷ print_params qs;
  forward_headers = hs;
  forward_body = some (b ∷ body);
}

-- What the inner state says of it
pub record IsAsked (verb : Verb) (path : Bytes) (qs hs : List (Bytes × Bytes)) (body : Bytes)
    (depth : ℕ) (e : Exchange) : Type 0 where
  pub asked_verb : e.req.verb ≡ verb
  pub asked_path : e.req.url_path ≡ kept_path path
  pub asked_params : e.req.uri_param_v ≡ map as_param qs
  pub asked_headers :
      HasHeaders hs
        (last_value (codes "Content-Type") hs none)
        (last_value (codes "Accept") hs none)
        e.req
  pub asked_body : e.payload ≡ some body
  pub asked_size : e.payload_size ≡ length body
  pub is_deeper : e.self_forward_depth ≡ depth + 1

state_init-fields :
    (path method text : Bytes)
    → All (λ c. c ≢ b'?') path
    → (let r = state_init (path ++ b'?' ∷ text) method in
        HasHeaders [] none none r
        × (r.url_params ≡ some text)
        × (r.verb ≡ verb_from_string method)
        × (r.url_path ≡ kept_path path)
        × (r.uri_param_v ≡ []))
unfolding state_init url_path_normalize mime_type_parse
state_init-fields path method text no_mark =
    let split = split_at-append b'?' path text no_mark in
    (
      record { in_order = refl; last_type = refl; classified = refl; last_accept = refl },
      rw split refl,
      refl,
      rw split refl,
      refl,
    )

inner_state-IsAsked :
    (i : Inner) (depth : ℕ) (verb : Verb) (path : Bytes) (q : Bytes × Bytes)
    (qs hs : List (Bytes × Bytes)) (b : ℕ) (body : Bytes)
    → All (λ c. c ≢ b'?') path
    → All IsParam (q ∷ qs)
    → IsAsked verb path
        (q ∷ qs)
        hs
        (b ∷ body)
        depth
        (inner_state (with_space i) depth (asks verb path (q ∷ qs) hs b body))
unfolding inner_state
inner_state-IsAsked i depth verb path q qs hs b body no_mark ok =
    let text = print_params (q ∷ qs) in
    let method = verb_to_string verb in
    let start = state_init (path ++ b'?' ∷ text) method in
    let fields = state_init-fields path method text no_mark in
    let (slots, parsed) =
      uri_params_parse-print_with encoded q qs start fields.1 (All-IsCarried (q ∷ qs) ok) in
    let r1 = uri_params_parse (λ n. true) start in
    let kept : HasHeaders [] none none
        (with_params (start.uri_param_v ++ map as_param (q ∷ qs)) slots start) =
      record {
        in_order = fields.0.in_order;
        last_type = fields.0.last_type;
        classified = fields.0.classified;
        last_accept = fields.0.last_accept;
      } in
    let fresh = subst (HasHeaders [] none none) (sym parsed) kept in
    let named =
      subst
        (HasHeaders hs (last_value (codes "Content-Type") hs none)
          (last_value (codes "Accept") hs none))
        (sym (add_all_headers-add_headers (λ n. true) hs r1))
        (add_headers-HasHeaders hs [] none none r1 fresh) in
    let line = add_all_headers-SameLine hs r1 in
    let there : ltb 0 (length (b ∷ body)) ≡ true = ground arith in
    unfold exchange_init in
    rw there (record {
      asked_verb = line.0 ∙ ap (λ r. r.verb) parsed ∙ fields.2 ∙ from_string-to_string verb;
      asked_path = line.1 ∙ ap (λ r. r.url_path) parsed ∙ fields.3;
      asked_params =
          line.2 ∙ ap (λ r. r.uri_param_v) parsed ∙ ap (λ l. l ++ map as_param (q ∷ qs)) fields.4;
      asked_headers = named;
      asked_body = refl;
      asked_size = refl;
      is_deeper = refl;
    })

-- What is handed back of an answer: its status, its headers, and of its body the bytes that count
pub record IsHandedBack (answer : Exchange) (f : Forwarding) : Type 0 where
  pub text_back : Option Bytes
  pub handed : f ≡ forwarded answer.out.http_status_code text_back answer.out.header_v
  pub with_text :
      (text : Bytes)
      → answer.out_payload ≡ some text
      → 0 < answer.out.payload_size
      → text_back ≡ some (take answer.out.payload_size text)
  pub without_text : (answer.out_payload ≡ none) ⊎ (answer.out.payload_size ≡ 0) → text_back ≡ none

body_back-some :
    (i : Inner) (o : Option Bytes) (n : ℕ) (text : Bytes)
    → o ≡ some text
    → 0 < n
    → body_back (with_space i) o n ≡ some (take n text)
body_back-some i o n text e some_bytes =
    let there : ltb 0 n ≡ true = lt→ltb 0 n some_bytes in
    ap (λ x. body_back (with_space i) x n) e ∙ rw there refl

body_back-none :
    (i : Inner) (o : Option Bytes) (n : ℕ)
    → (o ≡ none) ⊎ (n ≡ 0)
    → body_back (with_space i) o n ≡ none
body_back-none i o n (inl e) = ap (λ x. body_back (with_space i) x n) e
body_back-none i none n (inr e) = refl
body_back-none i (some text) n (inr e) = ap (λ k. body_back (with_space i) (some text) k) e

hand_back-IsHandedBack :
    (i : Inner) (answer : Exchange) → IsHandedBack answer (hand_back (with_space i) answer)
hand_back-IsHandedBack i answer = record {
  text_back = body_back (with_space i) answer.out_payload answer.out.payload_size;
  handed = refl;
  with_text = body_back-some i answer.out_payload answer.out.payload_size;
  without_text = body_back-none i answer.out_payload answer.out.payload_size;
}

-- With memory at hand, a request to the own server, of a path without "?", at least one parameter,
-- encoded and with no "=" in a name, any headers and a body of at least one byte, is dispatched where
-- fewer than eight of them are under way: with the verb, the path less one slash at its end, the
-- parameters in order and decoded, the headers in order, the body and its length, and one more under
-- way; the path is taken as it is, not decoded. What comes back is the status and the headers of that
-- dispatch, and its body, as many bytes as are counted, if there are any. Where eight are under way,
-- nothing is dispatched.
pub process_in_process-IsAsked :
    (app : App) (i : Inner) (outer : Exchange) (verb : Verb) (path : Bytes) (q : Bytes × Bytes)
    (qs hs : List (Bytes × Bytes)) (b : ℕ) (body : Bytes)
    → All (λ c. c ≢ b'?') path
    → All IsParam (q ∷ qs)
    → (let f = asks verb path (q ∷ qs) hs b body in
        (outer.self_forward_depth < 8
          → (e : Exchange) × IsHandedBack
              (process_request app e).0
              (process_in_process app (with_space i) (some outer) f)
            × IsAsked verb path (q ∷ qs) hs (b ∷ body) outer.self_forward_depth e)
        × (8 ≤ outer.self_forward_depth
            → process_in_process app (with_space i) (some outer) f ≡ not_forwarded))
unfolding process_in_process
process_in_process-IsAsked app i outer verb path q qs hs b body no_mark ok =
    let depth = outer.self_forward_depth in
    (
      λ shallow. (
        inner_state (with_space i) depth (asks verb path (q ∷ qs) hs b body),
        (let free : leb 8 depth ≡ false = ground (arith, shallow) in
            rw free (
              hand_back-IsHandedBack i
                (process_request app
                  (inner_state (with_space i) depth (asks verb path (q ∷ qs) hs b body))).0)),
        inner_state-IsAsked i depth verb path q qs hs b body no_mark ok,
      ),
      λ deep. (let full : leb 8 depth ≡ true = ground (arith, deep) in rw full refl),
    )
