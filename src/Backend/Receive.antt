-- ===== src/Backend/Receive.antt =====
-- httpRequestCb of corRestBackendBuiltin.c, with the whole of corRestStateInit: a request that the
-- engine has read becomes the state of an exchange, which is handed on. What of a request outlives
-- the engine's buffer is a copy, so a value here. Clocks and the application's own data are left out.
pub mod Path
pub mod Form
pub mod Sent
mod Tests
use cor_rest.Base.{
  ltb, ◌==◌, if◌then◌else◌, Bytes, length, codes, c_string, ℕ, Bool, true, false, not, ◌&&◌, ◌||◌,
  Option, none, some, List, [], ◌∷◌,
}
use cor_rest.Mime.{mime_string, json}
use cor_rest.Request.{
  url_path_normalize, state_init, decoded_text, uri_params_parse, http_header_add, RequestIn,
}
use cor_rest.Reply.{body_policy_check, Problem, Out}
use cor_rest.Response.Chunk.{Long}
use cor_rest.Dispatch.{Exchange}

-- What the engine has read; its texts end at the first NUL where they are read as C strings.
pub record HttpConn : Type 0 where
  pub method : Bytes
  pub path : Bytes
  pub query : Bytes
  pub headers : List (Bytes × Bytes)
  pub body : Option Bytes

-- What the request meets: memory, settings, the engine's header lookup, and the hook for upgrades
-- with the engine's answer to one.
pub record Setting : Type 0 where
  pub room : ℕ → Bool
  pub copies : Bytes → Bool
  pub has_state : Bool
  pub pretty_spaces : Long
  pub max_request : ℕ
  pub too_large : ℕ → ℕ → Problem
  pub http_header : Bytes → List (Bytes × Bytes) → Option Bytes
  pub upgrade_hook : Option (Bytes → Exchange → Exchange × Bool)
  pub upgrades : Bool

abbrev pub first_out : Out
unfolding mime_string
first_out = record {
  http_status_code = 200;
  problem_type = none;
  problem_title = none;
  problem_detail = [];
  late = none;
  content_type = some (mime_string json);
  header_v = [];
  payload_size = 0;
  no_render = false;
  has_tree = false;
}

-- corRestStateInit, both sides
unfoldable pub exchange_init : Long → Bytes → Bytes → Exchange
unfolding state_init mime_string
exchange_init spaces url method = record {
  req = state_init url method;
  verb_string = some method;
  wildcard = [];
  uri_param_mask = 0;
  pretty = spaces;
  content_length_missing = false;
  payload = none;
  payload_size = 0;
  request_tree = none;
  too_deep = false;
  key_hook = false;
  upgrade_refused = false;
  self_forward_depth = 0;
  service = none;
  out = first_out;
  out_payload = none;
}

abbrev pub on_request : (RequestIn → RequestIn) → Exchange → Exchange
on_request f e = record e { req = f e.req }

-- The path is decoded here, behind the split at "?".
unfoldable pub decode_path : Exchange → Exchange
unfolding decoded_text url_path_normalize
decode_path = on_request λ r. url_path_normalize (record r { url_path = decoded_text r.url_path })

-- The loop over the headers; one that cannot be copied is dropped.
unfoldable pub copy_headers : Setting → List (Bytes × Bytes) → RequestIn → RequestIn
unfolding http_header_add
copy_headers c [] r = r
copy_headers c ((key, value) ∷ hs) r =
    copy_headers c hs
      (if c.copies key && c.copies value then http_header_add c.room key value r else r)

-- A "+" of the query is a space.
unfoldable pub plus_to_space : Bytes → Bytes
plus_to_space [] = []
plus_to_space (x ∷ s) = (if x == b'+' then b' ' else x) ∷ plus_to_space s

unfoldable pub take_query : Setting → Bytes → RequestIn → RequestIn
unfolding plus_to_space uri_params_parse c_string
take_query c query r =
    let r' =
      uri_params_parse c.room (record r { url_params = some (plus_to_space (c_string query)) }) in
    if ltb 0 (length query) && c.copies query then record r' { url_params = none } else r

-- corRestBodyPolicyCheck on the state
unfoldable pub check_body_policy : Setting → List (Bytes × Bytes) → Exchange → Exchange
unfolding body_policy_check
check_body_policy c hs e =
    let header = c.http_header (codes "Content-Length") hs in
    let (out, missing) =
      body_policy_check 512 c.too_large c.max_request e.req.verb (some e.req.url_path) header
        e.out in
    record e { out = out; content_length_missing = e.content_length_missing || missing }

-- How the upgrade of a request ends: it has none, or the socket is the application's
pub data Upgrade : Type 0 where
  no_upgrade handed_over : Exchange → Upgrade

abbrev pub ask_hook : Setting → Option Bytes → Exchange → Upgrade
ask_hook c none e = no_upgrade e
ask_hook c (some upgrade) e = elim c.upgrade_hook [
  | none ↦ no_upgrade e
  | some hook ↦
      let (e', takes) = hook upgrade e in
      if takes && c.upgrades
      then handed_over e'
      else no_upgrade (record e' { upgrade_refused = true })
]

unfoldable pub try_upgrade : Setting → List (Bytes × Bytes) → Exchange → Upgrade
try_upgrade c hs e = ask_hook c (c.http_header (codes "Upgrade") hs) e

-- The body, unless it is refused
unfoldable pub take_body : Setting → Option Bytes → Exchange → Exchange
take_body c none e = e
take_body c (some body) e =
    if ltb 0 (length body)
      && not e.content_length_missing
      && not (e.out.http_status_code == 413)
      && c.copies body
    then record e { payload = some body; payload_size = length body }
    else e

-- The state before an upgrade is looked for
unfoldable pub receive_head : Setting → HttpConn → Exchange
unfolding exchange_init decode_path copy_headers take_query check_body_policy
receive_head c conn =
    let e = exchange_init c.pretty_spaces conn.path conn.method in
    let e = record e { verb_string = if c.copies conn.method then some conn.method else none } in
    let e = decode_path e in
    let e = on_request (copy_headers c conn.headers) e in
    check_body_policy c conn.headers (on_request (take_query c conn.query) e)

-- Who goes on with the request: nobody, a coroutine of the loop, a worker, or the loop itself
pub data Received : Type 0 where
  no_state : Received
  upgraded : Exchange → Received
  by_coroutine by_worker by_loop : Exchange → Received

-- The end of httpRequestCb: `handed_off` is the answer of corRestAsyncDispatch.
abbrev pub pass_on : Bool → Bool → Exchange → Received
pass_on handed_off has_coroutine e =
    if handed_off then if has_coroutine then by_coroutine e else by_worker e else by_loop e

unfoldable pub http_request_cb : Setting → Bool → Bool → HttpConn → Received
unfolding receive_head try_upgrade take_body
http_request_cb c handed_off has_coroutine conn =
    let outcome : Received = elim (try_upgrade c conn.headers (receive_head c conn)) [
      | handed_over e ↦ upgraded e
      | no_upgrade e ↦ pass_on handed_off has_coroutine (take_body c conn.body e)
    ] in
    if c.has_state then outcome else no_state
