-- ===== src/Dispatch/InProcess.antt =====
-- corRestProcessInProcess of corRestInit.c: a request that the application sends to its own server,
-- on a state of its own inside the one that waits. Clocks, the application's own data and the hook
-- that runs behind the answer are left out.
pub mod Forwarded
use cor_rest.Base.{
  ltb, leb, if◌then◌else◌, Bytes, length, take, ℕ, ◌+◌, Bool, not, ◌&&◌, Option, none, some, List,
  [], ◌∷◌,
}
use cor_rest.Verb.{verb_to_string, Verb}
use cor_rest.Request.{uri_params_parse, http_header_add, RequestIn}
use cor_rest.Response.Chunk.{Long}
use cor_rest.Dispatch.{Exchange, App}
use cor_rest.Dispatch.Serve.{process_request}
use cor_rest.Backend.Receive.{exchange_init, on_request}

-- What the application asks for
pub record Forward : Type 0 where
  pub forward_verb : Verb
  pub forward_path : Bytes
  pub forward_headers : List (Bytes × Bytes)
  pub forward_body : Option Bytes

-- Memory, and the default of pretty-printing; `copies` is for the body and for what is handed back.
pub record Inner : Type 0 where
  pub has_inner : Bool
  pub inner_room : ℕ → Bool
  pub inner_copies : Bytes → Bool
  pub inner_vector : ℕ → Bool
  pub inner_spaces : Long

-- What comes back: -1, the use of a state that is not there, or status, body and headers
pub data Forwarding : Type 0 where
  not_forwarded no_outer_state : Forwarding
  forwarded : ℕ → Option Bytes → List (Bytes × Bytes) → Forwarding

abbrev pub max_depth : ℕ
max_depth = 8

abbrev pub depth_of : Option Exchange → ℕ
depth_of none = 0
depth_of (some outer) = outer.self_forward_depth

-- corRestHttpHeaderAdd for each header
unfoldable pub add_all_headers : (ℕ → Bool) → List (Bytes × Bytes) → RequestIn → RequestIn
unfolding http_header_add
add_all_headers room [] r = r
add_all_headers room ((key, value) ∷ hs) r =
    add_all_headers room hs (http_header_add room key value r)

abbrev pub copy_body : Inner → Option Bytes → Exchange → Exchange
copy_body i none e = e
copy_body i (some body) e =
    if ltb 0 (length body) && i.inner_copies body
    then record e { payload = some body; payload_size = length body }
    else e

-- The inner state, before the dispatch
unfoldable pub inner_state : Inner → ℕ → Forward → Exchange
unfolding exchange_init uri_params_parse add_all_headers verb_to_string
inner_state i depth f =
    let e = exchange_init i.inner_spaces f.forward_path (verb_to_string f.forward_verb) in
    let e = record e { self_forward_depth = depth + 1 } in
    let e = on_request (uri_params_parse i.inner_room) e in
    copy_body i f.forward_body (on_request (add_all_headers i.inner_room f.forward_headers) e)

abbrev pub body_back : Inner → Option Bytes → ℕ → Option Bytes
body_back i none n = none
body_back i (some text) n = if ltb 0 n && i.inner_copies text then some (take n text) else none

-- What is copied for the caller; the headers' texts are taken to be copied.
abbrev pub hand_back : Inner → Exchange → Forwarding
hand_back i e =
    forwarded e.out.http_status_code (body_back i e.out_payload e.out.payload_size)
      (if i.inner_vector (length e.out.header_v) then e.out.header_v else [])

-- corRestProcessInProcess; `none` is no outer state. Its start time is read without a test.
unfoldable pub process_in_process : App → Inner → Option Exchange → Forward → Forwarding
unfolding process_request inner_state
process_in_process app i outer f =
    let answer = hand_back i (process_request app (inner_state i (depth_of outer) f)).0 in
    if leb max_depth (depth_of outer)
    then not_forwarded
    else if not i.has_inner
    then not_forwarded
    else elim outer [ none ↦ no_outer_state | some e ↦ answer ]
