-- ===== src/Backend/Finish.antt =====
-- What corRestBackendBuiltin.c does behind the dispatch: requestResponseFill and, once the answer is
-- written, httpRequestDone. The stream of an answer is left out.
use cor_rest.Base.{ltb, if◌then◌else◌, Bytes, take, ℕ, Bool, false, ◌&&◌, Option, none, some, List}
use cor_rest.Reply.{response_header_v_build, Cors}
use cor_rest.Dispatch.{Exchange}
use cor_rest.Workers.{async_finish, Pool}

-- What goes over to the engine
pub record HttpAnswer : Type 0 where
  pub http_status : ℕ
  pub http_headers : List (Bytes × Bytes)
  pub http_body : Option Bytes

abbrev pub body_of : Option Bytes → ℕ → Option Bytes
body_of none size = none
body_of (some text) size = if ltb 0 size then some (take size text) else none

-- requestResponseFill
unfoldable pub request_response_fill : ℕ → Bool → Cors → Exchange → HttpAnswer
unfolding response_header_v_build
request_response_fill max room cors e = record {
  http_status = e.out.http_status_code;
  http_headers = response_header_v_build max room cors e.req.verb e.req.http_header_v e.out;
  http_body = body_of e.out_payload e.out.payload_size;
}

-- Who runs corRestBackendFinish
pub data Ending : Type 0 where
  ends_here ends_in_coroutine ends_by_worker : Ending

abbrev pub says_here : Option Bool → Bool
says_here none = false
says_here (some here) = here

-- httpRequestDone: the answer of the application's hook, `none` without one, the coroutines that run
-- of the most there may be, whether one is allowed, and whether a stack is to be had.
unfoldable pub request_done : Option Bool → ℕ → Bool → Bool → ℕ → Pool → Ending × Pool
unfolding async_finish
request_done hook running allowed has_stack con p =
    let (queued, p') = async_finish con p in
    if says_here hook
    then (ends_here, p)
    else if ltb running 1024 && allowed && has_stack
    then (ends_in_coroutine, p)
    else if queued
    then (ends_by_worker, p')
    else (ends_here, p')
