-- ===== src/Dispatch.antt =====
-- corRestProcessRequest of corRestInit.c, with CorRestState.h. A tree and a service routine are the
-- numbers that stand for their pointers. What the application hangs in (hooks, routines, checks) and
-- the JSON library are arguments: they may change the whole state.
pub mod Gate
pub mod Payload
pub mod Missing
pub mod Query
pub mod Serve
pub mod Options
pub mod InProcess
mod Names
mod Tests
use cor_rest.Base.{Bytes, codes, ℕ, Bool, true, false, Option, none, some, List, ◌++◌}
use cor_rest.Verb.{Verb}
use cor_rest.Route.{Service}
use cor_rest.Params.{Table}
use cor_rest.Request.{RequestIn}
use cor_rest.Response.Chunk.{Long}
use cor_rest.Reply.{rest_problem, Out}

-- The fields of CorRestState that the dispatch reads or writes, those of CorRestIn and CorRestOut
-- that Request and Reply have no use for among them. `too_deep` is the status of the JSON parser.
pub record Exchange : Type 0 where
  pub req : RequestIn
  pub verb_string : Option Bytes
  pub wildcard : List ℕ
  pub uri_param_mask : ℕ
  pub pretty : Long
  pub content_length_missing : Bool
  pub payload : Option Bytes
  pub payload_size : ℕ
  pub request_tree : Option ℕ
  pub too_deep : Bool
  pub key_hook : Bool
  pub upgrade_refused : Bool
  pub self_forward_depth : ℕ
  pub service : Option Service
  pub out : Out
  pub out_payload : Option Bytes

-- What the library is given: hooks (`none` if none was set), routines, JSON, routes, parameters.
pub record App : Type 0 where
  pub pre_dispatch : Exchange → Exchange
  pub admit : Option (Exchange → Exchange × Bool)
  pub pre_payload_parse : Exchange → Exchange
  pub payload_parse : Exchange → Exchange
  pub param_hook : Option (Bytes → Bytes → Exchange → Exchange)
  pub pre_service : Exchange → Exchange × Bool
  pub payload_render : Exchange → Exchange
  pub routine : ℕ → Exchange → Exchange
  pub json_parse : Bytes → Option ℕ × Bool
  pub json_render : Exchange → Option Bytes
  pub json_size : Exchange → ℕ
  pub is_container : ℕ → Bool
  pub key_replay : ℕ → Exchange → Exchange × Bool
  pub accept_geo_json : Bool
  pub param_table : Table
  pub routes : Verb → List Service
  pub stray : ℕ → ℕ

-- A part of the dispatch goes on, or jumps to `respond`.
pub data Step : Type 0 where
  go respond : Exchange → Step

infixl 5 ◌>>=◌
abbrev pub ◌>>=◌ : Step → (Exchange → Step) → Step
go e >>= k = k e
respond e >>= k = respond e

-- Setting fields of the two sides.
abbrev pub set_out : (Out → Out) → Exchange → Exchange
set_out f e = record e { out = f e.out }

abbrev pub set_status : ℕ → Exchange → Exchange
set_status code e = set_out (λ o. record o { http_status_code = code }) e

abbrev pub error_type : Bytes → Bytes
error_type name = codes "https://uri.etsi.org/ngsi-ld/errors/" ++ name

-- corRestProblem with its formatted detail
unfoldable pub problem : ℕ → Bytes → Bytes → Bytes → Exchange → Exchange
unfolding rest_problem
problem code name title detail e =
    set_out
      (rest_problem 512
        (record { status = code; problem_type = error_type name; title = title; detail = detail }))
      e

abbrev pub is_set {ℓ} : {A : Type ℓ} → Option A → Bool
is_set none = false
is_set (some a) = true
