-- ===== src/Dispatch/Gate.antt =====
-- The first part of corRestProcessRequest: what is refused before a payload is parsed, and the
-- lookup of the service.
use cor_rest.Base.{
  ltb, ◌==◌, if◌then◌else◌, Bytes, codes, str_eq, c_string, Bool, true, false, not, ◌&&◌, ◌||◌,
  Option, none, some, ◌++◌,
}
use cor_rest.Verb.{Verb, patch, verbs}
use cor_rest.Mime.{MimeType, json, ld_json, geo_json, merge_patch_json}
use cor_rest.Route.{Service}
use cor_rest.Route.Lookup.{service_lookup}
use cor_rest.Reply.{is_write}
use cor_rest.Dispatch.{◌>>=◌, set_status, problem, is_set, Exchange, App, Step, go, respond}

-- 411, 413 and a refused upgrade were decided before.
unfoldable pub early : Exchange → Step
early e =
    if e.content_length_missing
    then respond (set_status 411 e)
    else if is_set e.out.problem_type && e.out.http_status_code == 413
    then respond e
    else if e.upgrade_refused
    then respond e
    else go e

abbrev pub or_question : Option Bytes → Bytes
or_question none = codes "?"
or_question (some s) = s

-- TRACE and CONNECT
unfoldable pub is_known_method : Option Bytes → Bool
unfolding str_eq
is_known_method none = false
is_known_method (some m) = str_eq m (codes "TRACE") || str_eq m (codes "CONNECT")

abbrev pub is_no_verb : Verb → Bool
is_no_verb verbs = true
is_no_verb _ = false

-- corRestServiceLookup on the state: it sets the wildcards and cuts the path. Of the buffer only
-- what stands before the first NUL is read. A miss clears the wildcards, which the code leaves as they
-- were: without a service nothing reads them.
unfoldable pub lookup_in : App → Verb → Exchange → Exchange × Option Service
unfolding c_string
lookup_in app v e =
    let found = service_lookup app.stray (app.routes v) (c_string e.req.url_path) in
    (
      record e { req = record e.req { url_path = found.path }; wildcard = found.wildcard },
      found.service,
    )

-- The service for the verb; another method than the seven is no method at all, or has no service.
unfoldable pub find_service : App → Exchange → Step
unfolding is_known_method lookup_in problem
find_service app e =
    if is_no_verb e.req.verb
    then if is_known_method e.verb_string
      then go (record e { service = none })
      else respond (
          problem 400 (codes "BadRequestData") (codes "Invalid HTTP Method")
            (codes "unrecognized HTTP method '" ++ (or_question e.verb_string ++ codes "'")) e)
    else let (e', s) = lookup_in app e.req.verb e in go (record e' { service = s })

-- The admission hook, which an in-process request does not pass.
unfoldable pub admission : App → Exchange → Step
admission app e = elim app.admit [
  | none ↦ go e
  | some hook ↦
      let (e', ok) = hook e in
      if e.self_forward_depth == 0 then if ok then go e' else respond e' else go e
]

unfoldable pub is_accepted_type : Bool → Verb → MimeType → Bool
is_accepted_type geo _ json = true
is_accepted_type geo _ ld_json = true
is_accepted_type geo patch merge_patch_json = true
is_accepted_type geo _ geo_json = geo
is_accepted_type geo _ _ = false

-- 415: a body of a type that is not accepted.
unfoldable pub media_type : App → Exchange → Step
unfolding is_accepted_type
media_type app e =
    if (ltb 0 e.payload_size || is_set e.request_tree)
      && is_set e.req.content_type
      && is_write e.req.verb
      && not (is_accepted_type app.accept_geo_json e.req.verb e.req.content_mime)
    then respond (set_status 415 e)
    else go e

-- From the start to the parsing of the payload.
unfoldable pub gates : App → Exchange → Step
unfolding early find_service admission media_type
gates app e = early (app.pre_dispatch e) >>= find_service app >>= admission app >>= media_type app
