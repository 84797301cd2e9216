-- ===== src/Dispatch/Serve.antt =====
-- corRestProcessRequest: from the service hook to the rendered answer, and the whole of it.
pub mod Ready
use cor_rest.Base.{
  ◌==◌, if◌then◌else◌, Bytes, length, take, codes, strn_eq, ℕ, ◌+◌, Bool, true, false, not, ◌&&◌,
  ◌||◌, Option, none, some, [],
}
use cor_rest.Route.{Service}
use cor_rest.Reply.{is_write}
use cor_rest.Dispatch.{
  ◌>>=◌, set_out, set_status, problem, is_set, Exchange, App, Step, go, respond,
}
use cor_rest.Dispatch.Gate.{gates}
use cor_rest.Dispatch.Payload.{parse_payload, take_pretty}
use cor_rest.Dispatch.Missing.{need_service}
use cor_rest.Dispatch.Query.{validate_params}

unfoldable pub pre_service_step : App → Exchange → Step
pre_service_step app e = let (e', ok) = app.pre_service e in if ok then go e' else respond e'

-- A service with an operation, or under /ngsi-ld/
unfoldable pub needs_body : Service → Bool
unfolding strn_eq
needs_body s = not (s.ld_op == 0) || strn_eq 9 s.url (codes "/ngsi-ld/")

unfoldable pub body_problem : Exchange → Exchange
unfolding problem
body_problem e =
    let detail =
      if is_set e.payload
      then if e.too_deep
        then codes "request body nested deeper than 100 levels"
        else codes "request body is not valid JSON"
      else codes "no payload" in
    problem 400 (codes "InvalidRequest") (codes "Invalid Request") detail e

-- A write to a service that needs a body needs a tree; then a problem set before ends the dispatch.
unfoldable pub body_present : Service → Exchange → Step
unfolding needs_body body_problem
body_present s e =
    if needs_body s && is_write e.req.verb && not (is_set e.request_tree)
    then respond (body_problem e)
    else if is_set e.out.problem_type
    then respond e
    else go e

unfoldable pub payload_check_step : App → Service → Exchange → Step
payload_check_step app s e = elim s.payload_check [
  | none ↦ go e
  | some check ↦
      let e' = app.routine check e in if is_set e'.out.problem_type then respond e' else go e'
]

-- A late problem in place of the answer; the headers behind the first n are dropped.
unfoldable pub late_answer : ℕ → Exchange → Exchange
late_answer n e = elim e.out.late [
  | none ↦ e
  | some p ↦ record e {
    out = record e.out {
      http_status_code = p.status;
      problem_type = some p.problem_type;
      problem_title = some p.title;
      problem_detail = take 511 p.detail;
      has_tree = false;
      payload_size = 0;
      header_v = take n e.out.header_v;
    };
    out_payload = none;
  }
]

unfoldable pub forgotten_status : Exchange → Exchange
forgotten_status e =
    if e.out.http_status_code == 200 && is_set e.out.problem_type then set_status 500 e else e

-- The routine, and what comes behind it up to `respond`.
unfoldable pub run_service : App → Service → Exchange → Exchange
unfolding late_answer forgotten_status
run_service app s e =
    let n = length e.out.header_v in
    forgotten_status (app.payload_render (late_answer n (app.routine s.service_routine e)))

-- The problem's tree is built if there is none; the JSON is the library's.
unfoldable pub problem_tree : Exchange → Exchange
problem_tree e =
    if is_set e.out.problem_type then set_out (λ o. record o { has_tree = true }) e else e

abbrev pub set_body : Bytes → ℕ → Exchange → Exchange
set_body text n e = record e { out = record e.out { payload_size = n }; out_payload = some text }

-- The body of the answer, for text transports. `none` of json_render is a failed allocation.
unfoldable pub render : App → Exchange → Exchange
unfolding problem_tree
render app e0 =
    let e = problem_tree e0 in
    if e.out.no_render
    then e
    else if e.out.has_tree
    then elim (app.json_render e) [
      | none ↦ set_body [] 0 (set_status 500 e)
      | some text ↦ set_body text (if length text == 0 then app.json_size e + 1 else length text) e
    ]
    else elim e.out_payload [ none ↦ set_body [] 0 e | some text ↦ e ]

-- The steps between the payload and the routine.
unfoldable pub checks : App → Service → Exchange → Step
unfolding validate_params pre_service_step body_present payload_check_step
checks app s e =
    validate_params app s e >>= pre_service_step app >>= body_present s >>= payload_check_step app s

-- From the start to the service, or to a refusal.
unfoldable pub admitted : App → Exchange → Step
unfolding gates parse_payload take_pretty need_service
admitted app e =
    gates app e >>= (λ e'. go (take_pretty (parse_payload app e'))) >>= need_service app

-- The routine is run where the checks go on; with it, the state to render.
unfoldable pub after_checks : App → Service → Step → Exchange × Option Service
unfolding run_service
after_checks app s (respond e) = (e, none)
after_checks app s (go e) = (run_service app s e, some s)

unfoldable pub serve : App → Option Service → Exchange → Exchange × Option Service
unfolding checks after_checks
serve app none e = (e, none)
serve app (some s) e = after_checks app s (checks app s e)

unfoldable pub after_admission : App → Step → Exchange × Option Service
unfolding serve
after_admission app (respond e) = (e, none)
after_admission app (go e) = serve app e.service e

-- Where the jump to `respond` or the fall to it arrives.
unfoldable pub answered : App → Exchange → Exchange × Option Service
unfolding admitted after_admission
answered app e = after_admission app (admitted app e)

-- corRestProcessRequest, and the service whose routine was run. A hook that puts another service in
-- the place of the one found is not followed.
unfoldable pub process_request : App → Exchange → Exchange × Option Service
unfolding answered render
process_request app e = let (e', ran) = answered app e in (render app e', ran)
