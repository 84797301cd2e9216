-- ===== src/Dispatch/Serve/Ready.antt =====
-- What holds where a service routine is run.
use cor_rest.Base.{
  if◌then◌else◌, ◌≡◌, refl, sym, ap, subst, Bool, false, not, ◌&&◌, Option, none, some, arith,
}
use cor_rest.Route.{Service}
use cor_rest.Reply.{is_write}
use cor_rest.Dispatch.{◌>>=◌, is_set, Exchange, App, Step, go, respond}
use cor_rest.Dispatch.Payload.{parse_payload, take_pretty}
use cor_rest.Dispatch.Missing.{need_service}
use cor_rest.Dispatch.Gate.{early, find_service, admission, media_type, gates}
use cor_rest.Dispatch.Serve.{
  needs_body, body_problem, body_present, payload_check_step, run_service, render, checks, admitted,
  after_checks, serve, after_admission, answered, process_request,
}

-- A chain that goes on to the end went on at its first part.
chain_go :
    (st : Step) (k : Exchange → Step) (e : Exchange)
    → (st >>= k) ≡ go e
    → (e' : Exchange) × (st ≡ go e') × (k e' ≡ go e)
chain_go (go e') k e h = (e', refl, h)
chain_go (respond e') k e h = absurd (ground (arith, h))

early-go :
    (e e' : Exchange)
    → early e ≡ go e'
    → (e.content_length_missing ≡ false) × (e.upgrade_refused ≡ false) × (e ≡ e')
unfolding early
early-go e e' h = (ground (arith, h), ground (arith, h), ground (arith, h))

payload_check_step-go :
    (app : App) (s : Service) (e e' : Exchange)
    → is_set e.out.problem_type ≡ false
    → payload_check_step app s e ≡ go e'
    → is_set e'.out.problem_type ≡ false
unfolding payload_check_step
payload_check_step-go app s e e' clean h = ground (arith, clean, h)

two_guards :
    (a b : Bool) (x y e e' : Exchange)
    → (if a then respond x else if b then respond y else go e) ≡ go e'
    → (a ≡ false) × (b ≡ false) × (e ≡ e')
two_guards a b x y e e' h = (ground (arith, h), ground (arith, h), ground (arith, h))

body_present-go :
    (s : Service) (e e' : Exchange)
    → body_present s e ≡ go e'
    → (e ≡ e')
      × (is_set e.out.problem_type ≡ false)
      × (needs_body s && is_write e.req.verb && not (is_set e.request_tree) ≡ false)
unfolding body_present
body_present-go s e e' h =
    let (there, clean, same) =
      two_guards (needs_body s && is_write e.req.verb && not (is_set e.request_tree))
        (is_set e.out.problem_type) (body_problem e) e e e' h in
    (same, clean, there)

-- What the checks have made sure of: the payload's, on the state before the payload check.
pub record Checked (app : App) (s : Service) (e : Exchange) : Type 0 where
  pub before : Exchange
  pub has_body :
      needs_body s && is_write before.req.verb && not (is_set before.request_tree) ≡ false
  pub checked : payload_check_step app s before ≡ go e
  pub clean : is_set e.out.problem_type ≡ false

checks-Checked :
    (app : App) (s : Service) (e e' : Exchange) → checks app s e ≡ go e' → Checked app s e'
unfolding checks
checks-Checked app s e e' h =
    let (e3, h3, last) = chain_go _ (payload_check_step app s) e' h in
    let (e2, h2, present) = chain_go _ (body_present s) e3 h3 in
    let (same, clean, there) = body_present-go s e2 e3 present in
    let last' = subst (λ x. payload_check_step app s x ≡ go e') (sym same) last in
    record {
      before = e2;
      has_body = there;
      checked = last';
      clean = payload_check_step-go app s e2 e' clean last';
    }

admitted-go :
    (app : App) (e e' : Exchange)
    → admitted app e ≡ go e'
    → ((app.pre_dispatch e).content_length_missing ≡ false)
      × ((app.pre_dispatch e).upgrade_refused ≡ false)
unfolding admitted gates
admitted-go app e e' h =
    let (e1, h1, r1) = chain_go _ (need_service app) e' h in
    let (e2, h2, r2) = chain_go _ (λ x. go (take_pretty (parse_payload app x))) e1 h1 in
    let (e3, h3, r3) = chain_go _ (media_type app) e2 h2 in
    let (e4, h4, r4) = chain_go _ (admission app) e3 h3 in
    let (e5, h5, r5) = chain_go _ (find_service app) e4 h4 in
    let (length_there, kept, same) = early-go (app.pre_dispatch e) e5 h5 in (length_there, kept)

after_checks-ran :
    (app : App) (s t : Service) (st : Step)
    → (after_checks app s st).1 ≡ some t
    → (y : Exchange) × (st ≡ go y) × (s ≡ t) × ((after_checks app s st).0 ≡ run_service app t y)
unfolding after_checks
after_checks-ran app s t (respond e) h = absurd (ground (arith, h))
after_checks-ran app s t (go e) h =
    let same : s ≡ t = ground (arith, h) in (e, refl, same, rw same refl)

serve-ran :
    (app : App) (o : Option Service) (t : Service) (x : Exchange)
    → (serve app o x).1 ≡ some t
    → (y : Exchange) × Checked app t y × ((serve app o x).0 ≡ run_service app t y)
unfolding serve
serve-ran app none t x h = absurd (ground (arith, h))
serve-ran app (some s) t x h =
    let (y, passed, same, result) = after_checks-ran app s t (checks app s x) h in
    (y, subst (λ s'. Checked app s' y) same (checks-Checked app s x y passed), result)

after_admission-ran :
    (app : App) (st : Step) (t : Service)
    → (after_admission app st).1 ≡ some t
    → (x : Exchange) × (y : Exchange) × (st ≡ go x)
      × Checked app t y
      × ((after_admission app st).0 ≡ run_service app t y)
unfolding after_admission
after_admission-ran app (respond e) t h = absurd (ground (arith, h))
after_admission-ran app (go e) t h =
    let (y, ready, result) = serve-ran app e.service t e h in (e, y, refl, ready, result)

-- If the dispatch ran the routine of a service, the request had a length and no refused upgrade
-- when the first hook was through with it, the checks held where the routine was run (no problem
-- was set; the payload check, if any, went on; and before it a write that needs a body had a
-- tree), and the answer is the rendered result of this one run.
pub process_request-ran :
    (app : App) (e : Exchange) (s : Service)
    → (process_request app e).1 ≡ some s
    → ((app.pre_dispatch e).content_length_missing ≡ false)
      × ((app.pre_dispatch e).upgrade_refused ≡ false)
      × ((y : Exchange) × Checked app s y
          × ((process_request app e).0 ≡ render app (run_service app s y)))
unfolding process_request answered
process_request-ran app e s ran =
    let (x, y, admit, ready, result) = after_admission-ran app (admitted app e) s ran in
    let (length_there, kept) = admitted-go app e x admit in
    (length_there, kept, (y, ready, ap (render app) result))
