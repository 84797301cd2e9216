-- ===== src/Dispatch/Missing.antt =====
-- corRestProcessRequest where no service was found: 400, 404 or 405 with the Allow header.
pub mod Allow
use cor_rest.Base.{
  ltb, leb, ◌==◌, if◌then◌else◌, Bytes, length, codes, index_text, c_string, ◌+◌, Bool, not, none,
  some, List, [], ◌∷◌, ◌++◌,
}
use cor_rest.Verb.{verb_index, verb_to_string, Verb}
use cor_rest.Route.Build.{all_verbs}
use cor_rest.Dispatch.{set_out, problem, is_set, Exchange, App, Step, go, respond}
use cor_rest.Dispatch.Gate.{or_question, lookup_in}

-- The names of the verbs that have a service for the path, which is put back before every lookup.
-- `allow` is the text so far. A name that does not fit ends the loop.
unfoldable pub allow_loop : App → Bytes → Verb → List Verb → Bytes → Exchange → Bytes × Exchange
unfolding lookup_in verb_to_string verb_index
allow_loop app path own [] allow e = (allow, e)
allow_loop app path own (v ∷ vs) allow e =
    let e1 = record e { req = record e.req { url_path = path } } in
    let (e2, probe) = lookup_in app v e1 in
    let allow' = if ltb 0 (length allow) then allow ++ codes ", " else allow in
    let name = verb_to_string v in
    let skipped = allow_loop app path own vs allow e in
    let without = allow_loop app path own vs allow e2 in
    let with_name = allow_loop app path own vs (allow' ++ name) e2 in
    if verb_index v == verb_index own
    then skipped
    else if not (is_set probe)
    then without
    else if leb 128 (length allow' + length name)
    then (allow', e2)
    else with_name

unfoldable pub has_empty_segment : Bytes → Bool
unfolding index_text
has_empty_segment path = is_set (index_text (codes "//") path)

-- " — supported methods: " in UTF-8
abbrev pub em_dash_methods : Bytes
em_dash_methods = b' ' ∷ 0xe2 ∷ 0x80 ∷ 0x94 ∷ codes " supported methods: "

-- The header goes behind those that are there, without a look at the room in the array.
unfoldable pub not_allowed : Bytes → Bytes → Exchange → Exchange
unfolding problem
not_allowed path allow e =
    let e1 = set_out (λ o. record o { header_v = o.header_v ++ (codes "Allow", allow) ∷ [] }) e in
    problem 405 (codes "MethodNotAllowed") (codes "Method Not Allowed")
      (or_question e.verb_string ++ (codes " " ++ (path ++ (em_dash_methods ++ allow)))) e1

unfoldable pub not_found : Bytes → Exchange → Exchange
unfolding problem
not_found path e =
    problem 404 (codes "ResourceNotFound") (codes "Not Found")
      (or_question e.verb_string ++ (codes " " ++ (path ++ codes " is not a recognized resource")))
      e

unfoldable pub no_service : App → Exchange → Exchange
unfolding has_empty_segment allow_loop not_allowed not_found problem c_string
no_service app e =
    let path = c_string e.req.url_path in
    if has_empty_segment path
    then problem 400 (codes "BadRequestData") (codes "Invalid URL Path")
        (codes "empty path segment in '" ++ (path ++ codes "' (likely a missing URL variable)")) e
    else let (allow, e') = allow_loop app path e.req.verb all_verbs [] e in
      if ltb 0 (length allow) then not_allowed path allow e' else not_found path e'

unfoldable pub need_service : App → Exchange → Step
unfolding no_service
need_service app e = elim e.service [ none ↦ respond (no_service app e) | some s ↦ go e ]
