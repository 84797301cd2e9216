-- ===== src/Dispatch/Options.antt =====
-- optionsHandler of corRestInit.c, over the vectors that routesBuild made.
pub mod Allow
use cor_rest.Base.{
  ltb, if◌then◌else◌, Bytes, length, codes, c_string, none, some, List, [], ◌∷◌, ◌++◌,
}
use cor_rest.Verb.{verb_to_string, Verb}
use cor_rest.Route.Build.{Routes, all_verbs, has_url}
use cor_rest.Dispatch.{set_out, Exchange, App}

-- The names of the verbs that have a service with the URL. The array is not looked at.
unfoldable pub options_loop : Routes → Bytes → List Verb → Bytes → Bytes
unfolding has_url verb_to_string
options_loop routes u [] allow = allow
options_loop routes u (v ∷ vs) allow =
    let allow' = if ltb 0 (length allow) then allow ++ codes ", " else allow in
    let with_name = options_loop routes u vs (allow' ++ verb_to_string v) in
    let without = options_loop routes u vs allow in
    if has_url u (routes v) then with_name else without

unfoldable pub matched_url : Exchange → Bytes
matched_url e = elim e.service [ none ↦ c_string e.req.url_path | some s ↦ s.url ]

unfoldable pub options_handler : App → Exchange → Exchange
unfolding options_loop matched_url
options_handler app e =
    let allow = options_loop app.routes (matched_url e) all_verbs [] in
    set_out
      (λ o. record o {
        http_status_code = 204;
        header_v = o.header_v ++ (codes "Allow", allow) ∷ [];
      })
      e
