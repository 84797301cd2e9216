-- ===== src/Dispatch/Options/Allow.antt =====
-- The Allow header of optionsHandler against the services that were declared.
use mathlib.Core.List.{append-nil}
use cor_rest.Base.{
  if◌then◌else◌, Bool-cases, Bytes, length, codes, ℕ, ◌≤◌, ◌<◌, ◌≡◌, refl, sym, ap, ◌∙◌, inl, inr,
  Bool, false, Option, some, List, [], ◌∷◌, ◌++◌, arith,
}
use cor_rest.Verb.{
  verb_index, verb_to_string, Verb, get, put, post, delete, patch, head, options, verbs,
}
use cor_rest.Route.{service_prepare, ServiceSimplified, Service}
use cor_rest.Route.Build.{Routes, same_verb, all_verbs, has_url, routes_build}
use cor_rest.Route.Build.Vectors.{routes_build-some}
use cor_rest.Route.Build.OptionsOnce.{KeepsUrl, service_prepare-url, answers, filled-answers}
use cor_rest.Dispatch.{Exchange, App}
use cor_rest.Dispatch.Names.{
  names_text, with_names, cost, with_comma, with_names-cons, length-names_text,
}
use cor_rest.Dispatch.Options.{options_loop, matched_url, options_handler}

-- The verbs that pass a test
abbrev pub chosen : (Verb → Bool) → List Verb → List Verb
chosen test [] = []
chosen test (v ∷ vs) = let rest = chosen test vs in if test v then v ∷ rest else rest

options_loop-names :
    (routes : Routes) (u : Bytes) (vs : List Verb) (allow : Bytes)
    → options_loop routes u vs allow ≡ with_names allow (chosen (λ v. has_url u (routes v)) vs)
unfolding options_loop
options_loop-names routes u [] [] = refl
options_loop-names routes u [] (c ∷ s) = sym (append-nil (c ∷ s))
options_loop-names routes u (v ∷ vs) allow =
    let add = options_loop-names routes u vs (with_comma allow ++ verb_to_string v) in
    let skip = options_loop-names routes u vs allow in
    elim (Bool-cases (has_url u (routes v))) [
      | inl there ↦ rw there (add ∙ with_names-cons allow v (chosen (λ w. has_url u (routes w)) vs))
      | inr absent ↦ rw absent skip
    ]

cost-chosen : (test : Verb → Bool) (vs : List Verb) → cost (chosen test vs) ≤ cost vs
cost-chosen test [] = omega arith
cost-chosen test (v ∷ vs) = ground (arith, cost-chosen test vs)

-- Two tests that agree on the seven verbs
chosen-agree :
    (f g : Verb → Bool)
    → ((v : Verb) → same_verb v verbs ≡ false → f v ≡ g v)
    → chosen f all_verbs ≡ chosen g all_verbs
unfolding verb_index
chosen-agree f g same =
    rw
      (
        same get refl,
        same put refl,
        same post refl,
        same delete refl,
        same patch refl,
        same head refl,
        same options refl,
      )
      refl

-- Over the vectors of a build that did not fail, the handler of OPTIONS answers 204 and adds one
-- header, an Allow that names, in the order of the verbs, those for which a declared service has
-- the matched URL: its own verb, HEAD for a GET, and OPTIONS for any. With its NUL the text fits
-- into the array of 128 bytes.
pub options_handler-allow :
    (app : App) (e : Exchange) (hook : Option (Service → Service)) (handler : ℕ) (calloc : ℕ → Bool)
    (ss : List ServiceSimplified)
    → KeepsUrl hook
    → routes_build hook handler calloc ss ≡ some app.routes
    → let text = names_text (chosen (answers (matched_url e) ss) all_verbs) in
      ((options_handler app e).out.http_status_code ≡ 204)
      × ((options_handler app e).out.header_v ≡ e.out.header_v ++ (codes "Allow", text) ∷ [])
      × (length text < 128)
unfolding options_handler
options_handler-allow app e hook handler calloc ss keeps built =
    let u = matched_url e in
    let agree =
      chosen-agree (λ v. has_url u (app.routes v)) (answers u ss)
        (λ v real. rw (routes_build-some hook handler calloc ss app.routes built) (
          filled-answers (service_prepare hook) handler ss u v
            (λ s. service_prepare-url hook s keeps) real)) in
    let text = options_loop-names app.routes u all_verbs [] ∙ ap names_text agree in
    (
      refl,
      ap (λ t. e.out.header_v ++ (codes "Allow", t) ∷ []) text,
      omega (
        arith,
        length-names_text (chosen (answers u ss) all_verbs),
        cost-chosen (answers u ss) all_verbs,
      ),
    )
