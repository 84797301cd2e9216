-- ===== src/Dispatch/Missing/Allow.antt =====
-- The Allow header names exactly the other verbs that have a route for the path.
use mathlib.Core.List.{append-nil}
use cor_rest.Base.{
  ltb, leb, ◌==◌, if◌then◌else◌, Bool-cases, Bytes, length, codes, c_string, ℕ, ◌+◌, ◌<◌, ◌≡◌, refl,
  sym, ap, ◌∙◌, inl, inr, Bool, true, false, not, ◌&&◌, List, [], ◌∷◌, ◌++◌, arith,
}
use cor_rest.Verb.{verb_index, verb_to_string, Verb}
use cor_rest.Route.Lookup.{service_lookup}
use cor_rest.Route.Build.{all_verbs}
use cor_rest.Dispatch.Names.{
  names_text, with_names, cost, with_comma, verb_to_string-nonempty, with_names-cons, name_fits,
}
use cor_rest.Dispatch.{problem, is_set, Exchange, App}
use cor_rest.Dispatch.Gate.{lookup_in}
use cor_rest.Dispatch.Missing.{allow_loop, has_empty_segment, not_allowed, not_found, no_service}
use cor_rest.Dispatch.Gate.{lookup_in}

-- Another verb than the request's, with a service for the path.
abbrev pub offers : App → Bytes → Verb → Verb → Bool
offers app path own v =
    not (verb_index v == verb_index own)
    && is_set (service_lookup app.stray (app.routes v) (c_string path)).service

abbrev pub offered : App → Bytes → Verb → List Verb → List Verb
offered app path own [] = []
offered app path own (v ∷ vs) =
    let rest = offered app path own vs in if offers app path own v then v ∷ rest else rest

-- The loop's text, when the array is large enough for all of it.
pub allow_loop-names :
    (app : App) (path : Bytes) (own : Verb) (vs : List Verb) (allow : Bytes) (e : Exchange)
    → length allow + cost vs < 128
    → (allow_loop app path own vs allow e).0 ≡ with_names allow (offered app path own vs)
unfolding allow_loop lookup_in
allow_loop-names app path own [] [] e h = refl
allow_loop-names app path own [] (c ∷ s) e h = sym (append-nil (c ∷ s))
allow_loop-names app path own (v ∷ vs) allow e h =
    let (fits, less) = name_fits allow v vs h in
    let found = service_lookup app.stray (app.routes v) (c_string path) in
    let e2 = record e { req = record e.req { url_path = found.path }; wildcard = found.wildcard } in
    let skip = allow_loop-names app path own vs allow e (omega (arith, h)) in
    let pass = allow_loop-names app path own vs allow e2 (omega (arith, h)) in
    let add = allow_loop-names app path own vs (with_comma allow ++ verb_to_string v) e2 less in
    elim (Bool-cases (verb_index v == verb_index own)) [
      | inl same ↦ rw same skip
      | inr other ↦ elim (Bool-cases (is_set found.service)) [
        | inl there ↦
            rw (other, there, fits) (add ∙ with_names-cons allow v (offered app path own vs))
        | inr absent ↦ rw (other, absent) pass
      ]
    ]

-- The loop changes the request's path and wildcards only.
pub allow_loop-out :
    (app : App) (path : Bytes) (own : Verb) (vs : List Verb) (allow : Bytes) (e : Exchange)
    → (allow_loop app path own vs allow e).1.out ≡ e.out
unfolding allow_loop lookup_in
allow_loop-out app path own [] allow e = refl
allow_loop-out app path own (v ∷ vs) allow e =
    let found = service_lookup app.stray (app.routes v) (c_string path) in
    let e2 = record e { req = record e.req { url_path = found.path }; wildcard = found.wildcard } in
    let skip = allow_loop-out app path own vs allow e in
    let pass = allow_loop-out app path own vs allow e2 in
    let add = allow_loop-out app path own vs (with_comma allow ++ verb_to_string v) e2 in
    let next = length (with_comma allow) + length (verb_to_string v) in
    elim (Bool-cases (verb_index v == verb_index own)) [
      | inl same ↦ rw same skip
      | inr other ↦ elim (Bool-cases (is_set found.service)) [
        | inl there ↦ elim (Bool-cases (leb 128 next)) [
          | inl full ↦ rw (other, there, full) refl
          | inr fits ↦ rw (other, there, fits) add
        ]
        | inr absent ↦ rw (other, absent) pass
      ]
    ]

abbrev pub missing_status : List Verb → ℕ
missing_status [] = 404
missing_status (v ∷ vs) = 405

abbrev pub allow_headers : List Verb → List (Bytes × Bytes)
allow_headers [] = []
allow_headers (v ∷ vs) = (codes "Allow", names_text (v ∷ vs)) ∷ []

text_of_offered :
    (others : List Verb)
    → ltb 0 (length (names_text others)) ≡ (elim others [ [] ↦ false | v ∷ vs ↦ true ])
text_of_offered [] = refl
text_of_offered (v ∷ vs) = let (c, s, e) = verb_to_string-nonempty v in rw e (ground arith)

answered_names :
    (path : Bytes) (others : List Verb) (text : Bytes) (e' e : Exchange)
    → text ≡ names_text others
    → e'.out ≡ e.out
    → let r = if ltb 0 (length text) then not_allowed path text e' else not_found path e' in
      (r.out.http_status_code ≡ missing_status others)
      × (r.out.header_v ≡ e.out.header_v ++ allow_headers others)
unfolding not_allowed not_found problem
answered_names path [] text e' e names same =
    rw names (refl, ap (λ o. o.header_v) same ∙ sym (append-nil e.out.header_v))
answered_names path (v ∷ vs) text e' e names same =
    rw (names, text_of_offered (v ∷ vs)) (refl, ap (λ o. o.header_v ++ allow_headers (v ∷ vs)) same)

-- A request for which no service was found, and whose path has no empty segment, is answered with
-- 404 and no new header where no other verb has a service for the path; else with 405 and one new
-- header, an Allow with exactly the names of the other verbs that have one, in the order of the
-- verbs.
pub no_service-allow :
    (app : App) (e : Exchange)
    → has_empty_segment (c_string e.req.url_path) ≡ false
    → ((no_service app e).out.http_status_code
        ≡ missing_status (offered app (c_string e.req.url_path) e.req.verb all_verbs))
      × ((no_service app e).out.header_v
          ≡ e.out.header_v
            ++ allow_headers (offered app (c_string e.req.url_path) e.req.verb all_verbs))
unfolding no_service
no_service-allow app e plain =
    let path = c_string e.req.url_path in
    let others = offered app path e.req.verb all_verbs in
    let text = allow_loop-names app path e.req.verb all_verbs [] e (omega arith) in
    let same = allow_loop-out app path e.req.verb all_verbs [] e in
    rw plain (answered_names path others _ _ e text same)
