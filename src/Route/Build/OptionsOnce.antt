-- ===== src/Route/Build/OptionsOnce.antt =====
-- The vector for OPTIONS has an entry for every URL, and adds no second one.
use cor_rest.Base.{
  ltb, if◌then◌else◌, Bool-cases, Bytes, str_eq, str_eq_iff, ℕ, ◌+◌, ◌≡◌, refl, ap, inl, inr, Bool,
  true, false, ◌&&◌, ◌||◌, Option, none, some, List, [], ◌∷◌, ◌++◌, arith,
}
use cor_rest.Verb.{verb_index, Verb, options, verbs}
use cor_rest.Route.{service_expand, service_prepare, ServiceSimplified, Service}
use cor_rest.Route.Build.{
  Routes, no_routes, same_verb, distribute, has_url, options_service, add_options, filled,
  routes_build,
}
use cor_rest.Route.Build.Vectors.{takes, declared, distribute-declared, routes_build-some}

-- A hook for services that keeps the URL, as the documented one does, which sets option bits.
abbrev pub KeepsUrl : Option (Service → Service) → Type 0
KeepsUrl none = Unit
KeepsUrl (some hook) = (s : Service) → (hook s).url ≡ s.url

pub service_prepare-url :
    (hook : Option (Service → Service)) (s : ServiceSimplified)
    → KeepsUrl hook
    → (service_prepare hook s).url ≡ s.simple_url
unfolding service_prepare service_expand
service_prepare-url none s keeps = refl
service_prepare-url (some hook) s keeps = keeps (service_expand s)

-- The number of entries for a URL.
unfoldable pub entries : Bytes → List Service → ℕ
entries u [] = 0
entries u (s ∷ ss) = let rest = entries u ss in if str_eq s.url u then rest + 1 else rest

-- A service for the URL is declared.
unfoldable pub mentioned : Bytes → List ServiceSimplified → Bool
mentioned u [] = false
mentioned u (s ∷ ss) = let rest = mentioned u ss in str_eq s.simple_url u || rest

entries-absent : (u : Bytes) (vec : List Service) → has_url u vec ≡ false → entries u vec ≡ 0
unfolding entries has_url
entries-absent u [] h = refl
entries-absent u (s ∷ ss) h = ground (arith, h, entries-absent u ss)

entries-append : (u : Bytes) (a b : List Service) → entries u (a ++ b) ≡ entries u a + entries u b
unfolding entries
entries-append u [] b = omega arith
entries-append u (s ∷ a) b = ground (arith, entries-append u a b)

pub has_url-append :
    (u : Bytes) (a b : List Service) → has_url u (a ++ b) ≡ has_url u a || has_url u b
unfolding has_url
has_url-append u [] b = refl
has_url-append u (s ∷ a) b = ground (arith, has_url-append u a b)

-- What the third loop does to the entries for one URL.
add_options-entries :
    (prepare : ServiceSimplified → Service) (handler : ℕ) (u : Bytes) (ss : List ServiceSimplified)
    (vec : List Service)
    → ((s : ServiceSimplified) → (prepare s).url ≡ s.simple_url)
    → entries u (add_options prepare handler ss vec)
      ≡ (if has_url u vec then entries u vec else if mentioned u ss then 1 else 0)
unfolding add_options entries has_url mentioned
add_options-entries prepare handler u [] vec keeps = ground (arith, entries-absent u vec)
add_options-entries prepare handler u (s ∷ ss) vec keeps =
    let new = prepare (options_service handler s.simple_url) in
    let more = vec ++ new ∷ [] in
    let url = ap (λ w. str_eq w u) (keeps (options_service handler s.simple_url)) in
    let there = has_url-append u vec (new ∷ []) in
    let counted = entries-append u vec (new ∷ []) in
    let skip = add_options-entries prepare handler u ss vec keeps in
    let add = add_options-entries prepare handler u ss more keeps in
    elim (Bool-cases (str_eq s.simple_url u)) [
      | inl same ↦
          let e = ap (λ w. has_url w vec) ((str_eq_iff s.simple_url u).0 same) in
          ground (arith, same, e, url, there, counted, skip, add, entries-absent u vec)
      | inr other ↦ ground (arith, other, url, there, counted, skip, add)
    ]

-- After a build that did not fail, a URL that no declared OPTIONS service has stands once in the
-- vector for OPTIONS if a service declares it, and not at all otherwise; of a URL that has
-- declared OPTIONS services, these are all that stand there.
pub routes_build-options_once :
    (hook : Option (Service → Service)) (handler : ℕ) (calloc : ℕ → Bool)
    (ss : List ServiceSimplified) (routes : Routes) (u : Bytes)
    → KeepsUrl hook
    → routes_build hook handler calloc ss ≡ some routes
    → let own = declared (service_prepare hook) options ss in
      entries u (routes options)
      ≡ (if has_url u own then entries u own else if mentioned u ss then 1 else 0)
unfolding filled verb_index
routes_build-options_once hook handler calloc ss routes u keeps built =
    let prepare = service_prepare hook in
    let d = distribute-declared prepare options ss no_routes refl in
    rw (routes_build-some hook handler calloc ss routes built, d)
      (add_options-entries prepare handler u ss (declared prepare options ss)
        (λ s. service_prepare-url hook s keeps))

has_url-entries : (u : Bytes) (vec : List Service) → has_url u vec ≡ ltb 0 (entries u vec)
unfolding has_url entries
has_url-entries u [] = ground arith
has_url-entries u (s ∷ ss) = ground (arith, has_url-entries u ss)

-- A service for the URL is declared, that is reached with the verb.
unfoldable pub declares : Bytes → Verb → List ServiceSimplified → Bool
unfolding verb_index
declares u v [] = false
declares u v (s ∷ ss) = let rest = declares u v ss in takes v s && str_eq s.simple_url u || rest

-- OPTIONS has a service for every URL.
abbrev pub answers : Bytes → List ServiceSimplified → Verb → Bool
answers u ss v = if same_verb v options then mentioned u ss else declares u v ss

declares-mentioned :
    (u : Bytes) (v : Verb) (ss : List ServiceSimplified)
    → declares u v ss ≡ true
    → mentioned u ss ≡ true
unfolding declares mentioned
declares-mentioned u v [] h = h
declares-mentioned u v (s ∷ ss) h = ground (arith, h, declares-mentioned u v ss)

has_url-declared :
    (prepare : ServiceSimplified → Service) (u : Bytes) (v : Verb) (ss : List ServiceSimplified)
    → ((s : ServiceSimplified) → (prepare s).url ≡ s.simple_url)
    → has_url u (declared prepare v ss) ≡ declares u v ss
unfolding has_url declared declares
has_url-declared prepare u v [] keeps = refl
has_url-declared prepare u v (s ∷ ss) keeps =
    ground (arith, has_url-declared prepare u v ss keeps, ap (λ w. str_eq w u) (keeps s))

-- Which vectors have a service for a URL.
pub filled-answers :
    (prepare : ServiceSimplified → Service) (handler : ℕ) (ss : List ServiceSimplified) (u : Bytes)
    (v : Verb)
    → ((s : ServiceSimplified) → (prepare s).url ≡ s.simple_url)
    → same_verb v verbs ≡ false
    → has_url u (filled prepare handler ss v) ≡ answers u ss v
unfolding filled verb_index
filled-answers prepare handler ss u v keeps real =
    let own = distribute-declared prepare options ss no_routes refl in
    let vec = distribute prepare ss no_routes options in
    let once = add_options-entries prepare handler u ss vec keeps in
    let there = has_url-entries u (add_options prepare handler ss vec) in
    let there' = has_url-entries u vec in
    elim (Bool-cases (same_verb v options)) [
      | inl same ↦ rw same ground (
        arith,
        once,
        there,
        there',
        ap (has_url u) own,
        has_url-declared prepare u options ss keeps,
        declares-mentioned u options ss,
      )
      | inr other ↦
          rw (other, distribute-declared prepare v ss no_routes real)
            (has_url-declared prepare u v ss keeps)
    ]
