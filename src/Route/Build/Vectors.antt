-- ===== src/Route/Build/Vectors.antt =====
-- What the vectors hold, and that they fit into what is allocated for them.
use mathlib.Core.List.{append_assoc, append-nil}
use cor_rest.Base.{
  if◌then◌else◌, length, length-append, ℕ, ◌+◌, ◌≤◌, ◌≡◌, refl, sym, ap, Bool, false, ◌&&◌, ◌||◌,
  Option, some, List, [], ◌∷◌, ◌++◌, arith,
}
use cor_rest.Verb.{verb_index, Verb, get, head, options, verbs}
use cor_rest.Route.{service_prepare, ServiceSimplified, Service}
use cor_rest.Route.Build.{
  Routes, no_routes, same_verb, tick, count_loop, room, push, distribute, options_service,
  add_options, filled, routes_build,
}

-- A service that is reached with a verb: its own, and HEAD for a GET.
abbrev pub takes : Verb → ServiceSimplified → Bool
takes v s = same_verb s.verb v || (same_verb head v && same_verb s.verb get)

-- The services for a verb, in the order of the declarations.
unfoldable pub declared :
    (ServiceSimplified → Service) → Verb → List ServiceSimplified → List Service
unfolding verb_index
declared prepare v [] = []
declared prepare v (s ∷ ss) =
    let rest = declared prepare v ss in if takes v s then prepare s ∷ rest else rest

-- One step of the loop, seen from one vector.
next_vector :
    (v : Verb) (s : ServiceSimplified) (x : Service) (routes : Routes)
    → same_verb v verbs ≡ false
    → let own = push s.verb x routes in
      let next = if same_verb s.verb get then push head x own else own in
      (if same_verb s.verb verbs then routes v else next v)
      ≡ (if takes v s then routes v ++ x ∷ [] else routes v)
unfolding verb_index
next_vector v s x routes real = ground arith

distribute_step :
    (prepare : ServiceSimplified → Service) (v : Verb) (s : ServiceSimplified)
    (ss : List ServiceSimplified) (routes : Routes)
    → same_verb v verbs ≡ false
    → ((next : Routes) → distribute prepare ss next v ≡ next v ++ declared prepare v ss)
    → distribute prepare (s ∷ ss) routes v ≡ routes v ++ declared prepare v (s ∷ ss)
unfolding distribute declared verb_index
distribute_step prepare v s ss routes real ih = ground (
  arith,
  next_vector v s (prepare s) routes real,
  ih routes,
  ih (push s.verb (prepare s) routes),
  ih (push head (prepare s) (push s.verb (prepare s) routes)),
  append_assoc (routes v) (prepare s ∷ []) (declared prepare v ss),
)

pub distribute-declared :
    (prepare : ServiceSimplified → Service) (v : Verb) (ss : List ServiceSimplified)
    (routes : Routes)
    → same_verb v verbs ≡ false
    → distribute prepare ss routes v ≡ routes v ++ declared prepare v ss
unfolding distribute declared
distribute-declared prepare v [] routes real = sym (append-nil (routes v))
distribute-declared prepare v (s ∷ ss) routes real =
    distribute_step prepare v s ss routes real (λ next. distribute-declared prepare v ss next real)

count_step :
    (v : Verb) (s : ServiceSimplified) (counts : Verb → ℕ)
    → same_verb v verbs ≡ false
    → let own = if same_verb s.verb verbs then counts else tick s.verb counts in
      (if same_verb s.verb get then tick head own else own) v
      ≡ (if takes v s then counts v + 1 else counts v)
unfolding verb_index
count_step v s counts real = ground arith

-- The first loop counts what the second one puts into a vector.
pub count_loop-declared :
    (prepare : ServiceSimplified → Service) (v : Verb) (ss : List ServiceSimplified)
    (counts : Verb → ℕ)
    → same_verb v verbs ≡ false
    → count_loop ss counts v ≡ counts v + length (declared prepare v ss)
unfolding count_loop declared
count_loop-declared prepare v [] counts real = omega arith
count_loop-declared prepare v (s ∷ ss) counts real =
    let own = if same_verb s.verb verbs then counts else tick s.verb counts in
    let next = if same_verb s.verb get then tick head own else own in
    ground (arith, count_step v s counts real, count_loop-declared prepare v ss next real)

length-add_options :
    (prepare : ServiceSimplified → Service) (handler : ℕ) (ss : List ServiceSimplified)
    (vec : List Service)
    → length (add_options prepare handler ss vec) ≤ length vec + length ss
unfolding add_options
length-add_options prepare handler [] vec = omega arith
length-add_options prepare handler (s ∷ ss) vec =
    let new = prepare (options_service handler s.simple_url) in
    let more = vec ++ new ∷ [] in
    ground (
      arith,
      length-append vec (new ∷ []),
      length-add_options prepare handler ss vec,
      length-add_options prepare handler ss more,
    )

-- What a build that did not fail returns.
pub routes_build-some :
    (hook : Option (Service → Service)) (handler : ℕ) (calloc : ℕ → Bool)
    (ss : List ServiceSimplified) (routes : Routes)
    → routes_build hook handler calloc ss ≡ some routes
    → routes ≡ filled (service_prepare hook) handler ss
unfolding routes_build
routes_build-some hook handler calloc ss routes built = ground (arith, built)

-- After a build that did not fail, the vector of each verb but OPTIONS holds the services declared
-- for the verb, in their order, each prepared; the one of HEAD holds those declared for GET too.
pub routes_build-declared :
    (hook : Option (Service → Service)) (handler : ℕ) (calloc : ℕ → Bool)
    (ss : List ServiceSimplified) (routes : Routes) (v : Verb)
    → routes_build hook handler calloc ss ≡ some routes
    → same_verb v verbs ≡ false
    → same_verb v options ≡ false
    → routes v ≡ declared (service_prepare hook) v ss
unfolding filled
routes_build-declared hook handler calloc ss routes v built real other =
    rw (routes_build-some hook handler calloc ss routes built, other)
      (distribute-declared (service_prepare hook) v ss no_routes real)

filled-fits :
    (prepare : ServiceSimplified → Service) (handler : ℕ) (ss : List ServiceSimplified) (v : Verb)
    → same_verb v verbs ≡ false
    → length (filled prepare handler ss v) ≤ room ss v
unfolding filled room verb_index
filled-fits prepare handler ss v real =
    let routes = distribute prepare ss no_routes in
    ground (
      arith,
      ap length (distribute-declared prepare v ss no_routes real),
      ap length (distribute-declared prepare options ss no_routes refl),
      count_loop-declared prepare v ss (λ w. 0) real,
      count_loop-declared prepare options ss (λ w. 0) refl,
      length-add_options prepare handler ss (routes options),
    )

-- No vector outgrows what was allocated for it.
pub routes_build-fits :
    (hook : Option (Service → Service)) (handler : ℕ) (calloc : ℕ → Bool)
    (ss : List ServiceSimplified) (routes : Routes) (v : Verb)
    → routes_build hook handler calloc ss ≡ some routes
    → same_verb v verbs ≡ false
    → length (routes v) ≤ room ss v
routes_build-fits hook handler calloc ss routes v built real =
    rw (routes_build-some hook handler calloc ss routes built)
      (filled-fits (service_prepare hook) handler ss v real)
