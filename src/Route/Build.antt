-- ===== src/Route/Build.antt =====
-- routesBuild of corRestInit.c: the vectors of services, one for each verb.
pub mod Vectors
pub mod OptionsOnce
use cor_rest.Base.{
  ◌==◌, if◌then◌else◌, Bytes, length, str_eq, ℕ, ◌+◌, Bool, true, false, ◌&&◌, ◌||◌, Option, none,
  some, List, [], ◌∷◌, ◌++◌,
}
use cor_rest.Verb.{verb_index, Verb, get, put, post, delete, patch, head, options, verbs}
use cor_rest.Route.{service_prepare, ServiceOptions, ServiceSimplified, Service}

-- The vectors
abbrev pub Routes : Type 0
Routes = Verb → List Service

abbrev pub no_routes : Routes
no_routes v = []

abbrev pub same_verb : Verb → Verb → Bool
same_verb v w = verb_index v == verb_index w

-- The verbs that index a vector
abbrev pub all_verbs : List Verb
all_verbs = get ∷ put ∷ post ∷ delete ∷ patch ∷ head ∷ options ∷ []

-- One more in the counter of a verb; CorVerbs has none.
abbrev pub tick : Verb → (Verb → ℕ) → Verb → ℕ
tick v counts w = if same_verb v w then counts w + 1 else counts w

-- The first loop: the counts for the services' own verbs, and for HEAD.
unfoldable pub count_loop : List ServiceSimplified → (Verb → ℕ) → Verb → ℕ
unfolding verb_index
count_loop [] counts = counts
count_loop (s ∷ ss) counts =
    let own = if same_verb s.verb verbs then counts else tick s.verb counts in
    count_loop ss (if same_verb s.verb get then tick head own else own)

-- The entries that are allocated for a verb.
unfoldable pub room : List ServiceSimplified → Verb → ℕ
unfolding count_loop verb_index
room ss v = let n = count_loop ss (λ w. 0) v in if same_verb v options then n + length ss else n

abbrev pub push : Verb → Service → Routes → Routes
push v s routes w = if same_verb v w then routes w ++ s ∷ [] else routes w

-- The second loop: each service goes behind those of its verb, and of HEAD for a GET.
unfoldable pub distribute : (ServiceSimplified → Service) → List ServiceSimplified → Routes → Routes
unfolding verb_index
distribute prepare [] routes = routes
distribute prepare (s ∷ ss) routes =
    let own = push s.verb (prepare s) routes in
    let next = if same_verb s.verb get then push head (prepare s) own else own in
    if same_verb s.verb verbs then distribute prepare ss routes else distribute prepare ss next

unfoldable pub has_url : Bytes → List Service → Bool
unfolding str_eq
has_url u [] = false
has_url u (s ∷ ss) = let rest = has_url u ss in str_eq s.url u || rest

abbrev no_options : ServiceOptions
no_options = record {
  uri_at0 = false;
  name_at1 = false;
  uri_at2 = false;
  entity_array_body = false;
  plain_json_body = false;
}

-- The service that answers OPTIONS for a URL; `handler` stands for optionsHandler.
abbrev pub options_service : ℕ → Bytes → ServiceSimplified
options_service handler u = record {
  verb = options;
  simple_url = u;
  simple_routine = handler;
  simple_params = 0;
  simple_ld_op = 0;
  simple_check = none;
  simple_options = no_options;
}

-- The third loop, over the vector for OPTIONS.
unfoldable pub add_options :
    (ServiceSimplified → Service) → ℕ → List ServiceSimplified → List Service → List Service
unfolding has_url
add_options prepare handler [] vec = vec
add_options prepare handler (s ∷ ss) vec =
    let more = vec ++ prepare (options_service handler s.simple_url) ∷ [] in
    add_options prepare handler ss (if has_url s.simple_url vec then vec else more)

-- calloc, for each verb that has services; `calloc` tells whether it succeeds.
unfoldable pub allocate : (ℕ → Bool) → List ServiceSimplified → List Verb → Bool
unfolding room
allocate calloc ss [] = true
allocate calloc ss (v ∷ vs) =
    let n = room ss v in
    let rest = allocate calloc ss vs in if n == 0 then rest else calloc n && rest

-- The second and the third loop.
unfoldable pub filled : (ServiceSimplified → Service) → ℕ → List ServiceSimplified → Routes
unfolding distribute add_options verb_index
filled prepare handler ss v =
    let routes = distribute prepare ss no_routes in
    if same_verb v options then add_options prepare handler ss (routes options) else routes v

-- `none` where the code returns -1.
unfoldable pub routes_build :
    Option (Service → Service) → ℕ → (ℕ → Bool) → List ServiceSimplified → Option Routes
unfolding allocate filled service_prepare
routes_build hook handler calloc ss =
    if allocate calloc ss all_verbs then some (filled (service_prepare hook) handler ss) else none
