-- ===== src/Route/Lookup/Exact.antt =====
-- A route with no wildcard matches its own path and no other.
use cor_rest.Base.{
  if◌then◌else◌, Bool-cases, Bytes, length, take, str_eq, str_eq_iff, IsText, c_string_lem, ℕ, ◌≤◌,
  ◌<◌, ◌≡◌, refl, ap, ◌≢◌, inl, inr, [], ◌∷◌, arith,
}
use cor_rest.Route.{service_expand, ServiceSimplified}
use cor_rest.Route.Pattern.{IsLiteral, char_sum}
use cor_rest.Route.Prepared.{expand_none}
use cor_rest.Route.Lookup.{match_exact, match_service, hit, miss}
use cor_rest.Route.Lookup.Sums.{sum_before_lem, sum_before_stray, lookup_one}

take_all : (p : Bytes) → take (length p) p ≡ p
take_all [] = refl
take_all (c ∷ p) = ap (◌∷◌ c) (take_all p)

-- For a literal route and a path of 1 to 64 bytes with no NUL, whatever lies on the stack: the
-- comparison of lengths and sums changes nothing, the route matches exactly the equal path, with no
-- wildcard, and the path is left as it was.
pub lookup_one-exact :
    (stray : ℕ → ℕ) (simple : ServiceSimplified) (p : Bytes)
    → IsLiteral simple.simple_url
    → IsText p
    → 0 < length p
    → length p ≤ 64
    → lookup_one stray (service_expand simple) p
      ≡ (if str_eq simple.simple_url p then hit p [] else miss p)
unfolding match_service match_exact
lookup_one-exact stray simple p hu hp lo hi = elim (Bool-cases (str_eq simple.simple_url p)) [
  | inl e ↦ ground (
    arith,
    expand_none simple hu,
    (str_eq_iff simple.simple_url p).0 e,
    c_string_lem p hp,
    sum_before_lem stray p (length p) lo hi,
    take_all p,
  )
  | inr e ↦ ground (arith, expand_none simple hu, c_string_lem p hp)
]

-- A literal route of more than 64 bytes is compared with memory that nobody wrote: unless that
-- happens to hold the route's own sum, its own path does not match.
pub lookup_one-exact_long :
    (stray : ℕ → ℕ) (simple : ServiceSimplified)
    → let u = simple.simple_url in
      IsLiteral u
      → 64 < length u
      → stray (length u) ≢ char_sum 0 u
      → lookup_one stray (service_expand simple) u ≡ miss u
unfolding match_service
lookup_one-exact_long stray simple hu long odd = ground (
  arith,
  expand_none simple hu,
  sum_before_stray stray simple.simple_url (length simple.simple_url),
)
