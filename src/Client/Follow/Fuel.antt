-- ===== src/Client/Follow/Fuel.antt =====
-- The loop of sendFollow ends: one round for the first URL and one for each redirect are enough.
use cor_rest.Client.Follow.{
  try_round, redirected, Rest, to_location, after_attempt, follow, Peer, FollowRequest, Attempt,
  gives_up, answered,
}
use cor_rest.Client.Follow.Bounded.{redirected-max, not-over}
use cor_rest.Client.Address.{client_url_parse}
use cor_rest.Base.{
  ltb, Bool-cases, Bytes, ℕ, zero, suc, ◌+◌, ◌≤◌, ◌<◌, ◌≡◌, refl, inl, inr, none, some, ◌++◌, arith,
}

to_location-next :
    (peer : Peer) (r status : ℕ) (url : Bytes) (q : FollowRequest)
    (next next' : FollowRequest → Rest)
    → ((q' : FollowRequest) → q'.max_redirects ≡ q.max_redirects → next q' ≡ next' q')
    → to_location peer r status url q next ≡ to_location peer r status url q next'
to_location-next peer r status url q next next' same =
    let parsed = client_url_parse (some url) q.address in
    rw (same (redirected status parsed.0 q) (redirected-max status parsed.0 q)) refl

-- The loop goes on below the limit only.
after_attempt-next :
    (peer : Peer) (r : ℕ) (q : FollowRequest) (attempt : Attempt)
    (next next' : FollowRequest → Rest)
    → ((q' : FollowRequest)
        → q'.max_redirects ≡ q.max_redirects
        → r + 1 ≤ q.max_redirects
        → next q' ≡ next' q')
    → after_attempt peer r q attempt next ≡ after_attempt peer r q attempt next'
after_attempt-next peer r q (gives_up e) next next' same = refl
after_attempt-next peer r q (answered k status none keep) next next' same = refl
after_attempt-next peer r q (answered k status (some url) keep) next next' same =
    elim (Bool-cases (ltb q.max_redirects (r + 1))) [
      | inl many ↦ rw many refl
      | inr few ↦
          let rest =
            to_location-next peer r status url q next next'
              (λ q' equal. same q' equal (not-over r q.max_redirects few)) in
          rw rest refl
    ]

-- With at least one round more than the redirects that are left, more rounds change neither what the
-- loop of sendFollow does nor its result.
pub follow-fuel :
    (fuel more : ℕ) (peer : Peer) (r : ℕ) (q : FollowRequest)
    → q.max_redirects < fuel + r
    → fuel ≤ more
    → r ≤ q.max_redirects
    → follow more peer r q ≡ follow fuel peer r q
unfolding follow
follow-fuel zero more peer r q enough longer within = absurd (omega (arith, enough, within))
follow-fuel (suc fuel) zero peer r q enough longer within = absurd (omega (arith, longer))
follow-fuel (suc fuel) (suc more) peer r q enough longer within =
    let round = try_round peer r q in
    let same =
      after_attempt-next peer r q round.1 (λ q'. follow more peer (r + 1) q')
        (λ q'. follow fuel peer (r + 1) q')
        (λ q' equal left.
          follow-fuel fuel more peer (r + 1) q' (omega (arith, enough, equal))
            (omega (arith, longer)) (omega (arith, left, equal))) in
    λ i. (round.0 ++ (same i).0, (same i).1)
