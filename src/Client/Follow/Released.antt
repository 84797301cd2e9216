-- ===== src/Client/Follow/Released.antt =====
-- Every connection that is taken is given back.
use cor_rest.Base.{
  ltb, ◌==◌, if◌then◌else◌, Bool-cases, Bytes, ℕ, zero, suc, ◌+◌, ◌*◌, ◌≡◌, refl, inl, inr, Bool,
  true, false, ◌&&◌, Option, none, some, List, [], ◌∷◌, ◌++◌, arith,
}
use cor_rest.Client.Address.{client_url_parse}
use cor_rest.Client.Follow.{
  is_stale, after_again, retry, after_once, try_round, is_redirect, gives_back, redirected, Rest,
  to_location, after_attempt, follow, send_follow, Sent, response, fails, Peer, FollowRequest, Act,
  from_pool, opens, pools, destroys, Attempt, gives_up, answered,
}

-- How often a connection is taken, and given back
abbrev pub taken_by : ℕ → Act → ℕ
taken_by c (from_pool k) = if k == c then 1 else 0
taken_by c (opens k) = if k == c then 1 else 0
taken_by c _ = 0

abbrev pub given_by : ℕ → Act → ℕ
given_by c (pools k) = if k == c then 1 else 0
given_by c (destroys k) = if k == c then 1 else 0
given_by c _ = 0

unfoldable pub total : (Act → ℕ) → List Act → ℕ
total f [] = 0
total f (a ∷ acts) = f a + total f acts

pub total-append : (f : Act → ℕ) (a b : List Act) → total f (a ++ b) ≡ total f a + total f b
unfolding total
total-append f [] b = omega arith
total-append f (x ∷ a) b = omega (arith, total-append f a b)

-- The connection that an attempt leaves taken
abbrev held : ℕ → Attempt → ℕ
held c (gives_up e) = 0
held c (answered k status location keep) = if k == c then 1 else 0

Balanced : ℕ → List Act × Attempt → Type 0
Balanced c r = total (taken_by c) r.0 ≡ total (given_by c) r.0 + held c r.1

after_again-Balanced : (c k : ℕ) (s : Sent) → Balanced c (after_again k s)
unfolding Balanced total
after_again-Balanced c k (response status location keep) = omega arith
after_again-Balanced c k (fails e) = omega arith

retry-Balanced : (peer : Peer) (r c : ℕ) (q : FollowRequest) → Balanced c (retry peer r q)
unfolding Balanced total
retry-Balanced peer r c q =
    let again =
      after_again-Balanced c (2 * r + 1) (peer.send_again r q.address q.method q.has_body) in
    elim (Bool-cases (peer.connects_again r)) [
      | inl up ↦ rw up again
      | inr down ↦ rw down (omega arith)
    ]

-- With the round's first connection taken before
after_once-Balanced :
    (peer : Peer) (r c : ℕ) (q : FollowRequest) (pooled : Bool) (s : Sent)
    → let x = after_once peer r q pooled s in
      (if 2 * r == c then 1 else 0) + total (taken_by c) x.0 ≡ total (given_by c) x.0 + held c x.1
unfolding total Balanced
after_once-Balanced peer r c q pooled (response status location keep) = omega arith
after_once-Balanced peer r c q pooled (fails e) =
    let again = retry-Balanced peer r c q in
    elim (Bool-cases (pooled && is_stale e)) [
      | inl stale ↦ rw stale (omega (arith, again))
      | inr other ↦ rw other (omega arith)
    ]

try_round-Balanced : (peer : Peer) (r c : ℕ) (q : FollowRequest) → Balanced c (try_round peer r q)
unfolding try_round Balanced total
try_round-Balanced peer r c q =
    let once = peer.send_once r q.address q.method q.has_body in
    let pooled = after_once-Balanced peer r c q true once in
    let fresh = after_once-Balanced peer r c q false once in
    elim (Bool-cases (peer.in_pool r)) [
      | inl found ↦ rw found (omega (arith, pooled))
      | inr missing ↦ elim (Bool-cases (peer.connects r)) [
        | inl up ↦ rw (missing, up) (omega (arith, fresh))
        | inr down ↦ rw (missing, down) (omega arith)
      ]
    ]

-- What follows on an attempt gives its connection back.
Even : ℕ → ℕ → Rest → Type 0
Even c n r = n + total (taken_by c) r.0 ≡ total (given_by c) r.0

gives_back-given :
    (c k : ℕ) (keep : Bool) → given_by c (gives_back k keep) ≡ (if k == c then 1 else 0)
gives_back-given c k true = refl
gives_back-given c k false = refl

gives_back-taken : (c k : ℕ) (keep : Bool) → taken_by c (gives_back k keep) ≡ 0
gives_back-taken c k true = refl
gives_back-taken c k false = refl

to_location-Even :
    (peer : Peer) (r c status : ℕ) (url : Bytes) (q : FollowRequest) (next : FollowRequest → Rest)
    → ((q' : FollowRequest) → Even c 0 (next q'))
    → Even c 0 (to_location peer r status url q next)
unfolding Even total
to_location-Even peer r c status url q next even =
    let parsed = client_url_parse (some url) q.address in
    let rest = even (redirected status parsed.0 q) in
    elim (Bool-cases (peer.copies_url r)) [
      | inl copied ↦ elim (Bool-cases parsed.1) [
        | inl good ↦ rw (copied, good) rest
        | inr bad ↦ rw (copied, bad) (omega arith)
      ]
      | inr failed ↦ rw failed (omega arith)
    ]

after_attempt-Even :
    (peer : Peer) (r c : ℕ) (q : FollowRequest) (attempt : Attempt) (next : FollowRequest → Rest)
    → ((q' : FollowRequest) → Even c 0 (next q'))
    → Even c (held c attempt) (after_attempt peer r q attempt next)
unfolding Even total
after_attempt-Even peer r c q (gives_up e) next even = omega arith
after_attempt-Even peer r c q (answered k status none keep) next even =
    let given = gives_back-given c k keep in
    let taken = gives_back-taken c k keep in
    elim (Bool-cases (is_redirect status)) [
      | inl moved ↦ elim (Bool-cases (ltb q.max_redirects (r + 1))) [
        | inl many ↦ rw (moved, many) (omega arith)
        | inr few ↦ rw (moved, few) (omega arith)
      ]
      | inr stays ↦ rw stays (omega (arith, given, taken))
    ]
after_attempt-Even peer r c q (answered k status (some url) keep) next even =
    let given = gives_back-given c k keep in
    let taken = gives_back-taken c k keep in
    let rest = to_location-Even peer r c status url q next even in
    elim (Bool-cases (is_redirect status)) [
      | inl moved ↦ elim (Bool-cases (ltb q.max_redirects (r + 1))) [
        | inl many ↦ rw (moved, many) (omega arith)
        | inr few ↦ rw (moved, few) (omega (arith, given, taken, rest))
      ]
      | inr stays ↦ rw stays (omega (arith, given, taken))
    ]

pub follow-Even :
    (fuel : ℕ) (peer : Peer) (r : ℕ) (q : FollowRequest) (c : ℕ)
    → total (taken_by c) (follow fuel peer r q).0 ≡ total (given_by c) (follow fuel peer r q).0
unfolding follow total Even Balanced
follow-Even zero peer r q c = refl
follow-Even (suc fuel) peer r q c =
    let round = try_round peer r q in
    let tried = try_round-Balanced peer r c q in
    let rest =
      after_attempt-Even peer r c q round.1 (λ q'. follow fuel peer (r + 1) q')
        (λ q'. omega (arith, follow-Even fuel peer (r + 1) q' c)) in
    let more = (after_attempt peer r q round.1 (λ q'. follow fuel peer (r + 1) q')).0 in
    omega (
      arith,
      tried,
      rest,
      total-append (taken_by c) round.0 more,
      total-append (given_by c) round.0 more,
    )

-- However the pool, the network and the peer behave, sendFollow gives each connection back, to the
-- pool or by destroying it, as often as it took it from the pool or opened it.
pub send_follow-released :
    (peer : Peer) (url : Option Bytes) (q : FollowRequest) (c : ℕ)
    → total (taken_by c) (send_follow peer url q).0 ≡ total (given_by c) (send_follow peer url q).0
unfolding send_follow total
send_follow-released peer url q c =
    let parsed = client_url_parse url q.address in
    let even = follow-Even (q.max_redirects + 1) peer 0 (record q { address = parsed.0 }) c in
    elim (Bool-cases parsed.1) [ inl good ↦ rw good even | inr bad ↦ rw bad refl ]
