-- ===== src/Client/Follow/Bounded.antt =====
-- The redirects end, and so do the sends.
use cor_rest.Base.{
  ltb, Bool-cases, Bytes, ℕ, zero, suc, ◌+◌, ◌-◌, ◌*◌, ◌≤◌, ◌≡◌, refl, inl, inr, Bool, true, false,
  ◌&&◌, Option, none, some, arith,
}
use cor_rest.Client.Address.{client_url_parse, Address}
use cor_rest.Client.Follow.{
  is_stale, after_again, retry, after_once, try_round, is_redirect, gives_back, redirected, Rest,
  to_location, after_attempt, follow, send_follow, Sent, response, fails, Peer, FollowRequest, Act,
  sends, Attempt, gives_up, answered,
}
use cor_rest.Client.Follow.Released.{total, total-append}

abbrev pub sent_by : Act → ℕ
sent_by (sends c) = 1
sent_by _ = 0

after_again-sends : (k : ℕ) (s : Sent) → total sent_by (after_again k s).0 ≤ 1
unfolding total
after_again-sends k (response status location keep) = omega arith
after_again-sends k (fails e) = omega arith

retry-sends : (peer : Peer) (r : ℕ) (q : FollowRequest) → total sent_by (retry peer r q).0 ≤ 1
unfolding total
retry-sends peer r q =
    let again = after_again-sends (2 * r + 1) (peer.send_again r q.address q.method q.has_body) in
    elim (Bool-cases (peer.connects_again r)) [
      | inl up ↦ rw up again
      | inr down ↦ rw down (omega arith)
    ]

after_once-sends :
    (peer : Peer) (r : ℕ) (q : FollowRequest) (pooled : Bool) (s : Sent)
    → total sent_by (after_once peer r q pooled s).0 ≤ 2
unfolding total
after_once-sends peer r q pooled (response status location keep) = omega arith
after_once-sends peer r q pooled (fails e) =
    let again = retry-sends peer r q in
    elim (Bool-cases (pooled && is_stale e)) [
      | inl stale ↦ rw stale (omega (arith, again))
      | inr other ↦ rw other (omega arith)
    ]

try_round-sends :
    (peer : Peer) (r : ℕ) (q : FollowRequest) → total sent_by (try_round peer r q).0 ≤ 2
unfolding try_round total
try_round-sends peer r q =
    let once = peer.send_once r q.address q.method q.has_body in
    let pooled = after_once-sends peer r q true once in
    let fresh = after_once-sends peer r q false once in
    elim (Bool-cases (peer.in_pool r)) [
      | inl found ↦ rw found (omega (arith, pooled))
      | inr missing ↦ elim (Bool-cases (peer.connects r)) [
        | inl up ↦ rw (missing, up) (omega (arith, fresh))
        | inr down ↦ rw (missing, down) (omega arith)
      ]
    ]

gives_back-sends : (k : ℕ) (keep : Bool) → sent_by (gives_back k keep) ≡ 0
gives_back-sends k true = refl
gives_back-sends k false = refl

pub redirected-max :
    (status : ℕ) (to : Address) (q : FollowRequest)
    → (redirected status to q).max_redirects ≡ q.max_redirects
redirected-max status to q = ground arith

to_location-sends :
    (peer : Peer) (r status : ℕ) (url : Bytes) (q : FollowRequest) (next : FollowRequest → Rest)
    (n : ℕ)
    → ((q' : FollowRequest) → q'.max_redirects ≡ q.max_redirects → total sent_by (next q').0 ≤ n)
    → total sent_by (to_location peer r status url q next).0 ≤ n
unfolding total
to_location-sends peer r status url q next n few =
    let parsed = client_url_parse (some url) q.address in
    let rest = few (redirected status parsed.0 q) (redirected-max status parsed.0 q) in
    elim (Bool-cases (peer.copies_url r)) [
      | inl copied ↦ elim (Bool-cases parsed.1) [
        | inl good ↦ rw (copied, good) rest
        | inr bad ↦ rw (copied, bad) (omega arith)
      ]
      | inr failed ↦ rw failed (omega arith)
    ]

pub not-over : (r n : ℕ) → ltb n (r + 1) ≡ false → r + 1 ≤ n
not-over r n few = ground arith

-- Past the limit nothing more is sent.
after_attempt-sends :
    (peer : Peer) (r : ℕ) (q : FollowRequest) (attempt : Attempt) (next : FollowRequest → Rest)
    → ((q' : FollowRequest)
        → q'.max_redirects ≡ q.max_redirects
        → r + 1 ≤ q.max_redirects
        → total sent_by (next q').0 ≤ 2 * (q.max_redirects - r))
    → total sent_by (after_attempt peer r q attempt next).0 ≤ 2 * (q.max_redirects - r)
unfolding total
after_attempt-sends peer r q (gives_up e) next few = omega arith
after_attempt-sends peer r q (answered k status none keep) next few =
    let given = gives_back-sends k keep in
    elim (Bool-cases (is_redirect status)) [
      | inl moved ↦ elim (Bool-cases (ltb q.max_redirects (r + 1))) [
        | inl many ↦ rw (moved, many) (omega arith)
        | inr some_left ↦ rw (moved, some_left) (omega arith)
      ]
      | inr stays ↦ rw stays (omega (arith, given))
    ]
after_attempt-sends peer r q (answered k status (some url) keep) next few =
    let given = gives_back-sends k keep in
    elim (Bool-cases (is_redirect status)) [
      | inl moved ↦ elim (Bool-cases (ltb q.max_redirects (r + 1))) [
        | inl many ↦ rw (moved, many) (omega arith)
        | inr some_left ↦
            let below = not-over r q.max_redirects some_left in
            let rest =
              to_location-sends peer r status url q next (2 * (q.max_redirects - r))
                (λ q' same. few q' same below) in
            rw (moved, some_left) (omega (arith, given, rest))
      ]
      | inr stays ↦ rw stays (omega (arith, given))
    ]

follow-sends :
    (fuel : ℕ) (peer : Peer) (r : ℕ) (q : FollowRequest)
    → total sent_by (follow fuel peer r q).0 ≤ 2 * (q.max_redirects - r) + 2
unfolding follow total
follow-sends zero peer r q = omega arith
follow-sends (suc fuel) peer r q =
    let round = try_round peer r q in
    let tried = try_round-sends peer r q in
    let next = λ (q' : FollowRequest). follow fuel peer (r + 1) q' in
    let rest =
      after_attempt-sends peer r q round.1 next
        (λ q' same left. omega (arith, follow-sends fuel peer (r + 1) q', same, left)) in
    let more = (after_attempt peer r q round.1 next).0 in
    omega (arith, tried, rest, total-append sent_by round.0 more)

-- However the pool, the network and the peer behave, sendFollow sends a request at most twice for
-- the first URL and twice for each redirect it may follow.
pub send_follow-sends :
    (peer : Peer) (url : Option Bytes) (q : FollowRequest)
    → total sent_by (send_follow peer url q).0 ≤ 2 * (q.max_redirects + 1)
unfolding send_follow total
send_follow-sends peer url q =
    let parsed = client_url_parse url q.address in
    let few = follow-sends (q.max_redirects + 1) peer 0 (record q { address = parsed.0 }) in
    elim (Bool-cases parsed.1) [
      | inl good ↦ rw good (omega (arith, few))
      | inr bad ↦ rw bad (omega arith)
    ]
