-- ===== src/Client/Follow.antt =====
-- sendFollow of corRestClient.c: connections, retries and redirects. What the pool, the network and
-- the peer do in each round is an argument; a round's first connection has the number 2 * round, and
-- that of its retry 2 * round + 1.
pub mod Released
pub mod Bounded
pub mod Fuel
mod Tests
use cor_rest.Base.{
  ltb, ◌==◌, if◌then◌else◌, Bytes, ℕ, zero, suc, ◌+◌, ◌*◌, Bool, true, false, not, ◌&&◌, ◌||◌,
  Option, none, some, List, [], ◌∷◌, ◌++◌,
}
use cor_rest.Verb.{Verb, get}
use cor_rest.Client.Address.{client_url_parse, Address}

-- The CORR_ERR codes
pub data ClientError : Type 0 where
  err_url err_connect err_timeout err_send err_recv err_parse err_alloc err_tls err_redirects :
      ClientError
  err_closed err_too_large : ClientError

-- corRestClientSendOnce: a response's status, its Location, and whether the connection is kept.
pub data Sent : Type 0 where
  response : ℕ → Option Bytes → Bool → Sent
  fails : ClientError → Sent

-- What happens in a round
pub record Peer : Type 0 where
  pub in_pool : ℕ → Bool
  pub connects : ℕ → Bool
  pub connects_again : ℕ → Bool
  pub send_once : ℕ → Address → Verb → Bool → Sent
  pub send_again : ℕ → Address → Verb → Bool → Sent
  pub copies_url : ℕ → Bool

-- The fields of the request that a redirect changes, and its limit
pub record FollowRequest : Type 0 where
  pub method : Verb
  pub has_body : Bool
  pub address : Address
  pub max_redirects : ℕ

-- What is done with connections
pub data Act : Type 0 where
  from_pool opens sends pools destroys : ℕ → Act

-- How the sending of one round ends
pub data Attempt : Type 0 where
  gives_up : ClientError → Attempt
  answered : ℕ → ℕ → Option Bytes → Bool → Attempt

abbrev pub is_stale : ClientError → Bool
is_stale err_send = true
is_stale err_recv = true
is_stale err_closed = true
is_stale _ = false

-- The second try, on a connection of its own
abbrev pub after_again : ℕ → Sent → List Act × Attempt
after_again c (response status location keep) =
    (opens c ∷ sends c ∷ [], answered c status location keep)
after_again c (fails e) = (opens c ∷ sends c ∷ destroys c ∷ [], gives_up e)

abbrev pub retry : Peer → ℕ → FollowRequest → List Act × Attempt
retry peer r q =
    if peer.connects_again r
    then after_again (2 * r + 1) (peer.send_again r q.address q.method q.has_body)
    else ([], gives_up err_connect)

-- What follows on the first try; a pooled connection may have gone stale.
abbrev pub after_once : Peer → ℕ → FollowRequest → Bool → Sent → List Act × Attempt
after_once peer r q pooled (response status location keep) =
    (sends (2 * r) ∷ [], answered (2 * r) status location keep)
after_once peer r q pooled (fails e) =
    let (acts, attempt) = retry peer r q in
    if pooled && is_stale e
    then (sends (2 * r) ∷ destroys (2 * r) ∷ acts, attempt)
    else (sends (2 * r) ∷ destroys (2 * r) ∷ [], gives_up e)

unfoldable pub try_round : Peer → ℕ → FollowRequest → List Act × Attempt
try_round peer r q =
    let once = peer.send_once r q.address q.method q.has_body in
    let (acts, attempt) = after_once peer r q true once in
    let (acts', attempt') = after_once peer r q false once in
    if peer.in_pool r
    then (from_pool (2 * r) ∷ acts, attempt)
    else if peer.connects r
    then (opens (2 * r) ∷ acts', attempt')
    else ([], gives_up err_connect)

abbrev pub is_redirect : ℕ → Bool
is_redirect status = status == 301 || status == 302 || status == 307 || status == 308

abbrev pub gives_back : ℕ → Bool → Act
gives_back c keep = if keep then pools c else destroys c

-- A 301 or 302 makes it a GET without a body.
abbrev pub redirected : ℕ → Address → FollowRequest → FollowRequest
redirected status to q =
    if status == 301 || status == 302
    then record q { method = get; has_body = false; address = to }
    else record q { address = to }

abbrev pub Rest : Type 0
Rest = List Act × Option ClientError

-- A redirect's URL, the connection given back; `next` is the loop from there.
abbrev pub to_location : Peer → ℕ → ℕ → Bytes → FollowRequest → (FollowRequest → Rest) → Rest
to_location peer r status url q next =
    let (to, good) = client_url_parse (some url) q.address in
    let rest = next (redirected status to q) in
    if not (peer.copies_url r)
    then ([], some err_alloc)
    else if good
    then rest
    else ([], some err_url)

-- What follows on a response
abbrev pub after_response :
    Peer → ℕ → ℕ → ℕ → Option Bytes → Bool → FollowRequest → (FollowRequest → Rest) → Rest
after_response peer r c status none keep q next =
    if is_redirect status
    then if ltb q.max_redirects (r + 1)
      then (destroys c ∷ [], some err_redirects)
      else (destroys c ∷ [], some err_parse)
    else (gives_back c keep ∷ [], none)
after_response peer r c status (some url) keep q next =
    let (acts, result) = to_location peer r status url q next in
    if is_redirect status
    then if ltb q.max_redirects (r + 1)
      then (destroys c ∷ [], some err_redirects)
      else (gives_back c keep ∷ acts, result)
    else (gives_back c keep ∷ [], none)

abbrev pub after_attempt : Peer → ℕ → FollowRequest → Attempt → (FollowRequest → Rest) → Rest
after_attempt peer r q (gives_up e) next = ([], some e)
after_attempt peer r q (answered c status location keep) next =
    after_response peer r c status location keep q next

-- The loop of sendFollow, from the r-th redirect on; no error is success.
unfoldable pub follow : ℕ → Peer → ℕ → FollowRequest → Rest
unfolding try_round client_url_parse
follow zero peer r q = ([], none)
follow (suc fuel) peer r q =
    let (acts, attempt) = try_round peer r q in
    let (more, result) = after_attempt peer r q attempt (λ q'. follow fuel peer (r + 1) q') in
    (acts ++ more, result)

-- sendFollow
unfoldable pub send_follow : Peer → Option Bytes → FollowRequest → Rest
unfolding follow client_url_parse
send_follow peer url q =
    let (to, good) = client_url_parse url q.address in
    let rest = follow (q.max_redirects + 1) peer 0 (record q { address = to }) in
    if good then rest else ([], some err_url)
