-- ===== src/Client/Follow/Tests.antt =====
-- A redirect to another host, over a connection from the pool that has gone stale.
use cor_rest.Client.Follow.{
  try_round, follow, send_follow, err_closed, response, fails, Peer, FollowRequest, from_pool,
  opens, sends, pools, destroys,
}
use cor_rest.Client.Follow.Released.{taken_by, given_by, total, send_follow-released}
use cor_rest.Client.Address.{
  split_host, split_port, port_value, host_fits, path_of, parse_host, client_url_parse,
}
use cor_rest.Verb.{post}
use cor_rest.Base.{
  ◌==◌, if◌then◌else◌, Bytes, codes, strn_eq, ◌≡◌, refl, true, false, Option, none, some, [], ◌∷◌,
}

abbrev moves : Peer
moves = record {
  in_pool = λ r. r == 0;
  connects = λ r. true;
  connects_again = λ r. true;
  send_once = λ r a v b. if r == 0 then fails err_closed else response 200 none true;
  send_again = λ r a v b. response 302 (some (codes "http://b/x")) false;
  copies_url = λ r. true;
}

abbrev posting : FollowRequest
posting = record {
  method = post;
  has_body = true;
  address = record { scheme = []; host = []; port = 0; path = [] };
  max_redirects = 2;
}

abbrev first_url : Option Bytes
first_url = some (codes "http://a/")

moves_done : send_follow moves first_url posting ≡ (
  from_pool 0
      ∷ sends 0
      ∷ destroys 0
      ∷ opens 1
      ∷ sends 1
      ∷ destroys 1
      ∷ opens 2
      ∷ sends 2
      ∷ pools 2
      ∷ [],
  none,
)
unfolding send_follow follow try_round client_url_parse strn_eq parse_host split_host split_port
    port_value host_fits path_of
moves_done = refl

send_follow-released_example :
    total (taken_by 1) (send_follow moves first_url posting).0
    ≡ total (given_by 1) (send_follow moves first_url posting).0
send_follow-released_example = send_follow-released moves first_url posting 1
