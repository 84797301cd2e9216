-- ===== src/Client/Multi/Perform/Tests.antt =====
-- Two requests: one over a stale connection of the pool, one whose URL is malformed.
use cor_rest.Base.{
  length, All, codes, str_eq, ◌≤◌, ◌≡◌, refl, Bool, true, false, none, some, List, [], ◌∷◌, ◌++◌,
  arith,
}
use cor_rest.Verb.{get, post}
use cor_rest.Client.Proxy.{blank_proxy, Proxy, Proxies}
use cor_rest.Client.Text.{crlf, route_of, TextRequest}
use cor_rest.Client.Text.Fits.{request_lines, join}
use cor_rest.Client.Follow.Released.{taken_by, given_by, total}
use cor_rest.Client.Multi.{
  Multi, no_conn, alive, unreachable, at_once, Write, wrote, write_blocks, write_fails, Read, got,
  Ready,
}
use cor_rest.Client.Multi.Buffer.{build_send_buf}
use cor_rest.Client.Multi.Buffer.Estimate.{build_send_buf-fits}
use cor_rest.Client.Multi.Perform.{new_entry, multi_perform, Around, Round, time_over, turns}
use cor_rest.Client.Multi.Perform.Ended.{HasEnded, multi_perform-HasEnded}
use cor_rest.Client.Multi.Perform.Released.{multi_perform-released}

abbrev no_proxies : Proxies
no_proxies = record { http_proxy = blank_proxy; https_proxy = blank_proxy; no_proxy = none }

abbrev around : Around
around = record {
  grow = λ n. true;
  room = λ n. true;
  buf_space = λ i. true;
  proxies = no_proxies;
  agent = codes "me";
  starts = λ i. record { pooled = alive; connect = unreachable };
}

abbrev two : Multi
two = record {
  entries =
      new_entry 0 get (some (codes "http://a/x")) [] []
      ∷ new_entry 1 post (some (codes "a")) [] (codes "{}")
      ∷ [];
  done_count = 0;
  max_response_bytes = 100;
}

-- The write fails, the second try connects at once and writes, and the response comes in one read.
abbrev ready : Write → List (Bool × Read) → Ready
ready w rs = record {
  finishes = true;
  next_address = false;
  write = w;
  reads = rs;
  second = record { pooled = no_conn; connect = at_once };
}

abbrev rounds : List Round
rounds =
    turns ((0, ready write_fails []) ∷ [])
    ∷ turns ((0, ready (wrote 999) []) ∷ [])
    ∷ turns
        ((0, ready write_blocks ((true, got (codes "HTTP/1.1 204 No\r\n\r\n") false) ∷ [])) ∷ [])
    ∷ []

multi_perform-HasEnded_example :
    let m' = (multi_perform around (rounds ++ time_over ∷ []) two).1 in
    All HasEnded m'.entries
    × (m'.done_count ≡ length m'.entries)
    × (length m'.entries ≡ length two.entries)
multi_perform-HasEnded_example = multi_perform-HasEnded around rounds two (omega arith) refl

multi_perform-released_example :
    let (acts, m') = multi_perform around rounds two in
    total (taken_by 3) acts ≡ total (given_by 3) acts
multi_perform-released_example = multi_perform-released around rounds two 3 (refl, (refl, tt))

abbrev posting : TextRequest
posting = record {
  text_verb = post;
  to_address = record { scheme = codes "https"; host = codes "h"; port = 443; path = codes "/" };
  text_headers = (codes "A", codes "b") ∷ [];
}

direct : route_of no_proxies posting.to_address ≡ none
unfolding route_of str_eq
direct = refl

no_route : (p : Proxy) → route_of no_proxies posting.to_address ≡ some p → length p.auth ≤ 511
no_route p e = absurd (ground (arith, direct, e))

build_send_buf-fits_example :
    build_send_buf true no_proxies (codes "me") posting (codes "{}")
    ≡ some ((join (request_lines no_proxies (codes "me") posting 2) ++ crlf) ++ codes "{}")
build_send_buf-fits_example =
    build_send_buf-fits no_proxies (codes "me") posting (codes "{}") no_route (omega arith)
