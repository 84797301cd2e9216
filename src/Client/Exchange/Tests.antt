-- ===== src/Client/Exchange/Tests.antt =====
-- A request that is written in pieces, and its response that is read in pieces.
use cor_rest.Base.{
  Bytes, All, codes, str_eq, strn_case_eq, ℕ, zero, suc, ◌≡◌, refl, true, false, none, some, List,
  [], ◌∷◌, ◌++◌, arith,
}
use cor_rest.Verb.{verb_to_string, post}
use cor_rest.Response.{drop_cr, until_lf}
use cor_rest.Response.Complete.{scan_named, scan_header_value, response_complete, whole}
use cor_rest.Client.Text.{
  crlf, print_int, emit, route_of, request_line, host_line, emit_headers, length_line, end_headers,
  build_request_buf,
}
use cor_rest.Client.Text.Fits.{request_lines, join}
use cor_rest.Client.Headers.{inline_vector, ClientRequest}
use cor_rest.Client.Follow.{err_closed}
use cor_rest.Client.Exchange.{
  render_body, text_of, send_text, send_once, WriteCall, takes, Look, look_reads, peer_closes, Link,
  exchange_fails,
}
use cor_rest.Client.Exchange.Outcome.{IsOutcome, send_once-IsOutcome}
use cor_rest.Client.Exchange.Reads.{starts_reading, Heard}
use cor_rest.Client.Exchange.Answers.{takes_some, send_once-Heard}
use cor_rest.Client.Proxy.{blank_proxy, client_proxy_for, Proxies}

abbrev direct : Proxies
direct = record { http_proxy = blank_proxy; https_proxy = blank_proxy; no_proxy = none }

abbrev answer : Bytes
answer =
    codes "HTTP/1.1 200 OK"
    ++ (crlf ++ (codes "Content-Length: 2" ++ (crlf ++ (crlf ++ codes "hi"))))

abbrev writes : ℕ → List WriteCall
writes zero = []
writes (suc n) = takes 6 ∷ writes n

abbrev looks : ℕ → List (List Look)
looks zero = []
looks (suc n) = (look_reads 29 ∷ []) ∷ looks n

abbrev link : Link
link = record {
  link_address = record { scheme = codes "http"; host = codes "h"; port = 80; path = codes "/" };
  body_json = none;
  has_space = λ n. true;
  response_grows = λ n. true;
  response_room = λ n. true;
  link_proxies = direct;
  link_agent = codes "c";
  write_calls = writes 80;
  buffer_size = 8192;
  look_calls = looks 40;
  link_arrives = answer;
}

abbrev asking : ClientRequest
asking = record {
  request_verb = post;
  request_url = none;
  has_alloc = false;
  vector = inline_vector;
  header_v = [];
  header_size = 10;
  next_block = 0;
  request_body = some (codes "b");
  body_len = 1;
  connect_timeout = 5000;
  request_timeout = 5000;
  redirects_allowed = 5;
}

abbrev asked : Bytes
asked =
    codes "POST / HTTP/1.1"
    ++ (crlf
        ++ (codes "Host: h"
            ++ (crlf
                ++ (codes "User-Agent: c"
                    ++ (crlf ++ (codes "Content-Length: 1" ++ (crlf ++ (crlf ++ codes "b"))))))))

asked_text : send_text link asking (codes "b") ≡ some asked
unfolding send_text build_request_buf emit route_of client_proxy_for str_eq request_line host_line
    emit_headers length_line end_headers verb_to_string print_int
asked_text = refl

rendered : render_body link.has_space link.body_json asking ≡ some (asking, codes "b")
unfolding render_body
rendered = refl

send_once-IsOutcome_example :
    IsOutcome link asked (send_once link asking).0 (send_once link asking).1
    × (asked
        ≡ (join
              (request_lines link.link_proxies link.link_agent (text_of link.link_address asking) 1)
            ++ crlf)
          ++ codes "b")
send_once-IsOutcome_example =
    send_once-IsOutcome link asking asking (codes "b") asked rendered asked_text

answer_whole : response_complete answer ≡ whole
unfolding response_complete until_lf drop_cr scan_header_value scan_named strn_case_eq
answer_whole = refl

All-take : (n : ℕ) → All (λ w. takes_some w ≡ true) (writes n)
All-take zero = tt
All-take (suc n) = (refl, All-take n)

All-read : (n : ℕ) → All (λ ls. starts_reading ls ≡ true) (looks n)
All-read zero = tt
All-read (suc n) = (refl, All-read n)

send_once-Heard_example :
    ((send_once link asking).0 ≡ asked)
    × Heard link link.look_calls [] link.link_arrives (send_once link asking).1
send_once-Heard_example =
    send_once-Heard link asking asking (codes "b") asked rendered asked_text (λ n. refl)
      (omega arith) answer_whole (All-take 80) (omega arith) (All-read 40) (omega arith)

-- A response whose body ends with the connection is given up when that ends.
abbrev till_close : Bytes
till_close =
    codes "HTTP/1.1 200 OK"
    ++ (crlf ++ (codes "Connection: close" ++ (crlf ++ (crlf ++ codes "hi"))))

till_close_fails :
    (send_once
      (record link {
        look_calls = (look_reads 99 ∷ []) ∷ (peer_closes ∷ []) ∷ [];
        link_arrives = till_close;
      })
      asking).1
    ≡ exchange_fails err_closed
unfolding send_once until_lf drop_cr scan_header_value scan_named
till_close_fails = refl
