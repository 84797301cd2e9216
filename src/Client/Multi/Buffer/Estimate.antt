-- ===== src/Client/Multi/Buffer/Estimate.antt =====
-- The estimate of buildSendBuf is enough.
use cor_rest.Base.{
  ltb, leb, ◌==◌, if◌then◌else◌, le→leb, Bool-cases, Bytes, length, length-append, codes,
  index_char, ℕ, zero, suc, ◌+◌, ◌-◌, ◌/◌, ◌%◌, ◌^◌, ◌≤◌, ◌<◌, ◌≡◌, refl, ap, ◌∙◌, inl, inr, true,
  false, ◌||◌, Option, none, some, List, [], ◌∷◌, ◌++◌, map, arith,
}
use cor_rest.Verb.{verb_to_string, Verb, get, put, post, delete, patch, head, options, verbs}
use cor_rest.Client.Address.{Address}
use cor_rest.Client.Proxy.{Proxy, Proxies}
use cor_rest.Client.Text.{
  crlf, print_int, decimal, route_of, bracket_at, bracketed, request_line, auth_line, host_line,
  agent_line, header_line, length_line, build_request_buf, TextRequest,
}
use cor_rest.Client.Text.Fits.{auth_lines, request_lines, join, build_request_buf-request_lines}
use cor_rest.Client.Multi.Buffer.{
  headers_estimate, estimate, add_body, int_size, in_size, build_send_buf,
}

length-print_int-le : (fuel n : ℕ) → length (print_int fuel n) ≤ fuel
unfolding print_int
length-print_int-le zero n = omega arith
length-print_int-le (suc fuel) n =
    let front = print_int fuel (n / 10) in
    let long = length-append front ((b'0' + n % 10) ∷ []) in
    let few = length-print_int-le fuel (n / 10) in
    elim (Bool-cases (ltb n 10)) [
      | inl one ↦ rw one (omega arith)
      | inr more ↦ rw more (omega (arith, long, few))
    ]

length-verb-le : (v : Verb) → length (verb_to_string v) ≤ 7
unfolding verb_to_string
length-verb-le get = omega arith
length-verb-le put = omega arith
length-verb-le post = omega arith
length-verb-le delete = omega arith
length-verb-le patch = omega arith
length-verb-le head = omega arith
length-verb-le options = omega arith
length-verb-le verbs = omega arith

length-bracket_at-le :
    (at : Option ℕ) (host : Bytes) → length (bracket_at at host) ≤ length host + 2
length-bracket_at-le none host = omega arith
length-bracket_at-le (some i) host = omega (arith, length-append host (codes "]"))

length-request_line-le :
    (route : Option Proxy) (v : Verb) (a : Address)
    → length (request_line route v a) ≤ length a.path + length a.host + 39
unfolding request_line
length-request_line-le none v a =
    let behind = codes " " ++ (a.path ++ (codes " HTTP/1.1" ++ crlf)) in
    omega (
      arith,
      length-verb-le v,
      length-append (verb_to_string v) behind,
      length-append a.path (codes " HTTP/1.1" ++ crlf),
    )
length-request_line-le (some route) v a =
    let last = codes " HTTP/1.1" ++ crlf in
    let port = decimal a.port ++ (a.path ++ last) in
    let host = bracketed a.host ++ (codes ":" ++ port) in
    omega (
      arith,
      length-verb-le v,
      length-append (verb_to_string v) (codes " http://" ++ host),
      length-bracket_at-le (index_char b':' a.host) a.host,
      length-append (bracketed a.host) (codes ":" ++ port),
      length-print_int-le 10 a.port,
      length-append (decimal a.port) (a.path ++ last),
      length-append a.path last,
    )

length-host_line-le : (a : Address) → length (host_line a) ≤ length a.host + 19
unfolding host_line
length-host_line-le a =
    let port = decimal a.port ++ crlf in
    let plain = length-append a.host crlf in
    let with_port = length-append a.host (codes ":" ++ port) in
    let digits = length-append (decimal a.port) crlf in
    let few = length-print_int-le 10 a.port in
    elim (Bool-cases (a.port == 80 || a.port == 443)) [
      | inl known ↦ rw known (omega (arith, plain))
      | inr other ↦ rw other (omega (arith, with_port, digits, few))
    ]

length-length_line-le : (n : ℕ) → length (length_line n) ≤ 28
unfolding length_line
length-length_line-le n = omega (arith, length-append (decimal n) crlf, length-print_int-le 10 n)

length-join-append :
    (xs ys : List Bytes) → length (join (xs ++ ys)) ≡ length (join xs) + length (join ys)
unfolding join
length-join-append [] ys = omega arith
length-join-append (x ∷ xs) ys =
    omega (
      arith,
      length-join-append xs ys,
      length-append x (join (xs ++ ys)),
      length-append x (join xs),
    )

length-header_lines :
    (hs : List (Bytes × Bytes)) → length (join (map header_line hs)) ≡ headers_estimate hs
unfolding join
length-header_lines [] = refl
length-header_lines (h ∷ hs) = omega (
  arith,
  length-header_lines hs,
  length-append (header_line h) (join (map header_line hs)),
  length-append h.0 (codes ": " ++ (h.1 ++ crlf)),
  length-append h.1 crlf,
)

length-auth_lines-le :
    (route : Option Proxy) (n : ℕ)
    → ((p : Proxy) → route ≡ some p → length p.auth ≤ n)
    → length (join (auth_lines route)) ≤ n + 23
unfolding join
length-auth_lines-le none n short = omega arith
length-auth_lines-le (some p) n short =
    let few = short p refl in
    let line = length-append p.auth crlf in
    let all = length-append (auth_line p.auth) [] in
    elim (Bool-cases (length p.auth == 0)) [
      | inl empty ↦ rw empty (omega arith)
      | inr given ↦ rw given (omega (arith, few, line, all))
    ]

length-request_lines-le :
    (proxies : Proxies) (agent : Bytes) (q : TextRequest) (body_len : ℕ)
    → ((p : Proxy) → route_of proxies q.to_address ≡ some p → length p.auth ≤ 511)
    → length (join (request_lines proxies agent q body_len)) + 2 + body_len
      ≤ estimate agent q body_len
unfolding request_lines join
length-request_lines-le proxies agent q body_len short =
    let route = route_of proxies q.to_address in
    let last = if ltb 0 body_len then length_line body_len ∷ [] else [] in
    let headers = map header_line q.text_headers in
    let behind = headers ++ last in
    let host = host_line q.to_address ∷ agent_line agent ∷ behind in
    let line = request_line route q.text_verb q.to_address in
    let last_le : length (join last) ≤ 28 = elim (Bool-cases (ltb 0 body_len)) [
      | inl some_body ↦
          rw some_body
            (omega (arith, length-length_line-le body_len, length-append (length_line body_len) []))
      | inr none_there ↦ rw none_there (omega arith)
    ] in
    omega (
      arith,
      length-append line (join (auth_lines route ++ host)),
      length-request_line-le route q.text_verb q.to_address,
      length-join-append (auth_lines route) host,
      length-auth_lines-le route 511 short,
      length-append (host_line q.to_address) (join (agent_line agent ∷ behind)),
      length-host_line-le q.to_address,
      length-append (agent_line agent) (join behind),
      length-append agent crlf,
      length-join-append headers last,
      length-header_lines q.text_headers,
      last_le,
    )

add_body-fits :
    (size : ℕ) (text body : Bytes)
    → length text + length body ≤ size
    → add_body size body (some text) ≡ some (text ++ body)
add_body-fits size text body fits =
    let small : ltb (size - length text) (length body) ≡ false = ground (arith, fits) in
    rw small refl

in_size-fits :
    (proxies : Proxies) (agent : Bytes) (q : TextRequest) (body : Bytes)
    → ((p : Proxy) → route_of proxies q.to_address ≡ some p → length p.auth ≤ 511)
    → in_size proxies agent q body (some (estimate agent q (length body)))
      ≡ some ((join (request_lines proxies agent q (length body)) ++ crlf) ++ body)
unfolding in_size
in_size-fits proxies agent q body short =
    let size = estimate agent q (length body) in
    let text = join (request_lines proxies agent q (length body)) in
    let enough = length-request_lines-le proxies agent q (length body) short in
    let built = build_request_buf-request_lines size proxies agent q (length body) in
    let fits : leb (length text + 2) size ≡ true =
      le→leb (length text + 2) size (omega (arith, enough)) in
    let ended = length-append text crlf in
    let filled : build_request_buf size proxies agent q (length body) ≡ some (text ++ crlf) =
      built ∙ rw fits refl in
    ap (add_body size body) filled
    ∙ add_body-fits size (text ++ crlf) body (omega (arith, enough, ended))

-- With memory at hand, credentials of a proxy that fit into the array they are kept in, and an
-- estimate of less than 2 gigabytes, the buffer of estimated size holds the whole text of a request
-- and its body, whatever its verb, path, host, headers and agent are.
pub build_send_buf-fits :
    (proxies : Proxies) (agent : Bytes) (q : TextRequest) (body : Bytes)
    → ((p : Proxy) → route_of proxies q.to_address ≡ some p → length p.auth ≤ 511)
    → estimate agent q (length body) < 2 ^ 31
    → build_send_buf true proxies agent q body
      ≡ some ((join (request_lines proxies agent q (length body)) ++ crlf) ++ body)
unfolding build_send_buf
build_send_buf-fits proxies agent q body short small =
    let n = estimate agent q (length body) in
    let same : n % 2 ^ 32 ≡ n = omega (arith, small) in
    let whole : int_size n ≡ some n = ground (arith, same, small) in
    ap (in_size proxies agent q body) whole ∙ in_size-fits proxies agent q body short
