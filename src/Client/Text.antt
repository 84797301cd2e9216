-- ===== src/Client/Text.antt =====
-- buildRequestBuf of corRestClient.c: the text of a request, up to its body, in a buffer of fixed
-- size. A number is written by its decimal digits, of which an int has at most ten.
pub mod Fits
mod Tests
use cor_rest.Client.Address.{Address}
use cor_rest.Client.Proxy.{client_proxy_for, Proxy, Proxies}
use cor_rest.Verb.{verb_to_string, Verb}
use cor_rest.Base.{
  ltb, ◌==◌, if◌then◌else◌, Bytes, length, codes, str_eq, index_char, ℕ, zero, suc, ◌+◌, ◌-◌, ◌/◌,
  ◌%◌, false, ◌||◌, Option, none, some, List, [], ◌∷◌, ◌++◌,
}

abbrev pub crlf : Bytes
crlf = 13 ∷ 10 ∷ []

-- snprintf's %d
unfoldable pub print_int : ℕ → ℕ → Bytes
print_int zero n = []
print_int (suc fuel) n =
    let front = print_int fuel (n / 10) in
    if ltb n 10 then (b'0' + n) ∷ [] else front ++ (b'0' + n % 10) ∷ []

abbrev pub decimal : ℕ → Bytes
decimal n = print_int 10 n

-- What buildRequestBuf reads of the request
pub record TextRequest : Type 0 where
  pub text_verb : Verb
  pub to_address : Address
  pub text_headers : List (Bytes × Bytes)

-- What is in the buffer, and end - p
pub record Written : Type 0 where
  pub written : Bytes
  pub space : ℕ

-- One snprintf with its test, `none` from the first that fails on
unfoldable pub emit : Bytes → Option Written → Option Written
emit line none = none
emit line (some w) =
    if ltb (length line) w.space
    then some (record { written = w.written ++ line; space = w.space - length line })
    else none

-- The proxy of a plain request
unfoldable pub route_of : Proxies → Address → Option Proxy
unfolding client_proxy_for str_eq
route_of proxies a =
    if str_eq a.scheme (codes "http") then client_proxy_for proxies false a.host else none

abbrev pub bracket_at : Option ℕ → Bytes → Bytes
bracket_at none host = host
bracket_at (some i) host = codes "[" ++ (host ++ codes "]")

abbrev pub bracketed : Bytes → Bytes
bracketed host = bracket_at (index_char b':' host) host

unfoldable pub request_line : Option Proxy → Verb → Address → Bytes
unfolding index_char verb_to_string print_int
request_line none verb a =
    verb_to_string verb ++ (codes " " ++ (a.path ++ (codes " HTTP/1.1" ++ crlf)))
request_line (some route) verb a =
    verb_to_string verb
    ++ (codes " http://"
        ++ (bracketed a.host
            ++ (codes ":" ++ (decimal a.port ++ (a.path ++ (codes " HTTP/1.1" ++ crlf))))))

abbrev pub auth_line : Bytes → Bytes
auth_line auth = codes "Proxy-Authorization: " ++ (auth ++ crlf)

abbrev pub emit_auth : Option Proxy → Option Written → Option Written
unfolding emit
emit_auth none w = w
emit_auth (some route) w =
    let given = emit (auth_line route.auth) w in if length route.auth == 0 then w else given

unfoldable pub host_line : Address → Bytes
unfolding print_int
host_line a =
    if a.port == 80 || a.port == 443
    then codes "Host: " ++ (a.host ++ crlf)
    else codes "Host: " ++ (a.host ++ (codes ":" ++ (decimal a.port ++ crlf)))

abbrev pub agent_line : Bytes → Bytes
agent_line agent = codes "User-Agent: " ++ (agent ++ crlf)

abbrev pub header_line : Bytes × Bytes → Bytes
header_line h = h.0 ++ (codes ": " ++ (h.1 ++ crlf))

unfoldable pub emit_headers : List (Bytes × Bytes) → Option Written → Option Written
unfolding emit
emit_headers [] w = w
emit_headers (h ∷ hs) w = emit_headers hs (emit (header_line h) w)

unfoldable pub length_line : ℕ → Bytes
unfolding print_int
length_line n = codes "Content-Length: " ++ (decimal n ++ crlf)

abbrev pub emit_length : ℕ → Option Written → Option Written
unfolding emit length_line
emit_length n w = let given = emit (length_line n) w in if ltb 0 n then given else w

-- The empty line, for which no room for a NUL is needed
unfoldable pub end_headers : Option Written → Option Bytes
end_headers none = none
end_headers (some w) = if ltb w.space 2 then none else some (w.written ++ crlf)

-- buildRequestBuf, `none` for -1
unfoldable pub build_request_buf : ℕ → Proxies → Bytes → TextRequest → ℕ → Option Bytes
unfolding emit route_of request_line host_line emit_headers length_line end_headers
build_request_buf size proxies agent q body_len =
    let route = route_of proxies q.to_address in
    let start = some (record { written = []; space = size }) in
    let lines = emit (request_line route q.text_verb q.to_address) start in
    let lines = emit (host_line q.to_address) (emit_auth route lines) in
    let lines = emit_headers q.text_headers (emit (agent_line agent) lines) in
    end_headers (emit_length body_len lines)
