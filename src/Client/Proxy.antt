-- ===== src/Client/Proxy.antt =====
-- corRestClientProxy.c: the proxy for a request, and the hosts that need none.
pub mod NoProxy
pub mod Entry
pub mod List
mod Tests
use cor_rest.Base.{
  ltb, leb, ◌==◌, if◌then◌else◌, Bytes, length, take, drop, get_elem?, codes, str_eq, strn_eq,
  strn_case_eq, has_char, index_char, index_text, ℕ, zero, suc, ◌+◌, ◌-◌, ◌*◌, Bool, true, false,
  not, ◌&&◌, ◌||◌, Option, none, some, [], ◌∷◌, ◌++◌,
}
use cor_rest.Client.Base64.{base64}

-- Proxy; `set` is false for the blank one.
pub record Proxy : Type 0 where
  pub is_set : Bool
  pub proxy_host : Bytes
  pub proxy_port : ℕ
  pub auth : Bytes

abbrev pub blank_proxy : Proxy
blank_proxy = record { is_set = false; proxy_host = []; proxy_port = 0; auth = [] }

-- Why a URL is not a proxy's; the message is the caller's.
pub data ProxyError : Type 0 where
  only_http user_too_long no_bracket bad_port no_host : ProxyError

pub data Parsed : Type 0 where
  proxy : Proxy → Parsed
  refused : ProxyError → Parsed

-- strcspn(s, reject): the text up to the first of two bytes
unfoldable pub before : ℕ → ℕ → Bytes → Bytes
before a b [] = []
before a b (c ∷ s) = let rest = before a b s in if c == a || c == b then [] else c ∷ rest

-- The decimal number at the front, and what is behind it; more than a long is still too large a port.
unfoldable pub decimal_from : ℕ → Bytes → ℕ × Bytes
decimal_from n [] = (n, [])
decimal_from n (c ∷ s) =
    let rest = decimal_from (n * 10 + (c - b'0')) s in
    if leb b'0' c && leb c b'9' then rest else (n, c ∷ s)

abbrev is_space : ℕ → Bool
is_space c = c == 32 || leb 9 c && leb c 13

unfoldable pub skip_spaces : Bytes → Bytes
skip_spaces [] = []
skip_spaces (c ∷ s) = let rest = skip_spaces s in if is_space c then rest else c ∷ s

abbrev is_digit : ℕ → Bool
is_digit c = leb b'0' c && leb c b'9'

-- strtol(s, &after, 10), a negative number as 0, which is no port either: the number and the rest,
-- which is all of s without a digit.
unfoldable pub strtol10 : Bytes → ℕ × Bytes
unfolding decimal_from skip_spaces
strtol10 s = elim (skip_spaces s) [
  | [] ↦ (0, s)
  | c ∷ t ↦
      if is_digit c
      then decimal_from 0 (c ∷ t)
      else if c == b'+' || c == b'-'
      then elim t [
        | [] ↦ (0, s)
        | d ∷ u ↦
            let (n, rest) = decimal_from 0 (d ∷ u) in
            if is_digit d then (if c == b'-' then 0 else n, rest) else (0, s)
      ]
      else (0, s)
]

-- The port behind a colon, or the default; `rest` is what must stand behind it.
unfoldable pub proxy_port_of : Option Bytes → Bytes → Option ℕ
unfolding strtol10
proxy_port_of none rest = some 1080
proxy_port_of (some digits) rest =
    let (n, after) = strtol10 digits in
    if not (length after == length rest) || n == 0 || ltb 65535 n then none else some n

-- The last tests of proxyParse, the host and the port known
unfoldable pub proxy_of : Bytes → Option ℕ → Bytes → Parsed
proxy_of host none auth = refused bad_port
proxy_of host (some port) auth =
    if length host == 0
    then refused no_host
    else proxy
        (record { is_set = true; proxy_host = take 255 host; proxy_port = port; auth = auth })

-- host[:port], behind the user
unfoldable pub host_part : Bytes → Bytes → Parsed
unfolding before proxy_port_of proxy_of index_char
host_part auth [] = proxy_of [] (some 1080) auth
host_part auth (c ∷ s) =
    let name = before b'/' b'/' (c ∷ s) in
    let rest = drop (length name) (c ∷ s) in
    if c == b'['
    then elim (index_char b']' (c ∷ s)) [
      | none ↦ refused no_bracket
      | some close ↦
          if ltb (length name) close
          then refused no_bracket
          else (let behind = drop (close + 1) (c ∷ s) in
              let digits = if strn_eq 1 behind (codes ":") then some (drop 1 behind) else none in
              proxy_of (take (close - 1) s) (proxy_port_of digits rest) auth)
    ]
    else elim (index_char b':' name) [
      | none ↦ proxy_of name (proxy_port_of none rest) auth
      | some i ↦ proxy_of (take i name) (proxy_port_of (some (drop (i + 1) (c ∷ s))) rest) auth
    ]

-- user:password@, behind the scheme
unfoldable pub credentials_part : Bytes → Parsed
unfolding host_part base64 index_char
credentials_part s = elim (index_char b'@' s) [
  | none ↦ host_part [] s
  | some at ↦
      if ltb (length (before b'/' b'/' s)) at
      then host_part [] s
      else if leb 360 at
      then refused user_too_long
      else host_part (take 511 (codes "Basic " ++ base64 (take at s))) (drop (at + 1) s)
]

-- proxyParse; `none` is NULL.
unfoldable pub proxy_parse : Option Bytes → Parsed
unfolding credentials_part index_text strn_case_eq
proxy_parse none = proxy blank_proxy
proxy_parse (some []) = proxy blank_proxy
proxy_parse (some (c ∷ url)) =
    if strn_case_eq 7 (c ∷ url) (codes "http://")
    then credentials_part (drop 7 (c ∷ url))
    else elim (index_text (codes "://") (c ∷ url)) [
      | some i ↦ refused only_http
      | none ↦ credentials_part (c ∷ url)
    ]

-- The static variables
pub record Proxies : Type 0 where
  pub http_proxy : Proxy
  pub https_proxy : Proxy
  pub no_proxy : Option Bytes

abbrev pub non_empty : Option Bytes → Option Bytes
non_empty none = none
non_empty (some []) = none
non_empty (some (c ∷ s)) = some (c ∷ s)

-- corRestClientProxySet; an error leaves what was set.
unfoldable pub client_proxy_set :
    Option Bytes → Option Bytes → Option Bytes → Proxies → Option ProxyError × Proxies
unfolding proxy_parse
client_proxy_set http https list p = elim (proxy_parse http) [
  | refused e ↦ (some e, p)
  | proxy h ↦ elim (proxy_parse https) [
    | refused e ↦ (some e, p)
    | proxy s ↦ (none, record { http_proxy = h; https_proxy = s; no_proxy = non_empty list })
  ]
]

-- envOf, over what getenv finds
abbrev pub env_of : Option Bytes → Option Bytes → Option Bytes
env_of lower_case upper_case = elim (non_empty lower_case) [
  | some v ↦ some v
  | none ↦ non_empty upper_case
]

-- corRestClientProxyFromEnv
unfoldable pub client_proxy_from_env :
    (Bytes → Option Bytes) → Proxies → Option ProxyError × Proxies
unfolding client_proxy_set
client_proxy_from_env getenv p =
    client_proxy_set (env_of (getenv (codes "http_proxy")) (getenv (codes "HTTP_PROXY")))
      (env_of (getenv (codes "https_proxy")) (getenv (codes "HTTPS_PROXY")))
      (env_of (getenv (codes "no_proxy")) (getenv (codes "NO_PROXY"))) p

-- An entry of the list, its port off: not of an IPv6 address.
unfoldable pub without_port : Bytes → Bytes
unfolding index_char has_char
without_port e = elim (index_char b':' e) [
  | none ↦ e
  | some i ↦ if has_char b']' e || has_char b':' (drop (i + 1) e) then e else take i e
]

abbrev pub without_dot : Bytes → Bytes
without_dot [] = []
without_dot (c ∷ s) = if c == b'.' then s else c ∷ s

abbrev pub or_nul : Option ℕ → ℕ
or_nul none = 0
or_nul (some c) = c

-- The host is the name, or in the domain of the name.
unfoldable pub is_within : Bytes → Bytes → Bool
unfolding strn_case_eq
is_within name host =
    let n = length name in
    let h = length host in
    n == h && strn_case_eq n name host
    || ltb n h
      && or_nul (get_elem? host (h - n - 1)) == b'.'
      && strn_case_eq n name (drop (h - n) host)

-- The tests on one entry
unfoldable pub entry_matches : Bytes → Bytes → Bool
unfolding without_port is_within str_eq
entry_matches host e =
    let name = without_port e in str_eq name (codes "*") || is_within (without_dot name) host

unfoldable pub skip_separators : Bytes → Bytes
skip_separators [] = []
skip_separators (c ∷ s) =
    let rest = skip_separators s in if c == b',' || c == b' ' then rest else c ∷ s

-- The loop over the list
unfoldable pub no_proxy_loop : ℕ → Bytes → Bytes → Bool
unfolding skip_separators before entry_matches
no_proxy_loop zero host s = false
no_proxy_loop (suc fuel) host [] = false
no_proxy_loop (suc fuel) host (c ∷ s) =
    let t = skip_separators (c ∷ s) in
    let e = before b',' b' ' t in
    let rest = no_proxy_loop fuel host (drop (length e) t) in
    ltb 0 (length e) && entry_matches host e || rest

-- noProxyMatch
unfoldable pub no_proxy_match : Option Bytes → Bytes → Bool
unfolding no_proxy_loop
no_proxy_match none host = false
no_proxy_match (some list) host = no_proxy_loop (suc (length list)) host list

-- corRestClientProxyFor
unfoldable pub client_proxy_for : Proxies → Bool → Bytes → Option Proxy
unfolding no_proxy_match
client_proxy_for p tls host =
    let chosen = if tls then p.https_proxy else p.http_proxy in
    if not chosen.is_set || no_proxy_match p.no_proxy host then none else some chosen
