-- ===== src/Client/Address.antt =====
-- corRestClientUrlParse of corRestClient.c, on the fields of CorRestClientRequest that it sets.
pub mod Sound
pub mod RoundTrip
mod Tests
use cor_rest.Base.{
  ltb, leb, ◌==◌, if◌then◌else◌, Bytes, length, drop, codes, strn_eq, ℕ, zero, suc, ◌+◌, ◌-◌, ◌*◌,
  Bool, true, false, not, ◌&&◌, ◌||◌, Option, none, some, [], ◌∷◌,
}

-- scheme, host, port and path of CorRestClientRequest
pub record Address : Type 0 where
  pub scheme : Bytes
  pub host : Bytes
  pub port : ℕ
  pub path : Bytes

-- Up to the first "/" or "?", and what is there.
unfoldable pub split_host : Bytes → Bytes × Bytes
split_host [] = ([], [])
split_host (c ∷ s) =
    let (front, behind) = split_host s in
    if c == b'/' || c == b'?' then ([], c ∷ s) else (c ∷ front, behind)

-- The bytes before the first colon, and those behind it if there is one.
unfoldable pub split_port : Bytes → Bytes × Option Bytes
split_port [] = ([], none)
split_port (c ∷ s) =
    let (front, behind) = split_port s in if c == b':' then ([], some s) else (c ∷ front, behind)

-- The loop over the digits of the port; `none` is CORR_ERR_URL.
unfoldable pub port_value : ℕ → Bytes → Option ℕ
port_value n [] = some n
port_value n (c ∷ s) =
    let next = n * 10 + (c - b'0') in
    let rest = port_value next s in
    if not (leb b'0' c && leb c b'9') then none else if ltb 65535 next then none else rest

-- The host array has 256 bytes, the NUL included.
unfoldable pub host_fits : Bytes → Bool
host_fits host = ltb 0 (length host) && ltb (length host) 256

unfoldable pub path_of : Bytes → Bytes
path_of [] = codes "/"
path_of (c ∷ s) = c ∷ s

-- From the host on. The answer is whether all is well; what was set before an error stays set.
unfoldable pub parse_host : Bytes → Address → Address × Bool
unfolding split_host split_port port_value host_fits path_of
parse_host url a =
    let (host_port, p) = split_host url in
    let (host, port) = split_port host_port in
    if not (host_fits host) then (a, false) else elim port [
      | none ↦ (record a { host = host; path = path_of p }, true)
      | some digits ↦ elim (port_value 0 digits) [
        | none ↦ (a, false)
        | some zero ↦ (a, false)
        | some (suc n) ↦ (record a { host = host; port = suc n; path = path_of p }, true)
      ]
    ]

-- corRestClientUrlParse; a URL of `none` is NULL.
unfoldable pub client_url_parse : Option Bytes → Address → Address × Bool
unfolding strn_eq parse_host
client_url_parse none a = (a, false)
client_url_parse (some url) a =
    if strn_eq 8 url (codes "https://")
    then parse_host (drop 8 url) (record a { scheme = codes "https"; port = 443 })
    else if strn_eq 7 url (codes "http://")
    then parse_host (drop 7 url) (record a { scheme = codes "http"; port = 80 })
    else (a, false)
