-- ===== src/Client/Address/Sound.antt =====
-- What an address that is accepted looks like.
use cor_rest.Base.{
  ◌==◌, if◌then◌else◌, Bool-cases, Bytes, length, drop, All, codes, strn_eq, ℕ, zero, suc, ◌+◌, ◌-◌,
  ◌*◌, ◌^◌, ◌<◌, ◌≡◌, refl, ◌≢◌, ◌⊎◌, inl, inr, Bool, true, false, not, ◌||◌, Option, none, some,
  [], ◌∷◌, arith,
}
use cor_rest.Client.Address.{
  split_host, split_port, port_value, host_fits, path_of, parse_host, client_url_parse, Address,
}

abbrev pub StartsPath : Bytes → Type 0
StartsPath [] = ⊥
StartsPath (c ∷ s) = (c ≡ b'/') ⊎ (c ≡ b'?')

-- No byte of these ends a host.
abbrev pub IsHostByte : ℕ → Type 0
IsHostByte c = (c ≢ b'/') × (c ≢ b'?') × (c ≢ b':')

-- An address that the request can hold and that a connection can be made to.
pub record IsAddress (a : Address) : Type 0 where
  pub known_scheme : (a.scheme ≡ codes "https") ⊎ (a.scheme ≡ codes "http")
  pub host_bytes : All IsHostByte a.host
  pub host_nonempty : 0 < length a.host
  pub host_bound : length a.host < 256
  pub port_nonzero : 0 < a.port
  pub port_bound : a.port < 2 ^ 16
  pub rooted : StartsPath a.path

abbrev pub NoEnd : ℕ → Type 0
NoEnd c = (c ≢ b'/') × (c ≢ b'?')

abbrev EndsThere : Bytes → Type 0
EndsThere [] = Unit
EndsThere (c ∷ s) = (c ≡ b'/') ⊎ (c ≡ b'?')

split_host-All : (s : Bytes) → All NoEnd (split_host s).0 × EndsThere (split_host s).1
unfolding split_host
split_host-All [] = (tt, tt)
split_host-All (c ∷ s) = elim (Bool-cases (c == b'/' || c == b'?')) [
  | inl e ↦ rw e (tt, ground arith)
  | inr e ↦ rw e ((ground arith, (split_host-All s).0), (split_host-All s).1)
]

split_port-All : (s : Bytes) → All NoEnd s → All IsHostByte (split_port s).0
unfolding split_port
split_port-All [] h = tt
split_port-All (c ∷ s) h = elim (Bool-cases (c == b':')) [
  | inl e ↦ rw e tt
  | inr e ↦ rw e ((h.0.0, h.0.1, ground arith), split_port-All s h.1)
]

port_value-lt : (n m : ℕ) (s : Bytes) → n < 2 ^ 16 → port_value n s ≡ some m → m < 2 ^ 16
unfolding port_value
port_value-lt n m [] h e = ground arith
port_value-lt n m (c ∷ s) h e =
    let rest = λ (k : n * 10 + (c - b'0') < 2 ^ 16).
      λ (e' : port_value (n * 10 + (c - b'0')) s ≡ some m).
        port_value-lt (n * 10 + (c - b'0')) m s k e' in
    ground arith

path_of-StartsPath : (s : Bytes) → EndsThere s → StartsPath (path_of s)
unfolding path_of
path_of-StartsPath [] h = inl refl
path_of-StartsPath (c ∷ s) h = h

if-both :
    {A : Type 0} (P : A → Type 0) (b : Bool) (x y : A)
    → (b ≡ true → P x)
    → (b ≡ false → P y)
    → P (if b then x else y)
if-both P true x y h k = h refl
if-both P false x y h k = k refl

-- Accepted only as an address.
abbrev Accepts : Address × Bool → Type 0
Accepts r = r.1 ≡ true → IsAddress r.0

port-Accepts :
    (o : Option ℕ) (host p : Bytes) (a : Address)
    → ((n : ℕ) → o ≡ some n → n < 2 ^ 16)
    → ((n : ℕ)
        → 0 < n
        → n < 2 ^ 16
        → IsAddress (record a { host = host; port = n; path = path_of p }))
    → Accepts (elim o [
      | none ↦ (a, false)
      | some zero ↦ (a, false)
      | some (suc n) ↦ (record a { host = host; port = suc n; path = path_of p }, true)
    ])
port-Accepts none host p a lt good e = absurd (ground arith)
port-Accepts (some zero) host p a lt good e = absurd (ground arith)
port-Accepts (some (suc n)) host p a lt good e = good (suc n) (omega arith) (lt (suc n) refl)

host_fits_lem :
    (host : Bytes) → not (host_fits host) ≡ false → (0 < length host) × (length host < 256)
unfolding host_fits
host_fits_lem host h = (ground arith, ground arith)

host-Accepts :
    (o : Option Bytes) (host p : Bytes) (a : Address)
    → ((n : ℕ)
        → 0 < n
        → n < 2 ^ 16
        → IsAddress (record a { host = host; port = n; path = path_of p }))
    → 0 < a.port
    → a.port < 2 ^ 16
    → Accepts (elim o [
      | none ↦ (record a { host = host; path = path_of p }, true)
      | some digits ↦ elim (port_value 0 digits) [
        | none ↦ (a, false)
        | some zero ↦ (a, false)
        | some (suc n) ↦ (record a { host = host; port = suc n; path = path_of p }, true)
      ]
    ])
host-Accepts none host p a good pos small e = good a.port pos small
host-Accepts (some digits) host p a good pos small e =
    port-Accepts (port_value 0 digits) host p a (λ n e'. port_value-lt 0 n digits (omega arith) e')
      good e

parse_host-Accepts :
    (url : Bytes) (a : Address)
    → (a.scheme ≡ codes "https") ⊎ (a.scheme ≡ codes "http")
    → 0 < a.port
    → a.port < 2 ^ 16
    → Accepts (parse_host url a)
unfolding parse_host
parse_host-Accepts url a scheme pos small =
    let (no_end, ends) = split_host-All url in
    let host = (split_port (split_host url).0).0 in
    let host_bytes = split_port-All (split_host url).0 no_end in
    let rooted = path_of-StartsPath (split_host url).1 ends in
    if-both Accepts (not (host_fits host)) (a, false) _ (λ _. λ e. absurd (ground arith))
      λ fits.
        let bounds : (0 < length host) × (length host < 256) = host_fits_lem host fits in
        host-Accepts (split_port (split_host url).0).1 host (split_host url).1 a
          (λ n p q. record {
            known_scheme = scheme;
            host_bytes = host_bytes;
            host_nonempty = bounds.0;
            host_bound = bounds.1;
            port_nonzero = p;
            port_bound = q;
            rooted = rooted;
          })
          pos small

-- A URL that is accepted leaves http or https as the scheme, a host of 1 to 255 bytes without "/",
-- "?" and ":", which its array can hold, a port from 1 to 65535, and a path that starts with "/" or
-- "?".
pub client_url_parse-IsAddress :
    (url : Option Bytes) (a : Address)
    → (client_url_parse url a).1 ≡ true
    → IsAddress (client_url_parse url a).0
unfolding client_url_parse
client_url_parse-IsAddress none a = λ e. absurd (ground arith)
client_url_parse-IsAddress (some url) a =
    if-both Accepts (strn_eq 8 url (codes "https://")) _ _
      (λ _.
        parse_host-Accepts (drop 8 url) (record a { scheme = codes "https"; port = 443 }) (inl refl)
          (omega arith) (omega arith))
      λ _.
        if-both Accepts (strn_eq 7 url (codes "http://")) _ _
          (λ _.
            parse_host-Accepts (drop 7 url) (record a { scheme = codes "http"; port = 80 })
              (inr refl) (omega arith) (omega arith))
          (λ _. λ e. absurd (ground arith))
