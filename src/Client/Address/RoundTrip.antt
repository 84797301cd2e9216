-- ===== src/Client/Address/RoundTrip.antt =====
-- An address that is written out is read back.
use mathlib.Core.List.{append_assoc}
use cor_rest.Base.{
  ltb, leb, ◌==◌, if◌then◌else◌, Bytes, length, All, All-append, codes, strn_eq, ℕ, zero, suc, ◌+◌,
  ◌-◌, ◌*◌, ◌^◌, ◌≤◌, ◌<◌, ◌≡◌, refl, ap, ◌∙◌, subst, ◌≢◌, Bool, true, false, ◌&&◌, ◌||◌, some,
  List, [], ◌∷◌, ◌++◌, arith,
}
use cor_rest.Client.Address.{
  split_host, split_port, port_value, host_fits, path_of, parse_host, client_url_parse, Address,
}
use cor_rest.Client.Address.Sound.{StartsPath, IsHostByte, NoEnd}

abbrev pub decimal_from : ℕ → List ℕ → ℕ
decimal_from n [] = n
decimal_from n (d ∷ ds) = decimal_from (n * 10 + d) ds

abbrev pub print_decimal : List ℕ → Bytes
print_decimal [] = []
print_decimal (d ∷ ds) = (b'0' + d) ∷ print_decimal ds

-- The scheme, the host, the digits of the port and the path.
abbrev pub print_address : Bool → Bytes → List ℕ → Bytes → Bytes
print_address tls host digits path =
    codes (if tls then "https://" else "http://") ++ (host ++ b':' ∷ (print_decimal digits ++ path))

decimal_from-le : (n : ℕ) (ds : List ℕ) → n ≤ decimal_from n ds
decimal_from-le n [] = omega arith
decimal_from-le n (d ∷ ds) = omega (arith, decimal_from-le (n * 10 + d) ds)

port_value-print_decimal :
    (n : ℕ) (ds : List ℕ)
    → All (λ d. d < 10) ds
    → decimal_from n ds < 2 ^ 16
    → port_value n (print_decimal ds) ≡ some (decimal_from n ds)
unfolding port_value
port_value-print_decimal n [] h k = refl
port_value-print_decimal n (d ∷ ds) h k =
    let later = port_value-print_decimal (n * 10 + d) ds h.1 k in
    let least = decimal_from-le (n * 10 + d) ds in
    let same : b'0' + d - b'0' ≡ d = omega arith in
    let digit : (leb b'0' (b'0' + d) && leb (b'0' + d) b'9') ≡ true = ground arith in
    let fits : ltb 65535 (n * 10 + d) ≡ false = ground arith in ground arith

split_host-append :
    (s path : Bytes) → All NoEnd s → StartsPath path → split_host (s ++ path) ≡ (s, path)
unfolding split_host
split_host-append [] [] h k = absurd k
split_host-append [] (c ∷ path) h k = ground arith
split_host-append (c ∷ s) path h k =
    let later = split_host-append s path h.1 k in
    let other : (c == b'/' || c == b'?') ≡ false = ground (arith, h.0) in ground arith

split_port-append : (s r : Bytes) → All (λ c. c ≢ b':') s → split_port (s ++ b':' ∷ r) ≡ (s, some r)
unfolding split_port
split_port-append [] r h = refl
split_port-append (c ∷ s) r h =
    let later = split_port-append s r h.1 in
    let other : (c == b':') ≡ false = ground (arith, h.0) in ground arith

-- What a client can write down: a host of 1 to 255 bytes, digits of a port from 1 to 65535, a path.
pub record IsPrintable (host : Bytes) (digits : List ℕ) (path : Bytes) : Type 0 where
  pub host_bytes : All IsHostByte host
  pub host_nonempty : 0 < length host
  pub host_bound : length host < 256
  pub all_digits : All (λ d. d < 10) digits
  pub port_nonzero : 0 < decimal_from 0 digits
  pub port_bound : decimal_from 0 digits < 2 ^ 16
  pub rooted : StartsPath path

IsHostByte-NoEnd : (s : Bytes) → All IsHostByte s → All NoEnd s
IsHostByte-NoEnd [] h = tt
IsHostByte-NoEnd (c ∷ s) h = ((h.0.0, h.0.1), IsHostByte-NoEnd s h.1)

IsHostByte-no_colon : (s : Bytes) → All IsHostByte s → All (λ c. c ≢ b':') s
IsHostByte-no_colon [] h = tt
IsHostByte-no_colon (c ∷ s) h = (h.0.2, IsHostByte-no_colon s h.1)

print_decimal-NoEnd : (ds : List ℕ) → All (λ d. d < 10) ds → All NoEnd (print_decimal ds)
print_decimal-NoEnd [] h = tt
print_decimal-NoEnd (d ∷ ds) h =
    ((omega (arith, h.0), omega (arith, h.0)), print_decimal-NoEnd ds h.1)

lt→suc : (m : ℕ) → 0 < m → (n : ℕ) × (m ≡ suc n)
lt→suc zero h = absurd (omega arith)
lt→suc (suc n) h = (n, refl)

module _ (host : Bytes) (digits : List ℕ) (path : Bytes) (ok : IsPrintable host digits path) where
  split_host-print :
      split_host (host ++ b':' ∷ (print_decimal digits ++ path))
      ≡ (host ++ b':' ∷ print_decimal digits, path)
  split_host-print =
      subst (λ t. split_host t ≡ (host ++ b':' ∷ print_decimal digits, path))
        (append_assoc host (b':' ∷ print_decimal digits) path)
        (split_host-append (host ++ b':' ∷ print_decimal digits) path
          (All-append NoEnd host (b':' ∷ print_decimal digits) (IsHostByte-NoEnd host ok.host_bytes)
            ((omega arith, omega arith), print_decimal-NoEnd digits ok.all_digits))
          ok.rooted)

  path_of-print : (t : Bytes) → StartsPath t → path_of t ≡ t
  unfolding path_of
  path_of-print [] h = absurd h
  path_of-print (c ∷ t) h = refl

  parse_host-print :
      (a : Address)
      → parse_host (host ++ b':' ∷ (print_decimal digits ++ path)) a
        ≡ (record a { host = host; port = decimal_from 0 digits; path = path }, true)
  unfolding parse_host host_fits
  parse_host-print a =
      let split = split_host-print in
      let split' =
        split_port-append host (print_decimal digits) (IsHostByte-no_colon host ok.host_bytes) in
      let number = port_value-print_decimal 0 digits ok.all_digits ok.port_bound in
      let fits : (ltb 0 (length host) && ltb (length host) 256) ≡ true =
        ground (arith, ok.host_nonempty, ok.host_bound) in
      let rooted = path_of-print path ok.rooted in
      let (n, positive) = lt→suc (decimal_from 0 digits) ok.port_nonzero in
      let port : port_value 0 (print_decimal digits) ≡ some (suc n) = number ∙ ap some positive in
      ground arith

-- A URL of the scheme http or https, a host of 1 to 255 bytes without "/", "?" and ":", the digits
-- of a port from 1 to 65535, zeros in front allowed, and a path that starts with "/" or "?", is
-- accepted and gives these parts, whatever the request held before.
pub client_url_parse-print_address :
    (tls : Bool) (host : Bytes) (digits : List ℕ) (path : Bytes) (a : Address)
    → IsPrintable host digits path
    → client_url_parse (some (print_address tls host digits path)) a ≡ (
      record {
        scheme = codes (if tls then "https" else "http");
        host = host;
        port = decimal_from 0 digits;
        path = path;
      },
      true,
    )
unfolding client_url_parse strn_eq
client_url_parse-print_address true host digits path a ok =
    parse_host-print host digits path ok (record a { scheme = codes "https"; port = 443 })
client_url_parse-print_address false host digits path a ok =
    parse_host-print host digits path ok (record a { scheme = codes "http"; port = 80 })
