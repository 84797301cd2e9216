-- ===== src/Client/Proxy/Tests.antt =====
-- Proxies and hosts.
use cor_rest.Base.{
  Bytes, codes, strn_eq, strn_case_eq, index_char, index_text, ◌≡◌, refl, ◌↔◌, true, some, [],
}
use cor_rest.Client.Base64.{alphabet, base64}
use cor_rest.Client.Proxy.{
  before, decimal_from, skip_spaces, strtol10, proxy_port_of, proxy_of, host_part, credentials_part,
  proxy_parse, no_proxy_match, bad_port, proxy, refused,
}
use cor_rest.Client.Proxy.List.{pieces, SomeSpares, no_proxy_match-SomeSpares}

with_user :
    proxy_parse (some (codes "http://me:pw@proxy.local:3128/"))
    ≡ proxy (record {
      is_set = true;
      proxy_host = codes "proxy.local";
      proxy_port = 3128;
      auth = codes "Basic bWU6cHc=";
    })
unfolding proxy_parse credentials_part host_part before index_char index_text strn_case_eq strn_eq
    base64 alphabet proxy_port_of strtol10 decimal_from skip_spaces proxy_of
with_user = refl

in_brackets :
    proxy_parse (some (codes "[::1]:8080"))
    ≡ proxy (record { is_set = true; proxy_host = codes "::1"; proxy_port = 8080; auth = [] })
unfolding proxy_parse credentials_part host_part before index_char index_text strn_case_eq strn_eq
    proxy_port_of strtol10 decimal_from skip_spaces proxy_of
in_brackets = refl

no_port_there : proxy_parse (some (codes "proxy:0")) ≡ refused bad_port
unfolding proxy_parse credentials_part host_part before index_char index_text strn_case_eq strn_eq
    proxy_port_of strtol10 decimal_from skip_spaces proxy_of
no_port_there = refl

abbrev spared : Bytes
spared = codes "localhost,  .Example.org:8080"

no_proxy_match-SomeSpares_example :
    no_proxy_match (some spared) (codes "a.example.ORG") ≡ true
    ↔ SomeSpares (codes "a.example.ORG") (pieces spared)
no_proxy_match-SomeSpares_example = no_proxy_match-SomeSpares spared (codes "a.example.ORG")
