-- ===== src/Client/Address/Tests.antt =====
-- Addresses as they are configured.
use cor_rest.Base.{Bytes, codes, strn_eq, ◌≡◌, refl, inl, true, false, some, [], ◌∷◌, arith}
use cor_rest.Client.Address.{
  split_host, split_port, port_value, host_fits, path_of, parse_host, client_url_parse, Address,
}
use cor_rest.Client.Address.RoundTrip.{
  decimal_from, print_address, client_url_parse-print_address, IsPrintable,
}

abbrev blank : Address
blank = record { scheme = []; host = []; port = 0; path = [] }

abbrev broker_url : Bytes
broker_url = codes "http://broker:1026?x"

broker_accepted : (client_url_parse (some broker_url) blank).1 ≡ true
unfolding client_url_parse strn_eq parse_host split_host split_port port_value host_fits path_of
broker_accepted = refl

port_9026x : (client_url_parse (some (codes "http://broker:9026x/")) blank).1 ≡ false
unfolding client_url_parse strn_eq parse_host split_host split_port port_value host_fits path_of
port_9026x = refl

broker-IsPrintable : IsPrintable (codes "broker") (1 ∷ 0 ∷ 2 ∷ 6 ∷ []) (codes "/v2")
broker-IsPrintable = record {
  host_bytes = omega arith;
  host_nonempty = omega arith;
  host_bound = omega arith;
  all_digits = omega arith;
  port_nonzero = omega arith;
  port_bound = omega arith;
  rooted = inl refl;
}

client_url_parse-print_address_example :
    client_url_parse
      (some (print_address true (codes "broker") (1 ∷ 0 ∷ 2 ∷ 6 ∷ []) (codes "/v2")))
      blank
    ≡ (
      record {
        scheme = codes "https";
        host = codes "broker";
        port = decimal_from 0 (1 ∷ 0 ∷ 2 ∷ 6 ∷ []);
        path = codes "/v2";
      },
      true,
    )
client_url_parse-print_address_example =
    client_url_parse-print_address true (codes "broker") (1 ∷ 0 ∷ 2 ∷ 6 ∷ []) (codes "/v2") blank
      broker-IsPrintable
