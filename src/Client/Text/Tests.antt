-- ===== src/Client/Text/Tests.antt =====
-- A request through a proxy and one without.
use cor_rest.Client.Text.{
  crlf, print_int, emit, route_of, request_line, emit_auth, host_line, emit_headers, length_line,
  emit_length, end_headers, build_request_buf, TextRequest,
}
use cor_rest.Client.Proxy.{blank_proxy, client_proxy_for, Proxies}
use cor_rest.Verb.{verb_to_string, patch}
use cor_rest.Base.{Bytes, codes, str_eq, ◌≡◌, refl, true, none, some, [], ◌∷◌, ◌++◌}

abbrev no_proxies : Proxies
no_proxies = record { http_proxy = blank_proxy; https_proxy = blank_proxy; no_proxy = none }

abbrev one_proxy : Proxies
one_proxy = record {
  http_proxy = record {
    is_set = true;
    proxy_host = codes "p";
    proxy_port = 3128;
    auth = codes "Basic eDp5";
  };
  https_proxy = blank_proxy;
  no_proxy = none;
}

abbrev patching : TextRequest
patching = record {
  text_verb = patch;
  to_address = record {
    scheme = codes "http";
    host = codes "broker";
    port = 1026;
    path = codes "/v2";
  };
  text_headers = (codes "Accept", codes "*/*") ∷ [];
}

abbrev direct_lines : Bytes
direct_lines =
    codes "PATCH /v2 HTTP/1.1"
    ++ (crlf
        ++ (codes "Host: broker:1026"
            ++ (crlf
                ++ (codes "User-Agent: me"
                    ++ (crlf
                        ++ (codes "Accept: */*"
                            ++ (crlf ++ (codes "Content-Length: 12" ++ (crlf ++ crlf)))))))))

direct : build_request_buf 8192 no_proxies (codes "me") patching 12 ≡ some direct_lines
unfolding build_request_buf emit route_of client_proxy_for str_eq request_line verb_to_string
    host_line print_int emit_headers length_line end_headers emit_length emit_auth
direct = refl

too_small : build_request_buf 87 no_proxies (codes "me") patching 12 ≡ none
unfolding build_request_buf emit route_of client_proxy_for str_eq request_line verb_to_string
    host_line print_int emit_headers length_line end_headers emit_length emit_auth
too_small = refl
