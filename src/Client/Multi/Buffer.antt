-- ===== src/Client/Multi/Buffer.antt =====
-- buildSendBuf of corRestClientMulti.c: the text of a request and its body in one buffer. Its lines
-- are those of buildRequestBuf.
pub mod Estimate
use cor_rest.Base.{
  ltb, if◌then◌else◌, Bytes, length, ℕ, ◌+◌, ◌-◌, ◌*◌, ◌%◌, ◌^◌, Bool, Option, none, some, List, [],
  ◌∷◌, ◌++◌,
}
use cor_rest.Client.Proxy.{Proxies}
use cor_rest.Client.Text.{build_request_buf, TextRequest}

abbrev pub headers_estimate : List (Bytes × Bytes) → ℕ
headers_estimate [] = 0
headers_estimate (h ∷ hs) = length h.0 + length h.1 + 4 + headers_estimate hs

abbrev pub estimate : Bytes → TextRequest → ℕ → ℕ
estimate agent q body_len =
    1600
    + length q.to_address.path
    + 2 * length q.to_address.host
    + length agent
    + headers_estimate q.text_headers
    + body_len

-- The body behind the text, if there is space for it
abbrev pub add_body : ℕ → Bytes → Option Bytes → Option Bytes
add_body size body none = none
add_body size body (some text) =
    if ltb (size - length text) (length body) then none else some (text ++ body)

-- The estimate in its int of 32 bits; `none` is a negative size, for which malloc finds no space.
abbrev pub int_size : ℕ → Option ℕ
int_size n = let m = n % 2 ^ 32 in if ltb m (2 ^ 31) then some m else none

abbrev pub in_size : Proxies → Bytes → TextRequest → Bytes → Option ℕ → Option Bytes
unfolding build_request_buf
in_size proxies agent q body none = none
in_size proxies agent q body (some size) =
    add_body size body (build_request_buf size proxies agent q (length body))

-- buildSendBuf; the flag says whether malloc finds space, `none` is -1.
unfoldable pub build_send_buf : Bool → Proxies → Bytes → TextRequest → Bytes → Option Bytes
unfolding in_size
build_send_buf has_space proxies agent q body =
    let filled = in_size proxies agent q body (int_size (estimate agent q (length body))) in
    if has_space then filled else none
