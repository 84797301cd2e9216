-- ===== src/Client/Text/Fits.antt =====
-- The buffer holds the whole text of the request or nothing.
use mathlib.Core.List.{append_assoc, append-nil}
use cor_rest.Client.Text.{
  crlf, emit, route_of, request_line, auth_line, emit_auth, host_line, agent_line, header_line,
  emit_headers, length_line, emit_length, end_headers, build_request_buf, TextRequest, Written,
}
use cor_rest.Client.Proxy.{Proxy, Proxies}
use cor_rest.Base.{
  ltb, leb, ◌==◌, if◌then◌else◌, Bool-cases, Bytes, length, length-append, ℕ, ◌+◌, ◌-◌, ◌≡◌, refl,
  sym, ap, ◌∙◌, inl, inr, Option, none, some, List, [], ◌∷◌, ◌++◌, map, arith,
}

-- The lines of the text, from the request's to the last header's
abbrev pub auth_lines : Option Proxy → List Bytes
auth_lines none = []
auth_lines (some route) = if length route.auth == 0 then [] else auth_line route.auth ∷ []

unfoldable pub lines_behind : Proxies → Bytes → TextRequest → ℕ → List Bytes
unfolding route_of host_line length_line
lines_behind proxies agent q body_len =
    let last = if ltb 0 body_len then length_line body_len ∷ [] else [] in
    let headers = map header_line q.text_headers in
    auth_lines (route_of proxies q.to_address)
    ++ (host_line q.to_address ∷ agent_line agent ∷ (headers ++ last))

unfoldable pub request_lines : Proxies → Bytes → TextRequest → ℕ → List Bytes
unfolding route_of request_line lines_behind
request_lines proxies agent q body_len =
    request_line (route_of proxies q.to_address) q.text_verb q.to_address
    ∷ lines_behind proxies agent q body_len

unfoldable pub join : List Bytes → Bytes
join [] = []
join (l ∷ ls) = l ++ join ls

emits : List Bytes → Option Written → Option Written
unfolding emit
emits [] w = w
emits (l ∷ ls) w = emits ls (emit l w)

emits-append : (a b : List Bytes) (w : Option Written) → emits (a ++ b) w ≡ emits b (emits a w)
unfolding emits
emits-append [] b w = refl
emits-append (l ∷ a) b w = emits-append a b (emit l w)

emit_headers-emits :
    (hs : List (Bytes × Bytes)) (w : Option Written)
    → emit_headers hs w ≡ emits (map header_line hs) w
unfolding emit_headers emits
emit_headers-emits [] w = refl
emit_headers-emits (h ∷ hs) w = emit_headers-emits hs (emit (header_line h) w)

emit_auth-emits :
    (route : Option Proxy) (w : Option Written) → emit_auth route w ≡ emits (auth_lines route) w
unfolding emits
emit_auth-emits none w = refl
emit_auth-emits (some route) w = elim (Bool-cases (length route.auth == 0)) [
  | inl empty ↦ rw empty refl
  | inr given ↦ rw given refl
]

emit_length-emits :
    (n : ℕ) (w : Option Written)
    → emit_length n w ≡ emits (if ltb 0 n then length_line n ∷ [] else []) w
unfolding emits emit_length
emit_length-emits n w = elim (Bool-cases (ltb 0 n)) [
  | inl some_body ↦ rw some_body refl
  | inr none_there ↦ rw none_there refl
]

-- The buffer after the text t
holding : ℕ → Bytes → Option Written
holding size t =
    if ltb (length t) size then some (record { written = t; space = size - length t }) else none

emit-holding : (size : ℕ) (t line : Bytes) → emit line (holding size t) ≡ holding size (t ++ line)
unfolding emit holding
emit-holding size t line =
    let sum = length-append t line in
    elim (Bool-cases (ltb (length t) size)) [
      | inl room ↦ ground (arith, sum, room)
      | inr full ↦ ground (arith, sum, full)
    ]

emits-holding :
    (size : ℕ) (t : Bytes) (ls : List Bytes)
    → emits ls (holding size t) ≡ holding size (t ++ join ls)
unfolding emits join
emits-holding size t [] = ap (holding size) (sym (append-nil t))
emits-holding size t (l ∷ ls) =
    ap (emits ls) (emit-holding size t l)
    ∙ emits-holding size (t ++ l) ls
    ∙ ap (holding size) (append_assoc t l (join ls))

emit-first :
    (size : ℕ) (line : Bytes)
    → emit line (some (record { written = []; space = size })) ≡ holding size line
unfolding emit holding
emit-first size line = refl

end_headers-holding :
    (size : ℕ) (t : Bytes)
    → end_headers (holding size t) ≡ (if leb (length t + 2) size then some (t ++ crlf) else none)
unfolding end_headers holding
end_headers-holding size t = ground arith

abbrev empty_buffer : ℕ → Option Written
empty_buffer size = some (record { written = []; space = size })

build-emits :
    (size : ℕ) (proxies : Proxies) (agent : Bytes) (q : TextRequest) (body_len : ℕ)
    → build_request_buf size proxies agent q body_len
      ≡ end_headers (emits (request_lines proxies agent q body_len) (empty_buffer size))
unfolding build_request_buf emits request_lines
build-emits size proxies agent q body_len =
    let route = route_of proxies q.to_address in
    let first = emit (request_line route q.text_verb q.to_address) (empty_buffer size) in
    let host = host_line q.to_address in
    let w = emit (agent_line agent) (emit host (emit_auth route first)) in
    let last = if ltb 0 body_len then length_line body_len ∷ [] else [] in
    let behind = map header_line q.text_headers ++ last in
    let length_in = emit_length-emits body_len (emit_headers q.text_headers w) in
    let headers_in = ap (emits last) (emit_headers-emits q.text_headers w) in
    let both = sym (emits-append (map header_line q.text_headers) last w) in
    let auth_in =
      ap (λ v. emits behind (emit (agent_line agent) (emit host v)))
        (emit_auth-emits route first) in
    let all = sym (emits-append (auth_lines route) (host ∷ agent_line agent ∷ behind) first) in
    ap end_headers (length_in ∙ headers_in ∙ both ∙ auth_in ∙ all)

-- A request's text is built in a buffer exactly if it fits into it, and then it is the request line,
-- the credentials for a proxy that has some, the host, the agent, the headers in their order, the
-- length of a body if there is one, and an empty line.
pub build_request_buf-request_lines :
    (size : ℕ) (proxies : Proxies) (agent : Bytes) (q : TextRequest) (body_len : ℕ)
    → build_request_buf size proxies agent q body_len ≡ (
        let t = join (request_lines proxies agent q body_len) in
        if leb (length t + 2) size then some (t ++ crlf) else none)
unfolding join emits holding end_headers request_line request_lines
build_request_buf-request_lines size proxies agent q body_len =
    let line = request_line (route_of proxies q.to_address) q.text_verb q.to_address in
    let lines = request_lines proxies agent q body_len in
    let after = ap (emits (lines_behind proxies agent q body_len)) (emit-first size line) in
    let filled = emits-holding size line (lines_behind proxies agent q body_len) in
    build-emits size proxies agent q body_len
    ∙ ap end_headers (after ∙ filled)
    ∙ end_headers-holding size (join lines)
