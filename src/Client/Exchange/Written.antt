-- ===== src/Client/Exchange/Written.antt =====
-- What connWriteAll has written, and the text that corRestClientSendOnce gives it.
use mathlib.Core.List.{append_assoc}
use cor_rest.Base.{
  ltb, leb, if◌then◌else◌, Bool-cases, Bytes, length, take, drop, append-take-drop, ℕ, ◌+◌, ◌≡◌,
  refl, sym, ap, ◌∙◌, inl, inr, Bool, true, false, not, ◌&&◌, none, some, List, [], ◌∷◌, ◌++◌,
  arith,
}
use cor_rest.Client.Text.{crlf}
use cor_rest.Client.Text.Fits.{request_lines, join, build_request_buf-request_lines}
use cor_rest.Client.Headers.{ClientRequest}
use cor_rest.Client.Exchange.{
  conn_write_all, text_of, with_text, send_text, WriteCall, takes, takes_nothing, blocked, broken,
  SendEnd, all_sent, not_sent, still_sending, Link,
}

-- What was written, by how the writing ends
abbrev pub Writes : Bytes → Bytes → SendEnd → Type 0
Writes text out all_sent = out ≡ text
Writes text out not_sent = (b : ℕ) × ((rest : Bytes) × (out ++ b ∷ rest ≡ text))
Writes text out still_sending = (b : ℕ) × ((rest : Bytes) × (out ++ b ∷ rest ≡ text))

append-drop :
    (n : ℕ) (b : ℕ) (s out t : Bytes) → out ++ t ≡ drop n s → b ∷ ((take n s ++ out) ++ t) ≡ b ∷ s
append-drop n b s out t h =
    ap (λ x. b ∷ x)
      (append_assoc (take n s) out t ∙ ap (λ x. take n s ++ x) h ∙ append-take-drop n s)

Writes-take :
    (n : ℕ) (b : ℕ) (s out : Bytes) (end : SendEnd)
    → Writes (drop n s) out end
    → Writes (b ∷ s) (b ∷ (take n s ++ out)) end
Writes-take n b s out all_sent h =
    ap (λ t. b ∷ t) (ap (λ t. take n s ++ t) h ∙ append-take-drop n s)
Writes-take n b s out not_sent (c, (rest, h)) = (c, (rest, append-drop n b s out (c ∷ rest) h))
Writes-take n b s out still_sending (c, (rest, h)) = (c, (rest, append-drop n b s out (c ∷ rest) h))

pub conn_write_all-Writes :
    (ws : List WriteCall) (text : Bytes)
    → (let (out, end) = conn_write_all ws text in Writes text out end)
unfolding conn_write_all
conn_write_all-Writes ws [] = refl
conn_write_all-Writes [] (b ∷ s) = (b, (s, refl))
conn_write_all-Writes (takes n ∷ ws) (b ∷ s) =
    let (out, end) = conn_write_all ws (drop n s) in
    Writes-take n b s out end (conn_write_all-Writes ws (drop n s))
conn_write_all-Writes (blocked ∷ ws) (b ∷ s) = conn_write_all-Writes ws (b ∷ s)
conn_write_all-Writes (takes_nothing ∷ ws) (b ∷ s) = (b, (s, refl))
conn_write_all-Writes (broken ∷ ws) (b ∷ s) = (b, (s, refl))

with_text_lem :
    (room : ℕ → Bool) (body t text : Bytes) (fits : Bool)
    → with_text room body (if fits then some t else none) ≡ some text
    → text ≡ t ++ body
with_text_lem room body t text true h =
    elim (Bool-cases (ltb 0 (length body) && not (room (length t + length body)))) [
      | inl e ↦ absurd (ground (arith, e, h))
      | inr e ↦ ground (arith, e, h)
    ]
with_text_lem room body t text false h = absurd (ground (arith, h))

-- The text is the lines of the request, the empty line and the body.
pub send_text_lem :
    (l : Link) (r : ClientRequest) (body text : Bytes)
    → send_text l r body ≡ some text
    → (let lines =
          request_lines l.link_proxies l.link_agent (text_of l.link_address r) (length body) in
        text ≡ (join lines ++ crlf) ++ body)
unfolding send_text
send_text_lem l r body text h =
    let q = text_of l.link_address r in
    let t = join (request_lines l.link_proxies l.link_agent q (length body)) in
    let built = build_request_buf-request_lines 8192 l.link_proxies l.link_agent q (length body) in
    with_text_lem l.has_space body (t ++ crlf) text (leb (length t + 2) 8192)
      (sym (ap (with_text l.has_space body) built) ∙ h)
