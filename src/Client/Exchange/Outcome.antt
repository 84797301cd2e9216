-- ===== src/Client/Exchange/Outcome.antt =====
-- What an exchange has sent, and what its outcome says of the bytes that arrived.
use mathlib.Core.List.{append_assoc}
use cor_rest.Base.{
  ltb, if◌then◌else◌, Bytes, length, take, drop, append-take-drop, ℕ, ◌+◌, ◌-◌, ◌≡◌, refl, sym, ap,
  ◌∙◌, subst, ◌≢◌, ◌⊎◌, inl, inr, Bool, some, List, [], ◌∷◌, ◌++◌, arith,
}
use cor_rest.Response.Complete.{
  response_complete, Answer, whole, partial, malformed_body, no_answer,
}
use cor_rest.Response.Message.{parse_response, Parsed}
use cor_rest.Client.Text.{crlf}
use cor_rest.Client.Text.Fits.{request_lines, join}
use cor_rest.Client.Headers.{ClientRequest}
use cor_rest.Client.Exchange.Written.{Writes, conn_write_all-Writes, send_text_lem}
use cor_rest.Client.Exchange.{
  conn_write_all, ensure_buf, look_loop, in_buffer, conn_read_more, after_answer, after_look,
  read_response, render_body, text_of, send_text, parsed_as, from_receipt, after_sending,
  send_and_read, with_body, send_once, SendEnd, all_sent, not_sent, still_sending, Ensured, ensured,
  no_buffer, buffer_overflow, Look, look_reads, look_blocked, wait_ends, wait_breaks, peer_closes,
  read_breaks, LookEnd, read_more, read_fails, read_overflow, read_waits, Receipt, receipt_waits,
  Link, Exchanged, exchange_fails, exchange_undefined, exchange_waits,
}
use cor_rest.Client.Follow.{err_timeout, err_send, err_recv, err_parse, err_closed}

-- What the client makes of the bytes that it has
abbrev pub verdict_of : Answer → Parsed → Exchanged
verdict_of whole p = parsed_as p
verdict_of partial p = exchange_waits
verdict_of malformed_body p = exchange_fails err_parse
verdict_of no_answer p = exchange_undefined

unfoldable pub verdict : Link → Bytes → Exchanged
unfolding response_complete parse_response
verdict l buf =
    verdict_of (response_complete buf) (parse_response l.response_grows l.response_room buf)

-- The ends of a reading that the bytes do not tell: the timeout, the end of the peer, a failure of the
-- system or of realloc, an overflow of the buffer's size, and none yet
pub data IsStop : Exchanged → Type 0 where
  timed_out : IsStop (exchange_fails err_timeout)
  closed : IsStop (exchange_fails err_closed)
  read_failed : IsStop (exchange_fails err_recv)
  overflowed : IsStop exchange_undefined
  not_yet : IsStop exchange_waits

-- The bytes at the front of what arrived that the outcome is made of
pub record Told (l : Link) (e : Exchanged) : Type 0 where
  pub seen : Bytes
  pub unseen : Bytes
  pub is_front : seen ++ unseen ≡ l.link_arrives
  pub is_enough : response_complete seen ≢ partial
  pub is_verdict : e ≡ verdict l seen

abbrev pub Rests : Link → Exchanged → Type 0
Rests l e = Told l e ⊎ IsStop e

unfoldable pub Looked : Bytes → LookEnd → Type 0
Looked all (read_more size buf later) = buf ++ later ≡ all
Looked all (read_fails e) = IsStop (exchange_fails e)
Looked all read_overflow = Unit
Looked all read_waits = Unit

look_loop-Looked :
    (ls : List Look) (size : ℕ) (buf arrives : Bytes)
    → Looked (buf ++ arrives) (look_loop ls size buf arrives)
unfolding look_loop Looked
look_loop-Looked [] size buf arrives = tt
look_loop-Looked (look_reads n ∷ ls) size buf [] = look_loop-Looked ls size buf []
look_loop-Looked (look_reads n ∷ ls) size buf (c ∷ s) =
    let k = if ltb n (size - length buf) then n + 1 else size - length buf in
    append_assoc buf (take k (c ∷ s)) (drop k (c ∷ s))
    ∙ ap (λ t. buf ++ t) (append-take-drop k (c ∷ s))
look_loop-Looked (look_blocked ∷ ls) size buf arrives = look_loop-Looked ls size buf arrives
look_loop-Looked (wait_ends ∷ ls) size buf arrives = timed_out
look_loop-Looked (wait_breaks ∷ ls) size buf arrives = read_failed
look_loop-Looked (peer_closes ∷ ls) size buf arrives = closed
look_loop-Looked (read_breaks ∷ ls) size buf arrives = read_failed

in_buffer-Looked :
    (ls : List Look) (buf arrives : Bytes) (e : Ensured)
    → Looked (buf ++ arrives) (in_buffer ls buf arrives e)
unfolding Looked in_buffer look_loop
in_buffer-Looked ls buf arrives (ensured size) = look_loop-Looked ls size buf arrives
in_buffer-Looked ls buf arrives no_buffer = read_failed
in_buffer-Looked ls buf arrives buffer_overflow = tt

pub conn_read_more-Looked :
    (room : ℕ → Bool) (ls : List Look) (size : ℕ) (buf arrives all : Bytes)
    → buf ++ arrives ≡ all
    → Looked all (conn_read_more room ls size buf arrives)
unfolding conn_read_more
conn_read_more-Looked room ls size buf arrives all h =
    let e = ensure_buf room size (length buf) 4096 in
    subst (λ t. Looked t (in_buffer ls buf arrives e)) h (in_buffer-Looked ls buf arrives e)

pub verdict_of-verdict :
    (l : Link) (a : Answer) (buf : Bytes)
    → response_complete buf ≡ a
    → verdict_of a (parse_response l.response_grows l.response_room buf) ≡ verdict l buf
unfolding verdict
verdict_of-verdict l a buf e = rw e refl

judged :
    (l : Link) (a : Answer) (buf later : Bytes)
    → response_complete buf ≡ a
    → buf ++ later ≡ l.link_arrives
    → a ≢ partial
    → Told l (verdict_of a (parse_response l.response_grows l.response_room buf))
judged l a buf later e h not_partial = record {
  seen = buf;
  unseen = later;
  is_front = h;
  is_enough = λ p. not_partial (sym e ∙ p);
  is_verdict = verdict_of-verdict l a buf e;
}

after_answer-Rests :
    (l : Link) (a : Answer) (size : ℕ) (buf later : Bytes) (next : ℕ → Bytes → Bytes → Receipt)
    → response_complete buf ≡ a
    → buf ++ later ≡ l.link_arrives
    → Rests l (from_receipt l (next size buf later))
    → Rests l (from_receipt l (after_answer a size buf later next))
unfolding from_receipt verdict
after_answer-Rests l partial size buf later next e h rest = rest
after_answer-Rests l whole size buf later next e h rest =
    inl (judged l _ buf later e h (λ p. ground (arith, p)))
after_answer-Rests l malformed_body size buf later next e h rest =
    inl (judged l _ buf later e h (λ p. ground (arith, p)))
after_answer-Rests l no_answer size buf later next e h rest =
    inl (judged l _ buf later e h (λ p. ground (arith, p)))

-- One connReadMore, where what follows on it is all right
after_look-Rests :
    (l : Link) (end : LookEnd) (next : ℕ → Bytes → Bytes → Receipt)
    → Looked l.link_arrives end
    → ((size : ℕ) (buf later : Bytes)
        → buf ++ later ≡ l.link_arrives
        → Rests l (from_receipt l (next size buf later)))
    → Rests l (from_receipt l (after_look end next))
unfolding after_look from_receipt Looked
after_look-Rests l (read_fails e) next h rest = inr h
after_look-Rests l read_overflow next h rest = inr overflowed
after_look-Rests l read_waits next h rest = inr not_yet
after_look-Rests l (read_more size buf later) next h rest =
    after_answer-Rests l (response_complete buf) size buf later next refl h (rest size buf later h)

read_response-Rests :
    (l : Link) (lss : List (List Look)) (size : ℕ) (buf arrives : Bytes)
    → buf ++ arrives ≡ l.link_arrives
    → Rests l (from_receipt l (read_response l.has_space lss size buf arrives))
unfolding read_response
read_response-Rests l [] size buf arrives h =
    after_look-Rests l (conn_read_more l.has_space [] size buf arrives)
      (λ size' buf' later. receipt_waits)
      (conn_read_more-Looked l.has_space [] size buf arrives l.link_arrives h)
      (λ size' buf' later e. inr (unfold from_receipt in not_yet))
read_response-Rests l (ls ∷ lss) size buf arrives h =
    after_look-Rests l (conn_read_more l.has_space ls size buf arrives)
      (λ size' buf' later. read_response l.has_space lss size' buf' later)
      (conn_read_more-Looked l.has_space ls size buf arrives l.link_arrives h)
      (λ size' buf' later e. read_response-Rests l lss size' buf' later e)

-- All is sent and the outcome rests on what arrived, or a part is left and the outcome says so.
abbrev pub IsOutcome : Link → Bytes → Bytes → Exchanged → Type 0
IsOutcome l text out e =
    ((out ≡ text) × Rests l e)
    ⊎ (((b : ℕ) × ((rest : Bytes) × (out ++ b ∷ rest ≡ text)))
        × ((e ≡ exchange_fails err_send) ⊎ (e ≡ exchange_waits)))

after_sending-IsOutcome :
    (l : Link) (text out : Bytes) (end : SendEnd)
    → Writes text out end
    → IsOutcome l text out (after_sending l end)
unfolding after_sending
after_sending-IsOutcome l text out all_sent h =
    inl (h, read_response-Rests l l.look_calls l.buffer_size [] l.link_arrives refl)
after_sending-IsOutcome l text out not_sent h = inr (h, inl refl)
after_sending-IsOutcome l text out still_sending h = inr (h, inr refl)

pub send_once-sent :
    (l : Link) (r r' : ClientRequest) (body text : Bytes)
    → render_body l.has_space l.body_json r ≡ some (r', body)
    → send_text l r' body ≡ some text
    → send_once l r
      ≡ (let (out, end) = conn_write_all l.write_calls text in (out, after_sending l end))
unfolding send_once with_body
send_once-sent l r r' body text rendered built =
    ap (with_body l) rendered ∙ unfold send_and_read in ap (send_and_read l) built

-- Where the body is rendered and the text of the request is built: the text is its lines in their
-- order, an empty line and the body. Whatever the network does, either all of it is written, once and
-- in order, and the outcome is what the client makes of the bytes at the front of those that
-- arrived, which are no part of a response only, or it is a stop of the reading: a timeout, an end of
-- the peer, a failure, an overflow, or none yet. Or a part of the text is left, and the outcome is
-- the error of sending, or none yet.
pub send_once-IsOutcome :
    (l : Link) (r r' : ClientRequest) (body text : Bytes)
    → render_body l.has_space l.body_json r ≡ some (r', body)
    → send_text l r' body ≡ some text
    → IsOutcome l text (send_once l r).0 (send_once l r).1
      × (text
          ≡ (join (
                request_lines l.link_proxies l.link_agent (text_of l.link_address r') (length body))
              ++ crlf)
            ++ body)
unfolding send_once
send_once-IsOutcome l r r' body text rendered built =
    let sent = conn_write_all l.write_calls text in
    (
      subst (λ p. IsOutcome l text p.0 p.1) (sym (send_once-sent l r r' body text rendered built))
          (after_sending-IsOutcome l text sent.0 sent.1 (conn_write_all-Writes l.write_calls text)),
      send_text_lem l r' body text built,
    )
