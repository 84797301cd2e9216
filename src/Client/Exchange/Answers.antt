-- ===== src/Client/Exchange/Answers.antt =====
-- An exchange comes to its end where the peer takes the request and sends a whole response.
use mathlib.Core.List.{append_assoc, append-nil}
use cor_rest.Base.{
  Bytes, length, drop, length-append, length-drop, All, ℕ, ◌+◌, ◌^◌, ◌≤◌, ◌<◌, ◌≡◌, refl, sym, ap,
  ◌∙◌, subst, Bool, true, false, some, List, [], ◌∷◌, ◌++◌, arith,
}
use cor_rest.Response.{until_lf}
use cor_rest.Response.Complete.{response_complete, whole, partial}
use cor_rest.Client.Headers.{ClientRequest}
use cor_rest.Client.Exchange.{
  conn_write_all, in_buffer, conn_read_more, after_look, read_response, render_body, send_text,
  from_receipt, after_sending, send_once, WriteCall, takes, takes_nothing, blocked, broken,
  all_sent, Look, Link,
}
use cor_rest.Client.Exchange.Written.{Writes, conn_write_all-Writes}
use cor_rest.Client.Exchange.Outcome.{verdict, send_once-sent}
use cor_rest.Client.Exchange.Reads.{
  starts_reading, ensure_buf-ensured, look_loop-IsRead, Heard, after_answer-Judged, IsRead,
}

abbrev pub takes_some : WriteCall → Bool
takes_some (takes n) = true
takes_some _ = false

conn_write_all-all_sent :
    (ws : List WriteCall) (text : Bytes)
    → All (λ w. takes_some w ≡ true) ws
    → length text ≤ length ws
    → (conn_write_all ws text).1 ≡ all_sent
unfolding conn_write_all
conn_write_all-all_sent ws [] all enough = refl
conn_write_all-all_sent [] (b ∷ s) all enough = absurd (omega arith)
conn_write_all-all_sent (takes n ∷ ws) (b ∷ s) all enough =
    conn_write_all-all_sent ws (drop n s) all.1 (omega (arith, length-drop n s))
conn_write_all-all_sent (blocked ∷ ws) (b ∷ s) all enough = absurd (ground (arith, all.0))
conn_write_all-all_sent (takes_nothing ∷ ws) (b ∷ s) all enough = absurd (ground (arith, all.0))
conn_write_all-all_sent (broken ∷ ws) (b ∷ s) all enough = absurd (ground (arith, all.0))

-- What is to be had for the reading: memory, and a whole response that an int can count twice
record CanRead (l : Link) : Type 0 where
  rooms : (n : ℕ) → l.has_space n ≡ true
  countable : length l.link_arrives + 4096 < 2 ^ 30
  all_whole : response_complete l.link_arrives ≡ whole

left_over :
    (l : Link) (buf later : Bytes)
    → CanRead l
    → buf ++ later ≡ l.link_arrives
    → response_complete buf ≡ partial
    → 0 < length later
left_over l buf [] can h part =
    let all = ap response_complete (sym (append-nil buf) ∙ h) in
    absurd (ground (arith, sym part ∙ all ∙ can.all_whole))
left_over l buf (c ∷ s) can h part = omega arith

IsRead-step :
    (l : Link) (ls : List Look) (size : ℕ) (buf arrives : Bytes)
    → CanRead l
    → starts_reading ls ≡ true
    → 0 < length arrives
    → buf ++ arrives ≡ l.link_arrives
    → (size' : ℕ) × IsRead ls size' buf arrives (conn_read_more l.has_space ls size buf arrives)
unfolding conn_read_more in_buffer
IsRead-step l ls size buf arrives can starts some_left h =
    let total = sym (length-append buf arrives) ∙ ap length h in
    let (size', (grown, space)) =
      ensure_buf-ensured l.has_space size (length buf) can.rooms
        (omega (arith, total, can.countable)) in
    (
      size',
      subst (λ e. IsRead ls size' buf arrives (in_buffer ls buf arrives e)) (sym grown)
          (look_loop-IsRead ls size' buf arrives starts some_left (omega (arith, space))),
    )

read_response-Heard :
    (l : Link) (lss : List (List Look)) (size : ℕ) (buf arrives : Bytes)
    → CanRead l
    → All (λ ls. starts_reading ls ≡ true) lss
    → 0 < length arrives
    → length arrives ≤ length lss
    → buf ++ arrives ≡ l.link_arrives
    → Heard l lss buf arrives (from_receipt l (read_response l.has_space lss size buf arrives))
unfolding read_response after_look
read_response-Heard l [] size buf arrives can starts some_left enough h = absurd (omega arith)
read_response-Heard l (ls ∷ lss) size buf arrives can starts some_left enough h =
    let (size', r) = IsRead-step l ls size buf arrives can starts.0 some_left h in
    let next = λ (n : ℕ) (b s : Bytes). read_response l.has_space lss n b s in
    let buf' = buf ++ r.piece in
    let front = append_assoc buf r.piece r.later ∙ ap (λ t. buf ++ t) r.in_order ∙ h in
    let total = sym (length-append r.piece r.later) ∙ ap length r.in_order in
    let shorter : length r.later ≤ length lss = omega (arith, total, r.some_bytes, enough) in
    let (seen, (first, told)) =
      after_answer-Judged l (response_complete buf') lss size' buf' r.later next refl (λ part.
        read_response-Heard l lss size' buf' r.later can starts.1
          (left_over l buf' r.later can front part) shorter front) in
    (
      seen,
      (
        (r.piece, (r.later, (r.in_order, (r.some_bytes, (r.not_more, first))))),
        subst (λ e. from_receipt l (after_look e next) ≡ verdict l seen) (sym r.is_end) told,
      ),
    )

nothing_partial : response_complete [] ≡ partial
unfolding response_complete until_lf
nothing_partial = refl

-- With memory at hand, where the request's text is built, the peer takes some of it at each write and
-- sends what is a whole response of less than a gigabyte, and the system lets the client write and
-- read as often as there are bytes: all of the text is written, in order, and the exchange ends. Each
-- read takes some of the bytes, in order and no more than it asks for, and the outcome is what the
-- client makes of the first of the fronts that the reads end at that is more than a part.
pub send_once-Heard :
    (l : Link) (r r' : ClientRequest) (body text : Bytes)
    → render_body l.has_space l.body_json r ≡ some (r', body)
    → send_text l r' body ≡ some text
    → ((n : ℕ) → l.has_space n ≡ true)
    → length l.link_arrives + 4096 < 2 ^ 30
    → response_complete l.link_arrives ≡ whole
    → All (λ w. takes_some w ≡ true) l.write_calls
    → length text ≤ length l.write_calls
    → All (λ ls. starts_reading ls ≡ true) l.look_calls
    → length l.link_arrives ≤ length l.look_calls
    → ((send_once l r).0 ≡ text) × Heard l l.look_calls [] l.link_arrives (send_once l r).1
unfolding after_sending
send_once-Heard l r r' body text rendered built rooms countable all taken writes starts reads =
    let can : CanRead l = record { rooms = rooms; countable = countable; all_whole = all } in
    let sent = conn_write_all l.write_calls text in
    let done = conn_write_all-all_sent l.write_calls text taken writes in
    let out = subst (Writes text sent.0) done (conn_write_all-Writes l.write_calls text) in
    let some_left = left_over l [] l.link_arrives can refl nothing_partial in
    let told =
      read_response-Heard l l.look_calls l.buffer_size [] l.link_arrives can starts some_left reads
        refl in
    let same = send_once-sent l r r' body text rendered built in
    (
      ap (λ p. p.0) same ∙ out,
      subst (Heard l l.look_calls [] l.link_arrives)
          (sym (ap (λ p. p.1) same ∙ ap (after_sending l) done)) told,
    )
