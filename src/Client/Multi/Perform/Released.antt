-- ===== src/Client/Multi/Perform/Released.antt =====
-- Every connection that the engine takes is given back.
use cor_rest.Base.{
  ltb, leb, ◌==◌, if◌then◌else◌, Bool-cases, Option-cases, Bytes, length, take, All, ℕ, zero, suc,
  ◌+◌, ◌-◌, ◌*◌, ◌≡◌, refl, sym, ap, inl, inr, Bool, true, false, not, ◌&&◌, Option, none, some,
  List, [], ◌∷◌, ◌++◌, arith,
}
use cor_rest.Response.Complete.{
  response_complete, Answer, whole, partial, malformed_body, no_answer,
}
use cor_rest.Response.Message.{
  parse_response, Parsed, response, more_needed, bad_response, no_memory, no_result,
}
use cor_rest.Client.Address.{client_url_parse}
use cor_rest.Client.Follow.{
  ClientError, err_url, err_connect, err_timeout, err_send, err_recv, err_parse, err_alloc,
  err_closed, err_too_large, response, Act,
}
use cor_rest.Client.Follow.Released.{taken_by, given_by, total, total-append}
use cor_rest.Client.Multi.{
  Turn, fails_with, response_too_large, new_conn, after_pool, start_connect, drops, try_again,
  handle_connecting, handle_writing, parse_error, takes_answer, or_turn, read_over, after_bytes,
  after_read, in_space, handle_reading, by_state, handle_event, MultiState, starting, connecting,
  writing, reading, done, Entry, Multi, Pooled, no_conn, alive, stale, Connect, unreachable,
  no_space, at_once, in_progress, Start, Write, wrote, write_blocks, write_fails, Read, got,
  read_blocks, read_ends, read_fails, Ready,
}
use cor_rest.Client.Multi.Buffer.{build_send_buf}
use cor_rest.Client.Multi.Perform.{
  begin_connect, begin_entry, for_each, at_index, with_entries, ends_open, gives_up_on,
  handle_events, run_rounds, leaves_conn, clean_up, multi_perform, Around, Round, time_over,
  no_wait, turns,
}
use cor_rest.Client.Multi.Perform.Settled.{grow_buf-cases}

abbrev holds : ℕ → Option ℕ → ℕ
holds c none = 0
holds c (some k) = if k == c then 1 else 0

-- What a turn takes is what it gives back and what the entry holds more than before.
Even : ℕ → Entry → Turn → Type 0
Even c e t = total (taken_by c) t.0 + holds c e.conn ≡ total (given_by c) t.0 + holds c t.1.conn

-- A turn that leaves the connection alone
still-Even : (c : ℕ) (e e' : Entry) (n : ℕ) → e'.conn ≡ e.conn → Even c e ([], e', n)
unfolding Even total
still-Even c e e' n same = ap (λ o. 0 + holds c o) (sym same)

new_conn-Even :
    (c : ℕ) (a : Connect) (k : ℕ) (e : Entry)
    → e.conn ≡ none
    → (let (acts, e', good) = new_conn a k e in Even c e (acts, e', 0))
unfolding Even total
new_conn-Even c unreachable k e free = omega arith
new_conn-Even c no_space k e free = omega arith
new_conn-Even c at_once k e free = omega (arith, ap (holds c) free)
new_conn-Even c in_progress k e free = omega (arith, ap (holds c) free)

after_pool-Even :
    (c : ℕ) (p : Pooled) (a : Connect) (k : ℕ) (e : Entry)
    → e.conn ≡ none
    → (let (acts, e', good) = after_pool p a k e in Even c e (acts, e', 0))
unfolding Even total
after_pool-Even c no_conn a k e free = new_conn-Even c a (k + 1) e free
after_pool-Even c stale a k e free = omega (arith, new_conn-Even c a (k + 1) e free)
after_pool-Even c alive a k e free = omega (arith, ap (holds c) free)

drops-taken : (c : ℕ) (o : Option ℕ) → total (taken_by c) (drops o) ≡ 0
unfolding total
drops-taken c none = refl
drops-taken c (some k) = refl

drops-given : (c : ℕ) (o : Option ℕ) → total (given_by c) (drops o) ≡ holds c o
unfolding total
drops-given c none = refl
drops-given c (some k) = omega arith

try_again-Even : (c : ℕ) (s : Start) (e : Entry) → Even c e (try_again s e)
unfolding try_again start_connect Even
try_again-Even c s e =
    let e0 = record e { conn = none; is_from_pool = false; retried = true; send_pos = 0 } in
    let t = after_pool s.pooled s.connect (4 * e.number + 2) e0 in
    let opened = after_pool-Even c s.pooled s.connect (4 * e.number + 2) e0 refl in
    let taken = total-append (taken_by c) (drops e.conn) t.0 in
    let given = total-append (given_by c) (drops e.conn) t.0 in
    let nothing = drops-taken c e.conn in
    let dropped = drops-given c e.conn in
    elim (Bool-cases t.2) [
      | inl good ↦ rw good (omega (arith, opened, taken, given, nothing, dropped))
      | inr bad ↦ rw bad (omega (arith, opened, taken, given, nothing, dropped))
    ]

handle_connecting-Even :
    (c : ℕ) (finishes next_address : Bool) (e : Entry)
    → Even c e (handle_connecting finishes next_address e)
handle_connecting-Even c true next_address e = still-Even c e (record e { state = writing }) 0 refl
handle_connecting-Even c false true e = still-Even c e e 0 refl
handle_connecting-Even c false false e =
    still-Even c e (record e { error = some err_connect; state = done }) 1 refl

fails_with-Even : (c : ℕ) (err : ClientError) (e : Entry) → Even c e (fails_with err e)
fails_with-Even c err e = still-Even c e (record e { error = some err; state = done }) 1 refl

handle_writing-Even : (c : ℕ) (s : Start) (w : Write) (e : Entry) → Even c e (handle_writing s w e)
unfolding handle_writing
handle_writing-Even c s write_blocks e = still-Even c e e 0 refl
handle_writing-Even c s write_fails e = elim (Bool-cases (e.is_from_pool && not e.retried)) [
  | inl again ↦ rw again (try_again-Even c s e)
  | inr last ↦ rw last (fails_with-Even c err_send e)
]
handle_writing-Even c s (wrote n) e =
    let sent = record e { send_pos = e.send_pos + n } in
    elim (Bool-cases (leb e.send_len (e.send_pos + n))) [
      | inl all ↦ rw all (still-Even c e (record sent { state = reading; buf = [] }) 0 refl)
      | inr more ↦ rw more (still-Even c e sent 0 refl)
    ]

takes_answer-Even :
    (c : ℕ) (p : Parsed) (e : Entry) (t : Turn)
    → Even c e t
    → Even c e (or_turn (takes_answer p e) t)
takes_answer-Even c (response resp keep) e t h =
    still-Even c e (record e { state = done; answer = some resp; keep_alive = keep }) 1 refl
takes_answer-Even c more_needed e t h = h
takes_answer-Even c bad_response e t h = h
takes_answer-Even c no_memory e t h = h
takes_answer-Even c no_result e t h = h

read_over-Even :
    (c : ℕ) (grow room : ℕ → Bool) (s : Start) (err : ClientError) (e : Entry)
    → Even c e (read_over grow room s err e)
unfolding read_over
read_over-Even c grow room s err e =
    let ends : Even c e (
        if e.is_from_pool && not e.retried && length e.buf == 0
        then try_again s e
        else fails_with err e) =
      elim (Bool-cases (e.is_from_pool && not e.retried && length e.buf == 0)) [
        | inl again ↦ rw again (try_again-Even c s e)
        | inr last ↦ rw last (fails_with-Even c err e)
      ] in
    elim (Bool-cases (ltb 0 (length e.buf))) [
      | inl some_bytes ↦
          rw some_bytes (takes_answer-Even c (parse_response grow room e.buf) e _ ends)
      | inr empty ↦ rw empty ends
    ]

after_bytes-Even :
    (c : ℕ) (grow room : ℕ → Bool) (a : Answer) (pending : Bool) (again : Entry → Turn) (e : Entry)
    → Even c e (again e)
    → Even c e (after_bytes grow room a pending again e)
unfolding after_bytes
after_bytes-Even c grow room whole pending again e k =
    takes_answer-Even c (parse_response grow room e.buf) e _
      (fails_with-Even c (parse_error (parse_response grow room e.buf)) e)
after_bytes-Even c grow room partial true again e k = k
after_bytes-Even c grow room partial false again e k = still-Even c e e 0 refl
after_bytes-Even c grow room malformed_body pending again e k = fails_with-Even c err_parse e
after_bytes-Even c grow room no_answer pending again e k = fails_with-Even c err_parse e

after_read-Even :
    (c : ℕ) (grow room : ℕ → Bool) (most : ℕ) (s : Start) (r : Read) (again : Entry → Turn)
    (e : Entry)
    → ((e' : Entry) → Even c e' (again e'))
    → Even c e (after_read grow room most s r again e)
unfolding after_read
after_read-Even c grow room most s read_blocks again e k = still-Even c e e 0 refl
after_read-Even c grow room most s read_ends again e k = read_over-Even c grow room s err_closed e
after_read-Even c grow room most s read_fails again e k = read_over-Even c grow room s err_recv e
after_read-Even c grow room most s (got bytes pending) again e k =
    let e' = record e { buf = e.buf ++ take (e.buf_size - length e.buf) bytes } in
    elim (Bool-cases (response_too_large most e'.buf)) [
      | inl large ↦ rw large (unfold Even in fails_with-Even c err_too_large e')
      | inr small ↦ rw small (
          unfold Even in
          after_bytes-Even c grow room (response_complete e'.buf) pending again e' (k e'))
    ]

handle_reading-Even :
    (c : ℕ) (grow room : ℕ → Bool) (most : ℕ) (s : Start) (rs : List (Bool × Read)) (e : Entry)
    → Even c e (handle_reading grow room most s rs e)
unfolding handle_reading in_space Even
handle_reading-Even c grow room most s [] e = still-Even c e e 0 refl
handle_reading-Even c grow room most s ((has_space, r) ∷ rs) e =
    let again = λ (e' : Entry). handle_reading grow room most s rs e' in
    let later = λ (e' : Entry). handle_reading-Even c grow room most s rs e' in
    let larger = record e { buf_size = e.buf_size * 2 } in
    elim (grow_buf-cases has_space e) [
      | inl failed ↦ rw failed (fails_with-Even c err_alloc e)
      | inr (inl kept) ↦ rw kept (after_read-Even c grow room most s r again e later)
      | inr (inr grown) ↦ rw grown (after_read-Even c grow room most s r again larger later)
    ]

by_state-Even :
    (c : ℕ) (grow room : ℕ → Bool) (most : ℕ) (r : Ready) (state : MultiState) (e : Entry)
    → Even c e (by_state grow room most r state e)
unfolding by_state
by_state-Even c grow room most r done e = still-Even c e e 0 refl
by_state-Even c grow room most r starting e = still-Even c e e 0 refl
by_state-Even c grow room most r connecting e = handle_connecting-Even c r.finishes r.next_address e
by_state-Even c grow room most r writing e = handle_writing-Even c r.second r.write e
by_state-Even c grow room most r reading e = handle_reading-Even c grow room most r.second r.reads e

handle_event-Even :
    (c : ℕ) (grow room : ℕ → Bool) (most : ℕ) (r : Ready) (e : Entry)
    → Even c e (handle_event grow room most r e)
unfolding handle_event
handle_event-Even c grow room most r e = by_state-Even c grow room most r e.state e

begin_connect-Even :
    (c : ℕ) (s : Start) (text : Bytes) (e : Entry)
    → e.conn ≡ none
    → Even c e (begin_connect s text e)
unfolding begin_connect start_connect Even
begin_connect-Even c s text e free =
    let e0 = record e { send_len = length text; send_pos = 0 } in
    let t = after_pool s.pooled s.connect (4 * e.number) e0 in
    let opened = after_pool-Even c s.pooled s.connect (4 * e.number) e0 free in
    elim (Bool-cases t.2) [ inl good ↦ rw good opened | inr bad ↦ rw bad opened ]

begin_entry-Even : (c : ℕ) (a : Around) (e : Entry) → e.conn ≡ none → Even c e (begin_entry a e)
unfolding begin_entry Even
begin_entry-Even c a e free =
    let parsed = client_url_parse e.url e.text.to_address in
    let e' = record e { text = record e.text { to_address = parsed.0 } } in
    let built = build_send_buf (a.buf_space e.number) a.proxies a.agent e'.text e.body in
    elim (Bool-cases parsed.1) [
      | inr bad_url ↦ rw bad_url (fails_with-Even c err_url e')
      | inl good ↦ elim (Option-cases built) [
        | inl too_long ↦ rw (good, too_long) (fails_with-Even c err_alloc e')
        | inr (text, fits) ↦ rw (good, fits) (begin_connect-Even c (a.starts e.number) text e' free)
      ]
    ]

ends_open-Even :
    (c : ℕ) (s : MultiState) (err : ClientError) (e : Entry) → Even c e (ends_open s err e)
ends_open-Even c done err e = still-Even c e e 0 refl
ends_open-Even c starting err e = fails_with-Even c err e
ends_open-Even c connecting err e = fails_with-Even c err e
ends_open-Even c writing err e = fails_with-Even c err e
ends_open-Even c reading err e = fails_with-Even c err e

leaves_conn-given :
    (c : ℕ) (error : Option ClientError) (keep : Bool) (o : Option ℕ)
    → total (given_by c) (leaves_conn error keep o) ≡ holds c o
unfolding total
leaves_conn-given c error keep none = refl
leaves_conn-given c none true (some k) = omega arith
leaves_conn-given c none false (some k) = omega arith
leaves_conn-given c (some err) keep (some k) = omega arith

leaves_conn-taken :
    (c : ℕ) (error : Option ClientError) (keep : Bool) (o : Option ℕ)
    → total (taken_by c) (leaves_conn error keep o) ≡ 0
unfolding total
leaves_conn-taken c error keep none = refl
leaves_conn-taken c none true (some k) = refl
leaves_conn-taken c none false (some k) = refl
leaves_conn-taken c (some err) keep (some k) = refl

clean_up-Even : (c : ℕ) (e : Entry) → Even c e (clean_up e)
unfolding Even
clean_up-Even c e = omega (
  arith,
  leaves_conn-given c e.error e.keep_alive e.conn,
  leaves_conn-taken c e.error e.keep_alive e.conn,
)

-- The same for all entries
unfoldable held : ℕ → List Entry → ℕ
held c [] = 0
held c (e ∷ es) = holds c e.conn + held c es

EvenAll : ℕ → List Entry → List Act → List Entry → Type 0
EvenAll c es acts es' = total (taken_by c) acts + held c es ≡ total (given_by c) acts + held c es'

EvenAll-append :
    (c : ℕ) (xs ys : List Act) (es es' es'' : List Entry)
    → EvenAll c es xs es'
    → EvenAll c es' ys es''
    → EvenAll c es (xs ++ ys) es''
unfolding EvenAll
EvenAll-append c xs ys es es' es'' h k =
    omega (arith, h, k, total-append (taken_by c) xs ys, total-append (given_by c) xs ys)

for_each-Even {ℓ} :
    (c : ℕ) (P : Entry → Type ℓ) (f : Entry → Turn) (es : List Entry)
    → ((e : Entry) → P e → Even c e (f e))
    → All P es
    → (let (acts, es', n) = for_each f es in EvenAll c es acts es')
unfolding for_each EvenAll Even held total
for_each-Even c P f [] even h = refl
for_each-Even c P f (e ∷ es) even h =
    let first = even e h.0 in
    let later = for_each-Even c P f es even h.1 in
    let mine = (f e).0 in
    let others = (for_each f es).0 in
    omega (
      arith,
      first,
      later,
      total-append (taken_by c) mine others,
      total-append (given_by c) mine others,
    )

at_index-Even :
    (c i : ℕ) (f : Entry → Turn) (es : List Entry)
    → ((e : Entry) → Even c e (f e))
    → (let (acts, es', n) = at_index i f es in EvenAll c es acts es')
unfolding at_index EvenAll Even held total
at_index-Even c i f [] even = refl
at_index-Even c zero f (e ∷ es) even = omega (arith, even e)
at_index-Even c (suc i) f (e ∷ es) even = omega (arith, at_index-Even c i f es even)

nothing-Even : (c : ℕ) (es : List Entry) → EvenAll c es [] es
unfolding EvenAll total
nothing-Even c es = refl

handle_events-Even :
    (c : ℕ) (a : Around) (evs : List (ℕ × Ready)) (m : Multi)
    → (let (acts, m') = handle_events a evs m in EvenAll c m.entries acts m'.entries)
unfolding handle_events
handle_events-Even c a [] m = nothing-Even c m.entries
handle_events-Even c a ((i, r) ∷ rs) m =
    let f = handle_event a.grow a.room m.max_response_bytes r in
    let one = at_index i f m.entries in
    let first =
      at_index-Even c i f m.entries (handle_event-Even c a.grow a.room m.max_response_bytes r) in
    let m' = (with_entries one m).1 in
    let rest = handle_events a rs m' in
    EvenAll-append c one.0 rest.0 m.entries one.1 rest.1.entries first
      (handle_events-Even c a rs m')

Whole : Entry → Type 0
Whole e = Unit

All-Whole : (es : List Entry) → All Whole es
unfolding Whole
All-Whole [] = tt
All-Whole (e ∷ es) = (tt, All-Whole es)

run_rounds-Even :
    (c : ℕ) (a : Around) (rs : List Round) (m : Multi)
    → (let (acts, m') = run_rounds a rs m in EvenAll c m.entries acts m'.entries)
unfolding run_rounds
run_rounds-Even c a [] m = nothing-Even c m.entries
run_rounds-Even c a (time_over ∷ rs) m =
    let all =
      for_each-Even c Whole (gives_up_on err_timeout) m.entries
        (λ e h. ends_open-Even c e.state err_timeout e) (All-Whole m.entries) in
    elim (Bool-cases (ltb m.done_count (length m.entries))) [
      | inl going ↦ rw going all
      | inr ended ↦ rw ended (nothing-Even c m.entries)
    ]
run_rounds-Even c a (no_wait ∷ rs) m =
    let all =
      for_each-Even c Whole (gives_up_on err_recv) m.entries
        (λ e h. ends_open-Even c e.state err_recv e) (All-Whole m.entries) in
    elim (Bool-cases (ltb m.done_count (length m.entries))) [
      | inl going ↦ rw going all
      | inr ended ↦ rw ended (nothing-Even c m.entries)
    ]
run_rounds-Even c a (turns evs ∷ rs) m =
    let handled = handle_events a evs m in
    let rest = run_rounds a rs handled.1 in
    let both =
      EvenAll-append c handled.0 rest.0 m.entries handled.1.entries rest.1.entries
        (handle_events-Even c a evs m) (run_rounds-Even c a rs handled.1) in
    elim (Bool-cases (ltb m.done_count (length m.entries))) [
      | inl going ↦ rw going both
      | inr ended ↦ rw ended (nothing-Even c m.entries)
    ]

abbrev pub HasNoConn : Entry → Type 0
HasNoConn e = e.conn ≡ none

held-HasNoConn : (c : ℕ) (es : List Entry) → All HasNoConn es → held c es ≡ 0
unfolding held
held-HasNoConn c [] h = refl
held-HasNoConn c (e ∷ es) h = omega (arith, ap (holds c) h.0, held-HasNoConn c es h.1)

held-clean_up : (c : ℕ) (es : List Entry) → held c (for_each clean_up es).1 ≡ 0
unfolding held for_each
held-clean_up c [] = refl
held-clean_up c (e ∷ es) = omega (arith, held-clean_up c es)

-- However the pool, the network and the peers behave, and wherever the loop is left, the engine
-- gives each connection back, to the pool or by destroying it, as often as it took it from the pool
-- or opened it.
pub multi_perform-released :
    (a : Around) (rounds : List Round) (m : Multi) (c : ℕ)
    → All HasNoConn m.entries
    → (let (acts, m') = multi_perform a rounds m in
        total (taken_by c) acts ≡ total (given_by c) acts)
unfolding multi_perform EvenAll
multi_perform-released a rounds m c free =
    let begun = for_each (begin_entry a) m.entries in
    let m1 = (with_entries begun m).1 in
    let ran = run_rounds a rounds m1 in
    let cleaned = for_each clean_up ran.1.entries in
    let first = for_each-Even c HasNoConn (begin_entry a) m.entries (begin_entry-Even c a) free in
    let second = run_rounds-Even c a rounds m1 in
    let third =
      for_each-Even c Whole clean_up ran.1.entries (λ e h. clean_up-Even c e)
        (All-Whole ran.1.entries) in
    let later = EvenAll-append c ran.0 cleaned.0 m1.entries ran.1.entries cleaned.1 second third in
    let all =
      EvenAll-append c begun.0 (ran.0 ++ cleaned.0) m.entries m1.entries cleaned.1 first later in
    omega (arith, all, held-HasNoConn c m.entries free, held-clean_up c ran.1.entries)
