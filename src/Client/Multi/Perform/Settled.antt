-- ===== src/Client/Multi/Perform/Settled.antt =====
-- Every request ends with one outcome, and the engine counts them.
use cor_rest.Base.{
  ltb, leb, ◌==◌, if◌then◌else◌, Bool-cases, Option-cases, Bytes, length, take, ℕ, ◌+◌, ◌-◌, ◌*◌,
  ◌^◌, ◌≡◌, refl, ap, ◌⊎◌, inl, inr, Bool, true, false, not, ◌&&◌, Option, none, some, List, [],
  ◌∷◌, ◌++◌, arith,
}
use cor_rest.Response.Complete.{
  response_complete, Answer, whole, partial, malformed_body, no_answer,
}
use cor_rest.Response.Message.{
  parse_response, Parsed, response, more_needed, bad_response, no_memory, no_result,
}
use cor_rest.Client.Address.{client_url_parse}
use cor_rest.Client.Follow.{
  ClientError, err_url, err_connect, err_send, err_recv, err_parse, err_alloc, err_closed,
  err_too_large, response,
}
use cor_rest.Client.Multi.{
  Turn, goes_on, fails_with, response_too_large, new_conn, after_pool, start_connect, try_again,
  handle_connecting, handle_writing, parse_error, takes_answer, or_turn, read_over, after_bytes,
  grow_buf, after_read, in_space, handle_reading, by_state, handle_event, MultiState, starting,
  connecting, writing, reading, done, Entry, Pooled, no_conn, alive, stale, Connect, unreachable,
  no_space, at_once, in_progress, Start, Write, wrote, write_blocks, write_fails, Read, got,
  read_blocks, read_ends, read_fails, Ready,
}
use cor_rest.Client.Multi.Buffer.{build_send_buf}
use cor_rest.Client.Multi.Perform.{begin_connect, begin_entry, Around}

abbrev pub count_some {ℓ} : {A : Type ℓ} → Option A → ℕ
count_some none = 0
count_some (some a) = 1

abbrev pub is_over : MultiState → ℕ
is_over done = 1
is_over _ = 0

-- A request that is done has an error or an answer, and not both; one that is not has neither.
abbrev pub IsSettled : Entry → Type 0
IsSettled e = count_some e.error + count_some e.answer ≡ is_over e.state

-- A turn counts the end of its entry, if the entry was not at its end before.
abbrev pub Counts : Entry → Turn → Type 0
Counts e t = IsSettled t.1 × (is_over t.1.state ≡ is_over e.state + t.2)

-- What a request that goes on has
abbrev pub IsOpen : Entry → Type 0
IsOpen e = (count_some e.error ≡ 0) × (count_some e.answer ≡ 0) × (is_over e.state ≡ 0)

pub IsSettled-IsOpen : (e : Entry) → IsSettled e → is_over e.state ≡ 0 → IsOpen e
IsSettled-IsOpen e h over = (omega (arith, h, over), omega (arith, h, over), over)

goes_on-Counts : (e e' : Entry) → IsOpen e → IsOpen e' → Counts e (goes_on e')
goes_on-Counts e e' h h' = (omega (arith, h'.0, h'.1, h'.2), omega (arith, h.2, h'.2))

pub fails_with-Counts : (err : ClientError) (e : Entry) → IsOpen e → Counts e (fails_with err e)
fails_with-Counts err e h = (omega (arith, h.1), omega (arith, h.2))

new_conn-IsOpen : (c : Connect) (k : ℕ) (e : Entry) → IsOpen e → IsOpen (new_conn c k e).1
new_conn-IsOpen unreachable k e h = h
new_conn-IsOpen no_space k e h = h
new_conn-IsOpen at_once k e h = (h.0, h.1, refl)
new_conn-IsOpen in_progress k e h = (h.0, h.1, refl)

after_pool-IsOpen :
    (p : Pooled) (c : Connect) (k : ℕ) (e : Entry) → IsOpen e → IsOpen (after_pool p c k e).1
after_pool-IsOpen no_conn c k e h = new_conn-IsOpen c (k + 1) e h
after_pool-IsOpen stale c k e h = new_conn-IsOpen c (k + 1) e h
after_pool-IsOpen alive c k e h = (h.0, h.1, refl)

try_again-Counts : (s : Start) (e : Entry) → IsOpen e → Counts e (try_again s e)
unfolding try_again start_connect
try_again-Counts s e h =
    let e0 = record e { conn = none; is_from_pool = false; retried = true; send_pos = 0 } in
    let t = after_pool s.pooled s.connect (4 * e.number + 2) e0 in
    let opened = after_pool-IsOpen s.pooled s.connect (4 * e.number + 2) e0 h in
    elim (Bool-cases t.2) [
      | inl good ↦ rw good (omega (arith, opened), omega (arith, opened, h))
      | inr bad ↦ rw bad (omega (arith, opened), omega (arith, h))
    ]

handle_connecting-Counts :
    (finishes next_address : Bool) (e : Entry)
    → IsOpen e
    → Counts e (handle_connecting finishes next_address e)
handle_connecting-Counts true next_address e h =
    goes_on-Counts e (record e { state = writing }) h (h.0, h.1, refl)
handle_connecting-Counts false true e h = goes_on-Counts e e h h
handle_connecting-Counts false false e h = fails_with-Counts err_connect e h

handle_writing-Counts :
    (s : Start) (w : Write) (e : Entry) → IsOpen e → Counts e (handle_writing s w e)
unfolding handle_writing
handle_writing-Counts s write_blocks e h = goes_on-Counts e e h h
handle_writing-Counts s write_fails e h = elim (Bool-cases (e.is_from_pool && not e.retried)) [
  | inl again ↦ rw again (try_again-Counts s e h)
  | inr last ↦ rw last (fails_with-Counts err_send e h)
]
handle_writing-Counts s (wrote n) e h = elim (Bool-cases (leb e.send_len (e.send_pos + n))) [
  | inl all ↦
      let e' = record e { send_pos = e.send_pos + n; state = reading; buf = [] } in
      rw all (goes_on-Counts e e' h (h.0, h.1, refl))
  | inr more ↦ rw more (goes_on-Counts e (record e { send_pos = e.send_pos + n }) h h)
]

-- A turn that ends with an answer
takes_answer-Counts :
    (p : Parsed) (e : Entry) (t : Turn)
    → IsOpen e
    → Counts e t
    → Counts e (or_turn (takes_answer p e) t)
takes_answer-Counts (response resp keep) e t h k = (omega (arith, h.0), omega (arith, h.2))
takes_answer-Counts more_needed e t h k = k
takes_answer-Counts bad_response e t h k = k
takes_answer-Counts no_memory e t h k = k
takes_answer-Counts no_result e t h k = k

read_over-Counts :
    (grow room : ℕ → Bool) (s : Start) (err : ClientError) (e : Entry)
    → IsOpen e
    → Counts e (read_over grow room s err e)
unfolding read_over
read_over-Counts grow room s err e h =
    let again = try_again-Counts s e h in
    let ends = fails_with-Counts err e h in
    let ends' : Counts e (
        if e.is_from_pool && not e.retried && length e.buf == 0
        then try_again s e
        else fails_with err e) =
      elim (Bool-cases (e.is_from_pool && not e.retried && length e.buf == 0)) [
        | inl yes' ↦ rw yes' again
        | inr no' ↦ rw no' ends
      ] in
    elim (Bool-cases (ltb 0 (length e.buf))) [
      | inl some_bytes ↦
          rw some_bytes (takes_answer-Counts (parse_response grow room e.buf) e _ h ends')
      | inr empty ↦ rw empty ends'
    ]

after_bytes-Counts :
    (grow room : ℕ → Bool) (a : Answer) (pending : Bool) (again : Entry → Turn) (e : Entry)
    → IsOpen e
    → Counts e (again e)
    → Counts e (after_bytes grow room a pending again e)
unfolding after_bytes
after_bytes-Counts grow room whole pending again e h k =
    takes_answer-Counts (parse_response grow room e.buf) e _ h
      (fails_with-Counts (parse_error (parse_response grow room e.buf)) e h)
after_bytes-Counts grow room partial true again e h k = k
after_bytes-Counts grow room partial false again e h k = goes_on-Counts e e h h
after_bytes-Counts grow room malformed_body pending again e h k = fails_with-Counts err_parse e h
after_bytes-Counts grow room no_answer pending again e h k = fails_with-Counts err_parse e h

-- What has the same outcome and state as an entry may stand for it.
after_read-Counts :
    (grow room : ℕ → Bool) (most : ℕ) (s : Start) (r : Read) (again : Entry → Turn) (e : Entry)
    → IsOpen e
    → ((e' : Entry) → IsOpen e' → Counts e' (again e'))
    → Counts e (after_read grow room most s r again e)
unfolding after_read
after_read-Counts grow room most s read_blocks again e h k = goes_on-Counts e e h h
after_read-Counts grow room most s read_ends again e h k =
    read_over-Counts grow room s err_closed e h
after_read-Counts grow room most s read_fails again e h k =
    read_over-Counts grow room s err_recv e h
after_read-Counts grow room most s (got bytes pending) again e h k =
    let e' = record e { buf = e.buf ++ take (e.buf_size - length e.buf) bytes } in
    elim (Bool-cases (response_too_large most e'.buf)) [
      | inl large ↦ rw large (fails_with-Counts err_too_large e' h)
      | inr small ↦
          rw small
            (after_bytes-Counts grow room (response_complete e'.buf) pending again e' h (k e' h))
    ]

pub grow_buf-cases :
    (has_space : Bool) (e : Entry)
    → (grow_buf has_space e ≡ none)
      ⊎ (grow_buf has_space e ≡ some e)
      ⊎ (grow_buf has_space e ≡ some (record e { buf_size = e.buf_size * 2 }))
unfolding grow_buf
grow_buf-cases has_space e = elim (Bool-cases (ltb (e.buf_size - length e.buf) 4096)) [
  | inr enough ↦ inr (inl (rw enough refl))
  | inl short ↦ elim (Bool-cases (has_space && ltb (e.buf_size * 2) (2 ^ 31))) [
    | inl grown ↦ inr (inr (rw (short, grown) refl))
    | inr failed ↦ inl (rw (short, failed) refl)
  ]
]

handle_reading-Counts :
    (grow room : ℕ → Bool) (most : ℕ) (s : Start) (rs : List (Bool × Read)) (e : Entry)
    → IsOpen e
    → Counts e (handle_reading grow room most s rs e)
unfolding handle_reading in_space
handle_reading-Counts grow room most s [] e h = goes_on-Counts e e h h
handle_reading-Counts grow room most s ((has_space, r) ∷ rs) e h =
    let again = λ (e' : Entry). handle_reading grow room most s rs e' in
    let later = λ (e' : Entry) (h' : IsOpen e'). handle_reading-Counts grow room most s rs e' h' in
    let larger = record e { buf_size = e.buf_size * 2 } in
    elim (grow_buf-cases has_space e) [
      | inl failed ↦ rw failed (fails_with-Counts err_alloc e h)
      | inr (inl kept) ↦ rw kept (after_read-Counts grow room most s r again e h later)
      | inr (inr grown) ↦ rw grown (after_read-Counts grow room most s r again larger h later)
    ]

by_state-Counts :
    (grow room : ℕ → Bool) (most : ℕ) (r : Ready) (state : MultiState) (e : Entry)
    → e.state ≡ state
    → IsSettled e
    → Counts e (by_state grow room most r state e)
unfolding by_state
by_state-Counts grow room most r done e same h = (h, omega arith)
by_state-Counts grow room most r starting e same h = (h, omega arith)
by_state-Counts grow room most r connecting e same h =
    handle_connecting-Counts r.finishes r.next_address e (IsSettled-IsOpen e h (ap is_over same))
by_state-Counts grow room most r writing e same h =
    handle_writing-Counts r.second r.write e (IsSettled-IsOpen e h (ap is_over same))
by_state-Counts grow room most r reading e same h =
    handle_reading-Counts grow room most r.second r.reads e (IsSettled-IsOpen e h (ap is_over same))

pub handle_event-Counts :
    (grow room : ℕ → Bool) (most : ℕ) (r : Ready) (e : Entry)
    → IsSettled e
    → Counts e (handle_event grow room most r e)
unfolding handle_event
handle_event-Counts grow room most r e h = by_state-Counts grow room most r e.state e refl h

begin_connect-Counts :
    (s : Start) (text : Bytes) (e : Entry) → IsOpen e → Counts e (begin_connect s text e)
unfolding begin_connect start_connect
begin_connect-Counts s text e h =
    let e0 = record e { send_len = length text; send_pos = 0 } in
    let t = after_pool s.pooled s.connect (4 * e.number) e0 in
    let opened = after_pool-IsOpen s.pooled s.connect (4 * e.number) e0 h in
    elim (Bool-cases t.2) [
      | inl good ↦ rw good (omega (arith, opened), omega (arith, opened, h))
      | inr bad ↦ rw bad (omega (arith, opened), omega (arith, h))
    ]

pub begin_entry-Counts : (a : Around) (e : Entry) → IsOpen e → Counts e (begin_entry a e)
unfolding begin_entry
begin_entry-Counts a e h =
    let parsed = client_url_parse e.url e.text.to_address in
    let e' = record e { text = record e.text { to_address = parsed.0 } } in
    let built = build_send_buf (a.buf_space e.number) a.proxies a.agent e'.text e.body in
    elim (Bool-cases parsed.1) [
      | inr bad_url ↦ rw bad_url (fails_with-Counts err_url e' h)
      | inl good ↦ elim (Option-cases built) [
        | inl too_long ↦ rw (good, too_long) (fails_with-Counts err_alloc e' h)
        | inr (text, fits) ↦ rw (good, fits) (begin_connect-Counts (a.starts e.number) text e' h)
      ]
    ]
