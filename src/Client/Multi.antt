-- ===== src/Client/Multi.antt =====
-- corRestClientMulti.c: many requests at once. What happens at an entry's socket is an argument. An
-- entry's connections have the numbers 4 * i up to 4 * i + 3: for the first try the one from the pool
-- and the one that is opened, and two more for the second try.
pub mod Buffer
pub mod Perform
use cor_rest.Base.{
  ltb, leb, ◌==◌, if◌then◌else◌, Bytes, length, take, index_text, ℕ, ◌+◌, ◌-◌, ◌*◌, ◌^◌, Bool, true,
  false, not, ◌&&◌, ◌||◌, Option, none, some, List, [], ◌∷◌, ◌++◌,
}
use cor_rest.Response.Complete.{
  response_complete, Answer, whole, partial, malformed_body, no_answer,
}
use cor_rest.Response.Message.{parse_response, ClientResponse, parsed, Parsed, response, no_memory}
use cor_rest.Client.Text.{TextRequest}
use cor_rest.Client.Follow.{
  ClientError, err_connect, err_send, err_recv, err_parse, err_alloc, err_closed, err_too_large,
  response, Act, from_pool, opens, destroys,
}
use cor_rest.Client.Follow.{
  ClientError, err_connect, err_send, err_recv, err_parse, err_alloc, err_closed, err_too_large,
  response, Act, from_pool, opens, destroys,
}

-- CorrMultiState
pub data MultiState : Type 0 where
  starting connecting writing reading done : MultiState

-- CorrMultiEntry, with what it has of its connection: the number, the buffer, and keepAlive. No
-- error is 0, and the answer is what was parsed.
pub record Entry : Type 0 where
  pub state : MultiState
  pub number : ℕ
  pub url : Option Bytes
  pub text : TextRequest
  pub body : Bytes
  pub conn : Option ℕ
  pub buf : Bytes
  pub buf_size : ℕ
  pub keep_alive : Bool
  pub send_len : ℕ
  pub send_pos : ℕ
  pub error : Option ClientError
  pub answer : Option ClientResponse
  pub is_from_pool : Bool
  pub retried : Bool

-- CorRestClientMulti
pub record Multi : Type 0 where
  pub entries : List Entry
  pub done_count : ℕ
  pub max_response_bytes : ℕ

-- A step of an entry: what is done with connections, the entry, and how much `done` grows.
abbrev pub Turn : Type 0
Turn = List Act × Entry × ℕ

abbrev pub goes_on : Entry → Turn
goes_on e = ([], e, 0)

abbrev pub fails_with : ClientError → Entry → Turn
fails_with err e = ([], record e { error = some err; state = done }, 1)

-- responseTooLarge
unfoldable pub response_too_large : ℕ → Bytes → Bool
unfolding index_text
response_too_large most buf =
    let body : Bool = elim (index_text (13 ∷ 10 ∷ 13 ∷ 10 ∷ []) buf) [
      | none ↦ ltb (most + 65536) (length buf)
      | some at ↦ ltb most (length buf - (at + 4))
    ] in
    if most == 0 || leb (length buf) most then false else body

-- What the pool and the network answer to a start
pub data Pooled : Type 0 where
  no_conn alive stale : Pooled

pub data Connect : Type 0 where
  unreachable no_space at_once in_progress : Connect

pub record Start : Type 0 where
  pub pooled : Pooled
  pub connect : Connect

-- The part of startConnect behind the pool
abbrev pub new_conn : Connect → ℕ → Entry → List Act × Entry × Bool
new_conn unreachable k e = ([], e, false)
new_conn no_space k e = ([], e, false)
new_conn at_once k e = (
  opens k ∷ [],
  record e { conn = some k; buf = []; buf_size = 8192; keep_alive = true; state = writing },
  true,
)
new_conn in_progress k e = (
  opens k ∷ [],
  record e { conn = some k; buf = []; buf_size = 8192; keep_alive = true; state = connecting },
  true,
)

-- What follows on the answer of the pool
abbrev pub after_pool : Pooled → Connect → ℕ → Entry → List Act × Entry × Bool
after_pool no_conn c k e = new_conn c (k + 1) e
after_pool stale c k e =
    let (acts, e', good) = new_conn c (k + 1) e in (from_pool k ∷ destroys k ∷ acts, e', good)
after_pool alive c k e = (
  from_pool k ∷ [],
  record e { conn = some k; buf = []; buf_size = 8192; state = writing; is_from_pool = true },
  true,
)

-- startConnect, with numbers from k on; the size of a pooled connection's buffer is kept as 8192.
unfoldable pub start_connect : Start → ℕ → Entry → List Act × Entry × Bool
start_connect s k e = after_pool s.pooled s.connect k e

-- The connection is destroyed, if there is one.
abbrev pub drops : Option ℕ → List Act
drops none = []
drops (some k) = destroys k ∷ []

-- The second try, on a stale connection of the pool
unfoldable pub try_again : Start → Entry → Turn
unfolding start_connect
try_again s e =
    let e0 = record e { conn = none; is_from_pool = false; retried = true; send_pos = 0 } in
    let (acts, e', good) = start_connect s (4 * e.number + 2) e0 in
    if good
    then (drops e.conn ++ acts, e', 0)
    else (drops e.conn ++ acts, record e' { error = some err_connect; state = done }, 1)

-- finishConnect and connectNextAddress
abbrev pub handle_connecting : Bool → Bool → Entry → Turn
handle_connecting finishes next_address e =
    if finishes
    then goes_on (record e { state = writing })
    else if next_address
    then goes_on e
    else fails_with err_connect e

pub data Write : Type 0 where
  wrote : ℕ → Write
  write_blocks write_fails : Write

unfoldable pub handle_writing : Start → Write → Entry → Turn
unfolding try_again
handle_writing s write_blocks e = goes_on e
handle_writing s write_fails e =
    if e.is_from_pool && not e.retried then try_again s e else fails_with err_send e
handle_writing s (wrote n) e =
    let e' = record e { send_pos = e.send_pos + n } in
    if leb e.send_len (e.send_pos + n)
    then goes_on (record e' { state = reading; buf = [] })
    else goes_on e'

-- A read: bytes, and whether TLS holds more of them
pub data Read : Type 0 where
  got : Bytes → Bool → Read
  read_blocks read_ends read_fails : Read

-- The error that follows on an answer of corRestClientParseResponse that is not 0
abbrev pub parse_error : Parsed → ClientError
parse_error no_memory = err_alloc
parse_error _ = err_parse

abbrev pub takes_answer : Parsed → Entry → Option Turn
takes_answer (response resp keep) e =
    some ([], record e { state = done; answer = some resp; keep_alive = keep }, 1)
takes_answer _ e = none

abbrev pub or_turn : Option Turn → Turn → Turn
or_turn none t = t
or_turn (some t) _ = t

-- The read gave nothing, and will give nothing more. The bytes are parsed once: the parser puts NULs
-- into them, and a second pass over them is left out.
unfoldable pub read_over : (ℕ → Bool) → (ℕ → Bool) → Start → ClientError → Entry → Turn
unfolding parse_response try_again
read_over grow room s err e =
    let parsed = takes_answer (parse_response grow room e.buf) e in
    let ends =
      if e.is_from_pool && not e.retried && length e.buf == 0
      then try_again s e
      else fails_with err e in
    if ltb 0 (length e.buf) then or_turn parsed ends else ends

-- Where the parser or the check meets undefined behaviour, the response counts as malformed.
-- What the check for a whole response says of the bytes read; `again` is the jump to readMore.
abbrev pub after_bytes : (ℕ → Bool) → (ℕ → Bool) → Answer → Bool → (Entry → Turn) → Entry → Turn
unfolding parse_response
after_bytes grow room whole pending again e =
    let p = parse_response grow room e.buf in
    or_turn (takes_answer p e) (fails_with (parse_error p) e)
after_bytes grow room partial pending again e = if pending then again e else goes_on e
after_bytes grow room malformed_body pending again e = fails_with err_parse e
after_bytes grow room no_answer pending again e = fails_with err_parse e

-- A buffer with less than 4096 bytes left is doubled; the flag says whether realloc finds space. A
-- size past the int's is negative, and realloc finds no space for it.
unfoldable pub grow_buf : Bool → Entry → Option Entry
grow_buf has_space e =
    let doubled = e.buf_size * 2 in
    if ltb (e.buf_size - length e.buf) 4096
    then if has_space && ltb doubled (2 ^ 31) then some (record e { buf_size = doubled }) else none
    else some e

-- The part of the reading state behind the growth of the buffer
abbrev pub after_read : (ℕ → Bool) → (ℕ → Bool) → ℕ → Start → Read → (Entry → Turn) → Entry → Turn
unfolding read_over response_too_large response_complete after_bytes
after_read grow room most s read_blocks again e = goes_on e
after_read grow room most s read_ends again e = read_over grow room s err_closed e
after_read grow room most s read_fails again e = read_over grow room s err_recv e
after_read grow room most s (got bytes pending) again e =
    let e' = record e { buf = e.buf ++ take (e.buf_size - length e.buf) bytes } in
    let next = after_bytes grow room (response_complete e'.buf) pending again e' in
    if response_too_large most e'.buf then fails_with err_too_large e' else next

abbrev pub in_space :
    (ℕ → Bool) → (ℕ → Bool) → ℕ → Start → Read → (Entry → Turn) → Option Entry → Entry → Turn
unfolding after_read
in_space grow room most s r again none e = fails_with err_alloc e
in_space grow room most s r again (some e') e = after_read grow room most s r again e'

-- The reading state: reads with the space for each, of which those are done that follow from readMore.
unfoldable pub handle_reading :
    (ℕ → Bool) → (ℕ → Bool) → ℕ → Start → List (Bool × Read) → Entry → Turn
unfolding grow_buf
handle_reading grow room most s [] e = goes_on e
handle_reading grow room most s ((has_space, r) ∷ rs) e =
    in_space grow room most s r (λ e'. handle_reading grow room most s rs e') (grow_buf has_space e)
      e

-- What an entry meets when its socket is ready
pub record Ready : Type 0 where
  pub finishes : Bool
  pub next_address : Bool
  pub write : Write
  pub reads : List (Bool × Read)
  pub second : Start

abbrev pub by_state : (ℕ → Bool) → (ℕ → Bool) → ℕ → Ready → MultiState → Entry → Turn
unfolding handle_writing handle_reading
by_state grow room most r done e = goes_on e
by_state grow room most r starting e = goes_on e
by_state grow room most r connecting e = handle_connecting r.finishes r.next_address e
by_state grow room most r writing e = handle_writing r.second r.write e
by_state grow room most r reading e = handle_reading grow room most r.second r.reads e

-- The switch on the state of an entry
unfoldable pub handle_event : (ℕ → Bool) → (ℕ → Bool) → ℕ → Ready → Entry → Turn
unfolding by_state
handle_event grow room most r e = by_state grow room most r e.state e
