-- ===== src/Client/Exchange.antt =====
-- corRestClientSendOnce, connWriteAll, connEnsureBuf and connReadMore of corRestClient.c: one request
-- and its response over a connection. What the calls of the system do is a list for the writes, and
-- one list for each connReadMore; where a list ends, the client still waits. The freeing of the
-- rendered body is left out.
pub mod Written
pub mod Outcome
pub mod Reads
pub mod Answers
mod Tests
use cor_rest.Base.{
  ltb, leb, if◌then◌else◌, Bytes, length, take, drop, codes, str_case_eq, ℕ, ◌+◌, ◌-◌, ◌*◌, ◌^◌,
  Bool, false, not, ◌&&◌, ◌||◌, Option, none, some, List, [], ◌∷◌, ◌++◌,
}
use cor_rest.Response.Complete.{
  response_complete, Answer, whole, partial, malformed_body, no_answer,
}
use cor_rest.Response.Message.{
  parse_response, ClientResponse, Parsed, response, more_needed, bad_response, no_memory, no_result,
}
use cor_rest.Client.Address.{Address}
use cor_rest.Client.Proxy.{Proxies}
use cor_rest.Client.Text.{build_request_buf, TextRequest}
use cor_rest.Client.Headers.{request_header, ClientRequest}
use cor_rest.Client.Follow.{
  ClientError, err_timeout, err_send, err_recv, err_parse, err_alloc, err_closed,
}

-- A write: it takes at most n + 1 bytes, takes nothing, finds a full buffer that gets room, or fails.
pub data WriteCall : Type 0 where
  takes : ℕ → WriteCall
  takes_nothing blocked broken : WriteCall

pub data SendEnd : Type 0 where
  all_sent not_sent still_sending : SendEnd

-- connWriteAll, with what was written
unfoldable pub conn_write_all : List WriteCall → Bytes → Bytes × SendEnd
conn_write_all ws [] = ([], all_sent)
conn_write_all [] (b ∷ s) = ([], still_sending)
conn_write_all (takes n ∷ ws) (b ∷ s) =
    let (out, result) = conn_write_all ws (drop n s) in (b ∷ (take n s ++ out), result)
conn_write_all (blocked ∷ ws) (b ∷ s) = conn_write_all ws (b ∷ s)
conn_write_all (takes_nothing ∷ ws) (b ∷ s) = ([], not_sent)
conn_write_all (broken ∷ ws) (b ∷ s) = ([], not_sent)

pub data Ensured : Type 0 where
  ensured : ℕ → Ensured
  no_buffer buffer_overflow : Ensured

-- connEnsureBuf, with the size of the buffer and of what is in it; the sizes are of type int.
unfoldable pub ensure_buf : (ℕ → Bool) → ℕ → ℕ → ℕ → Ensured
ensure_buf room size len needed =
    let least = len + needed in
    let wanted = if ltb (size * 2) least then least else size * 2 in
    if leb needed (size - len)
    then ensured size
    else if leb (2 ^ 31) wanted
    then buffer_overflow
    else if room wanted
    then ensured wanted
    else no_buffer

-- A wait and the read behind it: a read of at most n + 1 bytes finds what arrived, or nothing yet.
pub data Look : Type 0 where
  look_reads : ℕ → Look
  look_blocked wait_ends wait_breaks peer_closes read_breaks : Look

-- How connReadMore ends: the size, what is in the buffer, and what has still to be read
pub data LookEnd : Type 0 where
  read_more : ℕ → Bytes → Bytes → LookEnd
  read_fails : ClientError → LookEnd
  read_overflow read_waits : LookEnd

-- Its loop
unfoldable pub look_loop : List Look → ℕ → Bytes → Bytes → LookEnd
look_loop [] size buf arrives = read_waits
look_loop (look_reads n ∷ ls) size buf [] = look_loop ls size buf []
look_loop (look_reads n ∷ ls) size buf (c ∷ s) =
    let space = size - length buf in
    let k = if ltb n space then n + 1 else space in
    read_more size (buf ++ take k (c ∷ s)) (drop k (c ∷ s))
look_loop (look_blocked ∷ ls) size buf arrives = look_loop ls size buf arrives
look_loop (wait_ends ∷ ls) size buf arrives = read_fails err_timeout
look_loop (wait_breaks ∷ ls) size buf arrives = read_fails err_recv
look_loop (peer_closes ∷ ls) size buf arrives = read_fails err_closed
look_loop (read_breaks ∷ ls) size buf arrives = read_fails err_recv

abbrev pub in_buffer : List Look → Bytes → Bytes → Ensured → LookEnd
unfolding look_loop
in_buffer ls buf arrives (ensured size) = look_loop ls size buf arrives
in_buffer ls buf arrives no_buffer = read_fails err_recv
in_buffer ls buf arrives buffer_overflow = read_overflow

-- connReadMore, with the error that its answer stands for
unfoldable pub conn_read_more : (ℕ → Bool) → List Look → ℕ → Bytes → Bytes → LookEnd
unfolding ensure_buf in_buffer
conn_read_more room ls size buf arrives =
    in_buffer ls buf arrives (ensure_buf room size (length buf) 4096)

-- How the reading of a response ends
pub data Receipt : Type 0 where
  received : Bytes → Receipt
  receipt_fails : ClientError → Receipt
  receipt_undefined receipt_waits : Receipt

-- What follows on the answer of corRestClientResponseComplete
abbrev pub after_answer : Answer → ℕ → Bytes → Bytes → (ℕ → Bytes → Bytes → Receipt) → Receipt
after_answer whole size buf arrives next = received buf
after_answer partial size buf arrives next = next size buf arrives
after_answer malformed_body size buf arrives next = receipt_fails err_parse
after_answer no_answer size buf arrives next = receipt_undefined

unfoldable pub after_look : LookEnd → (ℕ → Bytes → Bytes → Receipt) → Receipt
unfolding response_complete
after_look (read_fails e) next = receipt_fails e
after_look read_overflow next = receipt_undefined
after_look read_waits next = receipt_waits
after_look (read_more size buf arrives) next =
    after_answer (response_complete buf) size buf arrives next

-- The loop that reads the response
unfoldable pub read_response : (ℕ → Bool) → List (List Look) → ℕ → Bytes → Bytes → Receipt
unfolding conn_read_more after_look
read_response room [] size buf arrives =
    after_look (conn_read_more room [] size buf arrives) (λ size' buf' later. receipt_waits)
read_response room (ls ∷ lss) size buf arrives =
    after_look (conn_read_more room ls size buf arrives)
      (λ size' buf' later. read_response room lss size' buf' later)

-- What a request meets. Its address is parsed, and a bodyJson is the size that
-- corJsonFastRenderSize answers and the text that is rendered.
pub record Link : Type 0 where
  pub link_address : Address
  pub body_json : Option (ℕ × Bytes)
  pub has_space : ℕ → Bool
  pub response_grows : ℕ → Bool
  pub response_room : ℕ → Bool
  pub link_proxies : Proxies
  pub link_agent : Bytes
  pub write_calls : List WriteCall
  pub buffer_size : ℕ
  pub look_calls : List (List Look)
  pub link_arrives : Bytes

unfoldable pub has_content_type : List (Bytes × Bytes) → Bool
unfolding str_case_eq
has_content_type [] = false
has_content_type (h ∷ hs) = str_case_eq h.0 (codes "Content-Type") || has_content_type hs

-- A body of its own, of which as many bytes are sent as the request says
abbrev pub plain_body : Option Bytes → ℕ → Bytes
plain_body none n = []
plain_body (some body) n = take n body

-- The request and the text of its body, `none` without space for that
unfoldable pub render_body :
    (ℕ → Bool) → Option (ℕ × Bytes) → ClientRequest → Option (ClientRequest × Bytes)
unfolding has_content_type request_header
render_body room none r = some (r, plain_body r.request_body r.body_len)
render_body room (some (size, text)) r =
    let typed = (request_header room (codes "Content-Type") (codes "application/json") r).1 in
    if room (size + 1) then some (if has_content_type r.header_v then r else typed, text) else none

abbrev pub text_of : Address → ClientRequest → TextRequest
text_of to r = record { text_verb = r.request_verb; to_address = to; text_headers = r.header_v }

-- The text and the body in one piece; `none` is a missing send buffer or a text that does not fit.
abbrev pub with_text : (ℕ → Bool) → Bytes → Option Bytes → Option Bytes
with_text room body none = none
with_text room body (some text) =
    if ltb 0 (length body) && not (room (length text + length body))
    then none
    else some (text ++ body)

unfoldable pub send_text : Link → ClientRequest → Bytes → Option Bytes
unfolding build_request_buf
send_text l r body =
    with_text l.has_space body
      (build_request_buf 8192 l.link_proxies l.link_agent (text_of l.link_address r) (length body))

-- How an exchange ends
pub data Exchanged : Type 0 where
  exchanged : ClientResponse → Bool → Exchanged
  exchange_fails : ClientError → Exchanged
  exchange_undefined exchange_waits : Exchanged

abbrev pub parsed_as : Parsed → Exchanged
parsed_as (response resp keep) = exchanged resp keep
parsed_as no_memory = exchange_fails err_alloc
parsed_as more_needed = exchange_fails err_parse
parsed_as bad_response = exchange_fails err_parse
parsed_as no_result = exchange_undefined

unfoldable pub from_receipt : Link → Receipt → Exchanged
unfolding parse_response
from_receipt l (received buf) = parsed_as (parse_response l.response_grows l.response_room buf)
from_receipt l (receipt_fails e) = exchange_fails e
from_receipt l receipt_undefined = exchange_undefined
from_receipt l receipt_waits = exchange_waits

-- What follows on the writing
unfoldable pub after_sending : Link → SendEnd → Exchanged
unfolding from_receipt read_response
after_sending l not_sent = exchange_fails err_send
after_sending l still_sending = exchange_waits
after_sending l all_sent =
    from_receipt l (read_response l.has_space l.look_calls l.buffer_size [] l.link_arrives)

abbrev pub send_and_read : Link → Option Bytes → Bytes × Exchanged
unfolding conn_write_all after_sending
send_and_read l none = ([], exchange_fails err_alloc)
send_and_read l (some text) =
    let (out, result) = conn_write_all l.write_calls text in (out, after_sending l result)

abbrev pub with_body : Link → Option (ClientRequest × Bytes) → Bytes × Exchanged
unfolding send_text send_and_read
with_body l none = ([], exchange_fails err_alloc)
with_body l (some (r, body)) = send_and_read l (send_text l r body)

-- corRestClientSendOnce, with what was written
unfoldable pub send_once : Link → ClientRequest → Bytes × Exchanged
unfolding render_body with_body
send_once l r = with_body l (render_body l.has_space l.body_json r)
