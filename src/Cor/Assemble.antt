-- ===== src/Cor/Assemble.antt =====
-- frameAssemble and frameTake: the server's end, which reads what there is and goes on later.
pub mod Consume
pub mod Outcome
use cor_rest.Base.{
  ltb, leb, ◌==◌, if◌then◌else◌, Bytes, length, take, drop, ℕ, zero, suc, ◌-◌, Bool, true, false,
  not, ◌&&◌, ◌||◌, List, [], ◌++◌,
}
use cor_rest.Cor.{
  frame_header_len, frame_max, rbuf_size, smaller, header_correlation, header_len, header_type,
  has_magic, sock_read, Frame, Arrival, ReadResult, got, would_block, intr, eof, fails, times_out,
}

-- The assembly fields of ServerConn, and the unread part of the connection's read buffer.
pub record Assembly : Type 0 where
  pub hdr : Bytes
  pub frame_body : Bytes
  pub body_len : ℕ
  pub frame_correlation : ℕ
  pub rbuf : Bytes

-- A frame is in; the socket has nothing more for now; or the connection is to be closed.
pub data Progress : Type 0 where
  frame_in waits dead : Progress

unfoldable pub fill_body : Assembly → Progress × Assembly
fill_body st =
    let k = smaller (st.body_len - length st.frame_body) st.rbuf in
    let body = st.frame_body ++ take k st.rbuf in
    (
      if length body == st.body_len then frame_in else waits,
      record st { frame_body = body; rbuf = drop k st.rbuf },
    )

-- Header bytes from the buffer
abbrev pub fill_header : Assembly → Assembly
fill_header st =
    let k = smaller (frame_header_len - length st.hdr) st.rbuf in
    record st { hdr = st.hdr ++ take k st.rbuf; rbuf = drop k st.rbuf }

-- A header that has become whole; `room` tells whether there is memory for the body.
unfoldable pub check_header : Bool → Assembly → Progress × Assembly
unfolding has_magic header_correlation header_len fill_body
check_header room st =
    if not (has_magic st.hdr)
    then (dead, st)
    else if ltb frame_max (header_len st.hdr) || not room
    then (
      dead,
      record st { frame_correlation = header_correlation st.hdr; body_len = header_len st.hdr },
    )
    else fill_body (record st {
      frame_correlation = header_correlation st.hdr;
      body_len = header_len st.hdr;
      frame_body = [];
    })

-- The loop over the buffer. After its first round the buffer is empty, or the frame is in.
unfoldable pub consume : Bool → Assembly → Progress × Assembly
unfolding check_header fill_body
consume room st =
    let header = fill_header st in
    if length st.rbuf == 0
    then (waits, st)
    else if ltb (length st.hdr) frame_header_len
    then if ltb (length header.hdr) frame_header_len
      then (waits, header)
      else check_header room header
    else fill_body st

unfoldable pub is_full : Assembly → Bool
is_full st = length st.hdr == frame_header_len && length st.frame_body == st.body_len

-- A read straight into the frame
abbrev pub is_direct : Assembly → Bool
is_direct st =
    length st.hdr == frame_header_len && leb rbuf_size (st.body_len - length st.frame_body)

abbrev pub read_size : Bool → Assembly → ℕ
read_size direct st = if direct then st.body_len - length st.frame_body else rbuf_size

abbrev pub Again : Type 0
Again = Assembly → List Arrival → Progress × Assembly × List Arrival

abbrev pub after_bytes :
    Again → Bool → Assembly → Bytes → List Arrival → Progress × Assembly × List Arrival
after_bytes again true st s net =
    let st' = record st { frame_body = st.frame_body ++ s } in
    let next = again st' net in
    if length st'.frame_body == st'.body_len then (frame_in, st', net) else next
after_bytes again false st s net = again (record st { rbuf = s }) net

-- What follows on read(); a non-blocking socket has no time limit.
abbrev pub after_sock :
    Again → Assembly → ReadResult → List Arrival → Progress × Assembly × List Arrival
after_sock again st (got s) net = after_bytes again (is_direct st) st s net
after_sock again st would_block net = (waits, st, net)
after_sock again st intr net = again st net
after_sock again st eof net = (dead, st, net)
after_sock again st fails net = (dead, st, net)
after_sock again st times_out net = again st net

abbrev pub read_more : Again → Assembly → List Arrival → Progress × Assembly × List Arrival
read_more again st net =
    let (r, net') = sock_read (read_size (is_direct st) st) net in after_sock again st r net'

abbrev pub after_consume :
    Again → Progress × Assembly → List Arrival → Progress × Assembly × List Arrival
after_consume again (frame_in, st) net = (frame_in, st, net)
after_consume again (dead, st) net = (dead, st, net)
after_consume again (waits, st) net =
    let more = read_more again st net in if is_full st then (frame_in, st, net) else more

-- frameAssemble, in as many rounds as there is fuel
unfoldable pub frame_assemble :
    ℕ → Bool → Assembly → List Arrival → Progress × Assembly × List Arrival
unfolding consume is_full sock_read
frame_assemble zero room st net = (waits, st, net)
frame_assemble (suc fuel) room st net =
    after_consume (λ st' net'. frame_assemble fuel room st' net') (consume room st) net

-- frameTake: the frame, and the assembly for the next.
unfoldable pub frame_take : Assembly → Frame × Assembly
unfolding header_type
frame_take st = (
  record {
    frame_type = header_type st.hdr;
    correlation = st.frame_correlation;
    body = st.frame_body;
  },
  record st { hdr = []; frame_body = []; body_len = 0 },
)
