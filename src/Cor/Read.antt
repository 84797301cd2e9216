-- ===== src/Cor/Read.antt =====
-- connRead and frameRecv: the blocking end.
pub mod Whole
pub mod RoundTrip
use cor_rest.Base.{
  ltb, leb, if◌then◌else◌, Bytes, length, take, drop, codes, ℕ, zero, suc, ◌-◌, Bool, true, false,
  not, List, [], ◌∷◌, ◌++◌,
}
use cor_rest.Cor.{
  frame_header_len, frame_max, rbuf_size, smaller, header_correlation, header_len, header_type,
  has_magic, sock_read, Frame, Arrival, ReadResult, got, would_block, intr, eof, fails, times_out,
}

-- How a read ends: with all bytes, or with what errno says; `blocked` waits for ever.
pub data ReadEnd : Type 0 where
  complete : Bytes → ReadEnd
  too_late reset failed blocked : ReadEnd

-- The next round of a read, for how much is wanted, what it has, the buffer and the arrivals.
abbrev pub Round : Type 0
Round = ℕ → Bytes → Bytes → List Arrival → ReadEnd × Bytes × List Arrival

-- Bytes of a large read go to their place, others into the buffer.
abbrev pub after_got :
    Round → Bool → ℕ → Bytes → Bytes → List Arrival → ReadEnd × Bytes × List Arrival
after_got again true n out s net = again (n - length s) (out ++ s) [] net
after_got again false n out s net = again n out s net

-- What follows on read(), a large one or one into the buffer
abbrev pub after_read :
    Round → Bool → Bool → ℕ → Bytes → ReadResult → List Arrival → ReadEnd × Bytes × List Arrival
after_read again timed large n out (got s) net = after_got again large n out s net
after_read again timed large n out would_block net =
    if timed then again n out [] net else (failed, [], net)
after_read again timed large n out intr net = again n out [] net
after_read again timed large n out eof net = (reset, [], net)
after_read again timed large n out fails net = (failed, [], net)
after_read again timed large n out times_out net =
    if timed then (too_late, [], net) else again n out [] net

-- The loop of connRead, with what stands in the buffer; `timed` is timeoutMs >= 0. With nothing
-- left to arrive the read waits.
unfoldable pub conn_read :
    ℕ → Bool → ℕ → Bytes → Bytes → List Arrival → ReadEnd × Bytes × List Arrival
unfolding sock_read
conn_read zero timed n out buf net = (blocked, buf, net)
conn_read (suc fuel) timed zero out buf net = (complete out, buf, net)
conn_read (suc fuel) timed (suc n) out (c ∷ buf) net =
    let k = smaller (suc n) (c ∷ buf) in
    conn_read fuel timed (suc n - k) (out ++ take k (c ∷ buf)) (drop k (c ∷ buf)) net
conn_read (suc fuel) timed (suc n) out [] [] = (blocked, [], [])
conn_read (suc fuel) timed (suc n) out [] (a ∷ net) =
    let large = leb rbuf_size (suc n) in
    let (r, net') = sock_read (if large then suc n else rbuf_size) (a ∷ net) in
    after_read (λ n' out' buf' net2. conn_read fuel timed n' out' buf' net2) timed large (suc n) out
      r net'

-- What frameRecv gives: a frame, or the text of its error.
pub data Received : Type 0 where
  received : Frame → Received
  refuses : Bytes → Received

abbrev pub no_header : ReadEnd → Bytes
no_header too_late = codes "timed out"
no_header _ = codes "connection closed"

-- The body, its header read
abbrev pub recv_body : Bytes → ReadEnd × Bytes × List Arrival → Received × Bytes × List Arrival
recv_body h (complete body, buf, net) = (
  received (record { frame_type = header_type h; correlation = header_correlation h; body = body }),
  buf,
  net,
)
recv_body h (_, buf, net) = (refuses (codes "connection closed in the middle of a frame"), buf, net)

abbrev pub recv_header :
    (ℕ → Bytes → List Arrival → ReadEnd × Bytes × List Arrival)
    → Bool
    → ReadEnd × Bytes × List Arrival
    → Received × Bytes × List Arrival
recv_header read room (complete h, buf, net) =
    if not (has_magic h)
    then (refuses (codes "not a cor:// frame (bad magic)"), buf, net)
    else if ltb frame_max (header_len h)
    then (refuses (codes "frame too large"), buf, net)
    else if not room
    then (refuses (codes "out of memory"), buf, net)
    else recv_body h (read (header_len h) buf net)
recv_header read room (e, buf, net) = (refuses (no_header e), buf, net)

-- frameRecv; `room` tells whether there is memory for the body.
unfoldable pub frame_recv : ℕ → Bool → Bool → Bytes → List Arrival → Received × Bytes × List Arrival
unfolding conn_read has_magic header_len header_type header_correlation
frame_recv fuel timed room buf net =
    recv_header (λ n buf' net'. conn_read fuel timed n [] buf' net') room
      (conn_read fuel timed frame_header_len [] buf net)
