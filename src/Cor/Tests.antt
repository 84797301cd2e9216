-- ===== src/Cor/Tests.antt =====
-- Frames that arrive in pieces.
use cor_rest.Base.{Bytes, codes, str_eq, ◌≡◌, refl, true, List, [], ◌∷◌, ◌++◌, arith}
use cor_rest.Cor.{
  le32, read_le32, header_bytes, frame_bytes, header_correlation, header_len, header_type,
  has_magic, sock_read, stream, Frame, Arrival, arrive, not_yet, interrupted,
}
use cor_rest.Cor.Read.{conn_read, frame_recv, received}
use cor_rest.Cor.Read.Whole.{flows, weight}
use cor_rest.Cor.Read.RoundTrip.{frame_recv-frame_bytes}
use cor_rest.Cor.Assemble.{consume, is_full, frame_assemble, Assembly, waits}
use cor_rest.Cor.Assemble.Consume.{header_of, in_header}
use cor_rest.Cor.Assemble.Outcome.{stays_open, Assembled, frame_assemble-Assembled}

abbrev hello : Frame
hello = record { frame_type = 1; correlation = 300; body = codes "hi" }

abbrev next_bytes : Bytes
next_bytes = codes "xyz"

-- The first nine bytes, a signal, nothing for now, and the rest with three more bytes.
abbrev pieces : List Arrival
pieces =
    arrive 0xc0 (codes "OR" ++ 1 ∷ 1 ∷ 0 ∷ 0 ∷ 0 ∷ 44 ∷ [])
    ∷ interrupted
    ∷ not_yet
    ∷ arrive 1 (0 ∷ 0 ∷ 2 ∷ 0 ∷ 0 ∷ 0 ∷ codes "hixyz")
    ∷ []

abbrev blank : Assembly
blank = record { hdr = []; frame_body = []; body_len = 0; frame_correlation = 0; rbuf = [] }

received_in_pieces : (frame_recv 60 true true [] pieces).0 ≡ received hello
unfolding frame_recv conn_read has_magic str_eq header_len header_type header_correlation read_le32
    sock_read
received_in_pieces = refl

frame_recv-frame_bytes_example :
    ((frame_recv 60 true true [] pieces).0 ≡ received hello)
    × ((frame_recv 60 true true [] pieces).1 ++ stream (frame_recv 60 true true [] pieces).2
        ≡ next_bytes)
unfolding flows weight frame_bytes header_bytes le32
frame_recv-frame_bytes_example =
    frame_recv-frame_bytes 60 true [] pieces hello next_bytes (omega arith) (omega arith) refl refl
      (omega arith)

-- The first call waits.
waits_first : (frame_assemble 30 true blank pieces).0 ≡ waits
unfolding frame_assemble consume is_full sock_read
waits_first = refl

frame_assemble-Assembled_example : Assembled hello next_bytes (frame_assemble 30 true blank pieces)
unfolding frame_bytes header_bytes le32 stays_open weight
frame_assemble-Assembled_example =
    frame_assemble-Assembled 30 hello next_bytes blank pieces (omega arith) (omega arith)
      (in_header (omega arith) refl) refl refl (omega arith)

abbrev hello_in : Assembly
hello_in = record {
  hdr = header_of hello;
  frame_body = codes "hi";
  body_len = 2;
  frame_correlation = 300;
  rbuf = next_bytes;
}
