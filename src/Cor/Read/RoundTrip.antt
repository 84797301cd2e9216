-- ===== src/Cor/Read/RoundTrip.antt =====
-- A frame that is written is the frame that is read.
use mathlib.Core.Path.{ap₂}
use cor_rest.Base.{
  ltb, Bytes, length, take, drop, length-append, take-append, drop-append, str_eq, ℕ, ◌+◌, ◌^◌, ◌≤◌,
  ◌<◌, ◌≡◌, refl, sym, ap, ◌∙◌, subst, Bool, true, false, List, [], ◌++◌, arith,
}
use cor_rest.Cor.{
  frame_header_len, frame_max, le32, read_le32, header_bytes, frame_bytes, header_correlation,
  header_len, header_type, has_magic, stream, Frame, Arrival,
}
use cor_rest.Cor.Read.{conn_read, recv_body, recv_header, frame_recv, ReadEnd, complete, received}
use cor_rest.Cor.Read.Whole.{flows, weight, conn_read-Whole}

pub read_le32-le32 : (n : ℕ) (s : Bytes) → n < 2 ^ 32 → read_le32 (le32 n ++ s) ≡ n
unfolding read_le32 le32
read_le32-le32 n s h = omega (arith, h)

-- The first bytes of a frame
pub frame_bytes-split :
    (f : Frame) (more : Bytes)
    → (take 16 (frame_bytes f ++ more) ≡ header_bytes f.frame_type f.correlation (length f.body))
      × (drop 16 (frame_bytes f ++ more) ≡ f.body ++ more)
unfolding frame_bytes header_bytes le32
frame_bytes-split f more = (refl, refl)

-- What the fields of a header are read as
pub header_lem :
    (type correlation len : ℕ)
    → correlation < 2 ^ 32
    → len < 2 ^ 32
    → let h = header_bytes type correlation len in
      (has_magic h ≡ true)
      × (header_type h ≡ type)
      × (header_correlation h ≡ correlation)
      × (header_len h ≡ len)
unfolding header_bytes has_magic header_type header_correlation header_len str_eq le32 read_le32
header_lem type correlation len c l =
    (refl, refl, read_le32-le32 correlation (le32 len) c, read_le32-le32 len [] l)

frame_bytes-long : (f : Frame) (more : Bytes) → 16 ≤ length (frame_bytes f ++ more)
unfolding frame_bytes header_bytes le32
frame_bytes-long f more = omega arith

-- The part behind the header
recv_header-frame :
    (read : ℕ → Bytes → List Arrival → ReadEnd × Bytes × List Arrival) (f : Frame) (buf : Bytes)
    (net : List Arrival)
    → f.correlation < 2 ^ 32
    → length f.body ≤ frame_max
    → let h = header_bytes f.frame_type f.correlation (length f.body) in
      recv_header read true (complete h, buf, net) ≡ recv_body h (read (length f.body) buf net)
recv_header-frame read f buf net c l =
    let h = header_bytes f.frame_type f.correlation (length f.body) in
    let (magic, type, correlation, len) =
      header_lem f.frame_type f.correlation (length f.body) c (omega (arith, l)) in
    let fits : ltb frame_max (length f.body) ≡ false = ground (arith, l) in
    rw (magic, len, fits) refl

-- A frame that arrives whole is received, however its bytes are cut into reads, and what follows it
-- is left: of a body of at most 64 megabytes, with a correlation of 32 bits, with memory for it,
-- when nothing arrives that ends a read, and with fuel for each byte and each arrival.
pub frame_recv-frame_bytes :
    (fuel : ℕ) (timed : Bool) (buf : Bytes) (net : List Arrival) (f : Frame) (more : Bytes)
    → f.correlation < 2 ^ 32
    → length f.body ≤ frame_max
    → flows timed net ≡ true
    → buf ++ stream net ≡ frame_bytes f ++ more
    → 16 + length f.body + weight net < fuel
    → ((frame_recv fuel timed true buf net).0 ≡ received f)
      × ((frame_recv fuel timed true buf net).1 ++ stream (frame_recv fuel timed true buf net).2
          ≡ more)
unfolding frame_recv
frame_recv-frame_bytes fuel timed buf net f more c l on sent enough =
    let h = header_bytes f.frame_type f.correlation (length f.body) in
    let (front, behind) = frame_bytes-split f more in
    let long : 16 ≤ length (buf ++ stream net) =
      subst (λ t. 16 ≤ length t) (sym sent) (frame_bytes-long f more) in
    let r = conn_read fuel timed frame_header_len [] buf net in
    let (done, left, on', light) =
      conn_read-Whole fuel timed 16 [] buf net on long (omega (arith, enough)) in
    let whole_header = done ∙ ap (λ t. complete (take 16 t)) sent ∙ ap complete front in
    let left' = left ∙ ap (drop 16) sent ∙ behind in
    let read : ℕ → Bytes → List Arrival → ReadEnd × Bytes × List Arrival =
      λ n b m. conn_read fuel timed n [] b m in
    let after_header =
      ap (λ e. recv_header read true (e, r.1, r.2)) whole_header
      ∙ recv_header-frame read f r.1 r.2 c l in
    let r2 = conn_read fuel timed (length f.body) [] r.1 r.2 in
    let (done2, left2, on2, light2) =
      conn_read-Whole fuel timed (length f.body) [] r.1 r.2 on'
        (subst (λ t. length f.body ≤ length t) (sym left')
          (omega (arith, length-append f.body more)))
        (omega (arith, enough, light)) in
    let whole_body =
      done2
      ∙ ap (λ t. complete (take (length f.body) t)) left'
      ∙ ap complete (take-append f.body more) in
    let all = after_header ∙ ap (λ e. recv_body h (e, r2.1, r2.2)) whole_body in
    let (magic, type, correlation, len) =
      header_lem f.frame_type f.correlation (length f.body) c (omega (arith, l)) in
    (
      ap (λ x. x.0) all
          ∙ ap₂ (λ t k. received (record { frame_type = t; correlation = k; body = f.body })) type
              correlation,
      ap (λ x. x.1 ++ stream x.2) all
          ∙ left2
          ∙ ap (drop (length f.body)) left'
          ∙ drop-append f.body more,
    )
