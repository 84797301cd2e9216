-- ===== src/Cor/Assemble/Outcome.antt =====
-- What one call of frameAssemble comes to, whatever the socket has.
use mathlib.Core.List.{append_assoc, append-nil}
use cor_rest.Base.{
  ◌==◌, if◌then◌else◌, Bool-cases, Bytes, length, take, drop, length-append, append-take-drop,
  length-drop, ℕ, zero, suc, ◌+◌, ◌-◌, ◌^◌, ◌≤◌, ◌<◌, ◌≡◌, refl, sym, ap, ◌∙◌, subst, inl, inr,
  Bool, true, false, List, [], ◌∷◌, ◌++◌, arith,
}
use cor_rest.Cor.{
  frame_max, rbuf_size, frame_bytes, header_type, unread, sock_read, stream, Frame, Arrival, arrive,
  not_yet, interrupted, closed, broken, timed_out,
}
use cor_rest.Cor.Read.Whole.{weight, stream-unread, weight-unread}
use cor_rest.Cor.Assemble.{
  consume, is_full, is_direct, read_size, Again, after_bytes, read_more, after_consume,
  frame_assemble, frame_take, Assembly, Progress, frame_in, waits, dead,
}
use cor_rest.Cor.Read.RoundTrip.{header_lem}
use cor_rest.Cor.Assemble.Consume.{
  pending, Complete, Consumed, append-cancel, body_total, length-header_of, consume-Consumed, Stage,
  in_header, in_body,
}

-- The peer does not close, and no read fails.
unfoldable pub stays_open : List Arrival → Bool
stays_open [] = true
stays_open (closed ∷ net) = false
stays_open (broken ∷ net) = false
stays_open (_ ∷ net) = stays_open net

stays_open-unread :
    (d : Bytes) (net : List Arrival) → stays_open net ≡ true → stays_open (unread d net) ≡ true
unfolding stays_open
stays_open-unread [] net h = h
stays_open-unread (c ∷ s) net h = h

-- The frame is in and `more` is left; or the bytes so far are kept, and they are not all of it.
abbrev pub Assembled : Frame → Bytes → Progress × Assembly × List Arrival → Type 0
Assembled f more (frame_in, st, net) = Complete f st × (st.rbuf ++ stream net ≡ more)
Assembled f more (waits, st, net) =
    Stage f st
    × (pending st ++ stream net ≡ frame_bytes f ++ more)
    × (length (pending st) < 16 + length f.body)
Assembled f more (dead, st, net) = ⊥

-- Bytes that move from the net into the frame, or into an empty buffer
moved : (h b x d s : Bytes) → (h ++ (b ++ x)) ++ (d ++ s) ≡ (h ++ b) ++ ((x ++ d) ++ s)
moved h b x d s =
    ap (λ t. t ++ (d ++ s)) (sym (append_assoc h b x))
    ∙ append_assoc (h ++ b) x (d ++ s)
    ∙ ap (λ t. (h ++ b) ++ t) (sym (append_assoc x d s))

module _ (f : Frame) (more : Bytes) (st : Assembly) (stage : Stage f st)
    (empty : st.rbuf ≡ []) where
  -- A full frame, and one that is not
  full-Complete :
      (s : Bytes)
      → pending st ++ s ≡ frame_bytes f ++ more
      → is_full st ≡ true
      → Complete f st × (st.rbuf ++ s ≡ more)
  unfolding is_full
  full-Complete s total full = elim stage [
    | in_header inside none_yet ↦ absurd (ground (arith, inside, full))
    | in_body h c b within ↦
        let size : length st.frame_body ≡ length f.body = ground (arith, full, b) in
        let (same, behind) =
          append-cancel st.frame_body f.body (st.rbuf ++ s) more size
            (body_total f more s st h total) in
        ((h, c, b, same), behind)
  ]

  not_full-short : is_full st ≡ false → length (pending st) < 16 + length f.body
  unfolding is_full
  not_full-short open_end = elim stage [
    | in_header inside none_yet ↦
        rw (none_yet, empty) (omega (arith, inside, ap length (append-nil st.hdr)))
    | in_body h c b within ↦
        let size : length st.hdr ≡ 16 = ap length h ∙ length-header_of f in
        let less : length st.frame_body < length f.body =
          ground (arith, open_end, size, b, within) in
        omega (
          arith,
          size,
          less,
          length-append st.hdr (st.frame_body ++ st.rbuf),
          length-append st.frame_body st.rbuf,
          ap length empty,
        )
  ]

length-take-le : (n : ℕ) (a : Bytes) → length (take n a) ≤ n
length-take-le zero a = omega arith
length-take-le (suc n) [] = omega arith
length-take-le (suc n) (c ∷ a) = omega (arith, length-take-le n a)

Stage-rbuf : (f : Frame) (st : Assembly) (s : Bytes) → Stage f st → Stage f (record st { rbuf = s })
Stage-rbuf f st s (in_header inside none_yet) = in_header inside none_yet
Stage-rbuf f st s (in_body h c b within) = in_body h c b within

-- The bytes of a read into the frame, or into the buffer, are none lost.
direct_total :
    (st : Assembly) (x d : Bytes) (net : List Arrival)
    → st.rbuf ≡ []
    → pending (record st { frame_body = st.frame_body ++ x }) ++ stream (unread d net)
      ≡ pending st ++ ((x ++ d) ++ stream net)
direct_total st x d net empty =
    let s = stream net in
    rw (empty, append-nil (st.frame_body ++ x), append-nil st.frame_body, stream-unread d net)
      (moved st.hdr st.frame_body x d s)

buffer_total :
    (st : Assembly) (x d : Bytes) (net : List Arrival)
    → st.rbuf ≡ []
    → pending (record st { rbuf = x }) ++ stream (unread d net)
      ≡ pending st ++ ((x ++ d) ++ stream net)
buffer_total st x d net empty =
    let s = stream net in
    rw (empty, append-nil st.frame_body, stream-unread d net) (moved st.hdr st.frame_body x d s)

module _ (f : Frame) (more : Bytes) (again : Again) (w : ℕ)
    (ih : (st : Assembly) (net : List Arrival)
      → Stage f st
      → pending st ++ stream net ≡ frame_bytes f ++ more
      → stays_open net ≡ true
      → weight net < w
      → Assembled f more (again st net)) where
  direct-Assembled :
      (st : Assembly) (c : ℕ) (s : Bytes) (net : List Arrival)
      → Stage f st
      → st.rbuf ≡ []
      → is_direct st ≡ true
      → pending st ++ ((c ∷ s) ++ stream net) ≡ frame_bytes f ++ more
      → stays_open net ≡ true
      → weight (arrive c s ∷ net) < suc w
      → Assembled f more (
          after_bytes again true st
            (take (st.body_len - length st.frame_body) (c ∷ s))
            (unread (drop (st.body_len - length st.frame_body) (c ∷ s)) net))
  unfolding weight is_full
  direct-Assembled st c s net stage empty direct total on light = elim stage [
    | in_header inside none_yet ↦ absurd (ground (arith, inside, direct))
    | in_body h k b within ↦
        let a = c ∷ s in
        let n = st.body_len - length st.frame_body in
        let x = take n a in
        let d = drop n a in
        let st' : Assembly = record st { frame_body = st.frame_body ++ x } in
        let far = unread d net in
        let total' =
          direct_total st x d net empty
          ∙ ap (λ t. pending st ++ (t ++ stream net)) (append-take-drop n a)
          ∙ total in
        let stage' : Stage f st' =
          in_body h k b
            (omega (arith, length-append st.frame_body x, length-take-le n a, b, within)) in
        let large : 1 ≤ n = ground (arith, direct) in
        let less : weight far < w =
          omega (arith, weight-unread d net, length-drop n a, large, light) in
        elim (Bool-cases (length st'.frame_body == st'.body_len)) [
          | inl full ↦
              let same : after_bytes again true st x far ≡ (frame_in, st', far) =
                ap (λ q. if q then (frame_in, st', far) else again st' far) full in
              let is_in : is_full st' ≡ true =
                ground (arith, full, ap length h, length-header_of f) in
              subst (Assembled f more) (sym same)
                (full-Complete f more st' stage' empty (stream far) total' is_in)
          | inr part ↦
              let same : after_bytes again true st x far ≡ again st' far =
                ap (λ q. if q then (frame_in, st', far) else again st' far) part in
              subst (Assembled f more) (sym same)
                (ih st' far stage' total' (stays_open-unread d net on) less)
        ]
  ]

  read_more-Assembled :
      (st : Assembly) (net : List Arrival)
      → Stage f st
      → st.rbuf ≡ []
      → is_full st ≡ false
      → pending st ++ stream net ≡ frame_bytes f ++ more
      → stays_open net ≡ true
      → weight net < suc w
      → Assembled f more (read_more again st net)
  unfolding sock_read stays_open weight
  read_more-Assembled st [] stage empty part total on light =
      (stage, total, not_full-short f more st stage empty part)
  read_more-Assembled st (arrive c s ∷ net) stage empty part total on light =
      let a = c ∷ s in
      let step : Bool → Progress × Assembly × List Arrival = λ q.
        after_bytes again q st (take (read_size q st) a) (unread (drop (read_size q st) a) net) in
      elim (Bool-cases (is_direct st)) [
        | inl direct ↦
            subst (Assembled f more) (sym (ap step direct))
              (direct-Assembled st c s net stage empty direct total on light)
        | inr small ↦
            let x = take rbuf_size a in
            let d = drop rbuf_size a in
            let total' =
              buffer_total st x d net empty
              ∙ ap (λ t. pending st ++ (t ++ stream net)) (append-take-drop rbuf_size a)
              ∙ total in
            subst (Assembled f more) (sym (ap step small)) (
              ih (record st { rbuf = x }) (unread d net) (Stage-rbuf f st x stage) total'
                (stays_open-unread d net on)
                (omega (arith, weight-unread d net, length-drop rbuf_size a, light)))
      ]
  read_more-Assembled st (not_yet ∷ net) stage empty part total on light =
      (stage, total, not_full-short f more st stage empty part)
  read_more-Assembled st (interrupted ∷ net) stage empty part total on light =
      ih st net stage total on (omega (arith, light))
  read_more-Assembled st (closed ∷ net) stage empty part total on light =
      absurd (ground (arith, on))
  read_more-Assembled st (broken ∷ net) stage empty part total on light =
      absurd (ground (arith, on))
  read_more-Assembled st (timed_out ∷ net) stage empty part total on light =
      ih st net stage total on (omega (arith, light))

  after_consume-Assembled :
      (pr : Progress) (st : Assembly) (net : List Arrival)
      → Consumed f more (stream net) (pr, st)
      → stays_open net ≡ true
      → weight net < suc w
      → Assembled f more (after_consume again (pr, st) net)
  after_consume-Assembled frame_in st net done on light = done
  after_consume-Assembled dead st net done on light = absurd done
  after_consume-Assembled waits st net (stage, total, empty) on light =
      let next = read_more again st net in
      elim (Bool-cases (is_full st)) [
        | inl full ↦
            subst (Assembled f more) (sym (ap (λ q. if q then (frame_in, st, net) else next) full))
              (full-Complete f more st stage empty (stream net) total full)
        | inr part ↦
            subst (Assembled f more) (sym (ap (λ q. if q then (frame_in, st, net) else next) part))
              (read_more-Assembled st net stage empty part total on light)
      ]

-- A call of frameAssemble on its way to a frame, while the peer keeps the connection open, with
-- memory and fuel for the arrivals: either the frame is in, unchanged, and what follows it is left;
-- or the call waits, no byte is lost, doubled or moved, and the bytes read are not all of the frame.
-- Of a body of at most 64 megabytes, with a correlation of 32 bits.
pub frame_assemble-Assembled :
    (fuel : ℕ) (f : Frame) (more : Bytes) (st : Assembly) (net : List Arrival)
    → f.correlation < 2 ^ 32
    → length f.body ≤ frame_max
    → Stage f st
    → pending st ++ stream net ≡ frame_bytes f ++ more
    → stays_open net ≡ true
    → weight net < fuel
    → Assembled f more (frame_assemble fuel true st net)
unfolding frame_assemble
frame_assemble-Assembled zero f more st net c l stage total on light = absurd (omega (arith, light))
frame_assemble-Assembled (suc fuel) f more st net c l stage total on light =
    let used = consume true st in
    after_consume-Assembled f more (λ st' net'. frame_assemble fuel true st' net') fuel
      (λ st' net' stage' total' on' light'.
        frame_assemble-Assembled fuel f more st' net' c l stage' total' on' light')
      used.0 used.1 net (consume-Consumed f more (stream net) st c l total stage) on light

-- A frame that is in, taken: it is the frame that was sent, and the assembly is at the start of any
-- next one, with what was read behind the frame.
pub frame_take-Complete :
    (f g : Frame) (st : Assembly)
    → f.correlation < 2 ^ 32
    → length f.body ≤ frame_max
    → Complete f st
    → ((frame_take st).0 ≡ f) × Stage g (frame_take st).1 × (pending (frame_take st).1 ≡ st.rbuf)
unfolding frame_take
frame_take-Complete f g st c l (h, k, b, same) =
    let (magic, type, correlation, len) =
      header_lem f.frame_type f.correlation (length f.body) c (omega (arith, l)) in
    let is_type = ap header_type h ∙ type in
    (
      λ i. record { frame_type = is_type i; correlation = k i; body = same i },
      in_header (omega arith) refl,
      refl,
    )
