-- ===== src/Cor/Assemble/Consume.antt =====
-- The buffer goes into the frame byte by byte.
use mathlib.Core.List.{append_assoc, append-nil}
use cor_rest.Base.{
  ltb, ◌==◌, ltb→lt, lt→ltb, Bool-cases, Bytes, length, take, drop, length-append, take-append,
  drop-append, append-take-drop, length-take, ◌-◌, ◌^◌, ◌≤◌, ◌<◌, ◌≡◌, refl, sym, ap, ◌∙◌, subst,
  inl, inr, true, false, [], ◌∷◌, ◌++◌, arith,
}
use cor_rest.Cor.{
  frame_max, le32, header_bytes, frame_bytes, header_correlation, header_len, has_magic, Frame,
}
use cor_rest.Cor.Read.Whole.{take-all}
use cor_rest.Cor.Read.RoundTrip.{header_lem}
use cor_rest.Cor.Assemble.{
  fill_body, check_header, consume, Assembly, Progress, frame_in, waits, dead,
}

-- All bytes that the connection has read of a frame, and behind it
abbrev pub pending : Assembly → Bytes
pending st = st.hdr ++ (st.frame_body ++ st.rbuf)

abbrev pub header_of : Frame → Bytes
header_of f = header_bytes f.frame_type f.correlation (length f.body)

-- On the way to a frame: in its header, or in its body.
pub data Stage (f : Frame) (st : Assembly) : Type 0 where
  in_header : length st.hdr < 16 → st.frame_body ≡ [] → Stage f st
  in_body :
      st.hdr ≡ header_of f
      → st.frame_correlation ≡ f.correlation
      → st.body_len ≡ length f.body
      → length st.frame_body ≤ length f.body
      → Stage f st

-- The frame is in, with `more` behind it.
abbrev pub Complete : Frame → Assembly → Type 0
Complete f st =
    (st.hdr ≡ header_of f)
    × (st.frame_correlation ≡ f.correlation)
    × (st.body_len ≡ length f.body)
    × (st.frame_body ≡ f.body)

-- Where the buffer's bytes lead, with the bytes `s` still to come.
abbrev pub Consumed : Frame → Bytes → Bytes → Progress × Assembly → Type 0
Consumed f more s (frame_in, st) = Complete f st × (st.rbuf ++ s ≡ more)
Consumed f more s (waits, st) =
    Stage f st × (pending st ++ s ≡ frame_bytes f ++ more) × (st.rbuf ≡ [])
Consumed f more s (dead, st) = ⊥

-- Two splits of a text at the same place
pub append-cancel : (a b x y : Bytes) → length a ≡ length b → a ++ x ≡ b ++ y → (a ≡ b) × (x ≡ y)
append-cancel a b x y l e = (
  sym (take-append a x) ∙ ap (take (length a)) e ∙ ap (λ n. take n (b ++ y)) l ∙ take-append b y,
  sym (drop-append a x) ∙ ap (drop (length a)) e ∙ ap (λ n. drop n (b ++ y)) l ∙ drop-append b y,
)

-- Behind the header
pub header-cancel :
    (f : Frame) (x more : Bytes) → header_of f ++ x ≡ frame_bytes f ++ more → x ≡ f.body ++ more
unfolding frame_bytes header_bytes le32
header-cancel f x more e = ap (drop 16) e

-- The buffer is too short for the rest of the body, or is not.
fill_body-short :
    (st : Assembly)
    → length st.rbuf < st.body_len - length st.frame_body
    → fill_body st ≡ (waits, record st { frame_body = st.frame_body ++ st.rbuf; rbuf = [] })
unfolding fill_body
fill_body-short st h =
    let short = lt→ltb _ _ h in
    let (t, d) = take-all st.rbuf in
    let open_end : length (st.frame_body ++ st.rbuf) == st.body_len ≡ false =
      ground (arith, h, length-append st.frame_body st.rbuf) in
    rw (short, t, d, open_end) refl

fill_body-long :
    (st : Assembly)
    → length st.frame_body ≤ st.body_len
    → st.body_len - length st.frame_body ≤ length st.rbuf
    → let n = st.body_len - length st.frame_body in
      fill_body st ≡ (
        frame_in,
        record st { frame_body = st.frame_body ++ take n st.rbuf; rbuf = drop n st.rbuf },
      )
unfolding fill_body
fill_body-long st within h =
    let n = st.body_len - length st.frame_body in
    let long : ltb (length st.rbuf) n ≡ false = ground (arith, h) in
    let closed_end : length (st.frame_body ++ take n st.rbuf) == st.body_len ≡ true =
      ground
        (arith, within, length-append st.frame_body (take n st.rbuf), length-take n st.rbuf h) in
    rw (long, closed_end) refl

-- The body and what follows, behind a header that is in
pub body_total :
    (f : Frame) (more s : Bytes) (st : Assembly)
    → st.hdr ≡ header_of f
    → pending st ++ s ≡ frame_bytes f ++ more
    → st.frame_body ++ (st.rbuf ++ s) ≡ f.body ++ more
body_total f more s st h total =
    sym (append_assoc st.frame_body st.rbuf s)
    ∙ header-cancel f ((st.frame_body ++ st.rbuf) ++ s) more (
        ap (λ x. x ++ ((st.frame_body ++ st.rbuf) ++ s)) (sym h)
        ∙ sym (append_assoc st.hdr (st.frame_body ++ st.rbuf) s)
        ∙ total)

fill_body-Consumed :
    (f : Frame) (more s : Bytes) (st : Assembly)
    → st.hdr ≡ header_of f
    → st.frame_correlation ≡ f.correlation
    → st.body_len ≡ length f.body
    → length st.frame_body ≤ length f.body
    → pending st ++ s ≡ frame_bytes f ++ more
    → Consumed f more s (fill_body st)
fill_body-Consumed f more s st h c b within total =
    let n = st.body_len - length st.frame_body in
    let rest = body_total f more s st h total in
    elim (Bool-cases (ltb (length st.rbuf) n)) [
      | inl short ↦
          let less : length st.rbuf < n = ltb→lt (length st.rbuf) n short in
          subst (Consumed f more s) (sym (fill_body-short st less)) (
            in_body h c b (omega (arith, less, b, within, length-append st.frame_body st.rbuf)),
            ap (λ t. (st.hdr ++ t) ++ s) (append-nil (st.frame_body ++ st.rbuf)) ∙ total,
            refl,
          )
      | inr long ↦
          let enough : n ≤ length st.rbuf = ground (arith, long) in
          let within' : length st.frame_body ≤ st.body_len = omega (arith, b, within) in
          let got = st.frame_body ++ take n st.rbuf in
          let size : length got ≡ length f.body = omega (
            arith,
            b,
            within,
            length-append st.frame_body (take n st.rbuf),
            length-take n st.rbuf enough,
          ) in
          let together : got ++ (drop n st.rbuf ++ s) ≡ f.body ++ more =
            append_assoc st.frame_body (take n st.rbuf) (drop n st.rbuf ++ s)
            ∙ ap (λ t. st.frame_body ++ t)
                (sym (append_assoc (take n st.rbuf) (drop n st.rbuf) s)
                  ∙ ap (λ t. t ++ s) (append-take-drop n st.rbuf))
            ∙ rest in
          let (same, behind) = append-cancel got f.body (drop n st.rbuf ++ s) more size together in
          subst (Consumed f more s) (sym (fill_body-long st within' enough))
            ((h, c, b, same), behind)
    ]

check_header-Consumed :
    (f : Frame) (more s : Bytes) (st : Assembly)
    → f.correlation < 2 ^ 32
    → length f.body ≤ frame_max
    → st.hdr ≡ header_of f
    → st.frame_body ≡ []
    → pending st ++ s ≡ frame_bytes f ++ more
    → Consumed f more s (check_header true st)
unfolding check_header
check_header-Consumed f more s st c l h empty total =
    let (magic, type, correlation, len) =
      header_lem f.frame_type f.correlation (length f.body) c (omega (arith, l)) in
    let fits : ltb frame_max (length f.body) ≡ false = ground (arith, l) in
    let opened : Assembly = record st {
      frame_correlation = header_correlation st.hdr;
      body_len = header_len st.hdr;
      frame_body = [];
    } in
    let go_on : check_header true st ≡ fill_body opened =
      rw (ap has_magic h ∙ magic, ap header_len h ∙ len, fits) refl in
    subst (Consumed f more s) (sym go_on) (
      fill_body-Consumed f more s opened h (ap header_correlation h ∙ correlation)
        (ap header_len h ∙ len) (omega arith)
        (ap (λ t. (st.hdr ++ (t ++ st.rbuf)) ++ s) (sym empty) ∙ total))

pub length-header_of : (f : Frame) → length (header_of f) ≡ 16
unfolding header_bytes le32
length-header_of f = refl

frame_bytes-front :
    (f : Frame) (more : Bytes) → frame_bytes f ++ more ≡ header_of f ++ (f.body ++ more)
unfolding frame_bytes
frame_bytes-front f more = append_assoc (header_of f) f.body more

no_bytes : (s : Bytes) → length s == 0 ≡ true → s ≡ []
no_bytes [] h = refl
no_bytes (c ∷ s) h = absurd (ground (arith, h))

module _ (f : Frame) (more s : Bytes) (st : Assembly) (c : f.correlation < 2 ^ 32)
    (l : length f.body ≤ frame_max) (total : pending st ++ s ≡ frame_bytes f ++ more) where
  -- In the header, with a buffer that is too short for the rest of it, or is not.
  header_short-Consumed :
      length st.rbuf == 0 ≡ false
      → length st.hdr < 16
      → st.frame_body ≡ []
      → length st.rbuf < 16 - length st.hdr
      → Consumed f more s (consume true st)
  unfolding consume
  header_short-Consumed filled inside empty short =
      let (t, d) = take-all st.rbuf in
      let still : length (st.hdr ++ st.rbuf) < 16 =
        omega (arith, short, inside, length-append st.hdr st.rbuf) in
      let after : Assembly = record st { hdr = st.hdr ++ st.rbuf; rbuf = [] } in
      let same : consume true st ≡ (waits, after) =
        rw (filled, lt→ltb _ _ inside, lt→ltb _ _ short, t, d, lt→ltb _ _ still) refl in
      subst (Consumed f more s) (sym same) (
        in_header still empty,
        ap (λ b. ((st.hdr ++ st.rbuf) ++ (b ++ [])) ++ s) empty
            ∙ ap (λ x. x ++ s) (append-nil (st.hdr ++ st.rbuf))
            ∙ ap (λ b. (st.hdr ++ (b ++ st.rbuf)) ++ s) (sym empty)
            ∙ total,
        refl,
      )

  header_long-Consumed :
      length st.rbuf == 0 ≡ false
      → length st.hdr < 16
      → st.frame_body ≡ []
      → 16 - length st.hdr ≤ length st.rbuf
      → Consumed f more s (consume true st)
  unfolding consume
  header_long-Consumed filled inside empty enough =
      let n = 16 - length st.hdr in
      let hdr = st.hdr ++ take n st.rbuf in
      let after : Assembly = record st { hdr = hdr; rbuf = drop n st.rbuf } in
      let size : length hdr ≡ 16 =
        omega
          (arith, inside, length-append st.hdr (take n st.rbuf), length-take n st.rbuf enough) in
      let long : ltb (length st.rbuf) n ≡ false = ground (arith, enough) in
      let whole : ltb (length hdr) 16 ≡ false = ground (arith, size) in
      let same : consume true st ≡ check_header true after =
        rw (filled, lt→ltb _ _ inside, long, whole) refl in
      let kept : pending after ++ s ≡ frame_bytes f ++ more =
        ap (λ b. (hdr ++ (b ++ drop n st.rbuf)) ++ s) empty
        ∙ ap (λ x. x ++ s)
            (append_assoc st.hdr (take n st.rbuf) (drop n st.rbuf)
              ∙ ap (λ x. st.hdr ++ x) (append-take-drop n st.rbuf))
        ∙ ap (λ b. (st.hdr ++ (b ++ st.rbuf)) ++ s) (sym empty)
        ∙ total in
      let (is_header, behind) =
        append-cancel hdr (header_of f) ((st.frame_body ++ drop n st.rbuf) ++ s) (f.body ++ more)
          (size ∙ sym (length-header_of f))
          (sym (append_assoc hdr (st.frame_body ++ drop n st.rbuf) s)
            ∙ kept
            ∙ frame_bytes-front f more) in
      subst (Consumed f more s) (sym same)
        (check_header-Consumed f more s after c l is_header empty kept)

  pub consume-Consumed : Stage f st → Consumed f more s (consume true st)
  unfolding consume
  consume-Consumed stage = elim (Bool-cases (length st.rbuf == 0)) [
    | inl nothing ↦ rw nothing (stage, total, no_bytes st.rbuf nothing)
    | inr filled ↦ elim stage [
      | in_header inside empty ↦ elim (Bool-cases (ltb (length st.rbuf) (16 - length st.hdr))) [
        | inl short ↦ header_short-Consumed filled inside empty (ltb→lt _ _ short)
        | inr long ↦ header_long-Consumed filled inside empty (ground (arith, long))
      ]
      | in_body h k b within ↦
          let behind : ltb (length st.hdr) 16 ≡ false =
            ground (arith, ap length h, length-header_of f) in
          rw (filled, behind) (fill_body-Consumed f more s st h k b within total)
    ]
  ]
