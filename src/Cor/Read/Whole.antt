-- ===== src/Cor/Read/Whole.antt =====
-- A blocking read gets its bytes however they arrive.
use mathlib.Core.List.{append_assoc, append-nil}
use cor_rest.Base.{
  ltb, leb, if◌then◌else◌, Bool-cases, Bytes, length, take, drop, length-append, append-take-drop,
  length-drop, length-take, ℕ, zero, suc, ◌+◌, ◌-◌, ◌≤◌, ◌<◌, ◌≡◌, refl, sym, ap, ◌∙◌, subst, inl,
  inr, Bool, true, false, not, ◌&&◌, List, [], ◌∷◌, ◌++◌, arith,
}
use cor_rest.Cor.{
  rbuf_size, smaller, unread, sock_read, stream, Arrival, arrive, not_yet, interrupted, closed,
  broken, timed_out,
}
use cor_rest.Cor.Read.{Round, after_got, conn_read, ReadEnd, complete, too_late, failed}

-- Nothing arrives that ends a read.
abbrev pub flows_on : Bool → Arrival → Bool
flows_on timed (arrive c s) = true
flows_on timed not_yet = timed
flows_on timed interrupted = true
flows_on timed closed = false
flows_on timed broken = false
flows_on timed timed_out = not timed

unfoldable pub flows : Bool → List Arrival → Bool
flows timed [] = true
flows timed (a ∷ net) = flows_on timed a && flows timed net

-- The rounds that the arrivals take, at most
unfoldable pub weight : List Arrival → ℕ
weight [] = 0
weight (arrive c s ∷ net) = 2 + length s + weight net
weight (_ ∷ net) = 1 + weight net

pub take-rest :
    (n : ℕ) (a s : Bytes)
    → take n a ++ take (n - length (take n a)) (drop n a ++ s) ≡ take n (a ++ s)
take-rest zero a s = refl
take-rest (suc n) [] s = let e : suc n - 0 ≡ suc n = omega arith in ap (λ k. take k s) e
take-rest (suc n) (c ∷ a) s =
    let e : suc n - suc (length (take n a)) ≡ n - length (take n a) = omega arith in
    ap (λ t. c ∷ t) (ap (λ k. take n a ++ take k (drop n a ++ s)) e ∙ take-rest n a s)

pub drop-rest :
    (n : ℕ) (a s : Bytes) → drop (n - length (take n a)) (drop n a ++ s) ≡ drop n (a ++ s)
drop-rest zero a s = refl
drop-rest (suc n) [] s = let e : suc n - 0 ≡ suc n = omega arith in ap (λ k. drop k s) e
drop-rest (suc n) (c ∷ a) s =
    let e : suc n - suc (length (take n a)) ≡ n - length (take n a) = omega arith in
    ap (λ k. drop k (drop n a ++ s)) e ∙ drop-rest n a s

pub stream-unread : (d : Bytes) (net : List Arrival) → stream (unread d net) ≡ d ++ stream net
stream-unread [] net = refl
stream-unread (c ∷ s) net = refl

pub weight-unread :
    (d : Bytes) (net : List Arrival) → weight (unread d net) ≤ 1 + length d + weight net
unfolding weight
weight-unread [] net = omega arith
weight-unread (c ∷ s) net = omega arith

pub flows-unread :
    (timed : Bool) (d : Bytes) (net : List Arrival)
    → flows timed net ≡ true
    → flows timed (unread d net) ≡ true
unfolding flows
flows-unread timed [] net h = h
flows-unread timed (c ∷ s) net h = h

-- A read of n bytes behind `out`, with `all` to come: they are read, the rest is still to come.
abbrev pub Whole : Bool → ℕ → Bytes → Bytes → ℕ → ReadEnd × Bytes × List Arrival → Type 0
Whole timed n out all w r =
    (r.0 ≡ complete (out ++ take n all))
    × (r.1 ++ stream r.2 ≡ drop n all)
    × (flows timed r.2 ≡ true)
    × (weight r.2 ≤ w)

-- What was read first, put in front.
advance :
    (timed : Bool) (n : ℕ) (out a s : Bytes) (w w' : ℕ) (r : ReadEnd × Bytes × List Arrival)
    → w ≤ w'
    → Whole timed (n - length (take n a)) (out ++ take n a) (drop n a ++ s) w r
    → Whole timed n out (a ++ s) w' r
advance timed n out a s w w' r less (done, left, on, light) = (
  done
      ∙ ap complete (
          append_assoc out (take n a) (take (n - length (take n a)) (drop n a ++ s))
          ∙ ap (λ t. out ++ t) (take-rest n a s)),
  left ∙ drop-rest n a s,
  on,
  omega (arith, less, light),
)

pub take-all : (a : Bytes) → (take (length a) a ≡ a) × (drop (length a) a ≡ [])
take-all [] = (refl, refl)
take-all (c ∷ a) = let (t, d) = take-all a in (ap (λ x. c ∷ x) t, d)

take-more : (n : ℕ) (a : Bytes) → length a ≤ n → (take n a ≡ a) × (drop n a ≡ [])
take-more zero [] h = (refl, refl)
take-more (suc n) [] h = (refl, refl)
take-more zero (c ∷ a) h = absurd (omega arith)
take-more (suc n) (c ∷ a) h =
    let (t, d) = take-more n a (omega (arith, h)) in (ap (λ x. c ∷ x) t, d)

pub smaller-take :
    (n : ℕ) (a : Bytes)
    → (take (smaller n a) a ≡ take n a)
      × (drop (smaller n a) a ≡ drop n a)
      × (smaller n a ≡ length (take n a))
smaller-take n a = elim (Bool-cases (ltb (length a) n)) [
  | inl short ↦
      let h : length a ≤ n = ground (arith, short) in
      let (t, d) = take-more n a h in
      rw short ((take-all a).0 ∙ sym t, (take-all a).1 ∙ sym d, ap length (sym t))
  | inr long ↦
      let h : n ≤ length a = ground (arith, long) in rw long (refl, refl, sym (length-take n a h))
]

-- Moving on to a state that is no further than the one before
relax :
    (timed : Bool) (n : ℕ) (out all all' : Bytes) (w w' : ℕ) (r : ReadEnd × Bytes × List Arrival)
    → all ≡ all'
    → w ≤ w'
    → Whole timed n out all w r
    → Whole timed n out all' w' r
relax timed n out all all' w w' r e less (done, left, on, light) = (
  done ∙ ap (λ a. complete (out ++ take n a)) e,
  left ∙ ap (drop n) e,
  on,
  omega (arith, less, light),
)

pub take-drop-length : (n : ℕ) (a : Bytes) → length (take n a) + length (drop n a) ≡ length a
take-drop-length n a = sym (length-append (take n a) (drop n a)) ∙ ap length (append-take-drop n a)

-- What is still wanted is still there.
enough_left :
    (n : ℕ) (a s : Bytes) → n ≤ length (a ++ s) → n - length (take n a) ≤ length (drop n a ++ s)
enough_left n a s h =
    omega (arith, h, length-append a s, length-append (drop n a) s, take-drop-length n a)

pub conn_read-Whole :
    (fuel : ℕ) (timed : Bool) (n : ℕ) (out buf : Bytes) (net : List Arrival)
    → flows timed net ≡ true
    → n ≤ length (buf ++ stream net)
    → n + weight net < fuel
    → Whole timed n out (buf ++ stream net) (weight net) (conn_read fuel timed n out buf net)
unfolding conn_read sock_read flows weight
conn_read-Whole zero timed n out buf net on there enough = absurd (omega (arith, enough))
conn_read-Whole (suc fuel) timed zero out buf net on there enough =
    (ap complete (sym (append-nil out)), refl, on, omega arith)
conn_read-Whole (suc fuel) timed (suc n) out (c ∷ buf) net on there enough =
    let b = c ∷ buf in
    let (t, d, l) = smaller-take (suc n) b in
    let left = suc n - length (take (suc n) b) in
    let ih =
      conn_read-Whole fuel timed left (out ++ take (suc n) b) (drop (suc n) b) net on
        (enough_left (suc n) b (stream net) there) (omega (arith, enough)) in
    let k = smaller (suc n) b in
    let same : conn_read fuel timed (suc n - k) (out ++ take k b) (drop k b) net
        ≡ conn_read fuel timed left (out ++ take (suc n) b) (drop (suc n) b) net =
      λ i. conn_read fuel timed (suc n - l i) (out ++ t i) (d i) net in
    subst (λ r. Whole timed (suc n) out (b ++ stream net) (weight net) r) (sym same)
      (advance timed (suc n) out b (stream net) (weight net) (weight net) _ (omega arith) ih)
conn_read-Whole (suc fuel) timed (suc n) out [] [] on there enough = absurd (omega (arith, there))
conn_read-Whole (suc fuel) timed (suc n) out [] (arrive c s ∷ net) on there enough =
    let a = c ∷ s in
    let again : Round = λ n' out' buf' net'. conn_read fuel timed n' out' buf' net' in
    elim (Bool-cases (leb rbuf_size (suc n))) [
      | inl large ↦
          let far = unread (drop (suc n) a) net in
          let left = suc n - length (take (suc n) a) in
          let less = weight-unread (drop (suc n) a) net in
          let ih =
            conn_read-Whole fuel timed left (out ++ take (suc n) a) [] far
              (flows-unread timed (drop (suc n) a) net on)
              (subst (λ t. left ≤ length t) (sym (stream-unread (drop (suc n) a) net))
                (enough_left (suc n) a (stream net) there))
              (omega (arith, enough, less, length-drop n s)) in
          let step =
            relax timed left (out ++ take (suc n) a) (stream far) (drop (suc n) a ++ stream net)
              (weight far) (weight (arrive c s ∷ net)) _ (stream-unread (drop (suc n) a) net)
              (omega (arith, less, length-drop n s)) ih in
          let same : conn_read (suc fuel) timed (suc n) out [] (arrive c s ∷ net)
              ≡ conn_read fuel timed left (out ++ take (suc n) a) [] far =
            ap
              (λ w.
                after_got again w (suc n) out (take (if w then suc n else rbuf_size) a)
                  (unread (drop (if w then suc n else rbuf_size) a) net))
              large in
          subst (λ r. Whole timed (suc n) out (a ++ stream net) (weight (arrive c s ∷ net)) r)
            (sym same)
            (advance timed (suc n) out a (stream net) (weight (arrive c s ∷ net))
              (weight (arrive c s ∷ net)) _ (omega arith) step)
      | inr small ↦
          let far = unread (drop rbuf_size a) net in
          let near = take rbuf_size a in
          let all : near ++ stream far ≡ a ++ stream net =
            ap (λ t. near ++ t) (stream-unread (drop rbuf_size a) net)
            ∙ sym (append_assoc near (drop rbuf_size a) (stream net))
            ∙ ap (λ t. t ++ stream net) (append-take-drop rbuf_size a) in
          let less = weight-unread (drop rbuf_size a) net in
          let ih =
            conn_read-Whole fuel timed (suc n) out near far
              (flows-unread timed (drop rbuf_size a) net on)
              (subst (λ t. suc n ≤ length t) (sym all) there)
              (omega (arith, enough, less, length-drop rbuf_size a)) in
          let same : conn_read (suc fuel) timed (suc n) out [] (arrive c s ∷ net)
              ≡ conn_read fuel timed (suc n) out near far =
            ap
              (λ w.
                after_got again w (suc n) out (take (if w then suc n else rbuf_size) a)
                  (unread (drop (if w then suc n else rbuf_size) a) net))
              small in
          subst (λ r. Whole timed (suc n) out (a ++ stream net) (weight (arrive c s ∷ net)) r)
            (sym same)
            (relax timed (suc n) out (near ++ stream far) (a ++ stream net) (weight far)
              (weight (arrive c s ∷ net)) _ all (omega (arith, less, length-drop rbuf_size a)) ih)
    ]
conn_read-Whole (suc fuel) timed (suc n) out [] (not_yet ∷ net) on there enough =
    let may_wait : timed ≡ true = ground (arith, on) in
    let ih =
      conn_read-Whole fuel timed (suc n) out [] net (ground (arith, on)) there
        (omega (arith, enough)) in
    let same : conn_read (suc fuel) timed (suc n) out [] (not_yet ∷ net)
        ≡ conn_read fuel timed (suc n) out [] net =
      ap (λ b. if b then conn_read fuel timed (suc n) out [] net else (failed, [], net)) may_wait in
    subst (λ r. Whole timed (suc n) out (stream net) (weight (not_yet ∷ net)) r) (sym same)
      (relax timed (suc n) out (stream net) (stream net) _ _ _ refl (omega arith) ih)
conn_read-Whole (suc fuel) timed (suc n) out [] (interrupted ∷ net) on there enough =
    relax timed (suc n) out (stream net) (stream net) (weight net) (1 + weight net) _ refl
      (omega arith) (conn_read-Whole fuel timed (suc n) out [] net on there (omega (arith, enough)))
conn_read-Whole (suc fuel) timed (suc n) out [] (closed ∷ net) on there enough =
    absurd (ground (arith, on))
conn_read-Whole (suc fuel) timed (suc n) out [] (broken ∷ net) on there enough =
    absurd (ground (arith, on))
conn_read-Whole (suc fuel) timed (suc n) out [] (timed_out ∷ net) on there enough =
    let no_limit : timed ≡ false = ground (arith, on) in
    let ih =
      conn_read-Whole fuel timed (suc n) out [] net (ground (arith, on)) there
        (omega (arith, enough)) in
    let same : conn_read (suc fuel) timed (suc n) out [] (timed_out ∷ net)
        ≡ conn_read fuel timed (suc n) out [] net =
      ap (λ b. if b then (too_late, [], net) else conn_read fuel timed (suc n) out [] net)
        no_limit in
    subst (λ r. Whole timed (suc n) out (stream net) (weight (timed_out ∷ net)) r) (sym same)
      (relax timed (suc n) out (stream net) (stream net) _ _ _ refl (omega arith) ih)
