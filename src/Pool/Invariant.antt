-- ===== src/Pool/Invariant.antt =====
-- The pool's counts are right, its buckets hold what belongs there, and no bucket is too full.
use cor_rest.Base.{
  leb, ◌==◌, if◌then◌else◌, ==→eq, Bool-cases, Option-cases, Bytes, length, All, ℕ, zero, suc, ◌+◌,
  ◌-◌, ◌≤◌, ◌<◌, ◌≡◌, refl, sym, ap, subst, ◌≢◌, inl, inr, Bool, true, false, not, ◌||◌, Option,
  none, some, List, [], ◌∷◌, arith,
}
use cor_rest.Pool.{
  pool_buckets, bucket_hash, conn_match, is_expired, keep_before, unlink, set_bucket, take_out,
  dispose, evict_expired, pool_init, conn_is_alive, get_found, get_locked, pool_get, is_open,
  pool_put, Conn, Bucket, ClientPool, Event, Peek,
}

-- The sum of the counts of the first n buckets.
abbrev pub count_sum : ℕ → (ℕ → Bucket) → ℕ
count_sum zero b = 0
count_sum (suc n) b = count_sum n b + (b n).count

-- An idle connection stands in the bucket of its host, and has a socket.
abbrev pub BelongsTo : ℕ → Conn → Type 0
BelongsTo k c = (bucket_hash c.host c.port c.tls ≡ k) × (c.fd ≢ none)

pub record IsValid (p : ClientPool) : Type 0 where
  pub counts : (k : ℕ) → (p.buckets k).count ≡ length (p.buckets k).conns
  pub limit : (k : ℕ) → (p.buckets k).count ≤ p.max_idle_per_host
  pub total : p.total_idle ≡ count_sum pool_buckets p.buckets
  pub placed : (k : ℕ) → All (BelongsTo k) (p.buckets k).conns

count_sum_out :
    (n k : ℕ) (v : Bucket) (b : ℕ → Bucket)
    → n ≤ k
    → count_sum n (λ j. if j == k then v else b j) ≡ count_sum n b
count_sum_out zero k v b h = refl
count_sum_out (suc n) k v b h = ground (arith, count_sum_out n k v b)

count_sum_in :
    (n k : ℕ) (v : Bucket) (b : ℕ → Bucket)
    → k < n
    → count_sum n (λ j. if j == k then v else b j) + (b k).count ≡ count_sum n b + v.count
count_sum_in zero k v b h = absurd (omega arith)
count_sum_in (suc n) k v b h = elim (Bool-cases (n == k)) [
  | inl e ↦ ground (arith, count_sum_out n k v b)
  | inr e ↦ ground (arith, count_sum_in n k v b)
]

bucket_hash-lt : (host : Bytes) (port : ℕ) (tls : Bool) → bucket_hash host port tls < 64
unfolding bucket_hash
bucket_hash-lt host port tls = omega arith

-- What is left of a chain when a connection is taken out of it.
pub record Unlinks (test : Conn → Bool) (k : ℕ) (cs : List Conn) (c : Conn) (ds : List Conn)
    : Type 0 where
  pub passes : test c ≡ true
  pub shorter : length cs ≡ suc (length ds)
  pub belongs : BelongsTo k c
  pub others : All (BelongsTo k) ds

Unlinks-cons :
    (test : Conn → Bool) (k : ℕ) (x : Conn) (cs : List Conn) (o : Option (Conn × List Conn))
    (c : Conn) (ds : List Conn)
    → BelongsTo k x
    → ((d : Conn) (es : List Conn) → o ≡ some (d, es) → Unlinks test k cs d es)
    → keep_before x o ≡ some (c, ds)
    → Unlinks test k (x ∷ cs) c ds
Unlinks-cons test k x cs none c ds hx ih e = absurd (ground arith)
Unlinks-cons test k x cs (some (d, es)) c ds hx ih e =
    let u = ih d es refl in
    let same : d ≡ c = ground arith in
    let rest : x ∷ es ≡ ds = ground arith in
    record {
      passes = subst (λ z. test z ≡ true) same u.passes;
      shorter = omega (arith, u.shorter, ap length rest);
      belongs = subst (BelongsTo k) same u.belongs;
      others = subst (All (BelongsTo k)) rest (hx, u.others);
    }

pub unlink-Unlinks :
    (test : Conn → Bool) (k : ℕ) (cs : List Conn) (c : Conn) (ds : List Conn)
    → All (BelongsTo k) cs
    → unlink test cs ≡ some (c, ds)
    → Unlinks test k cs c ds
unfolding unlink
unlink-Unlinks test k [] c ds h e = absurd (ground arith)
unlink-Unlinks test k (x ∷ cs) c ds h e = elim (Bool-cases (test x)) [
  | inl hit ↦
      let same : x ≡ c = ground arith in
      let rest : cs ≡ ds = ground arith in
      record {
        passes = subst (λ z. test z ≡ true) same hit;
        shorter = omega (arith, ap length rest);
        belongs = subst (BelongsTo k) same h.0;
        others = subst (All (BelongsTo k)) rest h.1;
      }
  | inr miss ↦
      Unlinks-cons test k x cs (unlink test cs) c ds h.0
        (λ d es p. unlink-Unlinks test k cs d es h.1 p) (rw miss at e)
]

module _ (p : ClientPool) (v : IsValid p) (k : ℕ) (in_range : k < pool_buckets) where
  -- Changing one bucket, with the total kept in step.
  set_bucket-IsValid :
      (b : Bucket) (total : ℕ)
      → b.count ≡ length b.conns
      → b.count ≤ p.max_idle_per_host
      → All (BelongsTo k) b.conns
      → total + (p.buckets k).count ≡ p.total_idle + b.count
      → IsValid (record (set_bucket k b p) { total_idle = total })
  unfolding set_bucket
  set_bucket-IsValid b total c l a t = record {
    counts = λ j. ground (arith, v.counts j);
    limit = λ j. ground (arith, v.limit j);
    total = omega (arith, count_sum_in pool_buckets k b p.buckets in_range, v.total);
    placed = λ j. elim (Bool-cases (j == k)) [
      | inl e ↦ rw e (subst (λ i. All (BelongsTo i) b.conns) (sym (==→eq j k e)) a)
      | inr e ↦ rw e (v.placed j)
    ];
  }

  take_out-IsValid :
      (test : Conn → Bool) (c : Conn) (ds : List Conn)
      → unlink test (p.buckets k).conns ≡ some (c, ds)
      → IsValid (take_out k ds p)
  unfolding take_out
  take_out-IsValid test c ds e =
      let u = unlink-Unlinks test k (p.buckets k).conns c ds (v.placed k) e in
      set_bucket-IsValid (record { conns = ds; count = (p.buckets k).count - 1 }) (p.total_idle - 1)
        (omega (arith, u.shorter, v.counts k)) (omega (arith, v.limit k)) u.others
        (omega (
          arith,
          u.shorter,
          v.counts k,
          v.total,
          count_sum_in pool_buckets k (record { conns = ds; count = (p.buckets k).count - 1 })
              p.buckets in_range,
        ))

  evict_expired-IsValid : (now : ℕ) → IsValid (evict_expired k now p).0
  unfolding evict_expired
  evict_expired-IsValid now =
      elim (Option-cases (unlink (is_expired now p.idle_timeout_sec) (p.buckets k).conns)) [
        | inl e ↦ rw (e, evict_expired) v
        | inr ((c, ds), e) ↦
            rw (e, evict_expired) (take_out-IsValid (is_expired now p.idle_timeout_sec) c ds e)
      ]

get_found-IsValid :
    (peek : ℕ → Peek) (test : Conn → Bool) (k : ℕ) (p : ClientPool) (ev : List Event)
    (o : Option (Conn × List Conn))
    → IsValid p
    → k < pool_buckets
    → unlink test (p.buckets k).conns ≡ o
    → IsValid (get_found peek k p ev o).0
unfolding get_found
get_found-IsValid peek test k p ev none v h e = v
get_found-IsValid peek test k p ev (some (c, cs)) v h e =
    elim (Bool-cases (conn_is_alive peek c.fd)) [
      | inl alive ↦ rw alive (take_out-IsValid p v k h test c cs e)
      | inr dead ↦ rw dead (take_out-IsValid p v k h test c cs e)
    ]

if_IsValid :
    {B : Type 0} (b : Bool) (x y : ClientPool × B)
    → (b ≡ true → IsValid x.0)
    → (b ≡ false → IsValid y.0)
    → IsValid (if b then x else y).0
if_IsValid true x y h k = h refl
if_IsValid false x y h k = k refl

get_if-IsValid :
    (b : Bool) (x y : ClientPool × Option Conn × List Event)
    → IsValid x.0
    → IsValid y.0
    → IsValid (if b then x else y).0
get_if-IsValid true x y h k = h
get_if-IsValid false x y h k = k

pool_get-IsValid :
    (peek : ℕ → Peek) (host : Bytes) (port : ℕ) (tls : Bool) (now : ℕ) (p : ClientPool)
    → IsValid p
    → IsValid (pool_get peek host port tls now p).0
unfolding pool_get get_locked
pool_get-IsValid peek host port tls now p v =
    let k = bucket_hash host port tls in
    let q = evict_expired k now p in
    get_if-IsValid (not p.inited) (p, none, []) (get_locked peek host port tls now p) v
      (get_found-IsValid peek (λ c. conn_match c host port tls) k q.0 q.1 _
        (evict_expired-IsValid p v k (bucket_hash-lt host port tls) now)
        (bucket_hash-lt host port tls) refl)

pool_put-IsValid :
    (c : Option Conn) (now : ℕ) (p : ClientPool) → IsValid p → IsValid (pool_put c now p).0
unfolding pool_put
pool_put-IsValid none now p v = v
pool_put-IsValid (some c) now p v =
    let k = bucket_hash c.host c.port c.tls in
    let kept = record c { buf_len = 0; last_used = now } in
    if_IsValid (not p.inited || not (is_open c.fd)) (p, dispose c) _ (λ _. v)
      λ open'.
        if_IsValid (leb p.max_idle_per_host (p.buckets k).count) (p, dispose c) _ (λ _. v)
          λ room.
            set_bucket-IsValid p v k (bucket_hash-lt c.host c.port c.tls)
              (record { conns = kept ∷ (p.buckets k).conns; count = (p.buckets k).count + 1 })
              (p.total_idle + 1) (omega (arith, v.counts k)) (ground arith)
              ((refl, ground arith), v.placed k) (omega arith)

-- The operations that a client can run, in any order.
pub data Step : ClientPool → ClientPool → Type 0 where
  gets :
      (p : ClientPool) (peek : ℕ → Peek) (host : Bytes) (port : ℕ) (tls : Bool) (now : ℕ)
      → Step p (pool_get peek host port tls now p).0
  puts : (p : ClientPool) (c : Option Conn) (now : ℕ) → Step p (pool_put c now p).0

pub data Reach (p : ClientPool) : ClientPool → Type 0 where
  here : Reach p p
  next : {q r : ClientPool} → Reach p q → Step q r → Reach p r

-- From any pool that pool_init makes, whatever gets and puts follow: each count is the length of its
-- bucket's chain and at most the limit, the total is the sum of the counts, and each idle connection
-- has a socket and stands in the bucket of its host, port and TLS flag.
pub Reach-IsValid :
    (mutex_ok was : Bool) (max timeout : ℕ) {p : ClientPool}
    → Reach (pool_init mutex_ok max timeout was).0 p
    → IsValid p
Reach-IsValid mutex_ok was max timeout here =
    unfold pool_init in
    record { counts = λ k. refl; limit = λ k. omega arith; total = refl; placed = λ k. tt }
Reach-IsValid mutex_ok was max timeout (next r (gets p peek host port tls now)) =
    pool_get-IsValid peek host port tls now p (Reach-IsValid mutex_ok was max timeout r)
Reach-IsValid mutex_ok was max timeout (next r (puts p c now)) =
    pool_put-IsValid c now p (Reach-IsValid mutex_ok was max timeout r)
