-- ===== src/Pool.antt =====
-- corRestClientPool.c, with the connection and pool types of corRestClient.h. Each function runs under
-- the pool's mutex, so it is one step on the pool; what it does to sockets and memory is a list of
-- events. A negative descriptor is `none`; a negative limit per host acts as 0 does.
pub mod Invariant
pub mod Reuse
pub mod Dropped
mod Tests
use cor_rest.Base.{
  ltb, leb, ◌==◌, if◌then◌else◌, Bytes, str_eq, ℕ, ◌+◌, ◌-◌, ◌*◌, ◌%◌, ◌^◌, Bool, true, false, not,
  ◌&&◌, ◌||◌, Option, none, some, List, [], ◌∷◌, ◌++◌,
}

-- The fields of CorRestClientConn that the pool reads or writes.
pub record Conn : Type 0 where
  pub fd : Option ℕ
  pub ssl : Option ℕ
  pub host : Bytes
  pub port : ℕ
  pub tls : Bool
  pub last_used : ℕ
  pub buf_len : ℕ

pub record Bucket : Type 0 where
  pub conns : List Conn
  pub count : ℕ

-- CorRestClientPool, and poolInited
pub record ClientPool : Type 0 where
  pub buckets : ℕ → Bucket
  pub max_idle_per_host : ℕ
  pub idle_timeout_sec : ℕ
  pub total_idle : ℕ
  pub inited : Bool

-- What is done to a connection that is given up.
pub data Event : Type 0 where
  tls_close : ℕ → Event
  close_fd : ℕ → Event
  free_conn : Conn → Event

abbrev pub pool_buckets : ℕ
pool_buckets = 64

unfoldable pub bucket_hash_from : ℕ → Bytes → ℕ
bucket_hash_from h [] = h
bucket_hash_from h (c ∷ s) = bucket_hash_from ((h * 33 + c) % 2 ^ 32) s

-- bucketHash
unfoldable pub bucket_hash : Bytes → ℕ → Bool → ℕ
bucket_hash host port tls =
    let h = (bucket_hash_from 5381 host * 33 + port) % 2 ^ 32 in
    (h * 33 + (if tls then 1 else 0)) % 2 ^ 32 % pool_buckets

unfoldable pub bool_eq : Bool → Bool → Bool
bool_eq true b = b
bool_eq false b = not b

-- connMatch
unfoldable pub conn_match : Conn → Bytes → ℕ → Bool → Bool
unfolding bool_eq
conn_match c host port tls = c.port == port && bool_eq c.tls tls && str_eq c.host host

-- (now - lastUsed) > secs * 1000, on uint64_t
unfoldable pub is_expired : ℕ → ℕ → Conn → Bool
is_expired now secs c = ltb (secs * 1000 % 2 ^ 64) ((now + 2 ^ 64 - c.last_used) % 2 ^ 64)

abbrev pub keep_before : Conn → Option (Conn × List Conn) → Option (Conn × List Conn)
keep_before c none = none
keep_before c (some (d, ds)) = some (d, c ∷ ds)

-- The first connection of a chain that passes a test, and the chain without it.
unfoldable pub unlink : (Conn → Bool) → List Conn → Option (Conn × List Conn)
unlink test [] = none
unlink test (c ∷ cs) =
    let rest = keep_before c (unlink test cs) in if test c then some (c, cs) else rest

unfoldable pub set_bucket : ℕ → Bucket → ClientPool → ClientPool
set_bucket k b p = record p { buckets = λ j. if j == k then b else p.buckets j }

-- A bucket without one of its connections, and the counts.
unfoldable pub take_out : ℕ → List Conn → ClientPool → ClientPool
unfolding set_bucket
take_out k cs p =
    let p' = set_bucket k (record { conns = cs; count = (p.buckets k).count - 1 }) p in
    record p' { total_idle = p.total_idle - 1 }

abbrev pub on_some {ℓ} : {A : Type ℓ} → Option ℕ → (ℕ → A) → List A
on_some none f = []
on_some (some a) f = f a ∷ []

-- Shut down, closed and freed.
unfoldable pub dispose : Conn → List Event
dispose c = on_some c.ssl tls_close ++ (on_some c.fd close_fd ++ free_conn c ∷ [])

-- evictExpired
unfoldable pub evict_expired : ℕ → ℕ → ClientPool → ClientPool × List Event
unfolding dispose
evict_expired k now p = elim (unlink (is_expired now p.idle_timeout_sec) (p.buckets k).conns) [
  | none ↦ (p, [])
  | some (c, cs) ↦ (take_out k cs p, dispose c)
]

-- corRestClientPoolInit; the flag says whether pthread_mutex_init worked, the answer is 0 or -1.
unfoldable pub pool_init : Bool → ℕ → ℕ → Bool → ClientPool × Bool
pool_init mutex_ok max timeout was = (
  record {
    buckets = λ k. record { conns = []; count = 0 };
    max_idle_per_host = max;
    idle_timeout_sec = timeout;
    total_idle = 0;
    inited = mutex_ok || was;
  },
  mutex_ok,
)

-- What a peek at a socket finds.
pub data Peek : Type 0 where
  end_of_file has_bytes would_block failed : Peek

-- connIsAlive
unfoldable pub conn_is_alive : (ℕ → Peek) → Option ℕ → Bool
conn_is_alive peek none = false
conn_is_alive peek (some fd) = elim (peek fd) [ would_block ↦ true | _ ↦ false ]

-- A connection that the peer has closed is dropped.
unfoldable pub drop_dead : Conn → List Event
drop_dead c = on_some c.fd close_fd ++ free_conn c ∷ []

-- What corRestClientPoolGet does with what the walk along bucket `k` found.
unfoldable pub get_found :
    (ℕ → Peek)
    → ℕ
    → ClientPool
    → List Event
    → Option (Conn × List Conn)
    → ClientPool × Option Conn × List Event
unfolding drop_dead
get_found peek k p evicted none = (p, none, evicted)
get_found peek k p evicted (some (c, cs)) =
    if conn_is_alive peek c.fd
    then (take_out k cs p, some c, evicted)
    else (take_out k cs p, none, evicted ++ drop_dead c)

-- The locked part of corRestClientPoolGet, on the bucket of the host.
unfoldable pub get_locked :
    (ℕ → Peek) → Bytes → ℕ → Bool → ℕ → ClientPool → ClientPool × Option Conn × List Event
get_locked peek host port tls now p =
    let k = bucket_hash host port tls in
    let (p', evicted) = evict_expired k now p in
    get_found peek k p' evicted (unlink (λ c. conn_match c host port tls) (p'.buckets k).conns)

-- corRestClientPoolGet
unfoldable pub pool_get :
    (ℕ → Peek) → Bytes → ℕ → Bool → ℕ → ClientPool → ClientPool × Option Conn × List Event
pool_get peek host port tls now p =
    if not p.inited then (p, none, []) else get_locked peek host port tls now p

abbrev pub is_open : Option ℕ → Bool
is_open none = false
is_open (some fd) = true

-- corRestClientPoolPut; `none` is NULL.
unfoldable pub pool_put : Option Conn → ℕ → ClientPool → ClientPool × List Event
unfolding dispose set_bucket
pool_put none now p = (p, [])
pool_put (some c) now p =
    let k = bucket_hash c.host c.port c.tls in
    let b = p.buckets k in
    if not p.inited || not (is_open c.fd)
    then (p, dispose c)
    else if leb p.max_idle_per_host b.count
    then (p, dispose c)
    else let kept = record c { buf_len = 0; last_used = now } in
      let p' = set_bucket k (record { conns = kept ∷ b.conns; count = b.count + 1 }) p in
      (record p' { total_idle = p.total_idle + 1 }, [])
