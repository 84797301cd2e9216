-- ===== src/Pool/Reuse.antt =====
-- What a get answers, and that a connection that was put back is found again.
use cor_rest.Base.{
  leb, ==_self, Bool-cases, Option-cases, Bytes, str_eq_iff, str_eq_self, ℕ, ◌+◌, ◌<◌, ◌≡◌, refl,
  subst, inl, inr, Bool, true, false, Option, none, some, List, [], ◌∷◌, arith,
}
use cor_rest.Pool.{
  bucket_hash, conn_match, is_expired, keep_before, unlink, set_bucket, take_out, evict_expired,
  conn_is_alive, get_found, get_locked, pool_get, pool_put, Conn, Bucket, ClientPool, Event, Peek,
  would_block,
}

-- A connection fit to be handed out: of that host, port and TLS flag, with nothing to read yet.
pub record IsUsable (peek : ℕ → Peek) (host : Bytes) (port : ℕ) (tls : Bool) (c : Conn)
    : Type 0 where
  pub same_host : c.host ≡ host
  pub same_port : c.port ≡ port
  pub same_tls : c.tls ≡ tls
  pub alive : conn_is_alive peek c.fd ≡ true

conn_match_lem :
    (c : Conn) (host : Bytes) (port : ℕ) (tls : Bool)
    → conn_match c host port tls ≡ true
    → (c.host ≡ host) × (c.port ≡ port) × (c.tls ≡ tls)
unfolding conn_match
conn_match_lem c host port tls h = ground (arith, str_eq_iff c.host host)

pub conn_match_self : (c : Conn) → conn_match c c.host c.port c.tls ≡ true
unfolding conn_match
conn_match_self c = ground (arith, str_eq_self c.host)

keep_before-passes :
    (test : Conn → Bool) (x c : Conn) (ds : List Conn) (o : Option (Conn × List Conn))
    → ((d : Conn) (es : List Conn) → o ≡ some (d, es) → test d ≡ true)
    → keep_before x o ≡ some (c, ds)
    → test c ≡ true
keep_before-passes test x c ds none ih e = absurd (ground arith)
keep_before-passes test x c ds (some (d, es)) ih e =
    let same : d ≡ c = ground arith in subst (λ z. test z ≡ true) same (ih d es refl)

unlink-passes :
    (test : Conn → Bool) (cs : List Conn) (c : Conn) (ds : List Conn)
    → unlink test cs ≡ some (c, ds)
    → test c ≡ true
unfolding unlink
unlink-passes test [] c ds e = absurd (ground arith)
unlink-passes test (x ∷ cs) c ds e = elim (Bool-cases (test x)) [
  | inl hit ↦ let same : x ≡ c = ground arith in subst (λ z. test z ≡ true) same hit
  | inr miss ↦
      keep_before-passes test x c ds (unlink test cs) (λ d es p. unlink-passes test cs d es p)
        (rw miss at e)
]

get_found-passes :
    (peek : ℕ → Peek) (test : Conn → Bool) (k : ℕ) (p : ClientPool) (ev : List Event)
    (cs : List Conn) (o : Option (Conn × List Conn)) (c : Conn)
    → unlink test cs ≡ o
    → (get_found peek k p ev o).1 ≡ some c
    → (test c ≡ true) × (conn_is_alive peek c.fd ≡ true)
unfolding get_found
get_found-passes peek test k p ev cs none c u e = absurd (ground arith)
get_found-passes peek test k p ev cs (some (d, ds)) c u e =
    elim (Bool-cases (conn_is_alive peek d.fd)) [
      | inl alive ↦
          let same : d ≡ c = ground arith in
          (
            subst (λ z. test z ≡ true) same (unlink-passes test cs d ds u),
            subst (λ z. conn_is_alive peek z.fd ≡ true) same alive,
          )
      | inr dead ↦ absurd (ground arith)
    ]

-- A connection that a get hands out is one for that host, port and TLS flag, its socket open, with
-- neither an end of file nor bytes waiting.
pub pool_get-IsUsable :
    (peek : ℕ → Peek) (host : Bytes) (port : ℕ) (tls : Bool) (now : ℕ) (p : ClientPool) (c : Conn)
    → (pool_get peek host port tls now p).1 ≡ some c
    → IsUsable peek host port tls c
unfolding pool_get get_locked
pool_get-IsUsable peek host port tls now p c e = elim (Bool-cases p.inited) [
  | inr off ↦ absurd (ground arith)
  | inl on ↦
      let q = evict_expired (bucket_hash host port tls) now p in
      let found : (get_locked peek host port tls now p).1 ≡ some c = ground arith in
      let (passes, alive) =
        get_found-passes peek (λ d. conn_match d host port tls) (bucket_hash host port tls) q.0 q.1
          _ _ c refl found in
      let (h, o, t) = conn_match_lem c host port tls passes in
      record { same_host = h; same_port = o; same_tls = t; alive = alive }
]

evict_head :
    (k now : ℕ) (p : ClientPool) (c : Conn) (cs : List Conn)
    → (p.buckets k).conns ≡ c ∷ cs
    → is_expired now p.idle_timeout_sec c ≡ false
    → (ds : List Conn) × (((evict_expired k now p).0.buckets k).conns ≡ c ∷ ds)
unfolding evict_expired unlink take_out
evict_head k now p c cs at fresh =
    elim (Option-cases (unlink (is_expired now p.idle_timeout_sec) cs)) [
      | inl e ↦ (cs, ground arith)
      | inr ((d, ds), e) ↦ (ds, ground arith)
    ]

get_found-head :
    (peek : ℕ → Peek) (k : ℕ) (p : ClientPool) (ev : List Event) (test : Conn → Bool) (c : Conn)
    (ds cs : List Conn)
    → cs ≡ c ∷ ds
    → test c ≡ true
    → conn_is_alive peek c.fd ≡ true
    → (get_found peek k p ev (unlink test cs)).1 ≡ some c
unfolding get_found unlink
get_found-head peek k p ev test c ds cs e passes alive = rw (e, passes, alive) refl

-- A connection at the head of its bucket, not expired and alive, is what a get for its host answers.
pool_get-head :
    (peek : ℕ → Peek) (now : ℕ) (p : ClientPool) (c : Conn) (cs : List Conn)
    → p.inited ≡ true
    → (p.buckets (bucket_hash c.host c.port c.tls)).conns ≡ c ∷ cs
    → is_expired now p.idle_timeout_sec c ≡ false
    → conn_is_alive peek c.fd ≡ true
    → (pool_get peek c.host c.port c.tls now p).1 ≡ some c
unfolding pool_get get_locked
pool_get-head peek now p c cs on at fresh alive =
    let k = bucket_hash c.host c.port c.tls in
    let (ds, e) = evict_head k now p c cs at fresh in
    let found =
      get_found-head peek k (evict_expired k now p).0 (evict_expired k now p).1
        (λ d. conn_match d c.host c.port c.tls) c ds _ e (conn_match_self c) alive in
    ground arith

abbrev pub kept_at : ℕ → Conn → Conn
kept_at now c = record c { buf_len = 0; last_used = now }

-- With the pool initialised and fewer than the limit idle in its bucket, a connection that is put
-- back with an open socket is the one that the next get for its host, port and TLS flag answers,
-- its buffer emptied and its time set, if it has not expired and its peer is silent.
pub pool_get-pool_put :
    (peek : ℕ → Peek) (fd now later : ℕ) (p : ClientPool) (c : Conn)
    → p.inited ≡ true
    → c.fd ≡ some fd
    → peek fd ≡ would_block
    → (p.buckets (bucket_hash c.host c.port c.tls)).count < p.max_idle_per_host
    → is_expired later p.idle_timeout_sec (kept_at now c) ≡ false
    → (pool_get peek c.host c.port c.tls later (pool_put (some c) now p).0).1 ≡ some (kept_at now c)
unfolding pool_put set_bucket conn_is_alive
pool_get-pool_put peek fd now later p c on open' silent room fresh =
    let k = bucket_hash c.host c.port c.tls in
    let full : leb p.max_idle_per_host (p.buckets k).count ≡ false = ground arith in
    let alive : conn_is_alive peek c.fd ≡ true = ground arith in
    let kept : Bucket = record {
      conns = kept_at now c ∷ (p.buckets k).conns;
      count = (p.buckets k).count + 1;
    } in
    let found =
      pool_get-head peek later (record (set_bucket k kept p) { total_idle = p.total_idle + 1 })
        (kept_at now c) (p.buckets k).conns on (rw (==_self k) refl) fresh alive in
    ground arith
