-- ===== src/Pool/Dropped.antt =====
-- What happens to a TLS connection in the pool whose peer goes away.
use cor_rest.Base.{
  leb, if◌then◌else◌, ==_self, ℕ, ◌+◌, ◌<◌, ◌≡◌, refl, Bool, true, false, none, some, [], ◌∷◌,
  arith,
}
use cor_rest.Pool.{
  bucket_hash, conn_match, is_expired, unlink, set_bucket, dispose, evict_expired, conn_is_alive,
  drop_dead, get_found, get_locked, pool_get, pool_put, Conn, Bucket, ClientPool, tls_close,
  close_fd, free_conn, Peek, end_of_file,
}
use cor_rest.Pool.Reuse.{conn_match_self, kept_at}

unlink_one :
    (test : Conn → Bool) (c : Conn) → unlink test (c ∷ []) ≡ (if test c then some (c, []) else none)
unfolding unlink
unlink_one test c = ground arith

evict_one :
    (k now : ℕ) (p : ClientPool) (c : Conn)
    → (p.buckets k).conns ≡ c ∷ []
    → is_expired now p.idle_timeout_sec c ≡ false
    → evict_expired k now p ≡ (p, [])
unfolding evict_expired
evict_one k now p c at fresh =
    let step = unlink_one (is_expired now p.idle_timeout_sec) c in ground arith

-- The only connection of a bucket, dead: a get for its host answers nothing and drops it.
pool_get-dead :
    (peek : ℕ → Peek) (now : ℕ) (p : ClientPool) (c : Conn)
    → p.inited ≡ true
    → (p.buckets (bucket_hash c.host c.port c.tls)).conns ≡ c ∷ []
    → is_expired now p.idle_timeout_sec c ≡ false
    → conn_is_alive peek c.fd ≡ false
    → ((pool_get peek c.host c.port c.tls now p).1 ≡ none)
      × ((pool_get peek c.host c.port c.tls now p).2 ≡ drop_dead c)
unfolding pool_get get_locked get_found
pool_get-dead peek now p c on at fresh dead =
    let same = conn_match_self c in
    let none_expired = evict_one (bucket_hash c.host c.port c.tls) now p c at fresh in
    let step = unlink_one (λ d. conn_match d c.host c.port c.tls) c in ground arith

-- A TLS connection put back into an empty bucket of a pool that has room for it, whose peer then
-- closes: the next get for its host answers nothing, closes the socket and frees the connection,
-- and does not close the TLS session, which a put into a full bucket does.
pub pool_get-pool_put_dead :
    (peek : ℕ → Peek) (fd ssl now later : ℕ) (p : ClientPool) (c : Conn)
    → p.inited ≡ true
    → c.fd ≡ some fd
    → c.ssl ≡ some ssl
    → peek fd ≡ end_of_file
    → (p.buckets (bucket_hash c.host c.port c.tls)).conns ≡ []
    → (p.buckets (bucket_hash c.host c.port c.tls)).count < p.max_idle_per_host
    → is_expired later p.idle_timeout_sec (kept_at now c) ≡ false
    → (let p' = (pool_put (some c) now p).0 in
        ((pool_get peek c.host c.port c.tls later p').1 ≡ none)
        × ((pool_get peek c.host c.port c.tls later p').2
            ≡ close_fd fd ∷ free_conn (kept_at now c) ∷ [])
        × ((pool_put (some c) now (record p { max_idle_per_host = 0 })).1
            ≡ tls_close ssl ∷ close_fd fd ∷ free_conn c ∷ []))
unfolding pool_put set_bucket conn_is_alive dispose drop_dead
pool_get-pool_put_dead peek fd ssl now later p c on open' session gone lone room fresh =
    let k = bucket_hash c.host c.port c.tls in
    let full : leb p.max_idle_per_host (p.buckets k).count ≡ false = ground arith in
    let kept : Bucket = record {
      conns = kept_at now c ∷ (p.buckets k).conns;
      count = (p.buckets k).count + 1;
    } in
    let dead : conn_is_alive peek c.fd ≡ false = ground arith in
    let found =
      pool_get-dead peek later (record (set_bucket k kept p) { total_idle = p.total_idle + 1 })
        (kept_at now c) on (rw (==_self k, lone) refl) fresh dead in
    (ground arith, ground arith, ground arith)
