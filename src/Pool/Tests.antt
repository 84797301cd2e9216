-- ===== src/Pool/Tests.antt =====
-- The pool at concrete connections.
use cor_rest.Base.{
  ◌==◌, if◌then◌else◌, codes, str_eq, ℕ, ◌≡◌, refl, true, false, none, some, [], ◌∷◌, arith,
}
use cor_rest.Pool.{
  bucket_hash_from, bucket_hash, bool_eq, conn_match, is_expired, unlink, set_bucket, take_out,
  dispose, evict_expired, pool_init, conn_is_alive, drop_dead, get_found, get_locked, pool_get,
  pool_put, Conn, ClientPool, tls_close, close_fd, free_conn, Peek, end_of_file, would_block,
}
use cor_rest.Pool.Invariant.{Reach-IsValid, IsValid, gets, puts, here, next}
use cor_rest.Pool.Reuse.{kept_at}
use cor_rest.Pool.Dropped.{pool_get-pool_put_dead}

abbrev fresh_pool : ClientPool
fresh_pool = record {
  buckets = λ k. record { conns = []; count = 0 };
  max_idle_per_host = 2;
  idle_timeout_sec = 30;
  total_idle = 0;
  inited = true;
}

abbrev broker : Conn
broker = record {
  fd = some 7;
  ssl = some 1;
  host = codes "broker";
  port = 1026;
  tls = true;
  last_used = 5;
  buf_len = 99;
}

-- Socket 7 is silent, the peers of all others have gone.
abbrev silent_7 : ℕ → Peek
silent_7 fd = if fd == 7 then would_block else end_of_file

pool_init-is_fresh : (pool_init true 2 30 false).0 ≡ fresh_pool
unfolding pool_init
pool_init-is_fresh = refl

Reach-IsValid_example :
    IsValid
      (pool_get silent_7
        (codes "broker")
        1026
        true
        1100
        (pool_put (some broker) 1000 (pool_init true 2 30 false).0).0).0
Reach-IsValid_example = Reach-IsValid true false 2 30 (
    next (next here (puts (pool_init true 2 30 false).0 (some broker) 1000)) (
      gets (pool_put (some broker) 1000 (pool_init true 2 30 false).0).0 silent_7 (codes "broker")
        1026 true 1100))

get_put :
    (pool_get silent_7 (codes "broker") 1026 true 1100 (pool_put (some broker) 1000 fresh_pool).0).1
    ≡ some (kept_at 1000 broker)
unfolding pool_get get_locked get_found evict_expired unlink take_out set_bucket is_expired
    conn_match bool_eq str_eq bucket_hash bucket_hash_from conn_is_alive pool_put drop_dead dispose
get_put = refl

not_expired : is_expired 1100 30 (kept_at 1000 broker) ≡ false
unfolding is_expired
not_expired = refl

abbrev all_gone : ℕ → Peek
all_gone fd = end_of_file

pool_get-pool_put_dead_example :
    ((pool_get all_gone
        (codes "broker")
        1026
        true
        1100
        (pool_put (some broker) 1000 fresh_pool).0).1
      ≡ none)
    × ((pool_get all_gone
          (codes "broker")
          1026
          true
          1100
          (pool_put (some broker) 1000 fresh_pool).0).2
        ≡ close_fd 7 ∷ free_conn (kept_at 1000 broker) ∷ [])
    × ((pool_put (some broker) 1000 (record fresh_pool { max_idle_per_host = 0 })).1
        ≡ tls_close 1 ∷ close_fd 7 ∷ free_conn broker ∷ [])
pool_get-pool_put_dead_example =
    pool_get-pool_put_dead all_gone 7 1 1000 1100 fresh_pool broker refl refl refl refl refl
      (omega arith) not_expired
