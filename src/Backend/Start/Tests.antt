-- ===== src/Backend/Start/Tests.antt =====
-- Starts that fail, and one that does not.
use cor_rest.Base.{ltb, ◌==◌, if◌then◌else◌, ◌≡◌, refl, true, false, some, [], ◌∷◌, ◌++◌}
use cor_rest.Response.Chunk.{plus}
use cor_rest.Backend.Start.{
  http_loops_set, conn_pool_size, per_loop, engine_limit, each_from, init_loops, run_loops,
  backend_start, backend_stop, inits, releases, runs, stops, joins, Backend, Machine,
}
use cor_rest.Backend.Start.Life.{life, backend_start-backend_stop, unused, serving}

abbrev two_loops : Backend
two_loops = record { http_loops = 2; http_running = false }

abbrev one_thread : Machine
one_thread = record { init_ok = λ i. true; share_ok = true; create_ok = λ i. i == 0 }

second_fails :
    (backend_start one_thread false two_loops).0
    ≡ inits 0 ∷ inits 1 ∷ runs 0 ∷ stops 0 ∷ joins 0 ∷ releases 0 ∷ releases 1 ∷ []
unfolding backend_start init_loops run_loops each_from
second_fails = refl

clamped : (http_loops_set (plus 100) two_loops).http_loops ≡ 64
unfolding http_loops_set
clamped = refl

shared_slots : per_loop 1024 (plus 100) 8 ≡ 200
unfolding per_loop conn_pool_size
shared_slots = refl

limit_wraps : (engine_limit 0x80000000 ≡ some 0) × (engine_limit 1000 ≡ some 66536)
unfolding engine_limit
limit_wraps = (refl, refl)

backend_start-backend_stop_example :
    let (acts, good, b1) = backend_start one_thread false two_loops in
    (life 0 acts (some unused)
      ≡ some (if good then (if ltb 0 2 then serving else unused) else unused))
    × (life 0 (acts ++ (backend_stop b1).0) (some unused) ≡ some unused)
    × ((backend_stop b1).1.http_running ≡ false)
backend_start-backend_stop_example = backend_start-backend_stop one_thread false two_loops 0 refl
