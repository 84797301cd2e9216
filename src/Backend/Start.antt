-- ===== src/Backend/Start.antt =====
-- corRestBackendStart and corRestBackendStop of corRestBackendBuiltin.c: the event loops. What the
-- code does with the loop k is an event.
pub mod Life
mod Tests
use cor_rest.Base.{
  ltb, if◌then◌else◌, ℕ, zero, suc, ◌+◌, ◌*◌, ◌/◌, ◌%◌, ◌^◌, Bool, true, false, not, Option, none,
  some, List, [], ◌∷◌, ◌++◌,
}
use cor_rest.Response.Chunk.{Long, plus, minus}

-- corHttpInitOptions, corHttpRelease, pthread_create, corHttpStop, pthread_join
pub data LoopCall : Type 0 where
  inits releases runs stops joins : ℕ → LoopCall

-- corHttpLoops and corHttpRunning
pub record Backend : Type 0 where
  pub http_loops : ℕ
  pub http_running : Bool

-- What succeeds at a start
pub record Machine : Type 0 where
  pub init_ok : ℕ → Bool
  pub share_ok : Bool
  pub create_ok : ℕ → Bool

abbrev pub max_loops : ℕ
max_loops = 64

-- corRestHttpLoopsSet
unfoldable pub http_loops_set : Long → Backend → Backend
http_loops_set (minus n) b = record b { http_loops = 1 }
http_loops_set (plus n) b = record b {
  http_loops = if ltb n 1 then 1 else if ltb max_loops n then max_loops else n;
}

-- The slots of one loop, of `slots` that the engine has at least for all of them
unfoldable pub conn_pool_size : ℕ → Long → ℕ
conn_pool_size slots (minus n) = slots
conn_pool_size slots (plus n) =
    let wanted = if ltb 0 n then n * 16 else slots in if ltb wanted slots then slots else wanted

unfoldable pub per_loop : ℕ → Long → ℕ → ℕ
unfolding conn_pool_size
per_loop slots pool_size loops =
    let share = conn_pool_size slots pool_size / loops in if ltb share 16 then 16 else share

-- The limit of the engine for a request, `none` if it is left alone
unfoldable pub engine_limit : ℕ → Option ℕ
engine_limit most =
    let cap = (most + 64 * 1024) % 2 ^ 64 in
    if ltb 0 most then some (if ltb 0x7fffffff cap then 0 else cap) else none

-- One call for each of n loops from the loop i on
unfoldable pub each_from : (ℕ → LoopCall) → ℕ → ℕ → List LoopCall
each_from act zero i = []
each_from act (suc n) i = act i ∷ each_from act n (i + 1)

-- The loop that initialises the servers; the first that fails takes down those before it.
unfoldable pub init_loops : (ℕ → Bool) → ℕ → ℕ → List LoopCall × Bool
unfolding each_from
init_loops ok zero i = ([], true)
init_loops ok (suc n) i =
    let (rest, all) = init_loops ok n (i + 1) in
    if ok i then (inits i ∷ rest, all) else (each_from releases i 0, false)

-- The loop that starts the threads; where one does not start, those that run are stopped and joined,
-- and every server is released.
unfoldable pub run_loops : (ℕ → Bool) → ℕ → ℕ → ℕ → List LoopCall × Bool
unfolding each_from
run_loops ok loops zero i = ([], true)
run_loops ok loops (suc n) i =
    let (rest, all) = run_loops ok loops n (i + 1) in
    if ok i
    then (runs i ∷ rest, all)
    else (each_from stops i 0 ++ (each_from joins i 0 ++ each_from releases loops 0), false)

-- corRestBackendStart; the flag of the result is an answer of 0.
unfoldable pub backend_start : Machine → Bool → Backend → List LoopCall × Bool × Backend
unfolding init_loops run_loops each_from
backend_start m tls_asked b =
    let (up, listening) = init_loops m.init_ok b.http_loops 0 in
    let (threads, started) = run_loops m.create_ok b.http_loops b.http_loops 0 in
    if tls_asked
    then ([], false, b)
    else if not listening
    then (up, false, b)
    else if not m.share_ok
    then (up ++ each_from releases b.http_loops 0, false, b)
    else (up ++ threads, started, if started then record b { http_running = true } else b)

-- corRestBackendStop
unfoldable pub backend_stop : Backend → List LoopCall × Backend
unfolding each_from
backend_stop b =
    let n = b.http_loops in
    if b.http_running
    then (
      each_from stops n 0 ++ (each_from joins n 0 ++ each_from releases n 0),
      record b { http_running = false },
    )
    else ([], b)
