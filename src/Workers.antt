-- ===== src/Workers.antt =====
-- The worker pool of corRestInit.c: one queue of requests for each shard, linked through the
-- asyncNext of the requests. A request is the number that stands for its pointer. What a thread does
-- under a queue's lock is one function.
pub mod Queue
pub mod Refines
pub mod Runs
pub mod Drain
pub mod Start
mod Tests
use cor_rest.Base.{
  ltb, ◌==◌, if◌then◌else◌, ℕ, zero, suc, ◌+◌, ◌%◌, Bool, true, false, not, Option, none, some,
  List, [], ◌∷◌,
}
use cor_rest.Response.Chunk.{Long, plus, minus}

-- The fields of CorRestState that the pool uses
pub record Job : Type 0 where
  pub shard : Long
  pub async_next : Option ℕ
  pub async_processed : Bool
  pub async_finishing : Bool

-- CorRestWorkQueue, without the lock
pub record WorkQueue : Type 0 where
  pub first : Option ℕ
  pub final : Option ℕ

-- The static variables, and the requests; a worker is the shard that it serves.
pub record Pool : Type 0 where
  pub queue_v : ℕ → WorkQueue
  pub shards : ℕ
  pub workers_run : Bool
  pub worker_v : Option (List ℕ)
  pub jobs : ℕ → Job
  pub dispatch_inline : ℕ
  pub dispatch_handed_off : ℕ

abbrev pub max_shards : ℕ
max_shards = 64

-- corRestWorkerShardsSet
unfoldable pub worker_shards_set : Long → Pool → Pool
worker_shards_set (minus n) p = record p { shards = 1 }
worker_shards_set (plus n) p = record p {
  shards = if ltb n 1 then 1 else if ltb max_shards n then max_shards else n;
}

abbrev pub set_at {ℓ} : {A : Type ℓ} → ℕ → A → (ℕ → A) → ℕ → A
set_at k a f i = if i == k then a else f i

-- The queue for a request.
unfoldable pub shard_of : ℕ → Long → ℕ
shard_of shards (plus n) = if ltb n shards then n else 0
shard_of shards (minus n) = 0

abbrev pub set_next : ℕ → Option ℕ → (ℕ → Job) → ℕ → Job
set_next k n jobs = set_at k (record (jobs k) { async_next = n }) jobs

-- The request behind the last one of a queue, which is given.
abbrev pub link : Option ℕ → ℕ → ℕ → Pool → Pool
link none con s p = record p {
  queue_v = set_at s (record { first = some con; final = some con }) p.queue_v;
}
link (some t) con s p = record p {
  jobs = set_next t (some con) p.jobs;
  queue_v = set_at s (record (p.queue_v s) { final = some con }) p.queue_v;
}

-- corRestWorkerEnqueue
unfoldable pub worker_enqueue : ℕ → Pool → Pool
unfolding shard_of
worker_enqueue con p =
    let s = shard_of p.shards (p.jobs con).shard in
    let jobs = set_next con none p.jobs in link (p.queue_v s).final con s (record p { jobs = jobs })

-- What a worker finds: nothing yet, nothing any more, or a request.
pub data Found : Type 0 where
  waits leaves : Found
  takes : ℕ → Found

-- The tail, once the queue begins with `next`.
abbrev pub tail_for : Option ℕ → Option ℕ → Option ℕ
tail_for none t = none
tail_for (some next) t = t

-- A queue without its first request, the one behind it given.
abbrev pub without_first : Option ℕ → WorkQueue → WorkQueue
without_first next q = record { first = next; final = tail_for next q.final }

abbrev pub take_from : Option ℕ → ℕ → Pool → Found × Pool
take_from none s p = (if p.workers_run then waits else leaves, p)
take_from (some con) s p = (
  takes con,
  record p { queue_v = set_at s (without_first (p.jobs con).async_next (p.queue_v s)) p.queue_v },
)

-- The part of corRestWorkerMain under the lock.
unfoldable pub worker_take : ℕ → Pool → Found × Pool
worker_take s p = take_from (p.queue_v s).first s p

-- What a worker does with a request: the rest of the work for one that was answered, or the
-- dispatch, and handing it back.
pub data Visit : Type 0 where
  finishes resumes : ℕ → Visit

unfoldable pub worker_visit : ℕ → Pool → Visit × Pool
worker_visit con p = if (p.jobs con).async_finishing then (finishes con, p) else (
  resumes con,
  record p { jobs = set_at con (record (p.jobs con) { async_processed = true }) p.jobs },
)

-- What follows on a look into the queue; `again` is the next round.
unfoldable pub after_take :
    (Pool → List Visit × Found × Pool) → Found → Pool → List Visit × Found × Pool
unfolding worker_visit
after_take again waits p = ([], waits, p)
after_take again leaves p = ([], leaves, p)
after_take again (takes con) p =
    let (visit, p1) = worker_visit con p in
    let (visits, last, p2) = again p1 in (visit ∷ visits, last, p2)

-- The loop of corRestWorkerMain, up to where it waits or ends, of a worker that is alone on its shard:
-- no other thread's step comes between its own.
unfoldable pub worker_main : ℕ → ℕ → Pool → List Visit × Found × Pool
unfolding worker_take after_take
worker_main zero s p = ([], waits, p)
worker_main (suc fuel) s p =
    let (found, p1) = worker_take s p in after_take (λ p2. worker_main fuel s p2) found p1

-- The threads that start: up to the first that does not.
unfoldable pub start_threads : (ℕ → Bool) → ℕ → ℕ → ℕ → List ℕ × Bool
start_threads creates shards zero i = ([], true)
start_threads creates shards (suc n) i =
    let (rest, all) = start_threads creates shards n (i + 1) in
    if creates i then (i % shards ∷ rest, all) else ([], false)

-- corRestWorkerPoolStart; `none` workers is NULL. `callocs` and `creates` tell what succeeds.
unfoldable pub worker_pool_start : Bool → (ℕ → Bool) → ℕ → Pool → Bool × Pool
unfolding start_threads
worker_pool_start callocs creates wanted p =
    let workers = if ltb wanted 1 then 1 else wanted in
    let shards = if ltb workers p.shards then workers else p.shards in
    let empty : ℕ → WorkQueue =
      λ i. if ltb i shards then record { first = none; final = none } else p.queue_v i in
    let p1 = record p { shards = shards; queue_v = empty } in
    if not callocs
    then (false, record p1 { worker_v = none })
    else (let (started, all) = start_threads creates shards workers 0 in
        (all, record p1 { workers_run = true; worker_v = some started }))

-- corRestWorkerPoolStop: the flag is cleared, and the workers are joined.
unfoldable pub clear_run : Pool → Pool
clear_run p = record p { workers_run = false }

-- corRestAsyncDispatch; `inline` is the answer of the hook, `none` where there is no hook.
unfoldable pub async_dispatch : Option Bool → Pool → Bool × Pool
async_dispatch hook p =
    let handed_off : Bool × Pool =
      (true, record p { dispatch_handed_off = p.dispatch_handed_off + 1 }) in
    if not p.workers_run then (false, p) else elim hook [
      | none ↦ handed_off
      | some claims ↦
          if claims
          then (false, record p { dispatch_inline = p.dispatch_inline + 1 })
          else handed_off
    ]

-- corRestAsyncFinish
unfoldable pub async_finish : ℕ → Pool → Bool × Pool
unfolding worker_enqueue
async_finish con p = if not p.workers_run then (false, p) else (
  true,
  worker_enqueue con
      (record p { jobs = set_at con (record (p.jobs con) { async_finishing = true }) p.jobs }),
)
