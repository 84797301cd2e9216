-- ===== src/Workers/Tests.antt =====
-- A pool of two shards at work.
use cor_rest.Base.{◌==◌, ℕ, ◌%◌, ◌≡◌, refl, true, false, none, List, [], ◌∷◌, arith}
use cor_rest.Response.Chunk.{plus}
use cor_rest.Workers.{
  set_at, shard_of, worker_enqueue, worker_take, worker_main, start_threads, worker_pool_start, Job,
  Pool, waits, leaves, takes, finishes, resumes,
}
use cor_rest.Workers.Queue.{mem, distinct}
use cor_rest.Workers.Refines.{worker_enqueue-Represents, Represents}
use cor_rest.Workers.Runs.{run, run_lists, is_orderly, run-run_lists, Event, arrives, looks}
use cor_rest.Workers.Drain.{worker_main-drains}
use cor_rest.Workers.Start.{served, worker_pool_start-serves, worker_pool_start-Represents}

-- Request n is of shard n % 3; there is no third shard. Request 4 was answered.
abbrev demo_job : ℕ → Job
demo_job n = record {
  shard = plus (n % 3);
  async_next = none;
  async_processed = false;
  async_finishing = n == 4;
}

abbrev cold : Pool
cold = record {
  queue_v = λ s. record { first = none; final = none };
  shards = 2;
  workers_run = false;
  worker_v = none;
  jobs = demo_job;
  dispatch_inline = 0;
  dispatch_handed_off = 0;
}

abbrev warm : Pool
warm = (worker_pool_start true (λ i. true) 3 cold).1

warm-Represents : Represents warm (λ s. [])
warm-Represents = worker_pool_start-Represents (λ i. true) 3 cold (omega arith)

abbrev demo_home : ℕ → ℕ
demo_home n = shard_of 2 (plus (n % 3))

abbrev demo_events : List Event
demo_events =
    arrives 1
    ∷ arrives 2
    ∷ arrives 4
    ∷ looks 1
    ∷ looks 0
    ∷ looks 0
    ∷ arrives 1
    ∷ looks 1
    ∷ looks 1
    ∷ []

first_come_first_taken :
    (run demo_events warm).0 ≡ takes 1 ∷ takes 2 ∷ waits ∷ takes 4 ∷ takes 1 ∷ []
unfolding run worker_pool_start start_threads worker_enqueue shard_of worker_take
first_come_first_taken = refl

run-run_lists_example : (run demo_events warm).0 ≡ run_lists demo_home true demo_events (λ s. [])
unfolding worker_pool_start is_orderly shard_of mem
run-run_lists_example =
    run-run_lists demo_events demo_home warm (λ s. []) warm-Represents (λ c. refl) refl

abbrev busy : Pool
busy = worker_enqueue 4 (worker_enqueue 1 cold)

abbrev busy_lists : ℕ → List ℕ
busy_lists = set_at 1 (1 ∷ 4 ∷ []) (set_at 1 (1 ∷ []) (λ s. []))

cold-Represents : Represents cold (λ s. [])
unfolding distinct mem
cold-Represents = record {
  some_shards = omega arith;
  chains = λ s h. refl;
  lasts = λ s h. refl;
  once = λ s h. refl;
  own = λ s c h inside. absurd (ground (arith, inside));
}

busy-Represents : Represents busy busy_lists
unfolding shard_of mem worker_enqueue
busy-Represents =
    worker_enqueue-Represents (worker_enqueue 1 cold) (set_at 1 (1 ∷ []) (λ s. [])) 4
      (worker_enqueue-Represents cold (λ s. []) 1 cold-Represents refl) refl

worker_main-drains_example :
    ((worker_main 3 1 busy).0 ≡ resumes 1 ∷ finishes 4 ∷ []) × ((worker_main 3 1 busy).1 ≡ leaves)
unfolding worker_enqueue shard_of
worker_main-drains_example =
    worker_main-drains 3 busy busy_lists 1 busy-Represents refl (omega arith) (omega arith)

worker_pool_start-serves_example : mem 1 (served warm) ≡ true
unfolding worker_pool_start start_threads
worker_pool_start-serves_example =
    worker_pool_start-serves true (λ i. true) 3 cold 1 (omega arith) refl (omega arith)
