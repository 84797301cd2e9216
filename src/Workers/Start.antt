-- ===== src/Workers/Start.antt =====
-- The pool as it is started: empty queues, and a worker for each.
use native.Mathlib.Nat.{mod-eq_of_lt}
use cor_rest.Base.{
  ltb, ◌==◌, if◌then◌else◌, lt→ltb, Bool-cases, ℕ, zero, suc, ◌+◌, ◌%◌, ◌≤◌, ◌<◌, ◌≡◌, refl, ap,
  subst, inl, inr, Bool, true, false, none, some, List, [], arith,
}
use cor_rest.Workers.{start_threads, worker_pool_start, Pool}
use cor_rest.Workers.Queue.{mem, distinct}
use cor_rest.Workers.Refines.{Represents}

start_threads-mem :
    (creates : ℕ → Bool) (shards n i k : ℕ)
    → (start_threads creates shards n i).1 ≡ true
    → i ≤ k
    → k < i + n
    → mem (k % shards) (start_threads creates shards n i).0 ≡ true
unfolding start_threads mem
start_threads-mem creates shards zero i k all low high = absurd (omega (arith, low, high))
start_threads-mem creates shards (suc n) i k all low high = elim (Bool-cases (creates i)) [
  | inl here ↦
      let all' : (start_threads creates shards n (i + 1)).1 ≡ true = ground (arith, here, all) in
      elim (Bool-cases (k == i)) [
        | inl same ↦
            let e : k ≡ i = ground (arith, same) in ground (arith, here, ap (λ x. x % shards) e)
        | inr other ↦
            let above : i + 1 ≤ k = ground (arith, other, low) in
            ground (
              arith,
              here,
              start_threads-mem creates shards n (i + 1) k all' above (omega (arith, high)),
            )
      ]
  | inr failed ↦ absurd (ground (arith, failed, all))
]

-- The shards that the workers of a pool serve
abbrev pub served : Pool → List ℕ
served p = elim p.worker_v [ none ↦ [] | some ws ↦ ws ]

pub worker_pool_start-serves :
    (callocs : Bool) (creates : ℕ → Bool) (wanted : ℕ) (p : Pool) (s : ℕ)
    → 0 < p.shards
    → (worker_pool_start callocs creates wanted p).0 ≡ true
    → s < (worker_pool_start callocs creates wanted p).1.shards
    → mem s (served (worker_pool_start callocs creates wanted p).1) ≡ true
unfolding worker_pool_start
worker_pool_start-serves false creates wanted p s some_shards ok h = absurd (ground (arith, ok))
worker_pool_start-serves true creates wanted p s some_shards ok h =
    let workers = if ltb wanted 1 then 1 else wanted in
    let shards = if ltb workers p.shards then workers else p.shards in
    let fewer : s < workers = ground (arith, h) in
    let found =
      start_threads-mem creates shards workers 0 s ok (omega arith) (omega (arith, fewer)) in
    subst (λ k. mem k (start_threads creates shards workers 0).0 ≡ true) (mod-eq_of_lt h) found

pub worker_pool_start-Represents :
    (creates : ℕ → Bool) (wanted : ℕ) (p : Pool)
    → 0 < p.shards
    → Represents (worker_pool_start true creates wanted p).1 (λ s. [])
unfolding worker_pool_start distinct mem
worker_pool_start-Represents creates wanted p some_shards = record {
  some_shards = ground (arith, some_shards);
  chains = λ s h. rw (lt→ltb s _ h) refl;
  lasts = λ s h. rw (lt→ltb s _ h) refl;
  once = λ s h. refl;
  own = λ s c h inside. absurd (ground (arith, inside));
}
