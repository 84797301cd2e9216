-- ===== src/Workers/Runs.antt =====
-- Requests that arrive and workers that look, in any order.
use mathlib.Core.Path.{ap₂, fun_ext}
use cor_rest.Base.{
  ltb, ◌==◌, if◌then◌else◌, Bool-cases, Option-cases, ℕ, ◌<◌, ◌≡◌, refl, sym, ap, ◌∙◌, subst, ◌⊎◌,
  inl, inr, Bool, true, false, not, ◌&&◌, none, some, List, [], ◌∷◌, ◌++◌, arith,
}
use cor_rest.Workers.{
  set_at, shard_of, set_next, worker_enqueue, worker_take, Pool, Found, waits, leaves, takes,
}
use cor_rest.Workers.Queue.{mem}
use cor_rest.Workers.Refines.{
  set_at-shard, worker_enqueue-Represents, worker_take-none, worker_take-some, Represents,
}

-- A request is handed over, or a worker of a shard looks into its queue.
pub data Event : Type 0 where
  arrives looks : ℕ → Event

-- The events in turn, with what the workers find.
unfoldable pub run : List Event → Pool → List Found × Pool
unfolding worker_enqueue worker_take
run [] p = ([], p)
run (arrives con ∷ es) p = run es (worker_enqueue con p)
run (looks s ∷ es) p =
    let (found, p') = worker_take s p in let (rest, last) = run es p' in (found ∷ rest, last)

-- What is first in a list, and the rest
abbrev pub found_in : Bool → List ℕ → Found
found_in running [] = if running then waits else leaves
found_in running (con ∷ cs) = takes con

abbrev pub rest_of : List ℕ → List ℕ
rest_of [] = []
rest_of (con ∷ cs) = cs

-- The events on lists: first come, first taken, in each shard.
unfoldable pub run_lists : (ℕ → ℕ) → Bool → List Event → (ℕ → List ℕ) → List Found
run_lists home running [] q = []
run_lists home running (arrives con ∷ es) q =
    run_lists home running es (set_at (home con) (q (home con) ++ con ∷ []) q)
run_lists home running (looks s ∷ es) q =
    found_in running (q s) ∷ run_lists home running es (set_at s (rest_of (q s)) q)

-- No request arrives while it is queued, and workers serve shards that are there.
unfoldable pub is_orderly : (ℕ → ℕ) → ℕ → List Event → (ℕ → List ℕ) → Bool
unfolding mem
is_orderly home n [] q = true
is_orderly home n (arrives con ∷ es) q =
    not (mem con (q (home con)))
    && is_orderly home n es (set_at (home con) (q (home con) ++ con ∷ []) q)
is_orderly home n (looks s ∷ es) q = ltb s n && is_orderly home n es (set_at s (rest_of (q s)) q)

worker_enqueue-fixed :
    (con : ℕ) (p : Pool)
    → ((worker_enqueue con p).shards ≡ p.shards)
      × ((worker_enqueue con p).workers_run ≡ p.workers_run)
      × ((c : ℕ) → ((worker_enqueue con p).jobs c).shard ≡ (p.jobs c).shard)
unfolding worker_enqueue
worker_enqueue-fixed con p =
    let s = shard_of p.shards (p.jobs con).shard in
    elim (Option-cases (p.queue_v s).final) [
      | inl empty ↦ rw empty (refl, refl, λ c. set_at-shard con none p.jobs c)
      | inr (t, last) ↦ rw last (
        refl,
        refl,
        λ c.
            set_at-shard t (some con) (set_next con none p.jobs) c ∙ set_at-shard con none p.jobs c,
      )
    ]

pub worker_take-fixed :
    (s : ℕ) (p : Pool)
    → ((worker_take s p).1.shards ≡ p.shards)
      × ((worker_take s p).1.workers_run ≡ p.workers_run)
      × ((worker_take s p).1.jobs ≡ p.jobs)
unfolding worker_take
worker_take-fixed s p = elim (Option-cases (p.queue_v s).first) [
  | inl empty ↦ rw empty (refl, refl, refl)
  | inr (t, there) ↦ rw there (refl, refl, refl)
]

pub List-cases : (l : List ℕ) → (l ≡ []) ⊎ ((c : ℕ) × (cs : List ℕ) × (l ≡ c ∷ cs))
List-cases [] = inl refl
List-cases (c ∷ cs) = inr (c, cs, refl)

set_at-same : (s : ℕ) (l : List ℕ) (q : ℕ → List ℕ) → q s ≡ l → q ≡ set_at s l q
set_at-same s l q e = fun_ext (λ i. elim (Bool-cases (i == s)) [
  | inl here ↦ let same : i ≡ s = ground (arith, here) in rw here (ap q same ∙ e)
  | inr other ↦ rw other refl
])

worker_take-found :
    (p : Pool) (q : ℕ → List ℕ) (s : ℕ)
    → Represents p q
    → s < p.shards
    → ((worker_take s p).0 ≡ found_in p.workers_run (q s))
      × Represents (worker_take s p).1 (set_at s (rest_of (q s)) q)
worker_take-found p q s r h = elim (List-cases (q s)) [
  | inl empty ↦
      let e = worker_take-none p q s r h empty in
      let r' = subst (λ l. Represents p l) (set_at-same s [] q empty) r in
      (
        ap (λ x. x.0) e ∙ ap (found_in p.workers_run) (sym empty),
        subst (λ l. Represents (worker_take s p).1 (set_at s (rest_of l) q)) (sym empty)
            (subst (λ x. Represents x.1 (set_at s [] q)) (sym e) r'),
      )
  | inr (con, rest, full) ↦
      let (found, r') = worker_take-some p q s con rest r h full in
      (
        found ∙ ap (found_in p.workers_run) (sym full),
        subst (λ l. Represents (worker_take s p).1 (set_at s (rest_of l) q)) (sym full) r',
      )
]

-- Requests that are handed over and workers that look, in any order in which no request arrives
-- while it is queued: each look finds what first-in first-out lists, one for each shard, would give;
-- so each request is taken once, in the order of arrival at its shard, and none is lost.
pub run-run_lists :
    (es : List Event) (home : ℕ → ℕ) (p : Pool) (q : ℕ → List ℕ)
    → Represents p q
    → ((c : ℕ) → shard_of p.shards (p.jobs c).shard ≡ home c)
    → is_orderly home p.shards es q ≡ true
    → (run es p).0 ≡ run_lists home p.workers_run es q
unfolding run run_lists is_orderly
run-run_lists [] home p q r homes orderly = refl
run-run_lists (arrives con ∷ es) home p q r homes orderly =
    let out : mem con (q (home con)) ≡ false = ground (arith, orderly) in
    let next = set_at (home con) (q (home con) ++ con ∷ []) q in
    let rest : is_orderly home p.shards es next ≡ true = ground (arith, orderly) in
    let (shards, running, kept) = worker_enqueue-fixed con p in
    let r' =
      subst (λ k. Represents (worker_enqueue con p) (set_at k (q k ++ con ∷ []) q)) (homes con)
        (worker_enqueue-Represents p q con r (ap (λ k. mem con (q k)) (homes con) ∙ out)) in
    run-run_lists es home (worker_enqueue con p) next r'
      (λ c.
        ap (λ n. shard_of n ((worker_enqueue con p).jobs c).shard) shards
        ∙ ap (shard_of p.shards) (kept c)
        ∙ homes c)
      (ap (λ n. is_orderly home n es next) shards ∙ rest)
    ∙ ap (λ b. run_lists home b es next) running
run-run_lists (looks s ∷ es) home p q r homes orderly =
    let h : s < p.shards = ground (arith, orderly) in
    let next = set_at s (rest_of (q s)) q in
    let rest : is_orderly home p.shards es next ≡ true = ground (arith, orderly) in
    let (found, r') = worker_take-found p q s r h in
    let (shards, running, kept) = worker_take-fixed s p in
    let p' = (worker_take s p).1 in
    let ih =
      run-run_lists es home p' next r'
        (λ c.
          ap (λ n. shard_of n (p'.jobs c).shard) shards
          ∙ ap (λ j. shard_of p.shards (j c).shard) kept
          ∙ homes c)
        (ap (λ n. is_orderly home n es next) shards ∙ rest) in
    ap₂ (λ f fs. f ∷ fs) found (ih ∙ ap (λ b. run_lists home b es next) running)
