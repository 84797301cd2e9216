-- ===== src/Workers/Drain.antt =====
-- A worker that runs until its queue is empty, once the pool is told to stop.
use mathlib.Core.Path.{ap₂}
use cor_rest.Base.{
  if◌then◌else◌, Bool-cases, length, ℕ, zero, suc, ◌<◌, ◌≡◌, refl, sym, ap, ◌∙◌, subst, inl, inr,
  false, Option, List, [], ◌∷◌, arith,
}
use cor_rest.Workers.{
  set_at, shard_of, worker_take, worker_visit, after_take, worker_main, Job, Pool, leaves, takes,
  Visit, finishes, resumes,
}
use cor_rest.Workers.Queue.{Chain}
use cor_rest.Workers.Refines.{worker_take-none, worker_take-some, Represents}
use cor_rest.Workers.Runs.{worker_take-fixed, List-cases}

-- What becomes of the requests of a list.
abbrev pub visits_of : (ℕ → Job) → List ℕ → List Visit
visits_of jobs [] = []
visits_of jobs (c ∷ cs) =
    (if (jobs c).async_finishing then finishes c else resumes c) ∷ visits_of jobs cs

-- Jobs that differ in nothing the queues depend on
record Alike (a b : ℕ → Job) : Type 0 where
  next : (c : ℕ) → (b c).async_next ≡ (a c).async_next
  shard : (c : ℕ) → (b c).shard ≡ (a c).shard
  finishing : (c : ℕ) → (b c).async_finishing ≡ (a c).async_finishing

Chain-Alike : (a b : ℕ → Job) (h : Option ℕ) (ps : List ℕ) → Alike a b → Chain a h ps → Chain b h ps
Chain-Alike a b h [] like c = c
Chain-Alike a b h (p ∷ ps) like c = (
  c.0,
  subst (λ n. Chain b n ps) (sym (like.next p)) (Chain-Alike a b (a p).async_next ps like c.1),
)

visits_of-Alike : (a b : ℕ → Job) (ps : List ℕ) → Alike a b → visits_of b ps ≡ visits_of a ps
visits_of-Alike a b [] like = refl
visits_of-Alike a b (p ∷ ps) like = rw (like.finishing p, visits_of-Alike a b ps like) refl

Represents-Alike :
    (p : Pool) (jobs : ℕ → Job) (q : ℕ → List ℕ)
    → Alike p.jobs jobs
    → Represents p q
    → Represents (record p { jobs = jobs }) q
Represents-Alike p jobs q like r = record {
  some_shards = r.some_shards;
  chains = λ s h. Chain-Alike p.jobs jobs (p.queue_v s).first (q s) like (r.chains s h);
  lasts = r.lasts;
  once = r.once;
  own = λ s c h inside. ap (shard_of p.shards) (like.shard c) ∙ r.own s c h inside;
}

-- A visit leaves all that the queues depend on, and is the one for the request.
worker_visit-Alike :
    (con : ℕ) (p : Pool)
    → Alike p.jobs (worker_visit con p).1.jobs
      × ((worker_visit con p).0
          ≡ (if (p.jobs con).async_finishing then finishes con else resumes con))
      × ((worker_visit con p).1 ≡ record p { jobs = (worker_visit con p).1.jobs })
unfolding worker_visit
worker_visit-Alike con p = elim (Bool-cases (p.jobs con).async_finishing) [
  | inl done ↦
      rw done (record { next = λ c. refl; shard = λ c. refl; finishing = λ c. refl }, refl, refl)
  | inr fresh ↦ rw fresh (
    record { next = λ c. ground arith; shard = λ c. ground arith; finishing = λ c. ground arith },
    refl,
    refl,
  )
]

-- Once the pool is told to stop, a worker that is alone on its shard ends, where no request is handed
-- over meanwhile: with more fuel than requests are queued, it visits each request of its queue, in their order, finishing those that were answered before
-- and running the dispatch for the others, and then leaves.
pub worker_main-drains :
    (fuel : ℕ) (p : Pool) (q : ℕ → List ℕ) (s : ℕ)
    → Represents p q
    → p.workers_run ≡ false
    → s < p.shards
    → length (q s) < fuel
    → ((worker_main fuel s p).0 ≡ visits_of p.jobs (q s)) × ((worker_main fuel s p).1 ≡ leaves)
unfolding worker_main after_take
worker_main-drains zero p q s r stopped h enough = absurd (omega arith)
worker_main-drains (suc fuel) p q s r stopped h enough =
    let again = λ (x : Pool). worker_main fuel s x in
    elim (List-cases (q s)) [
      | inl empty ↦ let e = worker_take-none p q s r h empty in rw (e, stopped, empty) (refl, refl)
      | inr (con, rest, full) ↦
          let (found, r1) = worker_take-some p q s con rest r h full in
          let p1 = (worker_take s p).1 in
          let (shards, running, same) = worker_take-fixed s p in
          let (like, visit, only) = worker_visit-Alike con p1 in
          let p2 = (worker_visit con p1).1 in
          let r2 =
            subst (λ x. Represents x (set_at s rest q)) (sym only)
              (Represents-Alike p1 p2.jobs (set_at s rest q) like r1) in
          let go_on : worker_main (suc fuel) s p ≡ after_take again (takes con) p1 =
            ap (λ f. after_take again f p1) found in
          let self : set_at s rest q s ≡ rest = ground arith in
          let bound = ap (λ x. x.shards) only ∙ shards in
          let ih =
            worker_main-drains fuel p2 (set_at s rest q) s r2
              (ap (λ x. x.workers_run) only ∙ running ∙ stopped) (omega (arith, bound, h))
              (omega (arith, ap length self, ap length full, enough)) in
          let mine =
            visit ∙ ap (λ j. if (j con).async_finishing then finishes con else resumes con) same in
          let others =
            ih.0
            ∙ ap (visits_of p2.jobs) self
            ∙ visits_of-Alike p1.jobs p2.jobs rest like
            ∙ ap (λ j. visits_of j rest) same in
          (
            ap (λ x. x.0) go_on
                ∙ ap₂ (λ v vs. v ∷ vs) mine others
                ∙ ap (visits_of p.jobs) (sym full),
            ap (λ x. x.1) go_on ∙ ih.1,
          )
    ]
