-- ===== src/Workers/Refines.antt =====
-- The queues of the pool against queues that are lists.
use cor_rest.Base.{
  ◌==◌, if◌then◌else◌, Bool-cases, Option-cases, ℕ, ◌<◌, ◌≡◌, refl, sym, ap, ◌∙◌, subst, inl, inr,
  true, false, ◌||◌, Option, none, some, List, [], ◌∷◌, ◌++◌, arith,
}
use cor_rest.Response.Chunk.{Long, plus, minus}
use cor_rest.Workers.{
  set_at, shard_of, set_next, link, worker_enqueue, tail_for, without_first, worker_take, Job, Pool,
  waits, leaves, takes,
}
use cor_rest.Workers.Queue.{
  mem, distinct, Chain, last_of, mem-append, Chain-set, last_of-mem, Chain-snoc, last_of-snoc,
  distinct-snoc,
}

-- The pool's queues hold these lists, and a request stands in the queue of its shard, once.
pub record Represents (p : Pool) (q : ℕ → List ℕ) : Type 0 where
  pub some_shards : 0 < p.shards
  pub chains : (s : ℕ) → s < p.shards → Chain p.jobs (p.queue_v s).first (q s)
  pub lasts : (s : ℕ) → s < p.shards → (p.queue_v s).final ≡ last_of (q s)
  pub once : (s : ℕ) → s < p.shards → distinct (q s) ≡ true
  pub own : (s c : ℕ) → s < p.shards → mem c (q s) ≡ true → shard_of p.shards (p.jobs c).shard ≡ s

pub shard_of-lt : (shards : ℕ) (n : Long) → 0 < shards → shard_of shards n < shards
unfolding shard_of
shard_of-lt shards (plus n) h = ground (arith, h)
shard_of-lt shards (minus n) h = h

last_of-none : (ps : List ℕ) → last_of ps ≡ none → ps ≡ []
last_of-none [] e = refl
last_of-none (p ∷ []) e = absurd (ground (arith, e))
last_of-none (p ∷ q ∷ qs) e = absurd (ground (arith, last_of-none (q ∷ qs) e))

pub set_at-shard :
    (k : ℕ) (n : Option ℕ) (jobs : ℕ → Job) (c : ℕ) → (set_next k n jobs c).shard ≡ (jobs c).shard
set_at-shard k n jobs c = ground arith

module _ (p : Pool) (q : ℕ → List ℕ) (con : ℕ) (r : Represents p q) where
  abbrev home : ℕ
  home = shard_of p.shards (p.jobs con).shard

  home-lt : home < p.shards
  home-lt = shard_of-lt p.shards (p.jobs con).shard r.some_shards

  abbrev marked : ℕ → Job
  marked = set_next con none p.jobs

  module _ (out : mem con (q home) ≡ false) where
    out_of_all : (s : ℕ) → s < p.shards → mem con (q s) ≡ false
    out_of_all s h = elim (Bool-cases (mem con (q s))) [
      | inl there ↦
          absurd (ground (arith, there, ap (λ i. mem con (q i)) (r.own s con h there), out))
      | inr absent ↦ absent
    ]

    marked-Chain : (s : ℕ) → s < p.shards → Chain marked (p.queue_v s).first (q s)
    marked-Chain s h =
        Chain-set p.jobs con _ (p.queue_v s).first (q s) (out_of_all s h) (r.chains s h)

    marked-ends : (marked con).async_next ≡ none
    marked-ends = ground arith

    -- A request of this queue is in no other.
    not_in_two :
        (t s : ℕ) → s < p.shards → mem t (q home) ≡ true → s == home ≡ false → mem t (q s) ≡ false
    not_in_two t s h there other = elim (Bool-cases (mem t (q s))) [
      | inl again ↦
          let same : s ≡ home = sym (r.own s t h again) ∙ r.own home t home-lt there in
          absurd (ground (arith, same, other))
      | inr absent ↦ absent
    ]

    abbrev q' : ℕ → List ℕ
    q' = set_at home (q home ++ con ∷ []) q

    -- What does not depend on how the request is linked
    once' : (s : ℕ) → s < p.shards → distinct (q' s) ≡ true
    once' s h = elim (Bool-cases (s == home)) [
      | inl here ↦ rw here (distinct-snoc con (q home) (r.once home home-lt) out)
      | inr other ↦ rw other (r.once s h)
    ]

    own' : (s c : ℕ) → s < p.shards → mem c (q' s) ≡ true → shard_of p.shards (p.jobs c).shard ≡ s
    unfolding mem
    own' s c h there = elim (Bool-cases (s == home)) [
      | inl here ↦
          let parts : mem c (q home) || (con == c || false) ≡ true =
            ground (arith, here, there, mem-append c (q home) (con ∷ [])) in
          elim (Bool-cases (mem c (q home))) [
            | inl old ↦ r.own home c home-lt old ∙ ground (arith, here)
            | inr new ↦
                let same : c ≡ con = ground (arith, parts, new) in
                ap (λ k. shard_of p.shards (p.jobs k).shard) same ∙ ground (arith, here)
          ]
      | inr other ↦ r.own s c h (ground (arith, other, there))
    ]

    -- One request behind the last one: the queue was empty, or not.
    link-none :
        (p.queue_v home).final ≡ none
        → Represents (link none con home (record p { jobs = marked })) q'
    link-none empty =
        let nothing = last_of-none (q home) (sym (r.lasts home home-lt) ∙ empty) in
        record {
          some_shards = r.some_shards;
          chains = λ s h. elim (Bool-cases (s == home)) [
            | inl here ↦ rw (here, nothing) (refl, marked-ends)
            | inr other ↦ rw other (marked-Chain s h)
          ];
          lasts = λ s h. elim (Bool-cases (s == home)) [
            | inl here ↦ rw (here, nothing) refl
            | inr other ↦ rw other (r.lasts s h)
          ];
          once = once';
          own = λ s c h there.
              ap (λ x. shard_of p.shards x) (set_at-shard con none p.jobs c) ∙ own' s c h there;
        }

    link-some :
        (t : ℕ)
        → (p.queue_v home).final ≡ some t
        → Represents (link (some t) con home (record p { jobs = marked })) q'
    link-some t last =
        let at_end = sym (r.lasts home home-lt) ∙ last in
        let there = last_of-mem t (q home) at_end in
        let elsewhere =
          λ (s : ℕ) (h : s < p.shards) (other : s == home ≡ false). not_in_two t s h there other in
        record {
          some_shards = r.some_shards;
          chains = λ s h. elim (Bool-cases (s == home)) [
            | inl here ↦ rw here (
                Chain-snoc marked t con (p.queue_v home).first (q home) at_end (r.once home home-lt)
                  out marked-ends (marked-Chain home home-lt))
            | inr other ↦ rw other (
                Chain-set marked t _ (p.queue_v s).first (q s) (elsewhere s h other)
                  (marked-Chain s h))
          ];
          lasts = λ s h. elim (Bool-cases (s == home)) [
            | inl here ↦ rw here (sym (last_of-snoc con (q home)))
            | inr other ↦ rw other (r.lasts s h)
          ];
          once = once';
          own = λ s c h inside.
              ap (λ x. shard_of p.shards x)
                (set_at-shard t (some con) marked c ∙ set_at-shard con none p.jobs c)
              ∙ own' s c h inside;
        }

-- The queue after worker_enqueue
pub worker_enqueue-Represents :
    (p : Pool) (q : ℕ → List ℕ) (con : ℕ)
    → Represents p q
    → mem con (q (shard_of p.shards (p.jobs con).shard)) ≡ false
    → Represents (worker_enqueue con p) (
        set_at
          (shard_of p.shards (p.jobs con).shard)
          (q (shard_of p.shards (p.jobs con).shard) ++ con ∷ [])
          q)
unfolding worker_enqueue
worker_enqueue-Represents p q con r out =
    let s = shard_of p.shards (p.jobs con).shard in
    elim (Option-cases (p.queue_v s).final) [
      | inl empty ↦ rw empty (link-none p q con r out empty)
      | inr (t, last) ↦ rw last (link-some p q con r out t last)
    ]

-- A worker's visit to a queue
pub worker_take-none :
    (p : Pool) (q : ℕ → List ℕ) (s : ℕ)
    → Represents p q
    → s < p.shards
    → q s ≡ []
    → worker_take s p ≡ (if p.workers_run then waits else leaves, p)
unfolding worker_take
worker_take-none p q s r h empty =
    let c = subst (λ l. Chain p.jobs (p.queue_v s).first l) empty (r.chains s h) in rw c refl

tail_for-last :
    (jobs : ℕ → Job) (next t : Option ℕ) (con : ℕ) (rest : List ℕ)
    → Chain jobs next rest
    → t ≡ last_of (con ∷ rest)
    → tail_for next t ≡ last_of rest
tail_for-last jobs next t con [] c e = rw c refl
tail_for-last jobs next t con (x ∷ xs) c e = rw c.0 e

taken-Represents :
    (p : Pool) (q : ℕ → List ℕ) (s con : ℕ) (rest : List ℕ)
    → Represents p q
    → s < p.shards
    → q s ≡ con ∷ rest
    → Chain p.jobs (p.jobs con).async_next rest
    → Represents
        (record p {
          queue_v = set_at s (without_first (p.jobs con).async_next (p.queue_v s)) p.queue_v;
        })
        (set_at s rest q)
unfolding mem distinct
taken-Represents p q s con rest r h full c =
    let final = r.lasts s h ∙ ap last_of full in
    let once = sym (ap distinct full) ∙ r.once s h in
    record {
      some_shards = r.some_shards;
      chains = λ i k. elim (Bool-cases (i == s)) [
        | inl here ↦ rw here c
        | inr other ↦ rw other (r.chains i k)
      ];
      lasts = λ i k. elim (Bool-cases (i == s)) [
        | inl here ↦
            rw here
              (tail_for-last p.jobs (p.jobs con).async_next (p.queue_v s).final con rest c final)
        | inr other ↦ rw other (r.lasts i k)
      ];
      once = λ i k. elim (Bool-cases (i == s)) [
        | inl here ↦ rw here (ground (arith, once))
        | inr other ↦ rw other (r.once i k)
      ];
      own = λ i c' k inside. elim (Bool-cases (i == s)) [
        | inl here ↦
            let old : mem c' (q s) ≡ true = ap (mem c') full ∙ ground (arith, here, inside) in
            r.own s c' h old ∙ ground (arith, here)
        | inr other ↦ r.own i c' k (ground (arith, other, inside))
      ];
    }

pub worker_take-some :
    (p : Pool) (q : ℕ → List ℕ) (s con : ℕ) (rest : List ℕ)
    → Represents p q
    → s < p.shards
    → q s ≡ con ∷ rest
    → ((worker_take s p).0 ≡ takes con) × Represents (worker_take s p).1 (set_at s rest q)
unfolding worker_take
worker_take-some p q s con rest r h full =
    let c = subst (λ l. Chain p.jobs (p.queue_v s).first l) full (r.chains s h) in
    rw c.0 (refl, taken-Represents p q s con rest r h full c.1)
