-- ===== src/Backend/Start/Life.antt =====
-- Each loop goes its way in order, and is taken down again.
use cor_rest.Base.{
  ltb, ◌==◌, if◌then◌else◌, ==→eq, ==_self, Bool-cases, ℕ, zero, suc, ◌+◌, ◌≤◌, ◌≡◌, refl, sym, ap,
  ◌∙◌, ◌≢◌, inl, inr, Bool, true, false, Option, none, some, List, [], ◌∷◌, ◌++◌, arith,
}
use cor_rest.Backend.Start.{
  each_from, init_loops, run_loops, backend_start, backend_stop, LoopCall, inits, releases, runs,
  stops, joins, Backend, Machine,
}

-- What a server is in, between the calls
pub data Slot : Type 0 where
  unused listening serving stopping : Slot

-- A call in its place; `none` is one out of order, such as the release of a server that still runs.
abbrev pub step : LoopCall → Slot → Option Slot
step (inits k) unused = some listening
step (runs k) listening = some serving
step (stops k) serving = some stopping
step (joins k) stopping = some listening
step (releases k) listening = some unused
step _ s = none

abbrev pub loop_of : LoopCall → ℕ
loop_of (inits k) = k
loop_of (releases k) = k
loop_of (runs k) = k
loop_of (stops k) = k
loop_of (joins k) = k

-- What becomes of the server k
unfoldable pub life : ℕ → List LoopCall → Option Slot → Option Slot
life k [] s = s
life k (a ∷ acts) none = none
life k (a ∷ acts) (some s) = life k acts (if loop_of a == k then step a s else some s)

life-none : (k : ℕ) (acts : List LoopCall) → life k acts none ≡ none
unfolding life
life-none k [] = refl
life-none k (a ∷ acts) = refl

life-append :
    (k : ℕ) (xs ys : List LoopCall) (s : Option Slot)
    → life k (xs ++ ys) s ≡ life k ys (life k xs s)
unfolding life
life-append k [] ys s = refl
life-append k (a ∷ xs) ys none = sym (life-none k ys)
life-append k (a ∷ xs) ys (some s) =
    life-append k xs ys (if loop_of a == k then step a s else some s)

-- One call
life-cons :
    (k : ℕ) (a : LoopCall) (acts : List LoopCall) (s t : Slot)
    → (loop_of a ≡ k → step a s ≡ some t)
    → (loop_of a ≢ k → s ≡ t)
    → life k (a ∷ acts) (some s) ≡ life k acts (some t)
unfolding life
life-cons k a acts s t moves stays = elim (Bool-cases (loop_of a == k)) [
  | inl here ↦ let moved = moves (==→eq (loop_of a) k here) in rw here (ap (life k acts) moved)
  | inr there ↦
      let other : loop_of a ≢ k = λ e. cc (e, ==_self k, there) in
      rw there (ap (λ r. life k acts (some r)) (stays other))
]

-- A server below a bound is in one state, the others in another.
abbrev below : ℕ → ℕ → Slot → Slot → Slot
below k n s t = if ltb k n then s else t

-- A sweep moves the servers that it reaches.
life-each_from :
    (act : ℕ → LoopCall) (k : ℕ) (s t u : Slot)
    → ((i : ℕ) → loop_of (act i) ≡ i)
    → ((i : ℕ) → step (act i) s ≡ some t)
    → (n i m : ℕ) → i + n ≡ m
    → life k (each_from act n i) (some (below k i t (below k m s u))) ≡ some (below k m t u)
unfolding life each_from
life-each_from act k s t u of_loop moves zero i m e =
    let same : below k i t (below k m s u) ≡ below k m t u = ground (arith, e) in ap some same
life-each_from act k s t u of_loop moves (suc n) i m e =
    let later = life-each_from act k s t u of_loop moves n (i + 1) m (omega (arith, e)) in
    let at_i = of_loop i in
    life-cons k (act i) (each_from act n (i + 1)) (below k i t (below k m s u))
      (below k (i + 1) t (below k m s u))
      (λ here.
        let same : i ≡ k = sym at_i ∙ here in
        let before : below k i t (below k m s u) ≡ s = ground (arith, e, same) in
        let after : below k (i + 1) t (below k m s u) ≡ t = ground (arith, same) in
        ap (step (act i)) before ∙ moves i ∙ ap some (sym after))
      (λ there. let other : i ≢ k = λ e'. there (at_i ∙ e') in ground (arith, other))
    ∙ later

-- Whole sweeps, over all servers below m
life-all :
    (act : ℕ → LoopCall) (k : ℕ) (s t u : Slot)
    → ((i : ℕ) → loop_of (act i) ≡ i)
    → ((i : ℕ) → step (act i) s ≡ some t)
    → (m : ℕ) → life k (each_from act m 0) (some (below k m s u)) ≡ some (below k m t u)
life-all act k s t u of_loop moves m =
    let swept = life-each_from act k s t u of_loop moves m 0 m (omega arith) in
    let start : below k 0 t (below k m s u) ≡ below k m s u = ground arith in rw start at swept

-- The initialisation from the server i on: all listen, or none is left.
life-init_loops :
    (ok : ℕ → Bool) (k n i : ℕ)
    → life k (init_loops ok n i).0 (some (below k i listening unused))
      ≡ some (if (init_loops ok n i).1 then below k (i + n) listening unused else unused)
unfolding init_loops life
life-init_loops ok k zero i = ap (λ m. some (below k m listening unused)) (omega arith)
life-init_loops ok k (suc n) i = elim (Bool-cases (ok i)) [
  | inr failed ↦
      let gone = life-all releases k listening unused unused (λ j. refl) (λ j. refl) i in
      let none_left : below k i unused unused ≡ unused = ground arith in
      rw failed (gone ∙ ap some none_left)
  | inl good ↦
      let later = life-init_loops ok k n (i + 1) in
      let sum : i + suc n ≡ i + 1 + n = omega arith in
      rw (good, sum)
        (life-cons k (inits i) (init_loops ok n (i + 1)).0 (below k i listening unused)
            (below k (i + 1) listening unused)
            (λ here.
              let before : below k i listening unused ≡ unused = ground (arith, here) in
              let after : below k (i + 1) listening unused ≡ listening = ground (arith, here) in
              ap (step (inits i)) before ∙ ap some (sym after))
            (λ there. ground (arith, there))
          ∙ later)
]

-- The state of the server k where the threads below i run
running_below : ℕ → ℕ → ℕ → Slot
running_below loops k i = below k i serving (below k loops listening unused)

-- Where a thread does not start, no server is left.
life-undo :
    (loops k i : ℕ)
    → i ≤ loops
    → life k
        (each_from stops i 0 ++ (each_from joins i 0 ++ each_from releases loops 0))
        (some (running_below loops k i))
      ≡ some unused
unfolding running_below
life-undo loops k i within =
    let idle = below k loops listening unused in
    let down = each_from joins i 0 ++ each_from releases loops 0 in
    let stopped = life-all stops k serving stopping idle (λ j. refl) (λ j. refl) i in
    let joined = life-all joins k stopping listening idle (λ j. refl) (λ j. refl) i in
    let released = life-all releases k listening unused unused (λ j. refl) (λ j. refl) loops in
    let all_idle : below k i listening idle ≡ idle = ground (arith, within) in
    let none_left : below k loops unused unused ≡ unused = ground arith in
    life-append k (each_from stops i 0) down (some (below k i serving idle))
    ∙ ap (life k down) stopped
    ∙ life-append k (each_from joins i 0) (each_from releases loops 0)
        (some (below k i stopping idle))
    ∙ ap (life k (each_from releases loops 0)) (joined ∙ ap some all_idle)
    ∙ released
    ∙ ap some none_left

-- The start of the threads from i on: all run, or no server is left.
life-run_loops :
    (ok : ℕ → Bool) (loops k n i : ℕ)
    → i + n ≡ loops
    → life k (run_loops ok loops n i).0 (some (running_below loops k i))
      ≡ some (if (run_loops ok loops n i).1 then below k loops serving unused else unused)
unfolding run_loops life
life-run_loops ok loops k zero i e =
    let all : running_below loops k i ≡ below k loops serving unused =
      unfold running_below in ground (arith, e) in
    ap some all
life-run_loops ok loops k (suc n) i e = elim (Bool-cases (ok i)) [
  | inr failed ↦ rw failed (life-undo loops k i (omega (arith, e)))
  | inl good ↦
      let later = life-run_loops ok loops k n (i + 1) (omega (arith, e)) in
      let idle = below k loops listening unused in
      rw good (
        life-cons k (runs i) (run_loops ok loops n (i + 1)).0 (running_below loops k i)
          (running_below loops k (i + 1))
          (λ here.
            unfold running_below in
            (let before : below k i serving idle ≡ listening = ground (arith, here, e) in
              let after : below k (i + 1) serving idle ≡ serving = ground (arith, here) in
              ap (step (runs i)) before ∙ ap some (sym after)))
          (λ there. unfold running_below in ground (arith, there))
        ∙ later)
]

-- What a start leaves: where it succeeds, the loops run and the flag says so; else nothing is left.
life-backend_start :
    (m : Machine) (tls_asked : Bool) (b : Backend) (k : ℕ)
    → b.http_running ≡ false
    → (let (acts, good, b1) = backend_start m tls_asked b in
        (life k acts (some unused)
          ≡ some (if good then below k b.http_loops serving unused else unused))
        × (b1.http_running ≡ good)
        × (b1.http_loops ≡ b.http_loops))
unfolding backend_start
life-backend_start m true b k off = (unfold life in refl, off, refl)
life-backend_start m false b k off =
    let loops = b.http_loops in
    let up = init_loops m.init_ok loops 0 in
    let threads = run_loops m.create_ok loops loops 0 in
    let nothing : below k 0 listening unused ≡ unused = ground arith in
    let listened =
      ap (λ s. life k up.0 (some s)) (sym nothing) ∙ life-init_loops m.init_ok k loops 0 in
    let sum : 0 + loops ≡ loops = omega arith in
    elim (Bool-cases up.1) [
      | inr failed ↦ rw failed (rw failed at listened, off, refl)
      | inl good ↦
          let all_listen : life k up.0 (some unused) ≡ some (below k loops listening unused) =
            rw (good, sum) at listened in
          elim (Bool-cases m.share_ok) [
            | inr alone ↦
                rw (good, alone)
                  (
                    life-append k up.0 (each_from releases loops 0) (some unused)
                        ∙ ap (life k (each_from releases loops 0)) all_listen
                        ∙ life-all releases k listening unused unused (λ j. refl) (λ j. refl) loops
                        ∙ ap some (ground arith),
                    off,
                    refl,
                  )
            | inl shared ↦
                let none_run : running_below loops k 0 ≡ below k loops listening unused =
                  unfold running_below in ground arith in
                let ran =
                  ap (λ s. life k threads.0 (some s)) (sym none_run)
                  ∙ life-run_loops m.create_ok loops k loops 0 sum in
                let all_run =
                  life-append k up.0 threads.0 (some unused)
                  ∙ ap (life k threads.0) all_listen
                  ∙ ran in
                elim (Bool-cases threads.1) [
                  | inl started ↦ rw (good, shared, started) (rw started at all_run, refl, refl)
                  | inr down ↦ rw (good, shared, down) (rw down at all_run, off, refl)
                ]
          ]
    ]

life-backend_stop :
    (b : Backend) (k : ℕ)
    → life k
        (backend_stop b).0
        (some (if b.http_running then below k b.http_loops serving unused else unused))
      ≡ some unused
unfolding backend_stop life
life-backend_stop b k =
    let loops = b.http_loops in
    let idle = below k loops listening unused in
    let same : below k loops serving unused ≡ running_below loops k loops =
      unfold running_below in ground arith in
    let undone =
      ap
        (λ s.
          life k
            (each_from stops loops 0 ++ (each_from joins loops 0 ++ each_from releases loops 0))
            (some s))
        same
      ∙ life-undo loops k loops (omega arith) in
    elim (Bool-cases b.http_running) [ inl on ↦ rw on undone | inr off ↦ rw off refl ]

-- Whatever fails at the start of a server that does not run: every event loop is initialised before
-- its thread runs, and released only where no thread of it runs; after a start that answers 0 all
-- loops run, and after any other none is left; and after a stop none is left either way.
pub backend_start-backend_stop :
    (m : Machine) (tls_asked : Bool) (b : Backend) (k : ℕ)
    → b.http_running ≡ false
    → (let (acts, good, b1) = backend_start m tls_asked b in
        (life k acts (some unused)
          ≡ some (if good then (if ltb k b.http_loops then serving else unused) else unused))
        × (life k (acts ++ (backend_stop b1).0) (some unused) ≡ some unused)
        × ((backend_stop b1).1.http_running ≡ false))
backend_start-backend_stop m tls_asked b k off =
    let r = backend_start m tls_asked b in
    let (lives, flag, loops) = life-backend_start m tls_asked b k off in
    let same : (if r.1 then below k b.http_loops serving unused else unused)
        ≡ (if r.2.http_running then below k r.2.http_loops serving unused else unused) =
      rw (flag, loops) refl in
    (
      lives,
      life-append k r.0 (backend_stop r.2).0 (some unused)
          ∙ ap (life k (backend_stop r.2).0) (lives ∙ ap some same)
          ∙ life-backend_stop r.2 k,
      unfold backend_stop in ground arith,
    )
