-- ===== src/Workers/Queue.antt =====
-- The linked requests of one queue, as a list.
use cor_rest.Base.{
  ◌==◌, ℕ, ◌≡◌, refl, Bool, true, false, not, ◌&&◌, ◌||◌, Option, none, some, List, [], ◌∷◌, ◌++◌,
  arith,
}
use cor_rest.Workers.{set_at, set_next, Job}

unfoldable pub mem : ℕ → List ℕ → Bool
mem p [] = false
mem p (q ∷ qs) = q == p || mem p qs

unfoldable pub distinct : List ℕ → Bool
unfolding mem
distinct [] = true
distinct (p ∷ ps) = not (mem p ps) && distinct ps

-- From a request on, the asyncNext of each leads to the next one of the list, and the last has none.
abbrev pub Chain : (ℕ → Job) → Option ℕ → List ℕ → Type 0
Chain jobs h [] = h ≡ none
Chain jobs h (p ∷ ps) = (h ≡ some p) × Chain jobs (jobs p).async_next ps

abbrev pub last_of : List ℕ → Option ℕ
last_of [] = none
last_of (p ∷ []) = some p
last_of (p ∷ q ∷ qs) = last_of (q ∷ qs)

pub mem-append : (p : ℕ) (a b : List ℕ) → mem p (a ++ b) ≡ mem p a || mem p b
unfolding mem
mem-append p [] b = refl
mem-append p (q ∷ a) b = ground (arith, mem-append p a b)

-- A request that is not in the list may be changed.
pub Chain-set :
    (jobs : ℕ → Job) (k : ℕ) (j : Job) (h : Option ℕ) (ps : List ℕ)
    → mem k ps ≡ false
    → Chain jobs h ps
    → Chain (set_at k j jobs) h ps
unfolding mem
Chain-set jobs k j h [] out c = c
Chain-set jobs k j h (p ∷ ps) out c =
    let other : p == k ≡ false = ground (arith, out) in
    let out' : mem k ps ≡ false = ground (arith, out) in
    (c.0, rw other (Chain-set jobs k j (jobs p).async_next ps out' c.1))

pub last_of-mem : (t : ℕ) (ps : List ℕ) → last_of ps ≡ some t → mem t ps ≡ true
unfolding mem
last_of-mem t [] e = absurd (ground (arith, e))
last_of-mem t (p ∷ []) e = ground (arith, e)
last_of-mem t (p ∷ q ∷ qs) e = ground (arith, last_of-mem t (q ∷ qs) e)

-- A request behind the last one
pub Chain-snoc :
    (jobs : ℕ → Job) (t p : ℕ) (h : Option ℕ) (ps : List ℕ)
    → last_of ps ≡ some t
    → distinct ps ≡ true
    → mem p ps ≡ false
    → (jobs p).async_next ≡ none
    → Chain jobs h ps
    → Chain (set_next t (some p) jobs) h (ps ++ p ∷ [])
unfolding mem distinct
Chain-snoc jobs t p h [] e d out ends c = absurd (ground (arith, e))
Chain-snoc jobs t p h (q ∷ []) e d out ends c =
    let here : q == t ≡ true = ground (arith, e) in
    let there : p == t ≡ false = ground (arith, e, out) in (c.0, rw here (refl, rw there ends))
Chain-snoc jobs t p h (q ∷ r ∷ rs) e d out ends c =
    let within = last_of-mem t (r ∷ rs) e in
    let other : q == t ≡ false = ground (arith, d, within) in
    let rest =
      Chain-snoc jobs t p (jobs q).async_next (r ∷ rs) e (ground (arith, d)) (ground (arith, out))
        ends c.1 in
    (c.0, rw other rest)

pub last_of-snoc : (p : ℕ) (ps : List ℕ) → last_of (ps ++ p ∷ []) ≡ some p
last_of-snoc p [] = refl
last_of-snoc p (q ∷ []) = refl
last_of-snoc p (q ∷ r ∷ rs) = last_of-snoc p (r ∷ rs)

pub distinct-snoc :
    (p : ℕ) (ps : List ℕ) → distinct ps ≡ true → mem p ps ≡ false → distinct (ps ++ p ∷ []) ≡ true
unfolding distinct mem
distinct-snoc p [] d out = refl
distinct-snoc p (q ∷ ps) d out =
    ground (arith, d, out, distinct-snoc p ps, mem-append q ps (p ∷ []))
