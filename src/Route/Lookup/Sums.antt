-- ===== src/Route/Lookup/Sums.antt =====
-- What the lookup reads from `cSumV`: the sum of the path's first chars, inside the filled part.
use cor_rest.Base.{
  Bytes, length, take, get_elem?, length-append, take-append, ℕ, zero, suc, ◌≤◌, ◌<◌, ◌≡◌, refl, ap,
  ◌∙◌, none, some, [], ◌∷◌, ◌++◌, arith,
}
use cor_rest.Route.{char_int, add_int, Service}
use cor_rest.Route.Pattern.{char_sum}
use cor_rest.Route.Lookup.{sums_from, request_prepare, sum_before, match_service, Outcome}

sums_from-get :
    (acc n : ℕ) (p : Bytes) (i : ℕ)
    → i < n
    → i < length p
    → get_elem? (sums_from acc n p) i ≡ some (char_sum acc (take (suc i) p))
unfolding sums_from char_sum
sums_from-get acc zero p i h k = absurd (omega arith)
sums_from-get acc (suc n) [] i h k = absurd (omega arith)
sums_from-get acc (suc n) (c ∷ p) zero h k = refl
sums_from-get acc (suc n) (c ∷ p) (suc i) h k =
    sums_from-get (add_int acc (char_int c)) n p i (omega arith) (omega arith)

pub sum_before_lem :
    (stray : ℕ → ℕ) (p : Bytes) (n : ℕ)
    → 0 < n
    → n ≤ 64
    → n ≤ length p
    → sum_before stray (request_prepare p).0 n ≡ char_sum 0 (take n p)
unfolding sum_before request_prepare
sum_before_lem stray p zero h k l = absurd (omega arith)
sum_before_lem stray p (suc i) h k l = ground (arith, sums_from-get 0 64 p i)

sums_from-get_none :
    (acc n : ℕ) (p : Bytes) (i : ℕ) → n ≤ i → get_elem? (sums_from acc n p) i ≡ none
unfolding sums_from
sums_from-get_none acc zero p i h = refl
sums_from-get_none acc (suc n) [] i h = refl
sums_from-get_none acc (suc n) (c ∷ p) zero h = absurd (omega arith)
sums_from-get_none acc (suc n) (c ∷ p) (suc i) h =
    sums_from-get_none (add_int acc (char_int c)) n p i (omega arith)

pub sum_before_stray :
    (stray : ℕ → ℕ) (p : Bytes) (n : ℕ)
    → 64 < n
    → sum_before stray (request_prepare p).0 n ≡ stray n
unfolding sum_before request_prepare
sum_before_stray stray p zero h = refl
sum_before_stray stray p (suc i) h = ground (arith, sums_from-get_none 0 64 p i)

-- One service against a path as it came.
abbrev pub lookup_one : (ℕ → ℕ) → Service → Bytes → Outcome
lookup_one stray s p = match_service stray (request_prepare p).0 (length p) s p

pub sum_before-prefix :
    (stray : ℕ → ℕ) (pre r : Bytes)
    → 0 < length pre
    → length pre ≤ 64
    → sum_before stray (request_prepare (pre ++ r)).0 (length pre) ≡ char_sum 0 pre
sum_before-prefix stray pre r h k =
    sum_before_lem stray (pre ++ r) (length pre) h k (omega (arith, length-append pre r))
    ∙ ap (char_sum 0) (take-append pre r)
