-- ===== src/Route/Lookup/One.antt =====
-- A route with one wildcard matches the paths that put a component in its place.
use mathlib.Core.List.{append-nil, append_assoc}
use cor_rest.Base.{
  Bytes, length, take, drop, length-append, take-append, drop-append, All-split, c_string, IsText,
  c_string_lem, c_string-cut, strn_eq-append, strn_eq-prefix, ℕ, ◌+◌, ◌-◌, ◌≤◌, ◌<◌, ◌≡◌, refl, sym,
  ap, ◌∙◌, ◌≢◌, Bool, true, [], ◌∷◌, ◌++◌, arith,
}
use cor_rest.Route.{Service}
use cor_rest.Route.Pattern.{star}
use cor_rest.Route.Prepared.{IsOne}
use cor_rest.Route.Lookup.{text_at, put_nul, is_component, match_one, match_service, hit}
use cor_rest.Route.Lookup.Sums.{lookup_one, sum_before-prefix}

-- The path has a nonempty text in the place of the wildcard: one component, unless it is "**".
pub record Fills (pre : Bytes) (g : Bool) (suf : Bytes) (p w : Bytes) : Type 0 where
  pub path_is : p ≡ pre ++ (w ++ suf)
  pub some_text : w ≢ []
  pub component : is_component g w ≡ true

pub put_nul-append : (a : Bytes) (c : ℕ) (r : Bytes) → put_nul (a ++ c ∷ r) (length a) ≡ a ++ 0 ∷ r
unfolding put_nul
put_nul-append [] c r = refl
put_nul-append (x ∷ a) c r = ap (◌∷◌ x) (put_nul-append a c r)

-- The text of the wildcard, read from the buffer that was cut behind it.
pub cut_text :
    (pre w : Bytes) (c : ℕ) (r : Bytes)
    → IsText w
    → text_at (put_nul (pre ++ (w ++ c ∷ r)) (length pre + length w)) (length pre) ≡ w
cut_text pre w c r h =
    ap (λ b. text_at b (length pre))
      (ap (λ n. put_nul (pre ++ (w ++ c ∷ r)) n) (sym (length-append pre w))
        ∙ ap (λ b. put_nul b (length (pre ++ w))) (sym (append_assoc pre w (c ∷ r)))
        ∙ put_nul-append (pre ++ w) c r
        ∙ append_assoc pre w (0 ∷ r))
    ∙ ap c_string (drop-append pre (w ++ 0 ∷ r))
    ∙ c_string-cut w r h

module _ (stray : ℕ → ℕ) (s : Service) (pre : Bytes) (g : Bool) (suf : Bytes)
    (o : IsOne pre g suf s) (lo : 0 < length pre) (hi : length pre ≤ 64) where
  -- What is left of the lookup once the path starts with the literal.
  pub match_service-one :
      (r : Bytes)
      → r ≢ []
      → lookup_one stray s (pre ++ r) ≡ match_one (length (pre ++ r)) s (pre ++ r)
  unfolding match_service
  match_service-one [] ne = absurd (ne refl)
  match_service-one (c ∷ r) ne =
      ground (arith, o, sum_before-prefix stray pre (c ∷ r) lo hi, length-append pre (c ∷ r))

no_suffix :
    (s : Service) (pre : Bytes) (g : Bool) (w : Bytes)
    → IsOne pre g [] s
    → IsText (pre ++ w)
    → w ≢ []
    → is_component g w ≡ true
    → match_one (length (pre ++ w)) s (pre ++ w) ≡ hit (pre ++ w) (length pre ∷ [])
unfolding match_one
no_suffix s pre g w o ht ne comp = ground (
  arith,
  o,
  strn_eq-append pre (star g ++ []) w,
  c_string_lem (pre ++ w) ht,
  drop-append pre w,
  c_string_lem w (All-split (λ c. 0 < c) pre w ht).1,
)

module _ (s : Service) (pre : Bytes) (g : Bool) (d : ℕ) (suf w : Bytes)
    (o : IsOne pre g (d ∷ suf) s) where
  abbrev whole : Bytes
  whole = pre ++ (w ++ d ∷ suf)

  abbrev wild_end : ℕ
  wild_end = length pre + length w

  length-whole : length whole ≡ wild_end + length (d ∷ suf)
  length-whole = omega (arith, length-append pre (w ++ d ∷ suf), length-append w (d ∷ suf))

  drop-whole : drop wild_end whole ≡ d ∷ suf
  drop-whole =
      ap (λ n. drop n whole) (sym (length-append pre w))
      ∙ ap (drop (length (pre ++ w))) (sym (append_assoc pre w (d ∷ suf)))
      ∙ drop-append (pre ++ w) (d ∷ suf)

  suffix :
      IsText whole
      → w ≢ []
      → is_component g w ≡ true
      → match_one (length whole) s whole ≡ hit (put_nul whole wild_end) (length pre ∷ [])
  unfolding match_one
  suffix ht ne comp = ground (
    arith,
    o,
    ends,
    ap (λ n. drop n whole) ends,
    ap (put_nul whole) ends,
    drop-whole,
    length-whole,
    strn_eq-append pre (star g ++ d ∷ suf) (w ++ d ∷ suf),
    c_string_lem whole ht,
    drop-append pre (w ++ d ∷ suf),
    take-append w (d ∷ suf),
    strn_eq-prefix (d ∷ suf) [],
    append-nil suf,
    ap (λ n. take n (w ++ d ∷ suf)) taken,
    c_string_lem (d ∷ suf) ends_text,
  )
    where
      ends : length whole - length (d ∷ suf) ≡ wild_end
      ends = omega (arith, length-whole)

      taken : length whole - length (d ∷ suf) - length pre ≡ length w
      taken = omega (arith, length-whole)

      ends_text : IsText (d ∷ suf)
      ends_text =
          (All-split (λ c. 0 < c) w (d ∷ suf) (All-split (λ c. 0 < c) pre (w ++ d ∷ suf) ht).1).1

-- A path that a route's wildcard fills matches it, and the wildcard reads as what fills it.
pub match_filled :
    (s : Service) (pre : Bytes) (g : Bool) (suf w : Bytes)
    → IsOne pre g suf s
    → IsText (pre ++ (w ++ suf))
    → w ≢ []
    → is_component g w ≡ true
    → (b : Bytes) × (match_one (length (pre ++ (w ++ suf))) s (pre ++ (w ++ suf))
        ≡ hit b (length pre ∷ []))
      × (text_at b (length pre) ≡ w)
match_filled s pre g [] w o ht ne comp = (
  pre ++ (w ++ []),
  rw append-nil (no_suffix s pre g w o (rw append-nil at ht) ne comp),
  ap c_string (drop-append pre (w ++ []) ∙ append-nil w)
      ∙ c_string_lem w (All-split (λ c. 0 < c) pre w (rw append-nil at ht)).1,
)
match_filled s pre g (d ∷ suf) w o ht ne comp = (
  put_nul (pre ++ (w ++ d ∷ suf)) (length pre + length w),
  suffix s pre g d suf w o ht ne comp,
  cut_text pre w d suf
      (All-split (λ c. 0 < c) w (d ∷ suf) (All-split (λ c. 0 < c) pre (w ++ d ∷ suf) ht).1).0,
)
