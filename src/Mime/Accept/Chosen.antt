-- ===== src/Mime/Accept/Chosen.antt =====
-- The pick among the three records has the highest q of the header; there is no pick exactly when
-- no entry that names one of the three types has a q above zero.
use cor_rest.Base.{Bytes, ◌≡◌, ◌≢◌, true, false, arith}
use cor_rest.Mime.{MimeType, mime_none, ld_json, geo_json, merge_patch_json}
use cor_rest.Mime.Accept.{
  double_lt, q_zero, token_type, exclude_zero, beats, pick, choose, Double, Seen, Negotiation,
}
use cor_rest.Mime.Accept.Best.{IsNumber, ge_trans}

beats_best :
    (s b : Seen) → IsNumber s.q → IsNumber b.q → beats s b ≡ true → double_lt s.q b.q ≡ false
unfolding beats
beats_best s b h k e = ground arith

not_beats_best :
    (s b : Seen) → IsNumber s.q → IsNumber b.q → beats s b ≡ false → double_lt b.q s.q ≡ false
unfolding beats
not_beats_best s b h k e = ground arith

ge_refl : (a : Double) → double_lt a a ≡ false
ge_refl a = ground arith

-- The record that belongs to a type.
abbrev pub of_type {ℓ} : {A : Type ℓ} → MimeType → A → A → A → A
of_type ld_json j l g = l
of_type geo_json j l g = g
of_type _ j l g = j

-- The pick is at least each candidate, and at least zero.
abbrev pub IsTop : Double → Seen → Seen → Seen → Type 0
IsTop a j l g =
    (double_lt a j.q ≡ false)
    × (double_lt a l.q ≡ false)
    × (double_lt a g.q ≡ false)
    × (double_lt a q_zero ≡ false)

module _ (j l g : Seen) (hj : IsNumber j.q) (hl : IsNumber l.q) (hg : IsNumber g.q) where
  pick-IsTop : pick j l g ≢ mime_none → IsTop (of_type (pick j l g) j l g).q j l g
  unfolding pick
  pick-IsTop h = ground (
    arith,
    beats_best l j,
    not_beats_best l j,
    beats_best g j,
    not_beats_best g j,
    beats_best g l,
    not_beats_best g l,
    ge_refl j.q,
    ge_refl l.q,
    ge_refl g.q,
    ge_trans g.q l.q j.q,
    ge_trans g.q j.q l.q,
    ge_trans l.q j.q g.q,
    ge_trans j.q l.q g.q,
    ge_trans j.q l.q q_zero,
    ge_trans j.q g.q q_zero,
    ge_trans l.q j.q q_zero,
    ge_trans l.q g.q q_zero,
    ge_trans g.q j.q q_zero,
    ge_trans g.q l.q q_zero,
  )

exclude-IsNumber : (s : Seen) → IsNumber s.q → IsNumber (exclude_zero s).q
unfolding exclude_zero
exclude-IsNumber s h = ground arith

exclude_below :
    (a : Double) (s : Seen)
    → IsNumber a
    → IsNumber s.q
    → double_lt a (exclude_zero s).q ≡ false
    → double_lt a q_zero ≡ false
    → double_lt a s.q ≡ false
unfolding exclude_zero
exclude_below a s h k p q = ground arith

exclude_kept :
    (s : Seen)
    → IsNumber s.q
    → double_lt (exclude_zero s).q q_zero ≡ false
    → ((exclude_zero s).q ≡ s.q) × (double_lt q_zero s.q ≡ true)
unfolding exclude_zero
exclude_kept s h p = ground arith

exclude_dropped :
    (s : Seen)
    → IsNumber s.q
    → double_lt (exclude_zero s).q q_zero ≡ true
    → double_lt q_zero s.q ≡ false
unfolding exclude_zero
exclude_dropped s h p = ground arith

pick_none :
    (j l g : Seen)
    → pick j l g ≡ mime_none
    → (double_lt j.q q_zero ≡ true) × (double_lt l.q q_zero ≡ true) × (double_lt g.q q_zero ≡ true)
unfolding pick
pick_none j l g h = ground arith

pub token_type-ne-merge : (s : Bytes) → token_type s ≢ merge_patch_json
unfolding token_type
token_type-ne-merge s h = ground arith

-- The record of the chosen type.
abbrev pub chosen : Negotiation → Seen
chosen n = of_type (choose n) n.seen_json n.seen_ld n.seen_geo

module _ (n : Negotiation) (hj : IsNumber n.seen_json.q) (hl : IsNumber n.seen_ld.q)
    (hg : IsNumber n.seen_geo.q) where
  pub choose-IsTop :
      choose n ≢ mime_none
      → (IsTop (chosen n).q n.seen_json n.seen_ld n.seen_geo)
        × (double_lt q_zero (chosen n).q ≡ true)
  unfolding choose
  choose-IsTop h = ground (
    arith,
    pick-IsTop (exclude_zero n.seen_json) (exclude_zero n.seen_ld) (exclude_zero n.seen_geo)
        (exclude-IsNumber n.seen_json hj) (exclude-IsNumber n.seen_ld hl)
        (exclude-IsNumber n.seen_geo hg) h,
    exclude_below (chosen n).q n.seen_json,
    exclude_below (chosen n).q n.seen_ld,
    exclude_below (chosen n).q n.seen_geo,
    exclude_kept n.seen_json,
    exclude_kept n.seen_ld,
    exclude_kept n.seen_geo,
  )

  pub choose_none :
      choose n ≡ mime_none
      → (double_lt q_zero n.seen_json.q ≡ false)
        × (double_lt q_zero n.seen_ld.q ≡ false)
        × (double_lt q_zero n.seen_geo.q ≡ false)
  unfolding choose
  choose_none h = ground (
    arith,
    pick_none (exclude_zero n.seen_json) (exclude_zero n.seen_ld) (exclude_zero n.seen_geo) h,
    exclude_dropped n.seen_json hj,
    exclude_dropped n.seen_ld hl,
    exclude_dropped n.seen_geo hg,
  )

pick-ne-merge : (j l g : Seen) → pick j l g ≢ merge_patch_json
unfolding pick
pick-ne-merge j l g h = ground arith

pub choose-ne-merge : (n : Negotiation) → choose n ≢ merge_patch_json
unfolding choose
choose-ne-merge n =
    pick-ne-merge (exclude_zero n.seen_json) (exclude_zero n.seen_ld) (exclude_zero n.seen_geo)
