-- ===== src/Route/Prepared.antt =====
-- servicePrepare on patterns of one and two wildcards: the fields that lookup reads.
use native.Mathlib.Nat.{add_assoc}
use mathlib.Core.List.{append-nil, append_assoc}
use cor_rest.Base.{
  Bytes, length, drop, length-append, take-append, drop-append, drop-drop, codes, ◌+◌, ◌<◌, ◌≡◌,
  refl, sym, ap, ◌∙◌, ◌≢◌, Bool, true, false, ◌||◌, [], ◌∷◌, ◌++◌, arith,
}
use cor_rest.Route.{
  scan_start, scan_star, scan_double, scan, copy16, service_expand, ServiceSimplified, Service,
}
use cor_rest.Route.Pattern.{
  IsLiteral, star, char_sum, starred, one_wildcard, two_wildcards, behind_prefix, scan_none,
  scan_one, scan_two,
}

drop-two : (a b c : Bytes) → drop (length a + length b) (a ++ (b ++ c)) ≡ c
drop-two a b c = rw (← length-append a b, ← append_assoc a b c) (drop-append (a ++ b) c)

copy16_lem : (t r : Bytes) → length t < 16 → copy16 (length t) (t ++ r) ≡ t
unfolding copy16
copy16_lem [] r h = refl
copy16_lem (c ∷ t) r h = ground (arith, take-append (c ∷ t) r)

copy16_last : (t : Bytes) → length t < 16 → copy16 (length t) t ≡ t
copy16_last t h = ap (copy16 (length t)) (sym (append-nil t)) ∙ copy16_lem t [] h

-- The fields that lookup reads, for a pattern with no wildcard.
pub expand_none :
    (simple : ServiceSimplified)
    → IsLiteral simple.simple_url
    → let s = service_expand simple in
      (s.url ≡ simple.simple_url)
      × (s.wildcards ≡ 0)
      × (s.chars_before_first_wildcard ≡ length simple.simple_url)
      × (s.chars_before_first_wildcard_sum ≡ char_sum 0 simple.simple_url)
unfolding service_expand
expand_none simple h = ground (arith, scan_none simple.simple_url h)

-- Those for a pattern with one.
pub record IsOne (pre : Bytes) (g : Bool) (suf : Bytes) (s : Service) : Type 0 where
  pub url_is : s.url ≡ one_wildcard pre g suf
  pub wildcards_is : s.wildcards ≡ 1
  pub greedy_is : s.greedy ≡ g
  pub first_is : s.chars_before_first_wildcard ≡ length pre
  pub sum_is : s.chars_before_first_wildcard_sum ≡ char_sum 0 pre
  pub second_is : s.match_for_second_wildcard ≡ suf
  pub second_len_is : s.match_for_second_wildcard_len ≡ length suf

module _ (simple : ServiceSimplified) (pre : Bytes) (g : Bool) (suf : Bytes) where
  scan_one_at :
      simple.simple_url ≡ one_wildcard pre g suf
      → IsLiteral pre
      → IsLiteral suf
      → let s = starred g (behind_prefix pre) in
        scan simple.simple_url scan_start ≡ record s {
          ix = s.ix + length suf;
          second_len = s.second_len + length suf;
          second_sum = char_sum s.second_sum suf;
        }
  scan_one_at at hp hs = ap (λ u. scan u scan_start) at ∙ scan_one pre g suf hp hs

  copy_one :
      simple.simple_url ≡ one_wildcard pre g suf
      → length suf < 16
      → copy16 (length suf) (drop (length pre + length (star g)) simple.simple_url) ≡ suf
  copy_one at short =
      ap (λ u. copy16 (length suf) (drop (length pre + length (star g)) u)) at
      ∙ ap (copy16 (length suf)) (drop-two pre (star g) suf)
      ∙ copy16_last suf short

pub expand-IsOne :
    (simple : ServiceSimplified) (pre : Bytes) (g : Bool) (suf : Bytes)
    → simple.simple_url ≡ one_wildcard pre g suf
    → IsLiteral pre
    → IsLiteral suf
    → length suf < 16
    → IsOne pre g suf (service_expand simple)
unfolding service_expand scan_star scan_double
expand-IsOne simple pre true suf at hp hs short =
    ground (arith, scan_one_at simple pre true suf at hp hs, copy_one simple pre true suf at short)
expand-IsOne simple pre false suf at hp hs short =
    ground
      (arith, scan_one_at simple pre false suf at hp hs, copy_one simple pre false suf at short)

-- Those for a pattern with two.
pub record IsTwo (pre mid suf : Bytes) (g : Bool) (s : Service) : Type 0 where
  pub wildcards_is : s.wildcards ≡ 2
  pub greedy_is : s.greedy ≡ g
  pub first_is : s.chars_before_first_wildcard ≡ length pre
  pub sum_is : s.chars_before_first_wildcard_sum ≡ char_sum 0 pre
  pub second_is : s.match_for_second_wildcard ≡ mid
  pub second_len_is : s.match_for_second_wildcard_len ≡ length mid
  pub after_is : s.match_after_last_wildcard ≡ suf
  pub after_len_is : s.match_after_last_wildcard_len ≡ length suf

-- The literal that the code takes for the one between two wildcards: where the second is "**", it
-- runs on over the first of the two stars.
abbrev pub between : Bool → Bytes → Bytes
between true mid = mid ++ codes "*"
between false mid = mid

abbrev behind : Bytes → Bytes
behind suf = b'*' ∷ suf

between-append : (k : Bool) (mid suf : Bytes) → mid ++ (star k ++ suf) ≡ between k mid ++ behind suf
between-append true mid suf = sym (append_assoc mid (codes "*") (b'*' ∷ suf))
between-append false mid suf = refl

module _ (u pre mid suf : Bytes) (g k : Bool) (at : u ≡ two_wildcards pre g mid k suf) where
  copy_middle :
      length (between k mid) < 16
      → copy16 (length (between k mid)) (drop (length pre + length (star g)) u) ≡ between k mid
  copy_middle short =
      let m = between k mid in
      ap (λ u. copy16 (length m) (drop (length pre + length (star g)) u)) at
      ∙ ap (copy16 (length m))
          (drop-two pre (star g) (mid ++ (star k ++ suf)) ∙ between-append k mid suf)
      ∙ copy16_lem m (behind suf) short

  copy_suffix :
      length suf < 16
      → copy16 (length suf) (drop (length pre + length (star g) + length mid + length (star k)) u)
        ≡ suf
  copy_suffix short =
      let a = length pre + length (star g) in
      let b = length mid + length (star k) in
      let rest = mid ++ (star k ++ suf) in
      ap (λ n. copy16 (length suf) (drop n u)) (add_assoc a (length mid) (length (star k)))
      ∙ ap (λ v. copy16 (length suf) (drop (a + b) v)) at
      ∙ ap (copy16 (length suf)) (
          sym (drop-drop a b (two_wildcards pre g mid k suf))
          ∙ ap (drop b) (drop-two pre (star g) rest)
          ∙ drop-two mid (star k) suf)
      ∙ copy16_last suf short

pub expand-IsTwo :
    (simple : ServiceSimplified) (pre : Bytes) (g : Bool) (mid : Bytes) (k : Bool) (suf : Bytes)
    → simple.simple_url ≡ two_wildcards pre g mid k suf
    → IsLiteral pre
    → IsLiteral mid
    → mid ≢ []
    → IsLiteral suf
    → length (between k mid) < 16
    → length suf < 16
    → IsTwo pre (between k mid) suf (g || k) (service_expand simple)
unfolding service_expand scan_star scan_double
expand-IsTwo simple pre true mid true suf at hp hm ne hs sm ss = ground (
  arith,
  ap (λ v. scan v scan_start) at,
  scan_two pre true mid true suf hp hm ne hs,
  length-append mid (codes "*"),
  copy_middle simple.simple_url pre mid suf true true at sm,
  copy_suffix simple.simple_url pre mid suf true true at ss,
)
expand-IsTwo simple pre true mid false suf at hp hm ne hs sm ss = ground (
  arith,
  ap (λ v. scan v scan_start) at,
  scan_two pre true mid false suf hp hm ne hs,
  length-append mid (codes "*"),
  copy_middle simple.simple_url pre mid suf true false at sm,
  copy_suffix simple.simple_url pre mid suf true false at ss,
)
expand-IsTwo simple pre false mid true suf at hp hm ne hs sm ss = ground (
  arith,
  ap (λ v. scan v scan_start) at,
  scan_two pre false mid true suf hp hm ne hs,
  length-append mid (codes "*"),
  copy_middle simple.simple_url pre mid suf false true at sm,
  copy_suffix simple.simple_url pre mid suf false true at ss,
)
expand-IsTwo simple pre false mid false suf at hp hm ne hs sm ss = ground (
  arith,
  ap (λ v. scan v scan_start) at,
  scan_two pre false mid false suf hp hm ne hs,
  length-append mid (codes "*"),
  copy_middle simple.simple_url pre mid suf false false at sm,
  copy_suffix simple.simple_url pre mid suf false false at ss,
)
