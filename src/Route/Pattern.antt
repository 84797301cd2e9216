-- ===== src/Route/Pattern.antt =====
-- The loop of servicePrepare over a pattern that is given by its parts: literals, with "*" or "**"
-- between them.
use mathlib.Core.List.{append-nil}
use native.Mathlib.Nat.{add-zero, zero-add}
use cor_rest.Base.{
  Bytes, length, All, codes, ℕ, ◌+◌, ◌≤◌, ◌≡◌, refl, sym, ap, ◌∙◌, ◌≢◌, Bool, true, false, [], ◌∷◌,
  ◌++◌, arith,
}
use cor_rest.Route.{char_int, add_int, scan_start, scan_star, scan_double, scan_char, scan, Scan}

-- A literal part of a pattern.
abbrev pub IsLiteral : Bytes → Type 0
IsLiteral = All (λ c. c ≢ b'*')

-- The text of a wildcard.
abbrev pub star : Bool → Bytes
star true = codes "**"
star false = codes "*"

-- The sum of a text's chars, added to one at hand, as `int`.
unfoldable pub char_sum : ℕ → Bytes → ℕ
char_sum acc [] = acc
char_sum acc (c ∷ s) = char_sum (add_int acc (char_int c)) s

scan-char : (c : ℕ) (cs : Bytes) (s : Scan) → c ≢ b'*' → scan (c ∷ cs) s ≡ scan cs (scan_char c s)
unfolding scan
scan-char c [] s h = ground arith
scan-char c (d ∷ cs) s h = ground arith

scan-star :
    (c : ℕ) (cs : Bytes) (s : Scan)
    → c ≢ b'*'
    → scan (b'*' ∷ c ∷ cs) s ≡ scan (c ∷ cs) (scan_star s)
unfolding scan
scan-star c cs s h = ground arith

scan-double : (cs : Bytes) (s : Scan) → scan (b'*' ∷ b'*' ∷ cs) s ≡ scan cs (scan_double s)
unfolding scan
scan-double cs s = refl

-- Before the first wildcard a literal adds to the first length and sum.
pub scan_before :
    (t r : Bytes) (s : Scan)
    → IsLiteral t
    → s.seen ≡ 0
    → scan (t ++ r) s
      ≡ scan r (record s {
        ix = s.ix + length t;
        first_len = s.first_len + length t;
        first_sum = char_sum s.first_sum t;
      })
unfolding char_sum
scan_before [] r s h z = rw (add-zero s.ix, add-zero s.first_len)
scan_before (c ∷ t) r s h z =
    scan-char c (t ++ r) s h.0
    ∙ scan_before t r (scan_char c s) h.1 (unfold scan_char in ground arith)
    ∙ unfold scan_char in ground arith

-- Behind the first wildcard it adds to the second, and behind the second to neither.
pub scan_between :
    (t r : Bytes) (s : Scan)
    → IsLiteral t
    → s.seen ≡ 1
    → scan (t ++ r) s
      ≡ scan r (record s {
        ix = s.ix + length t;
        second_len = s.second_len + length t;
        second_sum = char_sum s.second_sum t;
      })
unfolding char_sum
scan_between [] r s h z = rw (add-zero s.ix, add-zero s.second_len)
scan_between (c ∷ t) r s h z =
    scan-char c (t ++ r) s h.0
    ∙ scan_between t r (scan_char c s) h.1 (unfold scan_char in ground arith)
    ∙ unfold scan_char in ground arith

pub scan_behind :
    (t : Bytes) (s : Scan) → IsLiteral t → 2 ≤ s.seen → scan t s ≡ record s { ix = s.ix + length t }
scan_behind [] s h z = unfold scan in rw (add-zero s.ix)
scan_behind (c ∷ t) s h z =
    scan-char c t s h.0
    ∙ scan_behind t (scan_char c s) h.1 (unfold scan_char in ground arith)
    ∙ unfold scan_char in ground arith

-- The state behind a wildcard.
abbrev pub starred : Bool → Scan → Scan
starred true s = scan_double s
starred false s = scan_star s

pub scan-starred :
    (g : Bool) (t r : Bytes) (s : Scan)
    → IsLiteral t
    → t ≢ []
    → scan (star g ++ (t ++ r)) s ≡ scan (t ++ r) (starred g s)
scan-starred true t r s h n = scan-double (t ++ r) s
scan-starred false [] r s h n = absurd (n refl)
scan-starred false (c ∷ t) r s h n = scan-star c (t ++ r) s h.0

pub scan-starred_last :
    (g : Bool) (t : Bytes) (s : Scan) → IsLiteral t → scan (star g ++ t) s ≡ scan t (starred g s)
scan-starred_last true t s h = scan-double t s
scan-starred_last false [] s h = unfold scan in refl
scan-starred_last false (c ∷ t) s h = scan-star c t s h.0

pub scan_between_last :
    (t : Bytes) (s : Scan)
    → IsLiteral t
    → s.seen ≡ 1
    → scan t s ≡ record s {
      ix = s.ix + length t;
      second_len = s.second_len + length t;
      second_sum = char_sum s.second_sum t;
    }
scan_between_last t s h z =
    ap (λ u. scan u s) (sym (append-nil t)) ∙ scan_between t [] s h z ∙ unfold scan in refl

-- The patterns of the routes, by the number of their wildcards.
abbrev pub one_wildcard : Bytes → Bool → Bytes → Bytes
one_wildcard pre g suf = pre ++ (star g ++ suf)

abbrev pub two_wildcards : Bytes → Bool → Bytes → Bool → Bytes → Bytes
two_wildcards pre g mid h suf = pre ++ (star g ++ (mid ++ (star h ++ suf)))

-- The scan's state behind a prefix.
abbrev pub behind_prefix : Bytes → Scan
behind_prefix pre = record scan_start {
  ix = length pre;
  first_len = length pre;
  first_sum = char_sum 0 pre;
}

pub scan_prefix :
    (pre r : Bytes) → IsLiteral pre → scan (pre ++ r) scan_start ≡ scan r (behind_prefix pre)
scan_prefix pre r h = scan_before pre r scan_start h refl ∙ rw (zero-add (length pre))

pub starred_seen : (g : Bool) (s : Scan) → (starred g s).seen ≡ s.seen + 1
unfolding scan_star scan_double
starred_seen g s = ground arith

pub scan_none : (u : Bytes) → IsLiteral u → scan u scan_start ≡ behind_prefix u
scan_none u h =
    ap (λ v. scan v scan_start) (sym (append-nil u)) ∙ scan_prefix u [] h ∙ unfold scan in refl

pub scan_one :
    (pre : Bytes) (g : Bool) (suf : Bytes)
    → IsLiteral pre
    → IsLiteral suf
    → let s = starred g (behind_prefix pre) in
      scan (one_wildcard pre g suf) scan_start ≡ record s {
        ix = s.ix + length suf;
        second_len = s.second_len + length suf;
        second_sum = char_sum s.second_sum suf;
      }
scan_one pre g suf hp hs =
    scan_prefix pre (star g ++ suf) hp
    ∙ scan-starred_last g suf (behind_prefix pre) hs
    ∙ scan_between_last suf (starred g (behind_prefix pre)) hs
        (starred_seen g (behind_prefix pre) ∙ omega arith)

pub scan_two :
    (pre : Bytes) (g : Bool) (mid : Bytes) (k : Bool) (suf : Bytes)
    → IsLiteral pre
    → IsLiteral mid
    → mid ≢ []
    → IsLiteral suf
    → let s = starred g (behind_prefix pre) in
      let m = record s {
        ix = s.ix + length mid;
        second_len = s.second_len + length mid;
        second_sum = char_sum s.second_sum mid;
      } in
      let e = starred k m in
      scan (two_wildcards pre g mid k suf) scan_start ≡ record e { ix = e.ix + length suf }
scan_two pre g mid k suf hp hm ne hs =
    let s = starred g (behind_prefix pre) in
    let m = record s {
      ix = s.ix + length mid;
      second_len = s.second_len + length mid;
      second_sum = char_sum s.second_sum mid;
    } in
    let one : s.seen ≡ 1 = starred_seen g (behind_prefix pre) ∙ omega arith in
    scan_prefix pre (star g ++ (mid ++ (star k ++ suf))) hp
    ∙ scan-starred g mid (star k ++ suf) (behind_prefix pre) hm ne
    ∙ scan_between mid (star k ++ suf) s hm one
    ∙ scan-starred_last k suf m hs
    ∙ scan_behind suf (starred k m) hs (omega (arith, starred_seen k m, one))
