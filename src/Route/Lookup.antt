-- ===== src/Route/Lookup.antt =====
-- corRestServiceLookup.c. The request's path is a buffer that the lookup cuts by writing NULs, so
-- it is a list of bytes that may hold 0; a C string in it runs from an offset to the first 0 or the
-- end. `stray` is what a read of `cSumV` outside its filled part finds.
pub mod Sums
pub mod Exact
pub mod One
pub mod OneSound
pub mod Two
pub mod First
mod Tests
use cor_rest.Base.{
  ltb, leb, ◌==◌, if◌then◌else◌, Bytes, length, take, drop, get_elem?, str_eq, strn_eq, has_char,
  index_text, c_string, ℕ, zero, suc, ◌+◌, ◌-◌, Bool, false, not, ◌&&◌, ◌||◌, Option, none, some,
  List, [], ◌∷◌,
}
use cor_rest.Route.{char_int, add_int, Service}

-- The letters of the scheme after the first, and what stands behind them.
abbrev pub is_scheme_char : ℕ → Bool
is_scheme_char c =
    (leb b'a' c && leb c b'z') || (leb b'0' c && leb c b'9') || c == b'+' || c == b'.' || c == b'-'

unfoldable pub after_scheme : Bytes → Bytes
after_scheme [] = []
after_scheme (c ∷ s) = if is_scheme_char c then after_scheme s else c ∷ s

unfoldable pub colon_slashes : Bytes → Bool
colon_slashes (a ∷ b ∷ c ∷ s) = a == b':' && b == b'/' && c == b'/'
colon_slashes _ = false

-- isUrlForm, on the bytes between the two pointers
unfoldable pub is_url_form : Bytes → Bool
unfolding after_scheme colon_slashes
is_url_form [] = false
is_url_form (c ∷ s) =
    if ltb (length (c ∷ s)) 4
    then false
    else if ltb c b'a' || ltb b'z' c
    then false
    else colon_slashes (after_scheme s)

abbrev pub max_chars_before_wildcard : ℕ
max_chars_before_wildcard = 64

-- The filled part of `cSumV`: the loop of requestPrepare with `n` places left and the last sum.
unfoldable pub sums_from : ℕ → ℕ → Bytes → List ℕ
sums_from acc zero s = []
sums_from acc (suc n) [] = []
sums_from acc (suc n) (c ∷ s) = let sum = add_int acc (char_int c) in sum ∷ sums_from sum n s

-- requestPrepare
unfoldable pub request_prepare : Bytes → List ℕ × ℕ
request_prepare url = (sums_from 0 max_chars_before_wildcard url, length url)

-- cSumV[n - 1]
unfoldable pub sum_before : (ℕ → ℕ) → List ℕ → ℕ → ℕ
sum_before stray sums zero = stray 0
sum_before stray sums (suc i) = elim (get_elem? sums i) [ none ↦ stray (suc i) | some v ↦ v ]

abbrev pub text_at : Bytes → ℕ → Bytes
text_at buf i = c_string (drop i buf)

-- buf[i] = 0
unfoldable pub put_nul : Bytes → ℕ → Bytes
put_nul [] i = []
put_nul (c ∷ buf) zero = 0 ∷ buf
put_nul (c ∷ buf) (suc i) = c ∷ put_nul buf i

-- What a wildcard may hold: without "**", one path component, or a URL.
unfoldable pub is_component : Bool → Bytes → Bool
is_component greedy w = greedy || not (has_char b'/' w) || is_url_form w

-- A service matched, with the buffer and the offsets of the wildcards, or not, with the buffer.
pub data Outcome : Type 0 where
  hit : Bytes → List ℕ → Outcome
  miss : Bytes → Outcome

-- wildcards == 0
unfoldable pub match_exact : Service → Bytes → Outcome
match_exact s buf = if str_eq s.url (text_at buf 0) then hit buf [] else miss buf

-- wildcards == 1, behind the sum
unfoldable pub match_one : ℕ → Service → Bytes → Outcome
match_one len s buf =
    let cb = s.chars_before_first_wildcard in
    let ml = s.match_for_second_wildcard_len in
    let end = len - ml in
    if not (strn_eq cb s.url (text_at buf 0))
    then miss buf
    else if not (ml == 0)
    then if ltb (cb + ml) len && strn_eq ml (text_at buf end) s.match_for_second_wildcard
      then if is_component s.greedy (take (end - cb) (drop cb buf))
        then hit (put_nul buf end) (cb ∷ [])
        else miss buf
      else miss buf
    else if is_component s.greedy (text_at buf cb)
    then hit buf (cb ∷ [])
    else miss buf

-- wildcards == 2, behind strstr: the suffix, then the first wildcard, which ends at `at`
unfoldable pub match_first : Service → ℕ → Bytes → Outcome
match_first s at buf =
    let cb = s.chars_before_first_wildcard in
    if is_component s.greedy (take (at - cb) (drop cb buf))
    then hit (put_nul buf at) (cb ∷ (at + s.match_for_second_wildcard_len) ∷ [])
    else miss buf

unfoldable pub match_suffix : Service → ℕ → Bytes → Outcome
match_suffix s at buf =
    let wc1 = at + s.match_for_second_wildcard_len in
    let sl = s.match_after_last_wildcard_len in
    let wl = length (text_at buf wc1) in
    if ltb 0 sl
    then if leb wl sl
      then miss buf
      else if not (str_eq (text_at buf (wc1 + wl - sl)) s.match_after_last_wildcard)
      then miss buf
      else match_first s at (put_nul buf (wc1 + wl - sl))
    else match_first s at buf

unfoldable pub match_two : Service → Bytes → Outcome
match_two s buf =
    let cb = s.chars_before_first_wildcard in
    elim (index_text s.match_for_second_wildcard (text_at buf cb)) [
      | none ↦ miss buf
      | some i ↦ match_suffix s (cb + i) buf
    ]

-- wildcards >= 3
unfoldable pub match_rest : Service → ℕ → ℕ → Bytes → Outcome
match_rest s sep1 sep2 buf =
    let wc0 = s.chars_before_first_wildcard in
    let wc1 = sep1 + s.match_for_second_wildcard_len in
    let wc2 = sep2 + s.match_for_third_wildcard_len in
    if is_component s.greedy (take (sep1 - wc0) (drop wc0 buf))
      && is_component s.greedy (take (sep2 - wc1) (drop wc1 buf))
      && is_component s.greedy (text_at buf wc2)
    then hit (put_nul (put_nul buf sep1) sep2) (wc0 ∷ wc1 ∷ wc2 ∷ [])
    else miss buf

unfoldable pub match_three : Service → Bytes → Outcome
match_three s buf =
    let wc0 = s.chars_before_first_wildcard in
    elim (index_text s.match_for_second_wildcard (text_at buf wc0)) [
      | none ↦ miss buf
      | some i ↦
          let wc1 = wc0 + i + s.match_for_second_wildcard_len in
          if ltb 0 s.match_for_third_wildcard_len
          then elim (index_text s.match_for_third_wildcard (text_at buf wc1)) [
            | none ↦ miss buf
            | some k ↦ match_rest s (wc0 + i) (wc1 + k) buf
          ]
          else match_rest s (wc0 + i) wc1 buf
    ]

-- The body of the loop: the tests on length and sum, and the match that the wildcards call for.
unfoldable pub match_service : (ℕ → ℕ) → List ℕ → ℕ → Service → Bytes → Outcome
match_service stray sums len s buf =
    let cb = s.chars_before_first_wildcard in
    let sum = s.chars_before_first_wildcard_sum in
    if s.wildcards == 0
    then if cb == len && sum == sum_before stray sums len then match_exact s buf else miss buf
    else if not (ltb cb len && sum == sum_before stray sums cb)
    then miss buf
    else if s.wildcards == 1
    then match_one len s buf
    else if s.wildcards == 2
    then match_two s buf
    else match_three s buf

-- The service found, the offsets of its wildcards, and the buffer as the lookup leaves it.
pub record Found : Type 0 where
  pub service : Option Service
  pub wildcard : List ℕ
  pub path : Bytes

unfoldable pub lookup_loop : (ℕ → ℕ) → List ℕ → ℕ → List Service → Bytes → Found
lookup_loop stray sums len [] buf = record { service = none; wildcard = []; path = buf }
lookup_loop stray sums len (s ∷ ss) buf = elim (match_service stray sums len s buf) [
  | hit b w ↦ record { service = some s; wildcard = w; path = b }
  | miss b ↦ lookup_loop stray sums len ss b
]

-- corRestServiceLookup
unfoldable pub service_lookup : (ℕ → ℕ) → List Service → Bytes → Found
service_lookup stray services path =
    let (sums, len) = request_prepare path in lookup_loop stray sums len services path
