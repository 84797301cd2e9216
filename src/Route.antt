-- ===== src/Route.antt =====
-- CorRestService.h and servicePrepare of corRestInit.c: a route's pattern, expanded for lookup.
-- A routine is the number that stands for its function pointer. A `char` is signed and an `int` is
-- its 32-bit pattern, so the sums below are those of the code, for bytes above 127 too.
pub mod Pattern
pub mod Prepared
pub mod Lookup
pub mod Build
use cor_rest.Base.{
  ltb, leb, ◌==◌, if◌then◌else◌, Bytes, take, drop, ℕ, ◌+◌, ◌-◌, ◌%◌, ◌^◌, Bool, true, false, ◌&&◌,
  Option, none, some, [], ◌∷◌,
}
use cor_rest.Verb.{Verb}

-- CorRestServiceOptions
pub record ServiceOptions : Type 0 where
  pub uri_at0 : Bool
  pub name_at1 : Bool
  pub uri_at2 : Bool
  pub entity_array_body : Bool
  pub plain_json_body : Bool

-- CorRestServiceSimplified
pub record ServiceSimplified : Type 0 where
  pub verb : Verb
  pub simple_url : Bytes
  pub simple_routine : ℕ
  pub simple_params : ℕ
  pub simple_ld_op : ℕ
  pub simple_check : Option ℕ
  pub simple_options : ServiceOptions

-- CorRestService. The three `match` texts are the contents of their char[16] fields.
pub record Service : Type 0 where
  pub url : Bytes
  pub service_routine : ℕ
  pub payload_check : Option ℕ
  pub supported_params : ℕ
  pub ld_op : ℕ
  pub options : ServiceOptions
  pub wildcards : ℕ
  pub greedy : Bool
  pub chars_before_first_wildcard : ℕ
  pub chars_before_first_wildcard_sum : ℕ
  pub chars_before_second_wildcard : ℕ
  pub chars_before_second_wildcard_sum : ℕ
  pub match_for_second_wildcard : Bytes
  pub match_for_second_wildcard_len : ℕ
  pub match_for_third_wildcard : Bytes
  pub match_for_third_wildcard_len : ℕ
  pub match_after_last_wildcard : Bytes
  pub match_after_last_wildcard_len : ℕ

abbrev pub int_mod : ℕ
int_mod = 2 ^ 32

-- A char, promoted to int.
unfoldable pub char_int : ℕ → ℕ
char_int c = if ltb c 128 then c else c + (int_mod - 256)

unfoldable pub add_int : ℕ → ℕ → ℕ
add_int a b = (a + b) % int_mod

-- The local variables of the loop; a pointer into the url is an index.
pub record Scan : Type 0 where
  pub ix : ℕ
  pub seen : ℕ
  pub doubled : Bool
  pub first_len : ℕ
  pub first_sum : ℕ
  pub second_len : ℕ
  pub second_sum : ℕ
  pub wild_card_start : ℕ
  pub wild_card_end : Option ℕ
  pub third_wild_start : Option ℕ
  pub third_wild_end : Option ℕ
  pub after_last_wild : ℕ

abbrev pub scan_start : Scan
scan_start = record {
  ix = 0;
  seen = 0;
  doubled = false;
  first_len = 0;
  first_sum = 0;
  second_len = 0;
  second_sum = 0;
  wild_card_start = 0;
  wild_card_end = none;
  third_wild_start = none;
  third_wild_end = none;
  after_last_wild = 0;
}

-- At a '*' that stands at `ix`, its second one skipped.
unfoldable pub scan_star : Scan → Scan
scan_star s =
    let s' =
      if s.seen == 0
      then record s { wild_card_start = s.ix + 1 }
      else if s.seen == 1
      then record s { wild_card_end = some s.ix; third_wild_start = some (s.ix + 1) }
      else if s.seen == 2
      then record s { third_wild_end = some s.ix }
      else s in
    record s' { after_last_wild = s.ix + 1; seen = s.seen + 1; ix = s.ix + 1 }

unfoldable pub scan_double : Scan → Scan
scan_double s = scan_star (record s { doubled = true; ix = s.ix + 1 })

unfoldable pub scan_char : ℕ → Scan → Scan
scan_char c s =
    let s' =
      if s.seen == 0
      then record s { first_len = s.first_len + 1; first_sum = add_int s.first_sum (char_int c) }
      else if s.seen == 1
      then record s {
        second_len = s.second_len + 1;
        second_sum = add_int s.second_sum (char_int c);
      }
      else s in
    record s' { ix = s.ix + 1 }

-- The loop over the url.
unfoldable pub scan : Bytes → Scan → Scan
scan [] s = s
scan (c ∷ []) s = if c == b'*' then scan_star s else scan_char c s
scan (c ∷ d ∷ cs) s =
    if c == b'*' && d == b'*'
    then scan cs (scan_double s)
    else scan (d ∷ cs) (if c == b'*' then scan_star s else scan_char c s)

-- strncpy into a char[16] that was empty: nothing if the text does not fit.
unfoldable pub copy16 : ℕ → Bytes → Bytes
copy16 len text = if ltb 0 len && ltb len 16 then take len text else []

abbrev pub or_else : Option ℕ → ℕ → ℕ
or_else none d = d
or_else (some a) d = a

-- servicePrepare, before the init hook.
unfoldable pub service_expand : ServiceSimplified → Service
service_expand simple =
    let u = simple.simple_url in
    let s = scan u scan_start in
    let any = ltb 0 s.seen in
    let second = if any then or_else s.wild_card_end s.ix - s.wild_card_start else 0 in
    let three = leb 3 s.seen in
    let third_start = or_else s.third_wild_start 0 in
    let third = if three then or_else s.third_wild_end s.ix - third_start else 0 in
    let suffix = if leb 2 s.seen then s.ix - s.after_last_wild else 0 in
    let suffix' = if ltb suffix 16 then suffix else 0 in
    record {
      url = u;
      service_routine = simple.simple_routine;
      payload_check = simple.simple_check;
      supported_params = simple.simple_params;
      ld_op = simple.simple_ld_op;
      options = simple.simple_options;
      wildcards = s.seen;
      greedy = s.doubled;
      chars_before_first_wildcard = s.first_len;
      chars_before_first_wildcard_sum = s.first_sum;
      chars_before_second_wildcard = s.second_len;
      chars_before_second_wildcard_sum = s.second_sum;
      match_for_second_wildcard = copy16 second (drop s.wild_card_start u);
      match_for_second_wildcard_len = second;
      match_for_third_wildcard = copy16 third (drop third_start u);
      match_for_third_wildcard_len = third;
      match_after_last_wildcard = copy16 suffix (drop s.after_last_wild u);
      match_after_last_wildcard_len = suffix';
    }

-- servicePrepare; the hook is the application's, `none` if it set none.
unfoldable pub service_prepare : Option (Service → Service) → ServiceSimplified → Service
service_prepare none simple = service_expand simple
service_prepare (some hook) simple = hook (service_expand simple)
