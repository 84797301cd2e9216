-- ===== src/Mime/Accept.antt =====
-- corMimeType.c, the Accept half: q-weighted negotiation among the three NGSI-LD types.
-- A `double` is the bit pattern of its magnitude with its sign: patterns are ordered as the
-- magnitudes are, so the comparisons below are the machine's. `strtod` is an argument.
pub mod Best
pub mod Chosen
pub mod Negotiated
use cor_rest.Base.{
  ltb, ◌==◌, if◌then◌else◌, Bytes, length, codes, strn_case_eq, ℕ, zero, suc, ◌+◌, Bool, true,
  false, not, ◌&&◌, ◌||◌, Option, none, some, List, [], ◌∷◌,
}
use cor_rest.Mime.{MimeType, mime_none, json, ld_json, geo_json}

pub data Double : Type 0 where
  negative : ℕ → Double
  positive : ℕ → Double
  not_a_number : Double

-- a < b
abbrev pub double_lt : Double → Double → Bool
double_lt (negative a) (negative b) = ltb b a
double_lt (negative a) (positive b) = ltb 0 a || ltb 0 b
double_lt (positive a) (positive b) = ltb a b
double_lt _ _ = false

-- a == b
abbrev pub double_eq : Double → Double → Bool
double_eq (negative a) (negative b) = a == b
double_eq (negative a) (positive b) = a == 0 && b == 0
double_eq (positive a) (negative b) = a == 0 && b == 0
double_eq (positive a) (positive b) = a == b
double_eq _ _ = false

-- The bit pattern of 1.0.
abbrev pub one_bits : ℕ
one_bits = 0x3ff0000000000000

abbrev pub q_zero : Double
q_zero = positive 0

abbrev pub q_one : Double
q_one = positive one_bits

-- -1.0, "not seen or excluded"
abbrev pub unseen : Double
unseen = negative one_bits

abbrev pub is_blank : ℕ → Bool
is_blank c = c == b' ' || c == b'\t'

-- trimSpaces
unfoldable pub trim_spaces : Bytes → Bytes
trim_spaces [] = []
trim_spaces (c ∷ s) = if is_blank c then trim_spaces s else c ∷ s

-- nameMatches, on the bytes of the token
unfoldable pub name_matches : Bytes → Bytes → Bool
name_matches token full =
    if length token == length full then strn_case_eq (length token) token full else false

-- The text of a q value: at most n bytes, up to a ";" or a blank.
unfoldable pub q_text : ℕ → Bytes → Bytes
q_text zero s = []
q_text (suc n) [] = []
q_text (suc n) (c ∷ s) = let rest = q_text n s in if c == b';' || is_blank c then [] else c ∷ rest

-- The clamps to [0, 1].
unfoldable pub clamp : Double → Double
clamp q =
    let q' = if double_lt q q_zero then q_zero else q in if double_lt q_one q' then q_one else q'

-- "q=" and at least one more byte stand at `p`; the bytes from there on.
unfoldable pub q_value? : Bytes → Option Bytes
q_value? (a ∷ b ∷ v ∷ s) = if (a == b'q' || a == b'Q') && b == b'=' then some (v ∷ s) else none
q_value? _ = none

-- The token of an entry: up to a ";" or a blank.
unfoldable pub token_of : Bytes → Bytes
token_of [] = []
token_of (c ∷ s) = if c == b';' || is_blank c then [] else c ∷ token_of s

unfoldable pub after_token : Bytes → Bytes
after_token [] = []
after_token (c ∷ s) = if c == b';' || is_blank c then c ∷ s else after_token s

-- The entries of a header: the pieces between the commas; none behind a comma that ends it.
unfoldable pub onto_first : ℕ → List Bytes → List Bytes
onto_first c [] = (c ∷ []) ∷ []
onto_first c (e ∷ es) = (c ∷ e) ∷ es

unfoldable pub split_entries : Bytes → List Bytes
unfolding onto_first
split_entries [] = []
split_entries (c ∷ s) =
    let rest = split_entries s in if c == b',' then [] ∷ rest else onto_first c rest

-- The best q and the place of the entry that set it (-1 is `none`), for a type.
pub record Seen : Type 0 where
  pub q : Double
  pub order : Option ℕ

pub record Negotiation : Type 0 where
  pub seen_json : Seen
  pub seen_ld : Seen
  pub seen_geo : Seen

-- What a token stands for: the type, `json` for a wildcard too, `mime_none` for anything else.
unfoldable pub token_type : Bytes → MimeType
unfolding name_matches
token_type token =
    if name_matches token (codes "application/geo+json")
    then geo_json
    else if name_matches token (codes "application/ld+json")
    then ld_json
    else if name_matches token (codes "application/json")
    then json
    else if name_matches token (codes "application/*") || name_matches token (codes "*/*")
    then json
    else mime_none

unfoldable pub raise : Seen → Double → ℕ → Seen
raise s q entry = if double_lt s.q q then record { q = q; order = some entry } else s

unfoldable pub note : MimeType → Double → ℕ → Negotiation → Negotiation
unfolding raise
note geo_json q entry n = record n { seen_geo = raise n.seen_geo q entry }
note ld_json q entry n = record n { seen_ld = raise n.seen_ld q entry }
note json q entry n = record n { seen_json = raise n.seen_json q entry }
note _ q entry n = n

abbrev pub nothing_seen : Negotiation
nothing_seen = record {
  seen_json = record { q = unseen; order = none };
  seen_ld = record { q = unseen; order = none };
  seen_geo = record { q = unseen; order = none };
}

-- q == 0 excludes a type.
unfoldable pub exclude_zero : Seen → Seen
exclude_zero s = if double_eq s.q q_zero then record s { q = unseen } else s

-- a < b, with -1 for `none`
abbrev pub order_lt : Option ℕ → Option ℕ → Bool
order_lt none (some b) = true
order_lt (some a) (some b) = ltb a b
order_lt _ none = false

-- The test by which a later candidate replaces the best so far.
unfoldable pub beats : Seen → Seen → Bool
beats s best =
    double_lt best.q s.q
    || (double_eq s.q best.q
        && not (double_lt s.q q_zero)
        && (order_lt best.order (some 0) || order_lt s.order best.order))

-- The pick among json, ld+json and geo+json.
unfoldable pub pick : Seen → Seen → Seen → MimeType
pick j l g =
    if double_lt j.q q_zero && double_lt l.q q_zero && double_lt g.q q_zero
    then mime_none
    else let best = if beats l j then l else j in
      if beats g best then geo_json else if beats l j then ld_json else json

unfoldable pub choose : Negotiation → MimeType
unfolding pick beats exclude_zero
choose n = pick (exclude_zero n.seen_json) (exclude_zero n.seen_ld) (exclude_zero n.seen_geo)

unfoldable pub entry_type : Bytes → MimeType
unfolding token_of
entry_type e = token_type (token_of (trim_spaces e))

module _ (strtod : Bytes → Double) where
  -- extractQ. The flag says which loop is at `p`: the one that skips to a parameter, or the one
  -- that skips a parameter.
  unfoldable pub extract_q : Bool → Bytes → Double
  unfolding q_value? q_text clamp
  extract_q start [] = q_one
  extract_q start (c ∷ s) =
      let rest = extract_q (c == b';' || (start && is_blank c)) s in
      if start
      then elim (q_value? (c ∷ s)) [ some v ↦ clamp (strtod (q_text 15 v)) | none ↦ rest ]
      else rest

  unfoldable pub entry_q : Bytes → Double
  unfolding after_token
  entry_q e = extract_q true (after_token (trim_spaces e))

  -- The loop over the entries; blanks behind the last comma are no entry.
  unfoldable pub negotiate : List Bytes → ℕ → Negotiation → Negotiation
  negotiate [] entry n = n
  negotiate (e ∷ es) entry n = negotiate es (entry + 1) (note (entry_type e) (entry_q e) entry n)

  -- corAcceptParse; `none` is NULL.
  unfoldable pub accept_parse : Option Bytes → MimeType
  accept_parse none = json
  accept_parse (some []) = json
  accept_parse (some (c ∷ s)) = choose (negotiate (split_entries (c ∷ s)) 0 nothing_seen)
