-- ===== src/Dispatch/Names.antt =====
-- Verb names with ", " between them, as the Allow headers of corRestInit.c have them.
use mathlib.Core.List.{append_assoc}
use cor_rest.Base.{
  ltb, leb, if◌then◌else◌, Bytes, length, length-append, codes, ℕ, ◌+◌, ◌≤◌, ◌<◌, ◌≡◌, refl, ◌∙◌,
  false, List, [], ◌∷◌, ◌++◌, arith,
}
use cor_rest.Verb.{verb_to_string, Verb, get, put, post, delete, patch, head, options, verbs}

abbrev pub more_names : List Verb → Bytes
more_names [] = []
more_names (v ∷ vs) = codes ", " ++ (verb_to_string v ++ more_names vs)

-- Names with ", " between them.
abbrev pub names_text : List Verb → Bytes
names_text [] = []
names_text (v ∷ vs) = verb_to_string v ++ more_names vs

-- Names behind a text that may be empty.
abbrev pub with_names : Bytes → List Verb → Bytes
with_names [] vs = names_text vs
with_names (c ∷ s) vs = (c ∷ s) ++ more_names vs

-- An upper bound for the text of the names.
abbrev pub cost : List Verb → ℕ
cost [] = 0
cost (v ∷ vs) = 2 + length (verb_to_string v) + cost vs

abbrev pub with_comma : Bytes → Bytes
with_comma allow = if ltb 0 (length allow) then allow ++ codes ", " else allow

pub with_comma-cons : (c : ℕ) (s : Bytes) → with_comma (c ∷ s) ≡ (c ∷ s) ++ codes ", "
with_comma-cons c s = ground arith

pub length-with_comma : (s : Bytes) → length (with_comma s) ≤ length s + 2
length-with_comma [] = omega arith
length-with_comma (c ∷ s) = rw (with_comma-cons c s) omega (arith, length-append s (codes ", "))

pub verb_to_string-nonempty : (v : Verb) → (c : ℕ) × (s : Bytes) × (verb_to_string v ≡ c ∷ s)
unfolding verb_to_string
verb_to_string-nonempty get = (_, _, refl)
verb_to_string-nonempty put = (_, _, refl)
verb_to_string-nonempty post = (_, _, refl)
verb_to_string-nonempty delete = (_, _, refl)
verb_to_string-nonempty patch = (_, _, refl)
verb_to_string-nonempty head = (_, _, refl)
verb_to_string-nonempty options = (_, _, refl)
verb_to_string-nonempty verbs = (_, _, refl)

-- Adding one name.
pub with_names-cons :
    (allow : Bytes) (v : Verb) (vs : List Verb)
    → with_names (with_comma allow ++ verb_to_string v) vs ≡ with_names allow (v ∷ vs)
with_names-cons [] v vs = let (c, s, e) = verb_to_string-nonempty v in rw e refl
with_names-cons (c ∷ s) v vs =
    let step =
      append_assoc (c ∷ s ++ codes ", ") (verb_to_string v) (more_names vs)
      ∙ append_assoc (c ∷ s) (codes ", ") (verb_to_string v ++ more_names vs) in
    rw (with_comma-cons c s) step

-- A name that fits is added, and the sum of the costs goes down.
pub name_fits :
    (allow : Bytes) (v : Verb) (vs : List Verb)
    → length allow + cost (v ∷ vs) < 128
    → leb 128 (length (with_comma allow) + length (verb_to_string v)) ≡ false
      × (length (with_comma allow ++ verb_to_string v) + cost vs < 128)
name_fits allow v vs h =
    let a = length-with_comma allow in
    let b = length-append (with_comma allow) (verb_to_string v) in
    (ground (arith, a), omega (arith, a, b))

length-more_names : (vs : List Verb) → length (more_names vs) ≤ cost vs
length-more_names [] = omega arith
length-more_names (v ∷ vs) =
    omega (arith, length-append (verb_to_string v) (more_names vs), length-more_names vs)

-- The text fits as well.
pub length-names_text : (vs : List Verb) → length (names_text vs) ≤ cost vs
length-names_text [] = omega arith
length-names_text (v ∷ vs) =
    omega (arith, length-append (verb_to_string v) (more_names vs), length-more_names vs)
