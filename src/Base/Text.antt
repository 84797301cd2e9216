-- ===== src/Base/Text.antt =====
-- The C string functions that the program calls, on lists of bytes with no NUL among them.
use Prim.Native.Nat.{ℕ, zero, suc, ◌+◌, ◌<◌}
use Prim.Native.Char.{code}
use Prim.Native.String.{String}
use mathlib.Core.Path.{◌≡◌, refl}
use mathlib.Core.Logic.{◌↔◌}
use mathlib.Core.Bool.{Bool, true, false, ◌&&◌, ◌||◌}
use mathlib.Core.Option.{Option, none, some}
use mathlib.Core.List.{[], ◌∷◌, ◌++◌}
use native.Mathlib.Omega.{arith}
use cor_rest.Base.Tests.{leb, ◌==◌, if◌then◌else◌}
use cor_rest.Base.Lists.{Bytes, length, All}

-- The bytes of an ASCII literal.
abbrev pub codes : String → Bytes
codes String.[] = []
codes (String.◌∷◌ c s) = code c ∷ codes s

-- strcmp(a, b) == 0
unfoldable pub str_eq : Bytes → Bytes → Bool
str_eq [] [] = true
str_eq (x ∷ a) (y ∷ b) = x == y && str_eq a b
str_eq _ _ = false

pub str_eq_iff : (a b : Bytes) → (str_eq a b ≡ true) ↔ (a ≡ b)
unfolding str_eq
str_eq_iff (x ∷ a) (y ∷ b) = ground (arith, str_eq_iff a b)
str_eq_iff _ _ = ground arith

pub str_eq_self : (a : Bytes) → str_eq a a ≡ true
str_eq_self a = (str_eq_iff a a).1 refl

-- strncmp(a, b, n) == 0
unfoldable pub strn_eq : ℕ → Bytes → Bytes → Bool
strn_eq zero a b = true
strn_eq (suc n) [] [] = true
strn_eq (suc n) (x ∷ a) (y ∷ b) = x == y && strn_eq n a b
strn_eq (suc n) _ _ = false

-- tolower in the C locale
abbrev pub lower : ℕ → ℕ
lower c = if leb b'A' c && leb c b'Z' then c + 32 else c

-- strcasecmp(a, b) == 0
unfoldable pub str_case_eq : Bytes → Bytes → Bool
str_case_eq [] [] = true
str_case_eq (x ∷ a) (y ∷ b) = lower x == lower y && str_case_eq a b
str_case_eq _ _ = false

-- strncasecmp(a, b, n) == 0
unfoldable pub strn_case_eq : ℕ → Bytes → Bytes → Bool
strn_case_eq zero a b = true
strn_case_eq (suc n) [] [] = true
strn_case_eq (suc n) (x ∷ a) (y ∷ b) = lower x == lower y && strn_case_eq n a b
strn_case_eq (suc n) _ _ = false

-- strchr(s, c) != NULL, and memchr over a slice
unfoldable pub has_char : ℕ → Bytes → Bool
has_char c [] = false
has_char c (x ∷ s) = x == c || has_char c s

-- The offset of the first c: strchr or memchr, as an index.
unfoldable pub index_char : ℕ → Bytes → Option ℕ
index_char c [] = none
index_char c (x ∷ s) =
    if x == c then some 0 else elim (index_char c s) [ none ↦ none | some i ↦ some (suc i) ]

-- The offset of the first place where t stands in s: strstr, as an index.
unfoldable pub index_text : Bytes → Bytes → Option ℕ
unfolding strn_eq
index_text t [] = if strn_eq (length t) [] t then some 0 else none
index_text t (x ∷ s) =
    if strn_eq (length t) (x ∷ s) t
    then some 0
    else elim (index_text t s) [ none ↦ none | some i ↦ some (suc i) ]

-- What a C string that holds these bytes reads as.
unfoldable pub c_string : Bytes → Bytes
c_string [] = []
c_string (c ∷ cs) = if c == 0 then [] else c ∷ c_string cs

-- Bytes with no NUL among them.
abbrev pub IsText : Bytes → Type 0
IsText = All (λ c. 0 < c)

pub c_string_lem : (s : Bytes) → IsText s → c_string s ≡ s
unfolding c_string
c_string_lem [] h = refl
c_string_lem (c ∷ s) h = ground (arith, c_string_lem s h.1)

pub c_string-cut : (s r : Bytes) → IsText s → c_string (s ++ 0 ∷ r) ≡ s
unfolding c_string
c_string-cut [] r h = refl
c_string-cut (c ∷ s) r h = ground (arith, c_string-cut s r h.1)
