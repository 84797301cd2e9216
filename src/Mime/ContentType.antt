-- ===== src/Mime/ContentType.antt =====
-- The Content-Type parser inverts the printer, whatever parameter stands behind the type.
use cor_rest.Base.{
  Bytes, length, codes, lower, strn_case_eq, ℕ, zero, suc, ◌≤◌, ◌<◌, ◌≡◌, refl, ◌≢◌, ◌↔◌, ◌⊎◌, true,
  some, [], ◌∷◌, ◌++◌, arith,
}
use cor_rest.Mime.{
  char_at, is_media_type, mime_type_parse, mime_string, MimeType, mime_none, json, ld_json,
  geo_json, merge_patch_json,
}

-- What may stand behind the name: nothing, or a parameter.
abbrev pub IsParameter : Bytes → Type 0
IsParameter [] = Unit
IsParameter (c ∷ s) = (c ≡ b';') ⊎ (c ≡ b' ')

strn_case_eq-append : (t s : Bytes) → strn_case_eq (length t) (t ++ s) t ≡ true
unfolding strn_case_eq
strn_case_eq-append [] s = refl
strn_case_eq-append (c ∷ t) s = ground (arith, strn_case_eq-append t s)

-- The canonical name of every media type, with any parameter behind it, is read back as that type.
pub mime_type_parse-mime_string :
    (m : MimeType) (p : Bytes)
    → m ≢ mime_none
    → IsParameter p
    → mime_type_parse (some (mime_string m ++ p)) ≡ m
unfolding mime_type_parse is_media_type mime_string
mime_type_parse-mime_string mime_none p h k = absurd (h refl)
mime_type_parse-mime_string json [] h k = refl
mime_type_parse-mime_string json (c ∷ p) h k = ground arith
mime_type_parse-mime_string ld_json [] h k = refl
mime_type_parse-mime_string ld_json (c ∷ p) h k = ground arith
mime_type_parse-mime_string geo_json [] h k = refl
mime_type_parse-mime_string geo_json (c ∷ p) h k = ground arith
mime_type_parse-mime_string merge_patch_json [] h k = refl
mime_type_parse-mime_string merge_patch_json (c ∷ p) h k = ground arith

strn_case_eq-char_at :
    (n i : ℕ) (s t : Bytes)
    → i < n
    → n ≤ length t
    → strn_case_eq n s t ≡ true
    → lower (char_at s i) ≡ lower (char_at t i)
unfolding strn_case_eq
strn_case_eq-char_at zero i s t h k e = absurd (omega arith)
strn_case_eq-char_at (suc n) i s [] h k e = absurd (omega arith)
strn_case_eq-char_at (suc n) i [] (y ∷ t) h k e = cc
strn_case_eq-char_at (suc n) zero (x ∷ s) (y ∷ t) h k e = ground arith
strn_case_eq-char_at (suc n) (suc i) (x ∷ s) (y ∷ t) h k e =
    ground (arith, strn_case_eq-char_at n i s t)

-- The byte behind "application/" tells the names apart.
is_media_type-letter :
    (t s : Bytes)
    → 12 < length t
    → is_media_type t s ≡ true
    → lower (char_at s 12) ≡ lower (char_at t 12)
unfolding is_media_type
is_media_type-letter t s h e = ground (arith, strn_case_eq-char_at (length t) 12 s t)

module _ (s : Bytes) where
  letters_merge :
      is_media_type (codes "application/merge-patch+json") s ≡ true → lower (char_at s 12) ≡ b'm'
  letters_merge = is_media_type-letter (codes "application/merge-patch+json") s (omega arith)

  letters_geo : is_media_type (codes "application/geo+json") s ≡ true → lower (char_at s 12) ≡ b'g'
  letters_geo = is_media_type-letter (codes "application/geo+json") s (omega arith)

  letters_ld : is_media_type (codes "application/ld+json") s ≡ true → lower (char_at s 12) ≡ b'l'
  letters_ld = is_media_type-letter (codes "application/ld+json") s (omega arith)

  letters_json : is_media_type (codes "application/json") s ≡ true → lower (char_at s 12) ≡ b'j'
  letters_json = is_media_type-letter (codes "application/json") s (omega arith)

type_found :
    (s : Bytes) (m : MimeType)
    → m ≢ mime_none
    → mime_type_parse (some s) ≡ m
    → is_media_type (mime_string m) s ≡ true
unfolding mime_type_parse mime_string
type_found s mime_none h e = absurd (h refl)
type_found s json h e = ground arith
type_found s ld_json h e = ground arith
type_found s geo_json h e = ground arith
type_found s merge_patch_json h e = ground arith

found_type :
    (s : Bytes) (m : MimeType)
    → m ≢ mime_none
    → is_media_type (mime_string m) s ≡ true
    → mime_type_parse (some s) ≡ m
unfolding mime_type_parse mime_string
found_type s mime_none h e = absurd (h refl)
found_type s json h e = ground (arith, letters_merge s, letters_geo s, letters_ld s, letters_json s)
found_type s ld_json h e = ground (arith, letters_merge s, letters_geo s, letters_ld s)
found_type s geo_json h e = ground (arith, letters_merge s, letters_geo s)
found_type s merge_patch_json h e = ground arith

-- A Content-Type is classified as a type of the JSON family exactly when it starts with the type's
-- canonical name, up to case, with the end, a ";" or a space behind it.
pub mime_type_parse-is_media_type :
    (s : Bytes) (m : MimeType)
    → m ≢ mime_none
    → (mime_type_parse (some s) ≡ m) ↔ (is_media_type (mime_string m) s ≡ true)
mime_type_parse-is_media_type s m h = (type_found s m h, found_type s m h)
