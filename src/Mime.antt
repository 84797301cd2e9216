-- ===== src/Mime.antt =====
-- CorRestIn.h and corMimeType.c, the Content-Type half: the media types and their names.
pub mod ContentType
pub mod Accept
mod Tests
use cor_rest.Base.{
  ◌==◌, if◌then◌else◌, Bytes, length, codes, strn_case_eq, ℕ, zero, suc, Bool, ◌&&◌, ◌||◌, Option,
  none, some, [], ◌∷◌,
}

-- CorMimeType; `mime_none` is CorMimeNone.
pub data MimeType : Type 0 where
  mime_none json ld_json geo_json merge_patch_json : MimeType

-- s[n], where the bytes before it are known to be there.
abbrev pub char_at : Bytes → ℕ → ℕ
char_at [] n = 0
char_at (c ∷ s) zero = c
char_at (c ∷ s) (suc n) = char_at s n

-- One test of corMimeTypeParse: the name, with the end, a ";" or a space behind it.
unfoldable pub is_media_type : Bytes → Bytes → Bool
unfolding strn_case_eq
is_media_type name s =
    let n = length name in
    strn_case_eq n s name && (char_at s n == 0 || char_at s n == b';' || char_at s n == b' ')

-- corMimeTypeParse; `none` is NULL.
unfoldable pub mime_type_parse : Option Bytes → MimeType
mime_type_parse none = mime_none
mime_type_parse (some s) =
    if is_media_type (codes "application/merge-patch+json") s
    then merge_patch_json
    else if is_media_type (codes "application/geo+json") s
    then geo_json
    else if is_media_type (codes "application/ld+json") s
    then ld_json
    else if is_media_type (codes "application/json") s
    then json
    else mime_none

-- corMimeString
unfoldable pub mime_string : MimeType → Bytes
mime_string ld_json = codes "application/ld+json"
mime_string geo_json = codes "application/geo+json"
mime_string merge_patch_json = codes "application/merge-patch+json"
mime_string json = codes "application/json"
mime_string mime_none = codes "application/json"
