-- ===== src/Url.antt =====
-- corRestUrlValueEncode.c: percent-encoding of a query-string value, and the decoder.
pub mod Decode
pub mod RoundTrip
mod Tests
use cor_rest.Base.{
  ltb, leb, ◌==◌, if◌then◌else◌, Bytes, c_string, ℕ, ◌+◌, ◌-◌, ◌*◌, ◌/◌, ◌%◌, Bool, true, ◌&&◌,
  ◌||◌, Option, none, some, [], ◌∷◌,
}

-- mustEncode
unfoldable pub must_encode : ℕ → Bool
must_encode c =
    if leb c 0x20
    then true
    else if leb 0x7f c
    then true
    else c == b'%' || c == b'&' || c == b'#' || c == b'+' || c == b'?'

-- hex[d], the upper-case digits
unfoldable pub hex_digit : ℕ → ℕ
hex_digit d = if ltb d 10 then b'0' + d else b'A' + (d - 10)

-- The first loop: two more bytes for each one that has to be encoded.
unfoldable pub extra : Bytes → ℕ
extra [] = 0
extra (c ∷ cs) = (if must_encode c then 2 else 0) + extra cs

-- The second loop, which fills the buffer.
unfoldable pub encode_bytes : Bytes → Bytes
encode_bytes [] = []
encode_bytes (c ∷ cs) =
    let rest = encode_bytes cs in
    if must_encode c then b'%' ∷ hex_digit (c / 16) ∷ hex_digit (c % 16) ∷ rest else c ∷ rest

-- corRestUrlValueEncode. The flag says whether `corAlloc` finds room; `none` is NULL.
unfoldable pub url_value_encode : Bool → Option Bytes → Bytes
url_value_encode room none = []
url_value_encode room (some value) =
    if extra value == 0 then value else if room then encode_bytes value else value

-- hexVal; `none` is -1.
unfoldable pub hex_val : ℕ → Option ℕ
hex_val c =
    if leb b'0' c && leb c b'9'
    then some (c - b'0')
    else if leb b'A' c && leb c b'F'
    then some (c - b'A' + 10)
    else if leb b'a' c && leb c b'f'
    then some (c - b'a' + 10)
    else none

-- The test at `p`: the byte that a "%XY" there stands for.
unfoldable pub escape_at : ℕ → ℕ → ℕ → Option ℕ
unfolding hex_val
escape_at c h l =
    if c == b'%'
    then elim (hex_val h) [
      | none ↦ none
      | some hi ↦ elim (hex_val l) [ none ↦ none | some lo ↦ some (hi * 16 + lo) ]
    ]
    else none

-- The loop of corRestUrlValueDecode: the bytes written, of which the first NUL ends the text.
unfoldable pub decode_bytes : Bytes → Bytes
decode_bytes (c ∷ h ∷ l ∷ cs) = elim (escape_at c h l) [
  | some b ↦ b ∷ decode_bytes cs
  | none ↦ c ∷ decode_bytes (h ∷ l ∷ cs)
]
decode_bytes (c ∷ h ∷ []) = c ∷ h ∷ []
decode_bytes (c ∷ []) = c ∷ []
decode_bytes [] = []

-- corRestUrlValueDecode; `none` is NULL.
unfoldable pub url_value_decode : Option Bytes → Option Bytes
unfolding decode_bytes c_string escape_at
url_value_decode none = none
url_value_decode (some s) = some (c_string (decode_bytes s))
