-- ===== src/Url/Decode.antt =====
-- The decoder writes in place, so it must not write more than it has read.
use cor_rest.Base.{Bytes, length, c_string, ℕ, ◌≤◌, ◌<◌, ◌≡◌, some, [], ◌∷◌, arith}
use cor_rest.Url.{hex_val, escape_at, decode_bytes, url_value_decode}

hex_val-lt : (c : ℕ) {d : ℕ} → hex_val c ≡ some d → d < 16
unfolding hex_val
hex_val-lt c h = ground arith

-- A decoded byte is a byte.
pub escape_at-lt : (c h l : ℕ) {b : ℕ} → escape_at c h l ≡ some b → b < 256
unfolding escape_at
escape_at-lt c h l e = ground (arith, hex_val-lt h, hex_val-lt l)

length-decode_bytes-le : (s : Bytes) → length (decode_bytes s) ≤ length s
unfolding decode_bytes
length-decode_bytes-le [] = omega arith
length-decode_bytes-le (c ∷ []) = omega arith
length-decode_bytes-le (c ∷ h ∷ []) = omega arith
length-decode_bytes-le (c ∷ h ∷ l ∷ cs) =
    ground (arith, length-decode_bytes-le cs, length-decode_bytes-le (h ∷ l ∷ cs))

length-c_string-le : (s : Bytes) → length (c_string s) ≤ length s
unfolding c_string
length-c_string-le [] = omega arith
length-c_string-le (c ∷ cs) = ground (arith, length-c_string-le cs)

-- The decoded text of any value is no longer than the value, so it fits where the value stood.
pub length-url_value_decode-le :
    (s t : Bytes) → url_value_decode (some s) ≡ some t → length t ≤ length s
unfolding url_value_decode
length-url_value_decode-le s t h =
    ground (arith, length-c_string-le (decode_bytes s), length-decode_bytes-le s)

abbrev pub IsByte : ℕ → Type 0
IsByte c = (0 < c) × (c < 256)
