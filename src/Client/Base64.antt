-- ===== src/Client/Base64.antt =====
-- base64 of corRestClientProxy.c, on bytes below 256. Shifts and masks are written as division and
-- remainder, and "|" of bytes in disjoint places as a sum.
pub mod RoundTrip
mod Tests
use cor_rest.Base.{ltb, ◌==◌, if◌then◌else◌, Bytes, ℕ, ◌+◌, ◌-◌, ◌*◌, ◌/◌, ◌%◌, ◌^◌, [], ◌∷◌}

-- alphabet[n]
unfoldable pub alphabet : ℕ → ℕ
alphabet n =
    if ltb n 26
    then b'A' + n
    else if ltb n 52
    then b'a' + (n - 26)
    else if ltb n 62
    then b'0' + (n - 52)
    else if n == 62
    then b'+'
    else b'/'

abbrev pub sextet : ℕ → ℕ → ℕ
sextet v shift = v / 2 ^ shift % 64

-- base64: three bytes at a time
unfoldable pub base64 : Bytes → Bytes
unfolding alphabet
base64 [] = []
base64 (a ∷ []) =
    let v = a * 2 ^ 16 in alphabet (sextet v 18) ∷ alphabet (sextet v 12) ∷ b'=' ∷ b'=' ∷ []
base64 (a ∷ b ∷ []) =
    let v = a * 2 ^ 16 + b * 2 ^ 8 in
    alphabet (sextet v 18) ∷ alphabet (sextet v 12) ∷ alphabet (sextet v 6) ∷ b'=' ∷ []
base64 (a ∷ b ∷ c ∷ s) =
    let v = a * 2 ^ 16 + b * 2 ^ 8 + c in
    alphabet (sextet v 18)
    ∷ alphabet (sextet v 12)
    ∷ alphabet (sextet v 6)
    ∷ alphabet (sextet v 0)
    ∷ base64 s
