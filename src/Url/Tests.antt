-- ===== src/Url/Tests.antt =====
-- The encoder and the decoder at concrete values.
use cor_rest.Base.{Bytes, All, codes, ◌≡◌, refl, true, some, arith}
use cor_rest.Url.{must_encode, hex_digit, extra, encode_bytes, url_value_encode, url_value_decode}
use cor_rest.Url.Decode.{IsByte}
use cor_rest.Url.RoundTrip.{url_value_decode-encode}

abbrev query : Bytes
query = codes "name==\"a+b\"&50%"

query-IsByte : All IsByte query
query-IsByte = omega arith

encode-query : url_value_encode true (some query) ≡ codes "name==\"a%2Bb\"%2650%25"
unfolding url_value_encode extra encode_bytes must_encode hex_digit
encode-query = refl

decode_not_hex : url_value_decode (some (codes "a%zz%4")) ≡ some (codes "a%zz%4")
unfolding url_value_decode
decode_not_hex = refl

url_value_decode-encode_example :
    url_value_decode (some (url_value_encode true (some query))) ≡ some query
url_value_decode-encode_example = url_value_decode-encode query query-IsByte

decode_short : url_value_decode (some (codes "a%41")) ≡ some (codes "aA")
unfolding url_value_decode
decode_short = refl
