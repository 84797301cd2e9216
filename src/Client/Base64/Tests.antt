-- ===== src/Client/Base64/Tests.antt =====
-- The credentials of RFC 7617.
use cor_rest.Base.{codes, ◌≡◌, refl}
use cor_rest.Client.Base64.{alphabet, base64}

aladdin : base64 (codes "Aladdin:open sesame") ≡ codes "QWxhZGRpbjpvcGVuIHNlc2FtZQ=="
unfolding base64 alphabet
aladdin = refl
