-- ===== src/Base64/Tests.antt =====
-- The test vectors of RFC 4648, and the round trip at a text with padding.
use ai_sdk_cpp.Prelude.{◌≡◌, refl, some, codes, arith}
use ai_sdk_cpp.Base64.{base64_encode}
use ai_sdk_cpp.Base64.Decode.{decode, decode-base64_encode}

no_padding : base64_encode (codes "foobar") ≡ codes "Zm9vYmFy"
unfolding base64_encode
no_padding = refl

one_padding : base64_encode (codes "fooba") ≡ codes "Zm9vYmE="
unfolding base64_encode
one_padding = refl

two_paddings : base64_encode (codes "foob") ≡ codes "Zm9vYg=="
unfolding base64_encode
two_paddings = refl

decode-base64_encode_example : decode (base64_encode (codes "fooba")) ≡ some (codes "fooba")
decode-base64_encode_example = decode-base64_encode (codes "fooba") (omega arith)
