-- ===== src/Base64.antt =====
-- include/ai/util/base64.hpp: the encoder of binary parts. A byte is a number below 256, and the bits
-- that are joined do not overlap, so `|` is a sum; no value reaches 2 ^ 24.
pub mod Decode
mod Tests
use ai_sdk_cpp.Prelude.{
  ℕ, ◌+◌, ◌*◌, ◌/◌, ◌%◌, ◌^◌, List, [], ◌∷◌, Bytes, codes, value_or, get_elem?,
}

abbrev pub base64_chars : Bytes
base64_chars = codes "ABCDEFGHIJKLMNOPQRSTUVWXYZabcdefghijklmnopqrstuvwxyz0123456789+/"

-- `base64_chars[(triple >> shift) & 0x3F]`.
unfoldable pub base64_char : ℕ → ℕ → ℕ
base64_char triple shift = value_or (get_elem? base64_chars (triple / 2 ^ shift % 64)) 0

-- The loop takes three bytes in each round; what is left are two bytes, one or none.
unfoldable pub base64_encode : Bytes → Bytes
unfolding base64_char
base64_encode [] = []
base64_encode (a ∷ []) =
    let triple = a * 2 ^ 16 in base64_char triple 18 ∷ base64_char triple 12 ∷ b'=' ∷ b'=' ∷ []
base64_encode (a ∷ b ∷ []) =
    let triple = a * 2 ^ 16 + b * 2 ^ 8 in
    base64_char triple 18 ∷ base64_char triple 12 ∷ base64_char triple 6 ∷ b'=' ∷ []
base64_encode (a ∷ b ∷ c ∷ rest) =
    let triple = a * 2 ^ 16 + b * 2 ^ 8 + c in
    base64_char triple 18
    ∷ base64_char triple 12
    ∷ base64_char triple 6
    ∷ base64_char triple 0
    ∷ base64_encode rest
