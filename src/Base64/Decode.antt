-- ===== src/Base64/Decode.antt =====
-- A reference decoder for the alphabet and the padding of RFC 4648, and the round trip.
use ai_sdk_cpp.Prelude.{
  ℕ, zero, suc, ◌+◌, ◌-◌, ◌*◌, ◌/◌, ◌%◌, ◌^◌, ◌<◌, ◌≡◌, refl, ap, ◌∙◌, ◌⊎◌, inl, inr, Bool, true,
  false, not, ◌&&◌, [], ◌∷◌, ◌++◌, Option, none, some, Bytes, length, leb, ◌==◌, value_or,
  get_elem?, All, if◌then◌else◌, arith,
}
use ai_sdk_cpp.Base64.{base64_chars, base64_char, base64_encode}

-- The six bits that a letter of the alphabet stands for.
unfoldable pub sextet : ℕ → Option ℕ
sextet c =
    if leb b'A' c && leb c b'Z'
    then some (c - 65)
    else if leb b'a' c && leb c b'z'
    then some (c - 71)
    else if leb b'0' c && leb c b'9'
    then some (c + 4)
    else if c == b'+'
    then some 62
    else if c == b'/'
    then some 63
    else none

abbrev prepend : Bytes → Option Bytes → Option Bytes
prepend xs none = none
prepend xs (some ys) = some (xs ++ ys)

-- Four sextets are three bytes.
abbrev triple_of : Option ℕ → Option ℕ → Option ℕ → Option ℕ → Option Bytes
triple_of (some p) (some q) (some r) (some s) =
    some ((p * 4 + q / 16) ∷ (q % 16 * 16 + r / 4) ∷ (r % 4 * 64 + s) ∷ [])
triple_of _ _ _ _ = none

abbrev first_of_three : Option Bytes → Option Bytes
first_of_three (some (a ∷ rest)) = some (a ∷ [])
first_of_three _ = none

abbrev two_of_three : Option Bytes → Option Bytes
two_of_three (some (a ∷ b ∷ rest)) = some (a ∷ b ∷ [])
two_of_three _ = none

-- Padding stands only in the last group.
unfoldable pub decode : Bytes → Option Bytes
unfolding sextet
decode [] = some []
decode (p ∷ q ∷ r ∷ s ∷ []) =
    if s == b'='
    then if r == b'='
      then first_of_three (triple_of (sextet p) (sextet q) (some 0) (some 0))
      else two_of_three (triple_of (sextet p) (sextet q) (sextet r) (some 0))
    else triple_of (sextet p) (sextet q) (sextet r) (sextet s)
decode (p ∷ q ∷ r ∷ s ∷ t ∷ rest) = elim (triple_of (sextet p) (sextet q) (sextet r) (sextet s)) [
  | none ↦ none
  | some xs ↦ prepend xs (decode (t ∷ rest))
]
decode _ = none

-- The test passes for the numbers under a bound.
under : (ℕ → Bool) → ℕ → Bool
under test zero = true
under test (suc k) = if test k then under test k else false

under-test : (test : ℕ → Bool) (k i : ℕ) → i < k → under test k ≡ true → test i ≡ true
unfolding under
under-test test zero i few passed = absurd (omega arith)
under-test test (suc k) i few passed = ground (arith, under-test test k i)

-- The letter of a value stands for the value, and is no padding.
abbrev letter_fits : ℕ → Bool
letter_fits n =
    value_or (sextet (base64_char n 0)) 64 == n
    && leb (base64_char n 0) b'z'
    && not (base64_char n 0 == b'=')

letters : under letter_fits 64 ≡ true
unfolding under sextet base64_char
letters = refl

base64_char-low : (t k : ℕ) → base64_char (t / 2 ^ k % 64) 0 ≡ base64_char t k
unfolding base64_char
base64_char-low t k =
    let low : t / 2 ^ k % 64 / 2 ^ 0 % 64 ≡ t / 2 ^ k % 64 = omega arith in
    ap (λ n. value_or (get_elem? base64_chars n) 0) low

fits : (n : ℕ) → n < 64 → (sextet (base64_char n 0) ≡ some n) × ((base64_char n 0 == b'=') ≡ false)
fits n lt = ground (arith, under-test letter_fits 64 n lt letters)

sextet-base64_char : (t k : ℕ) → sextet (base64_char t k) ≡ some (t / 2 ^ k % 64)
sextet-base64_char t k = rw (← base64_char-low t k) ((fits (t / 2 ^ k % 64) (omega arith)).0)

base64_char-not_padding : (t k : ℕ) → (base64_char t k == b'=') ≡ false
base64_char-not_padding t k = rw (← base64_char-low t k) ((fits (t / 2 ^ k % 64) (omega arith)).1)

abbrev pub IsByte : ℕ → Type 0
IsByte x = x < 256

-- The bytes of a triple, as the decoder puts them together from its sextets.
abbrev byte_0 : ℕ → ℕ
byte_0 t = t / 2 ^ 18 % 64 * 4 + t / 2 ^ 12 % 64 / 16

abbrev byte_1 : ℕ → ℕ
byte_1 t = t / 2 ^ 12 % 64 % 16 * 16 + t / 2 ^ 6 % 64 / 4

abbrev byte_2 : ℕ → ℕ
byte_2 t = t / 2 ^ 6 % 64 % 4 * 64 + t / 2 ^ 0 % 64

abbrev bytes_of : ℕ → Bytes
bytes_of t = byte_0 t ∷ byte_1 t ∷ byte_2 t ∷ []

triple_four :
    (t : ℕ)
    → triple_of
        (sextet (base64_char t 18))
        (sextet (base64_char t 12))
        (sextet (base64_char t 6))
        (sextet (base64_char t 0))
      ≡ some (bytes_of t)
triple_four t = rw (
  sextet-base64_char t 18,
  sextet-base64_char t 12,
  sextet-base64_char t 6,
  sextet-base64_char t 0,
)

triple_three :
    (t : ℕ)
    → two_of_three (
        triple_of
          (sextet (base64_char t 18))
          (sextet (base64_char t 12))
          (sextet (base64_char t 6))
          (some 0))
      ≡ some (byte_0 t ∷ byte_1 t ∷ [])
triple_three t = rw (sextet-base64_char t 18, sextet-base64_char t 12, sextet-base64_char t 6)

triple_two :
    (t : ℕ)
    → first_of_three
        (triple_of (sextet (base64_char t 18)) (sextet (base64_char t 12)) (some 0) (some 0))
      ≡ some (byte_0 t ∷ [])
triple_two t = rw (sextet-base64_char t 18, sextet-base64_char t 12)

module _ (a b c : ℕ) (ha : IsByte a) (hb : IsByte b) (hc : IsByte c) where
  byte_0-triple : byte_0 (a * 2 ^ 16 + b * 2 ^ 8 + c) ≡ a
  byte_0-triple = omega arith

  byte_1-triple : byte_1 (a * 2 ^ 16 + b * 2 ^ 8 + c) ≡ b
  byte_1-triple = omega arith

  byte_2-triple : byte_2 (a * 2 ^ 16 + b * 2 ^ 8 + c) ≡ c
  byte_2-triple = omega arith

  bytes_of-triple :
      (rest : Bytes)
      → some (
          byte_0 (a * 2 ^ 16 + b * 2 ^ 8 + c)
          ∷ byte_1 (a * 2 ^ 16 + b * 2 ^ 8 + c)
          ∷ byte_2 (a * 2 ^ 16 + b * 2 ^ 8 + c)
          ∷ rest)
        ≡ some (a ∷ b ∷ c ∷ rest)
  bytes_of-triple rest = rw (byte_0-triple, byte_1-triple, byte_2-triple)

one_byte : (a : ℕ) → IsByte a → byte_0 (a * 2 ^ 16) ≡ a
one_byte a ha = omega arith

two_bytes :
    (a b : ℕ)
    → IsByte a
    → IsByte b
    → some (byte_0 (a * 2 ^ 16 + b * 2 ^ 8) ∷ byte_1 (a * 2 ^ 16 + b * 2 ^ 8) ∷ [])
      ≡ some (a ∷ b ∷ [])
two_bytes a b ha hb =
    let first : byte_0 (a * 2 ^ 16 + b * 2 ^ 8) ≡ a = omega arith in
    let second : byte_1 (a * 2 ^ 16 + b * 2 ^ 8) ≡ b = omega arith in rw (first, second)

encode_cons : (a : ℕ) (rest : Bytes) → (h : ℕ) × (t : Bytes) × (base64_encode (a ∷ rest) ≡ h ∷ t)
unfolding base64_encode
encode_cons a [] = (_, _, refl)
encode_cons a (b ∷ []) = (_, _, refl)
encode_cons a (b ∷ c ∷ rest) = (_, _, refl)

-- Four letters in front of a text that is not empty.
decode_group :
    (t : ℕ) (ys : Bytes) (h : ℕ) (r : Bytes)
    → ys ≡ h ∷ r
    → decode (base64_char t 18 ∷ base64_char t 12 ∷ base64_char t 6 ∷ base64_char t 0 ∷ ys)
      ≡ prepend (bytes_of t) (decode ys)
unfolding decode
decode_group t ys h r e = rw e (rw (triple_four t, decode))

-- The reference decoder reads back what the encoder writes, for all bytes and every length.
pub decode-base64_encode : (xs : Bytes) → All IsByte xs → decode (base64_encode xs) ≡ some xs
unfolding decode base64_encode
decode-base64_encode [] h = refl
decode-base64_encode (a ∷ []) h = triple_two (a * 2 ^ 16) ∙ ap (λ x. some (x ∷ [])) (one_byte a h.0)
decode-base64_encode (a ∷ b ∷ []) h =
    rw base64_char-not_padding (triple_three (a * 2 ^ 16 + b * 2 ^ 8) ∙ two_bytes a b h.0 h.1.0)
decode-base64_encode (a ∷ b ∷ c ∷ []) h =
    rw base64_char-not_padding
      (triple_four (a * 2 ^ 16 + b * 2 ^ 8 + c) ∙ bytes_of-triple a b c h.0 h.1.0 h.1.1.0 [])
decode-base64_encode (a ∷ b ∷ c ∷ d ∷ rest) h =
    let (first, others, e) = encode_cons d rest in
    decode_group (a * 2 ^ 16 + b * 2 ^ 8 + c) (base64_encode (d ∷ rest)) first others e
    ∙ (ap (prepend (bytes_of (a * 2 ^ 16 + b * 2 ^ 8 + c)))
          (decode-base64_encode (d ∷ rest) h.1.1.1)
        ∙ bytes_of-triple a b c h.0 h.1.0 h.1.1.0 (d ∷ rest))

-- Each group of three bytes, the last one perhaps short, becomes four letters.
length-base64_encode : (xs : Bytes) → length (base64_encode xs) ≡ (length xs + 2) / 3 * 4
unfolding base64_encode
length-base64_encode [] = refl
length-base64_encode (a ∷ []) = refl
length-base64_encode (a ∷ b ∷ []) = refl
length-base64_encode (a ∷ b ∷ c ∷ rest) = omega (arith, length-base64_encode rest)

-- The characters of the output: the alphabet and the padding.
abbrev pub IsLetter : ℕ → Type 0
IsLetter c = ((n : ℕ) × (sextet c ≡ some n) × (n < 64)) ⊎ (c ≡ b'=')

letter : (t k : ℕ) → IsLetter (base64_char t k)
letter t k = inl (t / 2 ^ k % 64, sextet-base64_char t k, omega arith)

padding : IsLetter b'='
padding = inr refl

letters_only : (xs : Bytes) → All IsLetter (base64_encode xs)
unfolding base64_encode
letters_only [] = tt
letters_only (a ∷ []) = let l = letter (a * 2 ^ 16) in (l 18, (l 12, (padding, (padding, tt))))
letters_only (a ∷ b ∷ []) =
    let l = letter (a * 2 ^ 16 + b * 2 ^ 8) in (l 18, (l 12, (l 6, (padding, tt))))
letters_only (a ∷ b ∷ c ∷ rest) =
    let l = letter (a * 2 ^ 16 + b * 2 ^ 8 + c) in (l 18, (l 12, (l 6, (l 0, letters_only rest))))

-- The output is made of letters of the alphabet and padding, and its length is four for each three
-- bytes begun, the size that the encoder reserves.
pub base64_encode-All :
    (xs : Bytes)
    → All IsLetter (base64_encode xs) × (length (base64_encode xs) ≡ (length xs + 2) / 3 * 4)
base64_encode-All xs = (letters_only xs, length-base64_encode xs)
