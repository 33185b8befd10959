-- ===== src/Payments/Helpers/IntentKey.antt =====
-- GenerateCheckoutIntentKey: base64.RawURLEncoding of the random bytes.
use edn_core.Prelude.{
  ℕ, ◌<◌, ◌+◌, ◌-◌, ◌*◌, ◌/◌, ◌%◌, ◌≡◌, refl, Bool, true, ◌||◌, [], ◌∷◌, List, arith, length, all,
  All, ltb, leb, ◌==◌, ◌&&◌, if◌then◌else◌,
}
use edn_core.Text.{Text}

-- The alphabet of RFC 4648, section 5: A-Z, a-z, 0-9, '-' and '_'.
unfoldable pub url_char : ℕ → ℕ
url_char n =
    if ltb n 26
    then 65 + n
    else if ltb n 52
    then 71 + n
    else if ltb n 62
    then n - 4
    else if n == 62
    then b'-'
    else b'_'

-- Three bytes make four characters; one or two bytes at the end make two or three, unpadded.
unfoldable pub raw_url_encode : List ℕ → Text
raw_url_encode [] = []
raw_url_encode (a ∷ []) = url_char (a / 4) ∷ url_char (a % 4 * 16) ∷ []
raw_url_encode (a ∷ b ∷ []) =
    url_char (a / 4) ∷ url_char (a % 4 * 16 + b / 16) ∷ url_char (b % 16 * 4) ∷ []
raw_url_encode (a ∷ b ∷ c ∷ rest) =
    url_char (a / 4)
    ∷ url_char (a % 4 * 16 + b / 16)
    ∷ url_char (b % 16 * 4 + c / 64)
    ∷ url_char (c % 64)
    ∷ raw_url_encode rest

abbrev is_url_safe : ℕ → Bool
is_url_safe c =
    leb 65 c && leb c 90 || leb 97 c && leb c 122 || leb 48 c && leb c 57 || c == b'-' || c == b'_'

url_char-is_url_safe : (n : ℕ) → is_url_safe (url_char n) ≡ true
unfolding url_char
url_char-is_url_safe n = ground arith

-- Every character of an encoding is a letter, a digit, '-' or '_'.
raw_url_encode-is_url_safe : (bytes : List ℕ) → all is_url_safe (raw_url_encode bytes) ≡ true
unfolding raw_url_encode
raw_url_encode-is_url_safe [] = refl
raw_url_encode-is_url_safe (a ∷ []) = simp url_char-is_url_safe
raw_url_encode-is_url_safe (a ∷ b ∷ []) = simp url_char-is_url_safe
raw_url_encode-is_url_safe (a ∷ b ∷ c ∷ rest) =
    simp (url_char-is_url_safe, raw_url_encode-is_url_safe rest)

-- The length of the encoding, for whole groups of three bytes.
length-raw_url_encode :
    (k : ℕ) (bytes : List ℕ) → length bytes ≡ 3 * k → length (raw_url_encode bytes) ≡ 4 * k
unfolding raw_url_encode
length-raw_url_encode k [] h = omega arith
length-raw_url_encode k (a ∷ []) h = absurd (omega arith)
length-raw_url_encode k (a ∷ b ∷ []) h = absurd (omega arith)
length-raw_url_encode k (a ∷ b ∷ c ∷ rest) h =
    omega (arith, length-raw_url_encode (k - 1) rest (omega arith))

url_index : ℕ → ℕ
url_index c =
    if leb 97 c
    then c - 71
    else if c == b'_'
    then 63
    else if leb 65 c
    then c - 65
    else if c == b'-'
    then 62
    else c + 4

url_index-url_char : (n : ℕ) → n < 64 → url_index (url_char n) ≡ n
unfolding url_index url_char
url_index-url_char n h = ground arith

raw_url_decode : Text → List ℕ
raw_url_decode (p ∷ q ∷ []) = (url_index p * 4 + url_index q / 16) ∷ []
raw_url_decode (p ∷ q ∷ r ∷ []) =
    (url_index p * 4 + url_index q / 16) ∷ (url_index q % 16 * 16 + url_index r / 4) ∷ []
raw_url_decode (p ∷ q ∷ r ∷ s ∷ rest) =
    (url_index p * 4 + url_index q / 16)
    ∷ (url_index q % 16 * 16 + url_index r / 4)
    ∷ (url_index r % 4 * 64 + url_index s)
    ∷ raw_url_decode rest
raw_url_decode _ = []

abbrev IsByte : ℕ → Type 0
IsByte b = b < 256

decode-encode : (xs : List ℕ) → All IsByte xs → raw_url_decode (raw_url_encode xs) ≡ xs
unfolding raw_url_decode raw_url_encode
decode-encode [] h = refl
decode-encode (a ∷ []) h =
    ground (arith, url_index-url_char (a / 4), url_index-url_char (a % 4 * 16))
decode-encode (a ∷ b ∷ []) h = ground (
  arith,
  url_index-url_char (a / 4),
  url_index-url_char (a % 4 * 16 + b / 16),
  url_index-url_char (b % 16 * 4),
)
decode-encode (a ∷ b ∷ c ∷ rest) h = ground (
  arith,
  url_index-url_char (a / 4),
  url_index-url_char (a % 4 * 16 + b / 16),
  url_index-url_char (b % 16 * 4 + c / 64),
  url_index-url_char (c % 64),
  decode-encode rest,
)

-- Two lists of bytes with the same encoding are the same: no randomness is lost.
raw_url_encode_injective :
    (xs ys : List ℕ)
    → All IsByte xs
    → All IsByte ys
    → raw_url_encode xs ≡ raw_url_encode ys
    → xs ≡ ys
raw_url_encode_injective xs ys hx hy h = cc (decode-encode xs hx, decode-encode ys hy)
