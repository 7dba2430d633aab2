-- ===== src/Lifecycle/Base64.antt =====
-- base64.StdEncoding of the standard library, as the service uses it: the text of some bytes, and
-- the number of bytes that a text decodes to.
use deevnet_provisioning_api.Prelude.{
  ℕ, suc, ◌+◌, ◌-◌, ◌*◌, ◌/◌, ◌%◌, ◌≡◌, refl, Bool, true, false, ◌&&◌, ◌||◌, Option, none, some,
  List, [], ◌∷◌, length, is_empty, ltb, leb, ◌==◌, Text, contains, if◌then◌else◌, arith,
}

unfoldable pub digit_of : ℕ → ℕ
digit_of n =
    if ltb n 26
    then n + b'A'
    else if ltb n 52
    then n - 26 + b'a'
    else if ltb n 62
    then n - 52 + b'0'
    else if n == 62
    then b'+'
    else b'/'

unfoldable pub is_digit64 : ℕ → Bool
is_digit64 c =
    leb b'A' c && leb c b'Z'
    || (leb b'a' c && leb c b'z' || (leb b'0' c && leb c b'9' || (c == b'+' || c == b'/')))

-- The digit of six bits.
abbrev six : ℕ → ℕ
six n = digit_of (n % 64)

unfoldable pub encode : List ℕ → Text
unfolding digit_of
encode [] = []
encode (a ∷ []) = six (a / 4) ∷ six (a * 16) ∷ b'=' ∷ b'=' ∷ []
encode (a ∷ b ∷ []) = six (a / 4) ∷ six (a * 16 + b / 16) ∷ six (b * 4) ∷ b'=' ∷ []
encode (a ∷ b ∷ c ∷ bytes) =
    six (a / 4) ∷ six (a * 16 + b / 16) ∷ six (b * 4 + c / 64) ∷ six c ∷ encode bytes

-- The same digits but two, and no padding: RawURLEncoding
abbrev url_six : ℕ → ℕ
url_six n = let d = six n in if d == b'+' then b'-' else if d == b'/' then b'_' else d

unfoldable pub encode_url : List ℕ → Text
unfolding digit_of
encode_url [] = []
encode_url (a ∷ []) = url_six (a / 4) ∷ url_six (a * 16) ∷ []
encode_url (a ∷ b ∷ []) = url_six (a / 4) ∷ url_six (a * 16 + b / 16) ∷ url_six (b * 4) ∷ []
encode_url (a ∷ b ∷ c ∷ bytes) =
    url_six (a / 4)
    ∷ url_six (a * 16 + b / 16)
    ∷ url_six (b * 4 + c / 64)
    ∷ url_six c
    ∷ encode_url bytes

-- Line breaks are skipped.
unfoldable pub without_breaks : Text → Text
without_breaks [] = []
without_breaks (c ∷ s) =
    let rest = without_breaks s in if c == 10 || c == 13 then rest else c ∷ rest

abbrev plus_three : Option ℕ → Option ℕ
plus_three none = none
plus_three (some n) = some (suc (suc (suc n)))

unfoldable pub quanta : Text → Option ℕ
unfolding is_digit64
quanta [] = some 0
quanta (a ∷ b ∷ c ∷ d ∷ s) =
    let rest = quanta s in
    if is_digit64 a && is_digit64 b
    then (if is_digit64 c && is_digit64 d
        then plus_three rest
        else if is_empty s && d == b'='
        then (if is_digit64 c then some 2 else if c == b'=' then some 1 else none)
        else none)
    else none
quanta _ = none

-- DecodeString: the length of its bytes, `none` its error
unfoldable pub decoded_length : Text → Option ℕ
decoded_length s = quanta (without_breaks s)

digit_of-is_digit64 : (n : ℕ) → is_digit64 (digit_of (n % 64)) ≡ true
unfolding digit_of is_digit64
digit_of-is_digit64 n = ground arith

digit_of-break : (n : ℕ) → ((digit_of (n % 64) == 10) || (digit_of (n % 64) == 13)) ≡ false
unfolding digit_of
digit_of-break n = ground arith

without_breaks-encode : (bytes : List ℕ) → without_breaks (encode bytes) ≡ encode bytes
unfolding without_breaks encode
without_breaks-encode [] = refl
without_breaks-encode (a ∷ []) = rw (digit_of-break (a / 4), digit_of-break (a * 16)) refl
without_breaks-encode (a ∷ b ∷ []) =
    rw (digit_of-break (a / 4), digit_of-break (a * 16 + b / 16), digit_of-break (b * 4)) refl
without_breaks-encode (a ∷ b ∷ c ∷ bytes) =
    rw
      (
        digit_of-break (a / 4),
        digit_of-break (a * 16 + b / 16),
        digit_of-break (b * 4 + c / 64),
        digit_of-break c,
        without_breaks-encode bytes,
      )
      refl

quanta-encode : (bytes : List ℕ) → quanta (encode bytes) ≡ some (length bytes)
unfolding quanta encode
quanta-encode [] = refl
quanta-encode (a ∷ []) = rw (digit_of-is_digit64 (a / 4), digit_of-is_digit64 (a * 16)) refl
quanta-encode (a ∷ b ∷ []) =
    rw
      (
        digit_of-is_digit64 (a / 4),
        digit_of-is_digit64 (a * 16 + b / 16),
        digit_of-is_digit64 (b * 4),
      )
      refl
quanta-encode (a ∷ b ∷ c ∷ bytes) =
    rw
      (
        digit_of-is_digit64 (a / 4),
        digit_of-is_digit64 (a * 16 + b / 16),
        digit_of-is_digit64 (b * 4 + c / 64),
        digit_of-is_digit64 c,
        quanta-encode bytes,
      )
      refl

-- What is encoded decodes to as many bytes.
pub decoded_length-encode : (bytes : List ℕ) → decoded_length (encode bytes) ≡ some (length bytes)
unfolding decoded_length
decoded_length-encode bytes = rw (without_breaks-encode bytes) (quanta-encode bytes)

url_six-dot : (n : ℕ) → (url_six n == b'.') ≡ false
unfolding digit_of
url_six-dot n = ground arith

pub encode_url-free : (bytes : List ℕ) → contains b'.' (encode_url bytes) ≡ false
unfolding encode_url contains
encode_url-free [] = refl
encode_url-free (a ∷ []) = rw (url_six-dot (a / 4), url_six-dot (a * 16)) refl
encode_url-free (a ∷ b ∷ []) =
    rw (url_six-dot (a / 4), url_six-dot (a * 16 + b / 16), url_six-dot (b * 4)) refl
encode_url-free (a ∷ b ∷ c ∷ bytes) =
    rw
      (
        url_six-dot (a / 4),
        url_six-dot (a * 16 + b / 16),
        url_six-dot (b * 4 + c / 64),
        url_six-dot c,
        encode_url-free bytes,
      )
      refl
