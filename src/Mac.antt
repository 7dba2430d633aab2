-- ===== src/Mac.antt =====
-- MAC addresses: NormalizeMAC and ControllerMAC of internal/tenant/tenant.go.
pub mod Forms
pub mod RoundTrip
mod Tests
use deevnet_provisioning_api.Prelude.{
  ℕ, ◌+◌, ◌-◌, Bool, ◌&&◌, ◌||◌, Option, none, some, [], ◌∷◌, leb, map, length, Text, ◌==◌,
  if◌then◌else◌,
}

unfoldable pub is_separator : ℕ → Bool
is_separator c = c == b':' || c == b'-'

unfoldable pub is_lower_hex : ℕ → Bool
is_lower_hex c = leb b'0' c && leb c b'9' || leb b'a' c && leb c b'f'

unfoldable pub is_upper_hex : ℕ → Bool
is_upper_hex c = leb b'A' c && leb c b'F'

abbrev pub cons_digit : ℕ → Option Text → Option Text
cons_digit c none = none
cons_digit c (some digits) = some (c ∷ digits)

-- strings.ToUpper, on one ASCII byte
unfoldable pub to_upper : ℕ → ℕ
to_upper c = if leb b'a' c && leb c b'z' then c - 32 else c

unfoldable pub lower_hex_of : ℕ → ℕ
lower_hex_of c = c + (b'a' - b'A')

-- One round of the loop, with what the rounds after it return: the digits they keep, or nothing
-- where one of them met a byte of no MAC.
unfoldable pub keep_digit : ℕ → Option Text → Option Text
unfolding is_separator is_lower_hex is_upper_hex lower_hex_of
keep_digit c rest =
    if is_separator c
    then rest
    else if is_lower_hex c
    then cons_digit c rest
    else if is_upper_hex c
    then cons_digit (lower_hex_of c) rest
    else none

unfoldable pub hex_digits : Text → Option Text
hex_digits [] = some []
hex_digits (c ∷ s) = keep_digit c (hex_digits s)

-- The bytes that the second loop writes: the digits in pairs, a colon between two pairs.
unfoldable pub pairs : Text → Text
pairs (a ∷ b ∷ []) = a ∷ b ∷ []
pairs (a ∷ b ∷ c ∷ s) = a ∷ b ∷ b':' ∷ pairs (c ∷ s)
pairs _ = []

abbrev pub spell : Option Text → Option Text
spell none = none
spell (some digits) = if length digits == 12 then some (pairs digits) else none

unfoldable pub normalize_mac : Text → Option Text
normalize_mac s = spell (hex_digits s)

unfoldable pub controller_byte : ℕ → ℕ
controller_byte c = to_upper (if c == b':' then b'-' else c)

-- strings.ToUpper(strings.ReplaceAll(normalized, ":", "-"))
unfoldable pub controller_mac : Text → Text
controller_mac s = map controller_byte s
