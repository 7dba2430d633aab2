-- ===== src/Prelude/Int.antt =====
-- A signed integer as Go's int gives it, and the decimal and hexadecimal spellings of package fmt.
-- `negsuc n` is -(n + 1).
use Prim.Native.Nat.{ℕ, zero, suc, ◌+◌, ◌-◌, ◌*◌, ◌/◌, ◌%◌, ◌<◌}
use mathlib.Core.Path.{◌≡◌, refl, ap, sym, ◌∙◌}
use mathlib.Core.Bool.{Bool, true, false, ◌&&◌}
use mathlib.Core.List.{[], ◌∷◌}
use native.Mathlib.Omega.{arith}
use deevnet_provisioning_api.Prelude.Tests.{ltb, leb, ◌==◌, if◌then◌else◌}
use deevnet_provisioning_api.Prelude.Strings.{Text, contains}

pub data ℤ : Type 0 where
  pos : ℕ → ℤ
  negsuc : ℕ → ℤ

abbrev pub is_zero : ℤ → Bool
is_zero (pos n) = n == 0
is_zero (negsuc n) = false

abbrev pub is_negative : ℤ → Bool
is_negative (pos n) = false
is_negative (negsuc n) = true

-- lo <= n && n <= hi, for bounds that are not negative
abbrev pub within : ℕ → ℕ → ℤ → Bool
within lo hi (pos n) = leb lo n && leb n hi
within lo hi (negsuc n) = false

-- The number, or 0 where it is negative.
abbrev pub to_ℕ : ℤ → ℕ
to_ℕ (pos n) = n
to_ℕ (negsuc n) = 0

-- %d of a number that is not negative, with fuel: a digit falls off in each round.
digits_from : ℕ → ℕ → Text → Text
digits_from zero n acc = acc
digits_from (suc fuel) n acc =
    let more = digits_from fuel (n / 10) ((b'0' + n % 10) ∷ acc) in
    if ltb n 10 then (b'0' + n) ∷ acc else more

unfoldable pub decimal : ℕ → Text
unfolding digits_from
decimal n = digits_from (suc n) n []

value_from : ℕ → Text → ℕ
value_from v [] = v
value_from v (c ∷ s) = value_from (v * 10 + (c - b'0')) s

value-digits_from :
    (fuel n : ℕ) (acc : Text) → n < fuel → value_from 0 (digits_from fuel n acc) ≡ value_from n acc
unfolding digits_from value_from
value-digits_from zero n acc h = absurd (omega arith)
value-digits_from (suc fuel) n acc h = ground (
  arith,
  ap (λ (v : ℕ). value_from v acc) (last_digit n),
  ap (λ (v : ℕ). value_from v acc) (one_digit n),
  value-digits_from fuel (n / 10) ((b'0' + n % 10) ∷ acc),
)
  where
    last_digit : (n : ℕ) → n / 10 * 10 + (b'0' + n % 10 - b'0') ≡ n
    last_digit n = omega arith

    one_digit : (n : ℕ) → 0 * 10 + (b'0' + n - b'0') ≡ n
    one_digit n = omega arith

-- The fuel is enough: the digits spell the number.
value-decimal : (n : ℕ) → value_from 0 (decimal n) ≡ n
unfolding decimal value_from
value-decimal n = value-digits_from (suc n) n [] (omega arith)

pub decimal_injective : (m n : ℕ) → decimal m ≡ decimal n → m ≡ n
decimal_injective m n e = sym (value-decimal m) ∙ ap (value_from 0) e ∙ value-decimal n

digits_from-free :
    (fuel n : ℕ) (acc : Text)
    → contains b'.' acc ≡ false
    → contains b'.' (digits_from fuel n acc) ≡ false
unfolding digits_from contains
digits_from-free zero n acc h = h
digits_from-free (suc fuel) n acc h =
    ground (arith, digits_from-free fuel (n / 10) ((b'0' + n % 10) ∷ acc))

pub decimal-free : (n : ℕ) → contains b'.' (decimal n) ≡ false
unfolding decimal contains
decimal-free n = digits_from-free (suc n) n [] refl

abbrev pub hex_digit : ℕ → ℕ
hex_digit d = if ltb d 10 then b'0' + d else b'a' + (d - 10)

-- %02x of a byte
unfoldable pub hex_byte : ℕ → Text
hex_byte b = hex_digit (b / 16) ∷ hex_digit (b % 16) ∷ []

hex_digit_injective : (a b : ℕ) → a < 16 → b < 16 → hex_digit a ≡ hex_digit b → a ≡ b
hex_digit_injective a b h k e = ground arith

pub hex_byte_injective : (a b : ℕ) → a < 256 → b < 256 → hex_byte a ≡ hex_byte b → a ≡ b
unfolding hex_byte
hex_byte_injective a b h k e =
    let high : a / 16 ≡ b / 16 = hex_digit_injective _ _ (omega arith) (omega arith) (cc) in
    let low : a % 16 ≡ b % 16 = hex_digit_injective _ _ (omega arith) (omega arith) (cc) in
    omega arith
