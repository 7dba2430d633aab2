-- ===== src/Devices.antt =====
-- A tenant's devices and their fixed addresses: internal/tenant/devices.go and addresses.go. This
-- file has what both share; Devices.Addresses reserves and gives back an address,
-- Devices.Registration registers a device. The texts of refusals are left out.
pub mod Addresses
pub mod Registration
pub mod Stored
pub mod Changes
pub mod Reserved
pub mod Settled
pub mod Held
mod Tests
use deevnet_provisioning_api.Prelude.{
  ℕ, zero, suc, ◌+◌, ◌*◌, ◌-◌, Bool, true, false, not, Option, none, some, List, [], ◌∷◌, leb, ◌==◌,
  Text, Result, ok, err, if◌then◌else◌,
}
use deevnet_provisioning_api.Names.{is_digit}
use deevnet_provisioning_api.Alloc.Address.{Status, ready, provisioning, deleting}
use deevnet_provisioning_api.Calls.{Call, give, fail_with}
use deevnet_provisioning_api.Registry.{Error, not_found, State}

-- A digit after those of a field: no leading zero, and at most 255.
unfoldable pub add_digit : Option ℕ → ℕ → Option ℕ
add_digit none digit = some digit
add_digit (some zero) digit = none
add_digit (some (suc n)) digit =
    if leb (suc n * 10 + digit) 255 then some (suc n * 10 + digit) else none

-- What the loop over the bytes of an IPv4 address has read: the field at hand, once it has a digit,
-- the dots and the fields before it.
pub record Reading : Type 0 where
  pub field : Option ℕ
  pub dots : ℕ
  pub sum : ℕ

abbrev after_digit : Reading → Option ℕ → Option Reading
after_digit r none = none
after_digit r (some n) = some (record r { field = some n })

abbrev after_dot : Reading → Option ℕ → Option Reading
after_dot r none = none
after_dot r (some n) =
    if r.dots == 3
    then none
    else some (record { field = none; dots = suc r.dots; sum = r.sum * 256 + n })

unfoldable pub read_byte : Reading → ℕ → Option Reading
read_byte r c =
    if is_digit c
    then after_digit r (add_digit r.field (c - b'0'))
    else if c == b'.'
    then after_dot r r.field
    else none

abbrev last_field : Reading → Option ℕ → Option ℕ
last_field r none = none
last_field r (some n) = if r.dots == 3 then some (r.sum * 256 + n) else none

unfoldable pub read_fields : Option Reading → Text → Option ℕ
read_fields none text = none
read_fields (some r) [] = last_field r r.field
read_fields (some r) (c ∷ text) = read_fields (read_byte r c) text

-- netip.ParseAddr where the text is an IPv4 address; no other address is in a range.
unfoldable pub parse_addr : Text → Option ℕ
parse_addr text = read_fields (some (record { field = none; dots = 0; sum = 0 })) text

abbrev pub is_ready : Status → Bool
is_ready ready = true
is_ready provisioning = false
is_ready deleting = false

-- `errors.Is(err, ErrNotFound)` told apart from the other errors
abbrev pub if_there : {W A : Type 0} → Result Error A → Call Error (State W) (Option A)
if_there (ok a) = give (some a)
if_there (err not_found) = give none
if_there (err e) = fail_with e
