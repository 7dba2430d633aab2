-- ===== src/Alloc/Address.antt =====
-- pickAddress of internal/tenant/addresses.go and the rows it chooses among, DeviceAddress of
-- internal/tenant/tenant.go. The set of addresses taken is a list.
mod Scan
pub mod Choice
mod Tests
use deevnet_provisioning_api.Prelude.{
  ℕ, zero, suc, ◌+◌, ◌-◌, ◌/◌, ◌%◌, ◌^◌, Bool, true, false, not, ◌||◌, Option, none, some, List, [],
  ◌∷◌, ◌++◌, is_empty, leb, Text, text_eq, decimal, Result, ok, err, ◌>>=◌, if◌then◌else◌,
}
use deevnet_provisioning_api.Site.{AddressRange, range_contains}

pub data Status : Type 0 where
  provisioning ready deleting : Status

pub record DeviceAddress : Type 0 where
  pub tenant : Text
  pub device : Text
  pub trust_class : Text
  pub address : Text
  pub mac : Text
  pub status : Status

pub data PickFault : Type 0 where
  address_conflict address_quota addresses_exhausted : PickFault

-- netip.Addr.String of an IPv4 address
unfoldable pub addr_text : ℕ → Text
addr_text a =
    decimal (a / 2 ^ 24 % 256)
    ++ b'.'
      ∷ (decimal (a / 2 ^ 16 % 256)
          ++ b'.' ∷ (decimal (a / 2 ^ 8 % 256) ++ b'.' ∷ decimal (a % 256)))

unfoldable pub is_taken : List DeviceAddress → Text → Bool
is_taken [] address = false
is_taken (h ∷ held) address = text_eq h.address address || is_taken held address

-- The loop over the rows: `none` is its early return, a number what it counts of the tenant's own.
unfoldable pub count_mine : Text → Text → ℕ → List DeviceAddress → Option ℕ
count_mine tenant mac mine [] = some mine
count_mine tenant mac mine (h ∷ held) =
    let rest = count_mine tenant mac (if text_eq h.tenant tenant then suc mine else mine) held in
    if text_eq h.mac mac then none else rest

-- The loop over the range, on the addresses that are left.
unfoldable pub first_free : AddressRange → List DeviceAddress → ℕ → ℕ → Option ℕ
first_free r held addr zero = none
first_free r held addr (suc rounds) =
    let rest = first_free r held (addr + 1) rounds in
    if range_contains r addr
    then (if is_taken held (addr_text addr) then rest else some addr)
    else none

unfoldable pub lowest_free : AddressRange → List DeviceAddress → Option ℕ
lowest_free r held = first_free r held r.first (suc (r.last - r.first))

unfoldable pub address_of : Option ℕ → Result PickFault Text
address_of none = err addresses_exhausted
address_of (some addr) = ok (addr_text addr)

unfoldable pub pick_below_quota :
    AddressRange → ℕ → Text → List DeviceAddress → Option ℕ → Result PickFault Text
pick_below_quota r quota requested held none = err address_conflict
pick_below_quota r quota requested held (some mine) =
    if leb quota mine
    then err address_quota
    else if not (is_empty requested)
    then (if is_taken held requested then err address_conflict else ok requested)
    else address_of (lowest_free r held)

unfoldable pub pick_address :
    AddressRange → ℕ → Text → Text → Text → List DeviceAddress → Result PickFault Text
pick_address r quota tenant mac requested held =
    pick_below_quota r quota requested held (count_mine tenant mac 0 held)
