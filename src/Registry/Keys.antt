-- ===== src/Registry/Keys.antt =====
-- The addresses in the table, by trust class, and when none of them stands there twice.
use deevnet_provisioning_api.Prelude.{
  IsUnique, cons_mem, ◌≡◌, inl, inr, refl, sym, ap, subst, true, false, List, [], ◌∷◌, ◌++◌, map,
  Text, text_eq, text_eq_iff, Bool-cases, if◌then◌else◌,
}
use mathlib.Core.List.{Memᴰ}
use deevnet_provisioning_api.Alloc.Address.{DeviceAddress, Status}
use deevnet_provisioning_api.Registry.{Device, AddressRow, Store}
use deevnet_provisioning_api.Registry.Parts.{joined}
use deevnet_provisioning_api.Registry.Addresses.{is_row, with_status, of_class, without_address}

abbrev pub keys : List AddressRow → List (Text × Text)
keys [] = []
keys (a ∷ rows) = (a.trust_class, a.address) ∷ keys rows

pub keys-append :
    (rows : List AddressRow) (a : AddressRow)
    → keys (rows ++ a ∷ []) ≡ keys rows ++ (a.trust_class, a.address) ∷ []
keys-append [] a = refl
keys-append (r ∷ rows) a = cc (keys-append rows a)

with_status-key :
    (tenant device : Text) (status : Status) (a : AddressRow)
    → ◌≡◌ {A = Text × Text}
        (
          (with_status tenant device status a).trust_class,
          (with_status tenant device status a).address,
        )
        (a.trust_class, a.address)
with_status-key tenant device status a =
    elim (is_row tenant device a)
      as (λ b.
        ◌≡◌ {A = Text × Text}
          (
            (if b then record a { status = status } else a).trust_class,
            (if b then record a { status = status } else a).address,
          )
          (a.trust_class, a.address)) [ true ↦ refl | false ↦ refl ]

pub keys-with_status :
    (tenant device : Text) (status : Status) (rows : List AddressRow)
    → keys (map (with_status tenant device status) rows) ≡ keys rows
keys-with_status tenant device status [] = refl
keys-with_status tenant device status (a ∷ rows) =
    cc (with_status-key tenant device status a, keys-with_status tenant device status rows)

without_address-mem :
    (tenant device : Text) (rows : List AddressRow) (k : Text × Text)
    → Memᴰ k (keys (without_address tenant device rows))
    → Memᴰ k (keys rows)
unfolding without_address
without_address-mem tenant device [] k m = m
without_address-mem tenant device (a ∷ rows) k m = elim (Bool-cases (is_row tenant device a)) [
  | inl e ↦ Memᴰ.tail (without_address-mem tenant device rows k (rw e at m))
  | inr e ↦
      cons_mem k (a.trust_class, a.address) _ _ (without_address-mem tenant device rows k)
        (subst
          (λ b. Memᴰ k (
            keys (
              if b
              then without_address tenant device rows
              else a ∷ without_address tenant device rows)))
          e m)
]

pub without_address-IsUnique :
    (tenant device : Text) (rows : List AddressRow)
    → IsUnique (keys rows)
    → IsUnique (keys (without_address tenant device rows))
unfolding without_address
without_address-IsUnique tenant device [] u = tt
without_address-IsUnique tenant device (a ∷ rows) u = elim (Bool-cases (is_row tenant device a)) [
  | inl e ↦ rw e (without_address-IsUnique tenant device rows u.1)
  | inr e ↦ rw e (
    (λ m. u.0 (without_address-mem tenant device rows (a.trust_class, a.address) m)),
    without_address-IsUnique tenant device rows u.1,
  )
]

module _ {W : Type 0} (p : Store W) where
  -- A row of the class stands among the addresses that the choice is shown.
  pub shown :
      (devices : List Device) (trust_class address : Text) (rows : List AddressRow)
      → Memᴰ (trust_class, address) (keys rows)
      → (h : DeviceAddress) × Memᴰ h (map (joined p devices) (of_class trust_class rows))
        × (h.address ≡ address)
  unfolding of_class
  shown devices trust_class address [] m = elim m [ ]
  shown devices trust_class address (a ∷ rows) (Memᴰ.head e) =
      let same : trust_class ≡ a.trust_class = ap (λ (k : Text × Text). k.0) e in
      let tested : text_eq a.trust_class trust_class ≡ true =
        (text_eq_iff a.trust_class trust_class).1 (sym same) in
      rw tested (joined p devices a, Memᴰ.head refl, ap (λ (k : Text × Text). k.1) (sym e))
  shown devices trust_class address (a ∷ rows) (Memᴰ.tail m) =
      let (h, among, same) = shown devices trust_class address rows m in
      elim (Bool-cases (text_eq a.trust_class trust_class)) [
        | inl e ↦ rw e (h, Memᴰ.tail among, same)
        | inr e ↦ rw e (h, among, same)
      ]
