-- ===== src/Alloc/Address/Scan.antt =====
-- The two loops of pickAddress: over the rows that are held, and over the range.
use deevnet_provisioning_api.Prelude.{
  ℕ, zero, suc, ◌+◌, ◌≤◌, ◌<◌, ◌≡◌, ◌≢◌, inl, inr, refl, true, false, none, some, List, [], ◌∷◌,
  Text, text_eq, text_eq_iff, Bool-cases, arith, if◌then◌else◌,
}
use mathlib.Core.List.{Memᴰ}
use native.Mathlib.Decide.{dec_lt}
use deevnet_provisioning_api.Site.{AddressRange, range_contains}
use deevnet_provisioning_api.Alloc.Address.{
  DeviceAddress, addr_text, is_taken, count_mine, first_free,
}

-- How many of the rows are the tenant's.
abbrev pub held_by : Text → List DeviceAddress → ℕ
held_by tenant [] = 0
held_by tenant (h ∷ held) = (if text_eq h.tenant tenant then 1 else 0) + held_by tenant held

pub is_taken-mem :
    (held : List DeviceAddress) (a : Text) (h : DeviceAddress)
    → is_taken held a ≡ false
    → Memᴰ h held
    → h.address ≢ a
unfolding is_taken
is_taken-mem [] a h t m = elim m [ ]
is_taken-mem (g ∷ held) a h t (Memᴰ.head e) =
    let ne : g.address ≢ a = (λ same. (let b = (text_eq_iff g.address a).1 same in ground arith)) in
    rw e ne
is_taken-mem (g ∷ held) a h t (Memᴰ.tail m) = is_taken-mem held a h (ground arith) m

pub is_taken-find :
    (held : List DeviceAddress) (a : Text)
    → is_taken held a ≡ true
    → (h : DeviceAddress) × Memᴰ h held × (h.address ≡ a)
unfolding is_taken
is_taken-find [] a t = absurd (cc)
is_taken-find (g ∷ held) a t = elim (Bool-cases (text_eq g.address a)) [
  | inl e ↦ (g, Memᴰ.head refl, (text_eq_iff g.address a).0 e)
  | inr e ↦ (let (h, m, same) = is_taken-find held a (ground arith) in (h, Memᴰ.tail m, same))
]

module _ (tenant mac : Text) where
  pub count_mine-some :
      (mine n : ℕ) (held : List DeviceAddress)
      → count_mine tenant mac mine held ≡ some n
      → n ≡ mine + held_by tenant held
  unfolding count_mine
  count_mine-some mine n [] e = ground arith
  count_mine-some mine n (h ∷ held) e = elim (Bool-cases (text_eq h.tenant tenant)) [
    | inl t ↦ ground (arith, count_mine-some (suc mine) n held)
    | inr t ↦ ground (arith, count_mine-some mine n held)
  ]

  pub count_mine-mac :
      (mine n : ℕ) (held : List DeviceAddress) (h : DeviceAddress)
      → count_mine tenant mac mine held ≡ some n
      → Memᴰ h held
      → h.mac ≢ mac
  unfolding count_mine
  count_mine-mac mine n [] h e m = elim m [ ]
  count_mine-mac mine n (g ∷ held) h e (Memᴰ.head same) =
      let ne : g.mac ≢ mac = (λ eq. (let b = (text_eq_iff g.mac mac).1 eq in ground arith)) in
      rw same ne
  count_mine-mac mine n (g ∷ held) h e (Memᴰ.tail m) =
      count_mine-mac (if text_eq g.tenant tenant then suc mine else mine) n held h (ground arith) m

  pub count_mine-none :
      (mine : ℕ) (held : List DeviceAddress)
      → count_mine tenant mac mine held ≡ none
      → (h : DeviceAddress) × Memᴰ h held × (h.mac ≡ mac)
  unfolding count_mine
  count_mine-none mine [] e = absurd (cc)
  count_mine-none mine (g ∷ held) e = elim (Bool-cases (text_eq g.mac mac)) [
    | inl b ↦ (g, Memᴰ.head refl, (text_eq_iff g.mac mac).0 b)
    | inr b ↦
        (let (h, m, same) =
            count_mine-none (if text_eq g.tenant tenant then suc mine else mine) held
              (ground arith) in
          (h, Memᴰ.tail m, same))
  ]

module _ (r : AddressRange) (held : List DeviceAddress) where
  pub first_free-some :
      (addr rounds n : ℕ)
      → first_free r held addr rounds ≡ some n
      → (range_contains r n ≡ true) × (is_taken held (addr_text n) ≡ false) × (addr ≤ n)
  unfolding first_free
  first_free-some addr zero n e = absurd (cc)
  first_free-some addr (suc rounds) n e = ground (arith, first_free-some (addr + 1) rounds n)

  pub first_free-below :
      (addr rounds n m : ℕ)
      → first_free r held addr rounds ≡ some n
      → addr ≤ m
      → m < n
      → is_taken held (addr_text m) ≡ true
  unfolding first_free
  first_free-below addr zero n m e lo lt = absurd (cc)
  first_free-below addr (suc rounds) n m e lo lt = elim (dec_lt addr m) [
    | yes later ↦ ground (arith, first_free-below (addr + 1) rounds n m)
    | no here ↦ (let eq : m ≡ addr = omega arith in rw eq (ground arith))
  ]

  -- The rounds reach the end of the range.
  pub first_free-none :
      (addr rounds m : ℕ)
      → r.first ≤ addr
      → r.last < addr + rounds
      → first_free r held addr rounds ≡ none
      → addr ≤ m
      → m ≤ r.last
      → is_taken held (addr_text m) ≡ true
  unfolding first_free range_contains
  first_free-none addr zero m l enough e lo hi = absurd (omega arith)
  first_free-none addr (suc rounds) m l enough e lo hi = elim (dec_lt addr m) [
    | yes later ↦ ground (arith, first_free-none (addr + 1) rounds m)
    | no here ↦ (let eq : m ≡ addr = omega arith in rw eq (ground arith))
  ]
