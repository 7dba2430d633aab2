-- ===== src/Alloc/Address/Choice.antt =====
-- Which address a device is given.
use deevnet_provisioning_api.Prelude.{
  ℕ, suc, ◌-◌, ◌≤◌, ◌<◌, ◌≡◌, ◌≢◌, ◌⊎◌, inl, inr, refl, subst, true, false, none, some, List, [],
  ◌∷◌, Text, ok, err, Option-cases, arith,
}
use mathlib.Core.List.{Memᴰ}
use deevnet_provisioning_api.Site.{AddressRange, range_contains}
use deevnet_provisioning_api.Alloc.Address.Scan.{
  held_by, is_taken-mem, is_taken-find, count_mine-some, count_mine-mac, count_mine-none,
  first_free-some, first_free-below, first_free-none,
}
use deevnet_provisioning_api.Alloc.Address.{
  DeviceAddress, PickFault, address_conflict, address_quota, addresses_exhausted, addr_text,
  is_taken, count_mine, lowest_free, address_of, pick_below_quota, pick_address,
}

-- What the address that a device is given guarantees.
pub record IsPicked (r : AddressRange) (quota : ℕ) (tenant mac requested : Text)
    (held : List DeviceAddress) (a : Text) : Type 0 where
  pub mac_unused : (h : DeviceAddress) → Memᴰ h held → h.mac ≢ mac
  pub address_unused : (h : DeviceAddress) → Memᴰ h held → h.address ≢ a
  pub below_quota : held_by tenant held < quota
  pub requested_kept : requested ≢ [] → a ≡ requested
  pub lowest :
      requested ≡ []
      → (n : ℕ) × (a ≡ addr_text n)
        × (range_contains r n ≡ true)
        × ((m : ℕ)
            → range_contains r m ≡ true
            → m < n
            → (h : DeviceAddress) × Memᴰ h held × (h.address ≡ addr_text m))

-- Why a device is refused one.
abbrev pub Reason : AddressRange → ℕ → Text → Text → Text → List DeviceAddress → PickFault → Type 0
Reason r quota tenant mac requested held address_conflict =
    ((h : DeviceAddress) × Memᴰ h held × (h.mac ≡ mac))
    ⊎ ((requested ≢ []) × ((h : DeviceAddress) × Memᴰ h held × (h.address ≡ requested)))
Reason r quota tenant mac requested held address_quota = quota ≤ held_by tenant held
Reason r quota tenant mac requested held addresses_exhausted =
    (m : ℕ)
    → range_contains r m ≡ true
    → (h : DeviceAddress) × Memᴰ h held × (h.address ≡ addr_text m)

module _ (r : AddressRange) (quota : ℕ) (tenant mac : Text) (held : List DeviceAddress) where
  lowest_free-some :
      (a : Text)
      → address_of (lowest_free r held) ≡ ok a
      → (n : ℕ) × (lowest_free r held ≡ some n) × (a ≡ addr_text n)
  unfolding address_of
  lowest_free-some a e = elim (Option-cases (lowest_free r held)) [
    | inl none_left ↦ (let no_value : address_of none ≡ ok a = rw none_left at e in absurd (cc))
    | inr (n, found) ↦ (n, found, ground arith)
  ]

  -- The branches of the quota's test and of the request's.
  picked_below_quota :
      (mine : ℕ) (requested a : Text)
      → pick_below_quota r quota requested held (some mine) ≡ ok a
      → (mine < quota)
        × (((requested ≢ []) × (a ≡ requested) × (is_taken held a ≡ false))
            ⊎ ((requested ≡ []) × (address_of (lowest_free r held) ≡ ok a)))
  unfolding pick_below_quota
  picked_below_quota mine [] a e = (ground arith, inr (refl, ground arith))
  picked_below_quota mine (c ∷ s) a e = (ground arith, inl (cc, ground arith, ground arith))

  refused_below_quota :
      (mine : ℕ) (requested : Text) (f : PickFault)
      → mine ≡ held_by tenant held
      → pick_below_quota r quota requested held (some mine) ≡ err f
      → Reason r quota tenant mac requested held f
  unfolding pick_below_quota address_of lowest_free range_contains
  refused_below_quota mine [] address_conflict h e = absurd (ground arith)
  refused_below_quota mine [] address_quota h e = ground arith
  refused_below_quota mine [] addresses_exhausted h e = λ m inside.
      is_taken-find held (addr_text m) (
        first_free-none r held r.first (suc (r.last - r.first)) m (omega arith) (omega arith)
          (ground arith) (ground arith) (ground arith))
  refused_below_quota mine (c ∷ s) address_conflict h e =
      inr (cc, is_taken-find held (c ∷ s) (ground arith))
  refused_below_quota mine (c ∷ s) address_quota h e = ground arith
  refused_below_quota mine (c ∷ s) addresses_exhausted h e = absurd (ground arith)

  picked-lowest :
      (n : ℕ)
      → lowest_free r held ≡ some n
      → (range_contains r n ≡ true)
        × ((m : ℕ)
            → range_contains r m ≡ true
            → m < n
            → (h : DeviceAddress) × Memᴰ h held × (h.address ≡ addr_text m))
        × (is_taken held (addr_text n) ≡ false)
  unfolding lowest_free
  picked-lowest n e =
      let (inside, untaken, low) = first_free-some r held r.first (suc (r.last - r.first)) n e in
      (
        inside,
        λ m mem lt. is_taken-find held (addr_text m) (
            first_free-below r held r.first (suc (r.last - r.first)) n m e
              (unfold range_contains in ground arith) lt),
        untaken,
      )

  -- An address that is given out is nobody's, in the trust class, and the MAC holds no other there;
  -- the tenant stays within its quota. It is the one requested, or with none requested the lowest
  -- of the range that no row holds.
  pub pick_address-IsPicked :
      (requested a : Text)
      → pick_address r quota tenant mac requested held ≡ ok a
      → IsPicked r quota tenant mac requested held a
  unfolding pick_address
  pick_address-IsPicked requested a e = elim (Option-cases (count_mine tenant mac 0 held)) [
    | inl conflict ↦
        (let no_value : pick_below_quota r quota requested held none ≡ ok a = rw conflict at e in
          (unfold pick_below_quota in absurd (cc)))
    | inr (mine, counted) ↦
        (let e' : pick_below_quota r quota requested held (some mine) ≡ ok a = rw counted at e in
          let (below, how) = picked_below_quota mine requested a e' in
          let same = count_mine-some tenant mac 0 mine held counted in
          let macs = λ (h : DeviceAddress) (m : Memᴰ h held).
            count_mine-mac tenant mac 0 mine held h counted m in
          elim how [
            | inl (ne, kept, untaken) ↦ record {
              mac_unused = macs;
              address_unused = λ h m. is_taken-mem held a h untaken m;
              below_quota = omega arith;
              requested_kept = λ _. kept;
              lowest = λ nil. absurd (ne nil);
            }
            | inr (nil, found) ↦
                (let (n, low, spelled) = lowest_free-some a found in
                  let (inside, least, untaken) = picked-lowest n low in
                  record {
                    mac_unused = macs;
                    address_unused = λ h m. is_taken-mem held a h (rw spelled untaken) m;
                    below_quota = omega arith;
                    requested_kept = λ ne. absurd (ne nil);
                    lowest = λ _. (n, spelled, inside, least);
                  })
          ])
  ]

  -- Each refusal has its reason: a conflict, that some row holds the MAC or the address requested;
  -- the quota, that the tenant holds as many as it may; exhaustion, that some row holds each
  -- address of the range.
  pub pick_address-Reason :
      (requested : Text) (f : PickFault)
      → pick_address r quota tenant mac requested held ≡ err f
      → Reason r quota tenant mac requested held f
  unfolding pick_address
  pick_address-Reason requested f e = elim (Option-cases (count_mine tenant mac 0 held)) [
    | inl conflict ↦
        (let e' : pick_below_quota r quota requested held none ≡ err f = rw conflict at e in
          let same : address_conflict ≡ f = (unfold pick_below_quota in cc) in
          subst (Reason r quota tenant mac requested held) same
            (inl (count_mine-none tenant mac 0 held conflict)))
    | inr (mine, counted) ↦
        (let e' : pick_below_quota r quota requested held (some mine) ≡ err f = rw counted at e in
          let same : mine ≡ held_by tenant held =
            omega (arith, count_mine-some tenant mac 0 mine held counted) in
          refused_below_quota mine requested f same e')
  ]
