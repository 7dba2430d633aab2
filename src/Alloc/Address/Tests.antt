-- ===== src/Alloc/Address/Tests.antt =====
-- Addresses from a small range.
use deevnet_provisioning_api.Prelude.{
  ℕ, ◌≡◌, refl, List, [], ◌∷◌, Text, codes, text_eq, decimal, Result, ok, err,
}
use deevnet_provisioning_api.Site.{AddressRange, range_contains}
use deevnet_provisioning_api.Alloc.Address.{
  ready, DeviceAddress, PickFault, address_conflict, address_quota, addresses_exhausted, addr_text,
  is_taken, count_mine, first_free, lowest_free, address_of, pick_below_quota, pick_address,
}
use deevnet_provisioning_api.Alloc.Address.Choice.{
  IsPicked, Reason, pick_address-IsPicked, pick_address-Reason,
}

picking : Unit {0}
unfolding range_contains addr_text is_taken count_mine first_free lowest_free address_of
    pick_below_quota pick_address text_eq decimal
picking = tt

-- 10.20.30.64 to 10.20.30.65
abbrev pair_range : AddressRange
pair_range = record {
  subnet = record { addr = 169090560; bits = 24 };
  first = 169090624;
  last = 169090625;
}

abbrev camera : DeviceAddress
camera = record {
  tenant = codes "eds";
  device = codes "cam1";
  trust_class = codes "iot";
  address = codes "10.20.30.64";
  mac = codes "aa:bb:cc:00:11:22";
  status = ready;
}

abbrev lamp : DeviceAddress
lamp = record camera {
  device = codes "lamp";
  address = codes "10.20.30.65";
  mac = codes "aa:bb:cc:00:11:33";
}

abbrev pick : ℕ → Text → Text → List DeviceAddress → Result PickFault Text
pick quota mac requested held = pick_address pair_range quota (codes "eds") mac requested held

picks :
    (pick 2 (codes "aa:bb:cc:00:11:44") [] (camera ∷ []) ≡ ok (codes "10.20.30.65"))
    × (pick 1 (codes "aa:bb:cc:00:11:44") [] (camera ∷ []) ≡ err address_quota)
    × (pick 2 (codes "aa:bb:cc:00:11:22") [] (camera ∷ []) ≡ err address_conflict)
    × (pick 2 (codes "aa:bb:cc:00:11:44") (codes "10.20.30.64") (camera ∷ [])
        ≡ err address_conflict)
    × (pick 3 (codes "aa:bb:cc:00:11:44") [] (camera ∷ lamp ∷ []) ≡ err addresses_exhausted)
unfolding picking
picks = (refl, refl, refl, refl, refl)

pick_address-IsPicked_example :
    IsPicked pair_range 2
      (codes "eds")
      (codes "aa:bb:cc:00:11:44")
      []
      (camera ∷ [])
      (codes "10.20.30.65")
pick_address-IsPicked_example =
    pick_address-IsPicked pair_range 2 (codes "eds") (codes "aa:bb:cc:00:11:44") (camera ∷ []) []
      (codes "10.20.30.65") picks.0

pick_address-Reason_example :
    Reason pair_range 3
      (codes "eds")
      (codes "aa:bb:cc:00:11:44")
      []
      (camera ∷ lamp ∷ [])
      addresses_exhausted
pick_address-Reason_example =
    pick_address-Reason pair_range 3 (codes "eds") (codes "aa:bb:cc:00:11:44") (camera ∷ lamp ∷ [])
      [] addresses_exhausted picks.4
