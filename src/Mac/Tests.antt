-- ===== src/Mac/Tests.antt =====
-- Addresses as they are printed on labels and consoles.
use deevnet_provisioning_api.Prelude.{◌≡◌, refl, some, none, codes, length}
use deevnet_provisioning_api.Mac.{normalize_mac, hex_digits, keep_digit, pairs, controller_mac}
use deevnet_provisioning_api.Mac.RoundTrip.{normalize_mac_idem, normalize-controller_mac}

spellings :
    (normalize_mac (codes "AA-BB-CC-00-11-22") ≡ some (codes "aa:bb:cc:00:11:22"))
    × (normalize_mac (codes "aabbcc001122") ≡ some (codes "aa:bb:cc:00:11:22"))
    × (normalize_mac (codes "aabbcc00112") ≡ none)
    × (normalize_mac (codes "aa.bb.cc.00.11.22") ≡ none)
    × (normalize_mac (codes "a-ab:bcc001122:::") ≡ some (codes "aa:bb:cc:00:11:22"))
unfolding normalize_mac hex_digits keep_digit pairs
spellings = (refl, refl, refl, refl, refl)

normalize_mac_idem_example :
    (length (codes "aa:bb:cc:00:11:22") ≡ 17)
    × (normalize_mac (codes "aa:bb:cc:00:11:22") ≡ some (codes "aa:bb:cc:00:11:22"))
normalize_mac_idem_example =
    normalize_mac_idem (codes "AA-BB-CC-00-11-22") (codes "aa:bb:cc:00:11:22") spellings.0

normalize-controller_mac_example :
    normalize_mac (controller_mac (codes "aa:bb:cc:00:11:22")) ≡ some (codes "aa:bb:cc:00:11:22")
normalize-controller_mac_example =
    normalize-controller_mac (codes "aabbcc001122") (codes "aa:bb:cc:00:11:22") spellings.1
