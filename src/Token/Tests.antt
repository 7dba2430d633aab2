-- ===== src/Token/Tests.antt =====
-- A token under a toy HMAC, which appends a letter to the key.
use deevnet_provisioning_api.Prelude.{
  ◌≡◌, ◌↔◌, refl, true, false, some, none, [], Text, codes, text_eq, contains, split,
}
use deevnet_provisioning_api.Names.{valid_name, is_name_byte, is_lower, is_digit}
use deevnet_provisioning_api.Token.{mac, issue, check_parts, verify}
use deevnet_provisioning_api.Token.RoundTrip.{IsNonce, verify_iff}

toy : Text → Text → Text
toy key message = codes "m"

toy-free : (k m : Text) → contains b'.' (toy k m) ≡ false
unfolding toy contains
toy-free k m = refl

verifies :
    (verify toy [] (codes "dvt1.eds.n0nce.m") ≡ some (codes "eds"))
    × (verify toy [] (codes "dvt1.eds.n0nce.x") ≡ none)
    × (verify toy [] (codes "dvt2.eds.n0nce.m") ≡ none)
    × (verify toy [] (codes "dvt1.eds..m") ≡ none)
    × (verify toy [] (codes "dvt1.eds.n0nce.m.m") ≡ none)
unfolding toy verify check_parts mac split text_eq valid_name is_name_byte is_lower is_digit
verifies = (refl, refl, refl, refl, refl)

verify_iff_example : (verify toy [] (codes "dvt1.eds.n0nce.m") ≡ some (codes "eds")) ↔ (
    (valid_name (codes "eds") ≡ true)
    × ((nonce : Text) × IsNonce nonce
        × (codes "dvt1.eds.n0nce.m" ≡ issue toy [] (codes "eds") nonce)))
verify_iff_example = verify_iff toy [] (codes "dvt1.eds.n0nce.m") (codes "eds") toy-free
