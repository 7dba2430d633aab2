-- ===== src/Mac/RoundTrip.antt =====
-- What normalizing a MAC address guarantees to those who store and compare it.
use deevnet_provisioning_api.Prelude.{
  ◌≡◌, refl, ap, ◌∙◌, some, [], ◌∷◌, arith, length, map, Text, if◌then◌else◌,
}
use deevnet_provisioning_api.Mac.{
  is_separator, keep_digit, hex_digits, spell, normalize_mac, controller_byte, controller_mac,
}
use deevnet_provisioning_api.Mac.Forms.{
  id-IsSpelling, controller_byte-IsSpelling, length-pairs, normalize_mac-IsSpelled, normalize-pairs,
}

map_id : (s : Text) → map (λ c. c) s ≡ s
map_id [] = refl
map_id (c ∷ s) = rw (map_id s) refl

-- A normalized MAC is seventeen bytes long, and normalizing it again gives it back.
pub normalize_mac_idem :
    (s m : Text) → normalize_mac s ≡ some m → (length m ≡ 17) × (normalize_mac m ≡ some m)
normalize_mac_idem s m h =
    let (digits, kept, i) = normalize_mac-IsSpelled s m h in
    (
      ap length i.spelled ∙ length-pairs 5 digits i.twelve,
      rw (map_id m) at (normalize-pairs (λ c. c) digits m id-IsSpelling i),
    )

-- The spelling that the wireless controller is sent, upper case with dashes, normalizes back to
-- the address it was made from.
pub normalize-controller_mac :
    (s m : Text) → normalize_mac s ≡ some m → normalize_mac (controller_mac m) ≡ some m
unfolding controller_mac
normalize-controller_mac s m h =
    let (digits, kept, i) = normalize_mac-IsSpelled s m h in
    normalize-pairs controller_byte digits m controller_byte-IsSpelling i

abbrev pub without_separators : Text → Text
without_separators [] = []
without_separators (c ∷ s) =
    if is_separator c then without_separators s else c ∷ without_separators s

hex_digits-without_separators : (s : Text) → hex_digits (without_separators s) ≡ hex_digits s
unfolding hex_digits keep_digit
hex_digits-without_separators [] = refl
hex_digits-without_separators (c ∷ s) = ground (arith, hex_digits-without_separators s)

-- The colons and dashes of an address make no difference, wherever they stand: it is accepted
-- with them exactly when it is accepted without any, and with the same result.
pub normalize-without_separators :
    (s : Text) → normalize_mac (without_separators s) ≡ normalize_mac s
unfolding normalize_mac
normalize-without_separators s = ap spell (hex_digits-without_separators s)
