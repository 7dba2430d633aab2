-- ===== src/Wireless.antt =====
-- Wi-Fi keys and admission: internal/tenant/wifikeys.go and admissionkeys.go, and Admit and Redeem
-- of internal/tenant/service.go. This file makes and checks the text of a key; Wireless.Issue
-- issues and revokes a tenant's keys, Wireless.Admission admits a tenant.
pub mod Issue
pub mod Settled
pub mod Drawn
pub mod Redemption
pub mod Admission
mod Tests
use deevnet_provisioning_api.Prelude.{
  ℕ, zero, suc, Bool, not, ◌||◌, List, [], ◌∷◌, length, all, ltb, leb, ◌&&◌, Text, codes, is_empty,
  if◌then◌else◌,
}
use deevnet_provisioning_api.Calls.{Call, give, ◌>>=◌}
use deevnet_provisioning_api.Registry.{Error, State, outside}
use deevnet_provisioning_api.Lifecycle.{Service}

abbrev pub psk_alphabet : Text
psk_alphabet = codes "abcdefghjkmnpqrstuvwxyzACDEFGHJKLMNPQRSTUVWXYZ23456789"

abbrev pub psk_length : ℕ
psk_length = 32

-- ValidPSK
unfoldable pub valid_psk : Text → Bool
valid_psk s = not (ltb (length s) 8 || ltb 63 (length s)) && all (λ c. leb 0x21 c && leb c 0x7E) s

-- `pskAlphabet[v]`; rand.Int gives no index past the end.
unfoldable pub symbol : Text → ℕ → ℕ
symbol [] i = 0
symbol (c ∷ alphabet) zero = c
symbol (c ∷ alphabet) (suc i) = symbol alphabet i

module _ {W : Type 0} (sv : Service W) where
  unfoldable pub random_symbols : ℕ → Call Error (State W) Text
  random_symbols zero = give []
  random_symbols (suc n) = do
    v ← outside (sv.random_int (length psk_alphabet))
    rest ← random_symbols n
    give (symbol psk_alphabet v ∷ rest)

  -- randomPSK
  unfoldable pub random_psk : Call Error (State W) Text
  random_psk = random_symbols psk_length
