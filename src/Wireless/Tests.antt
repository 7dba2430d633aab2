-- ===== src/Wireless/Tests.antt =====
-- Keys and enrollment tokens at a concrete service, whose enroller opens the tokens of one tenant.
use deevnet_provisioning_api.Prelude.{
  ℕ, zero, suc, ◌<◌, ◌≡◌, refl, true, some, [], codes, text_eq, Text, arith, Done,
}
use deevnet_provisioning_api.Calls.{
  returns, raises, Call, give, fail_with, gets, modify, refuse_when, checked, ◌>>=◌, logged,
  attempt,
}
use deevnet_provisioning_api.Registry.{Error, not_redeemable, State, outside}
use deevnet_provisioning_api.Registry.Tenants.{audit, write_audit}
use deevnet_provisioning_api.Lifecycle.{Service, Enroller}
use deevnet_provisioning_api.Lifecycle.Sample.{service, empty}
use deevnet_provisioning_api.Wireless.{valid_psk, symbol, random_symbols, random_psk}
use deevnet_provisioning_api.Wireless.Issue.{choose_psk}
use deevnet_provisioning_api.Wireless.Admission.{redeem}
use deevnet_provisioning_api.Wireless.Redemption.{IsIssuedTo, redeem-IsIssuedTo}
use deevnet_provisioning_api.Wireless.Drawn.{IsBounded, choose_psk-valid_psk}

running : Unit {0}
unfolding give fail_with gets modify refuse_when checked ◌>>=◌ logged attempt outside audit
    write_audit text_eq symbol random_symbols random_psk choose_psk redeem
running = tt

abbrev opener : Enroller ℕ
opener = record {
  wrap = λ name ttl w. returns (codes "token", 0) (suc w);
  unwrap = λ token w. returns (codes "eds") (suc w);
}

abbrev enrolling : Service ℕ
enrolling = record service { enroller = some opener }

redeemed_run :
    (d : Done) × (t : State ℕ) × (redeem enrolling (codes "token") (codes "eds") empty
      ≡ returns d t)
unfolding running
redeemed_run = (_, _, refl)

-- The token of another tenant admits nobody.
other_name :
    (t : State ℕ) × (redeem enrolling (codes "token") (codes "web") empty ≡ raises not_redeemable t)
unfolding running
other_name = (_, refl)

redeem-IsIssuedTo_example : IsIssuedTo enrolling (codes "token") (codes "eds") 0
redeem-IsIssuedTo_example =
    redeem-IsIssuedTo enrolling (codes "token") (codes "eds") empty redeemed_run.1 redeemed_run.0
      redeemed_run.2

-- A source of random numbers that gives the lowest below the bound, and fails where there is none.
abbrev lowest : ℕ → Call Error ℕ ℕ
lowest zero w = raises not_redeemable w
lowest (suc n) w = returns 0 (suc w)

lowest-IsBounded : IsBounded lowest
lowest-IsBounded = record { bounded = below }
  where
    below : (n v : ℕ) (w u : ℕ) → lowest n w ≡ returns v u → v < n
    below zero v w u h = absurd (cc)
    below (suc n) v w u h = let e : 0 ≡ v = cc in rw (← e) (omega arith)

abbrev drawing : Service ℕ
drawing = record service { random_int = lowest }

drawn_key : (psk : Text) × (t : State ℕ) × (choose_psk drawing [] [] empty ≡ returns psk t)
unfolding running
drawn_key = (_, _, refl)

choose_psk-valid_psk_example : valid_psk drawn_key.0 ≡ true
choose_psk-valid_psk_example =
    choose_psk-valid_psk drawing [] [] drawn_key.0 empty drawn_key.1 lowest-IsBounded refl refl
      drawn_key.2
