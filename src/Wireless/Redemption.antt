-- ===== src/Wireless/Redemption.antt =====
-- Redeem of internal/tenant/service.go: whom a token admits.
use deevnet_provisioning_api.Prelude.{
  ◌≡◌, refl, ap, ◌∙◌, Bool-cases, inl, inr, Option, none, some, Text, text_eq, eq_of_text_eq,
  Result, ok, err, Done,
}
use deevnet_provisioning_api.Calls.{Outcome, returns, raises, Call}
use deevnet_provisioning_api.Calls.Laws.{bind-eq-returns, fail_with-ne-returns}
use deevnet_provisioning_api.Registry.{Error, not_redeemable, State, outside, keep}
use deevnet_provisioning_api.Lifecycle.{Service, Enroller}
use deevnet_provisioning_api.Lifecycle.Readiness.{attempt-eq-ok}
use deevnet_provisioning_api.Wireless.Admission.{redeemed, redeem_with, redeem}

module _ {W : Type 0} (sv : Service W) where
  kept-returns :
      (s t : State W) (tenant : Text) (o : Outcome Error W Text)
      → keep s.registry o ≡ returns tenant t
      → (u : W) × (o ≡ returns tenant u)
  kept-returns s t tenant (returns a u) h = let e : a ≡ tenant = cc in (u, ap (λ x. returns x u) e)
  kept-returns s t tenant (raises e u) h = absurd (cc)

  outside-returns :
      (call : Call Error W Text) (s t : State W) (tenant : Text)
      → outside call s ≡ returns tenant t
      → (u : W) × (call s.world ≡ returns tenant u)
  unfolding outside
  outside-returns call s t tenant h = kept-returns s t tenant (call s.world) h

  redeemed-ok :
      (name : Text) (answer : Result Error Text) (s t : State W) (d : Done)
      → redeemed sv name answer s ≡ returns d t
      → answer ≡ ok name
  redeemed-ok name (err not_redeemable) s t d h = absurd (fail_with-ne-returns _ d s t h)
  redeemed-ok name (err e) s t d h = absurd (fail_with-ne-returns _ d s t h)
  redeemed-ok name (ok tenant) s t d h = elim (Bool-cases (text_eq tenant name)) [
    | inl e ↦ ap ok (eq_of_text_eq tenant name e)
    | inr e ↦
        let (noted, s1, audit, h1) = bind-eq-returns _ _ s d t (rw e at h) in
        absurd (fail_with-ne-returns _ d s1 t h1)
  ]

  -- The token was opened by the site's own enroller, which found this name in it.
  abbrev pub IsIssuedTo : Text → Text → W → Type 0
  IsIssuedTo token name w =
      (b : Enroller W) × (sv.enroller ≡ some b) × ((u : W) × (b.unwrap token w ≡ returns name u))

  redeem_with-bound :
      (b : Option (Enroller W)) (token name : Text) (s t : State W) (d : Done)
      → redeem_with sv b token name s ≡ returns d t
      → (x : Enroller W) × (b ≡ some x) × ((u : W) × (x.unwrap token s.world ≡ returns name u))
  redeem_with-bound none token name s t d h = absurd (fail_with-ne-returns _ d s t h)
  redeem_with-bound (some x) token name s t d h =
      let (answer, s1, asked, h1) = bind-eq-returns _ _ s d t h in
      let good = redeemed-ok name answer s1 t d h1 in
      let opened =
        attempt-eq-ok sv (outside (x.unwrap token)) s name s1
          (asked ∙ ap (λ r. returns r s1) good) in
      (x, refl, outside-returns (x.unwrap token) s s1 name opened)

  -- A token that is redeemed for a name was opened by the site's enroller at this call, and the
  -- name that it was issued to is this one.
  pub redeem-IsIssuedTo :
      (token name : Text) (s t : State W) (d : Done)
      → redeem sv token name s ≡ returns d t
      → IsIssuedTo token name s.world
  unfolding redeem
  redeem-IsIssuedTo token name s t d h = redeem_with-bound sv.enroller token name s t d h
