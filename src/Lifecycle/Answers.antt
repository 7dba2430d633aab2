-- ===== src/Lifecycle/Answers.antt =====
-- The statuses of internal/server/tenants.go: fail, and what create and reconcile answer with.
use deevnet_provisioning_api.Prelude.{
  ℕ, ◌≡◌, ◌↔◌, ◌≢◌, refl, Bool, true, false, not, ◌&&◌, Option, none, some, [], is_empty, Text,
  if◌then◌else◌, arith, Bool-cases, inl, inr,
}
use deevnet_provisioning_api.Registry.{
  Error, not_found, exists, exhausted, fabric_in_use, secrets_unavailable, not_redeemable,
  no_enrollment, has_workloads, workloads_exhausted, address_conflict, addresses_exhausted,
  address_quota, invalid, step, other,
}
use deevnet_provisioning_api.Registry.Sealing.{is_unavailable}
use deevnet_provisioning_api.Calls.{Outcome, returns, raises}
use deevnet_provisioning_api.Lifecycle.{
  TenantOutcome, created, restored, reissued, resumed, reconciled, TenantResult,
}

-- The cases of fail after the first: errors.Is and errors.As look into a step's error too.
unfoldable pub status_within : Error → ℕ → ℕ
status_within not_found otherwise = 404
status_within exists otherwise = 409
status_within exhausted otherwise = 409
status_within no_enrollment otherwise = 501
status_within has_workloads otherwise = 409
status_within workloads_exhausted otherwise = 409
status_within address_conflict otherwise = 409
status_within addresses_exhausted otherwise = 409
status_within address_quota otherwise = 409
status_within fabric_in_use otherwise = 409
status_within (invalid reason) otherwise = 400
status_within (step name e) otherwise = status_within e 502
status_within secrets_unavailable otherwise = otherwise
status_within not_redeemable otherwise = otherwise
status_within (other text) otherwise = otherwise

unfoldable pub status_of : Error → ℕ
unfolding is_unavailable
status_of e = if is_unavailable e then 503 else status_within e 500

-- errors.As with a step's error
abbrev pub is_step : Error → Bool
is_step (step name e) = true
is_step _ = false

-- An error of create or reconcile, with the name in the record that comes with it: a tenant that
-- exists and is not finished is answered before fail is reached.
unfoldable pub error_status : Text → Error → ℕ
error_status name e = if is_step e && not (is_empty name) then 502 else status_of e

abbrev pub outcome_status : TenantOutcome → ℕ
outcome_status created = 201
outcome_status restored = 201
outcome_status reissued = 201
outcome_status resumed = 200
outcome_status reconciled = 200

abbrev pub answered_status : ℕ → TenantResult × Option Error → ℕ
answered_status fine (res, none) = fine
answered_status fine (res, some e) = error_status res.tenant.name e

module _ {S : Type 0} where
  -- The end of the handler create, after what Create has returned; a call that raises hands back no
  -- record.
  unfoldable pub create_status : Outcome Error S (TenantResult × Option Error) → ℕ
  create_status (returns answer s) = answered_status (outcome_status answer.0.outcome) answer
  create_status (raises e s) = error_status [] e

  -- The handler reconcile
  unfoldable pub reconcile_status : Outcome Error S (TenantResult × Option Error) → ℕ
  reconcile_status (returns answer s) = answered_status 200 answer
  reconcile_status (raises e s) = error_status [] e

  -- The error of an outcome, and the name in the record that comes with it
  abbrev pub Fails : Error → Text → Outcome Error S (TenantResult × Option Error) → Type 0
  Fails e name (returns answer s) = (answer.1 ≡ some e) × (answer.0.tenant.name ≡ name)
  Fails e name (raises f s) = (f ≡ e) × (name ≡ [])

within_unavailable :
    (e : Error) (otherwise : ℕ)
    → otherwise ≢ 503
    → status_within e otherwise ≡ 503
    → is_unavailable e ≡ true
unfolding status_within is_unavailable
within_unavailable not_found o ne h = absurd (omega arith)
within_unavailable exists o ne h = absurd (omega arith)
within_unavailable exhausted o ne h = absurd (omega arith)
within_unavailable fabric_in_use o ne h = absurd (omega arith)
within_unavailable secrets_unavailable o ne h = absurd (ne h)
within_unavailable not_redeemable o ne h = absurd (ne h)
within_unavailable no_enrollment o ne h = absurd (omega arith)
within_unavailable has_workloads o ne h = absurd (omega arith)
within_unavailable workloads_exhausted o ne h = absurd (omega arith)
within_unavailable address_conflict o ne h = absurd (omega arith)
within_unavailable addresses_exhausted o ne h = absurd (omega arith)
within_unavailable address_quota o ne h = absurd (omega arith)
within_unavailable (invalid reason) o ne h = absurd (omega arith)
within_unavailable (step name e) o ne h = within_unavailable e 502 (λ bad. omega arith) h
within_unavailable (other text) o ne h = absurd (ne h)

status_of_iff : (e : Error) → (status_of e ≡ 503) ↔ (is_unavailable e ≡ true)
unfolding status_of
status_of_iff e = (
  λ h. elim (Bool-cases (is_unavailable e)) [
    | inl yes_it_is ↦ yes_it_is
    | inr no_it_is_not ↦ within_unavailable e 500 (λ bad. omega arith) (rw no_it_is_not at h)
  ],
  λ h. rw h refl,
)

error_status_iff :
    (name : Text) (e : Error)
    → (error_status name e ≡ 503)
      ↔ ((is_unavailable e ≡ true) × ((is_step e && not (is_empty name)) ≡ false))
unfolding error_status
error_status_iff name e = elim (Bool-cases (is_step e && not (is_empty name))) [
  | inl unfinished ↦
      (λ h. absurd (let bad : 502 ≡ 503 = rw unfinished at h in omega arith), λ h. absurd (cc))
  | inr final ↦
      (λ h. ((status_of_iff e).0 (rw final at h), final), λ h. rw final ((status_of_iff e).1 h.0))
]

module _ {S : Type 0} (e : Error) (name : Text) where
  create_status_failed :
      (o : Outcome Error S (TenantResult × Option Error))
      → Fails e name o
      → create_status o ≡ error_status name e
  unfolding create_status
  create_status_failed (returns (res, none) s) h = absurd (cc)
  create_status_failed (returns (res, some f) s) h = cc
  create_status_failed (raises f s) h = cc

  reconcile_status_failed :
      (o : Outcome Error S (TenantResult × Option Error))
      → Fails e name o
      → reconcile_status o ≡ error_status name e
  unfolding reconcile_status
  reconcile_status_failed (returns (res, none) s) h = absurd (cc)
  reconcile_status_failed (returns (res, some f) s) h = cc
  reconcile_status_failed (raises f s) h = cc

  -- Of an error, fail answers 503 exactly when it is, however deep in failed steps, that the secrets
  -- store is sealed or cannot be reached. What ends a create or a reconcile with that error is
  -- answered 503 exactly when it is that and, besides, not the failure of a step that comes with the
  -- record of a tenant.
  pub status_of_unavailable_iff :
      (o : Outcome Error S (TenantResult × Option Error))
      → Fails e name o
      → ((status_of e ≡ 503) ↔ (is_unavailable e ≡ true))
        × ((create_status o ≡ 503)
            ↔ ((is_unavailable e ≡ true) × ((is_step e && not (is_empty name)) ≡ false)))
        × ((reconcile_status o ≡ 503)
            ↔ ((is_unavailable e ≡ true) × ((is_step e && not (is_empty name)) ≡ false)))
  status_of_unavailable_iff o h = (
    status_of_iff e,
    rw (create_status_failed o h) (error_status_iff name e),
    rw (reconcile_status_failed o h) (error_status_iff name e),
  )
