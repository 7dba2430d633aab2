-- ===== src/Lifecycle/Finished.antt =====
-- The operations of internal/tenant/service.go that finish a tenant where every backend accepts
-- what it is asked: Reconcile, and a Create that is tried again.
use deevnet_provisioning_api.Prelude.{
  ◌≡◌, sym, subst, ap, false, Option, none, Text, Result, ok, err, Done,
}
use deevnet_provisioning_api.Alloc.Address.{Status, provisioning, ready}
use deevnet_provisioning_api.Calls.{Outcome, returns, raises, checked, logged, ◌>>◌}
use deevnet_provisioning_api.Calls.Outcomes.{
  After, Ensures, given-Ensures, give-Ensures, bind-Ensures, attempt-Ensures, weaken-Ensures,
  passed-Ensures, logged_any,
}
use deevnet_provisioning_api.Calls.Certain.{Sure, sure_rules, logged-Sure}
use deevnet_provisioning_api.Registry.{Error, Record, State}
use deevnet_provisioning_api.Registry.Answering.{
  HasRow, outside-Sure, audit-Sure, set_secrets-Sure, get-Ensures,
}
use deevnet_provisioning_api.Lifecycle.{CreateRequest, TenantOutcome, resumed, Service}
use deevnet_provisioning_api.Lifecycle.Validate.{validate_create}
use deevnet_provisioning_api.Lifecycle.Requests.{issue_token}
use deevnet_provisioning_api.Lifecycle.Create.{
  Answer, is_deleting, foreign, restored_secrets, restore_existing, resume_and_adopt, by_status,
  by_row, create, reconcile, adopt_admission_key,
}
use deevnet_provisioning_api.Lifecycle.Readiness.{HasStatus}
use deevnet_provisioning_api.Lifecycle.Ready.{create-HasStatus, reconcile-HasStatus}
use deevnet_provisioning_api.Lifecycle.Finishing.{IsAccepting, ensure-Finishes}

module _ {W : Type 0} (sv : Service W) (accepting : IsAccepting sv)
    (no_dashboards : sv.dashboards ≡ none) where
  abbrev NoError : Answer sv → State W → Type 0
  NoError answer s = answer.1 ≡ none

  reconcile-NoError :
      (name : Text) (status : Status)
      → is_deleting sv status ≡ false
      → Ensures (λ s. HasStatus name status s) (reconcile sv name) NoError (λ e s. ⊥)
  unfolding reconcile
  reconcile-NoError name status alive =
      bind-Ensures (get-Ensures name sv.store accepting.store status) (λ rec.
        given-Ensures (λ is_row. bind-Ensures (passed-Ensures _ _ (rw is_row.1 alive)) (λ d.
          bind-Ensures (logged-Sure _ (audit-Sure name sv.store accepting.store _)).sure (λ d.
            bind-Ensures
              (weaken-Ensures (λ s has. subst (λ n. HasRow n s) (sym is_row.0) has)
                (ensure-Finishes sv accepting rec no_dashboards))
              (λ left. give-Ensures _ (λ s h. h.1))))))

  restored_secrets-Sure :
      (rec : Record) (r : CreateRequest) → Sure (HasRow rec.name) (restored_secrets sv rec r)
  unfolding restored_secrets issue_token
  restored_secrets-Sure rec r = search (sure_rules, outside-Sure rec.name, accepting.random)

  restore_existing-NoError :
      (rec : Record) (r : CreateRequest) (outcome : TenantOutcome)
      → Ensures (HasRow rec.name) (restore_existing sv rec r outcome) NoError (λ e s. ⊥)
  unfolding restore_existing
  restore_existing-NoError rec r outcome = bind-Ensures (restored_secrets-Sure rec r).sure (λ made.
      bind-Ensures (set_secrets-Sure rec.name sv.store accepting.store made.1).sure (λ d.
        bind-Ensures (logged-Sure _ (audit-Sure rec.name sv.store accepting.store _)).sure (λ d.
          bind-Ensures
            (ensure-Finishes sv accepting (record rec { secrets = made.1 }) no_dashboards)
            (λ left. give-Ensures _ (λ s h. h.1)))))

  -- What the restore answers, without an error of either kind.
  abbrev Good : Result Error (Answer sv) → State W → Type 0
  Good (ok answer) s = answer.1 ≡ none
  Good (err e) s = ⊥

  checked-NoError :
      (answer : Result Error (Answer sv))
      → Ensures (Good answer) (checked answer) NoError (λ e s. ⊥)
  unfolding checked
  checked-NoError (ok a) = record { run = λ s h. h }
  checked-NoError (err e) = record { run = λ s h. h }

  -- The key is adopted whatever the restore answered, and the adoption changes nothing of it.
  adopting-NoError :
      (r : CreateRequest) (answer : Result Error (Answer sv))
      → Ensures
          (Good answer)
          (logged (adopt_admission_key sv r.name) >> checked answer)
          NoError
          (λ e s. ⊥)
  adopting-NoError r (ok a) = record {
    run = λ s h.
        (bind-Ensures {middle = λ d s. a.1 ≡ none} (logged_any _ (λ s. h))
            (λ d. checked-NoError (ok a))).run
          s h;
  }
  adopting-NoError r (err e) = record { run = λ s h. absurd h }

  resume_and_adopt-NoError :
      (rec : Record) (r : CreateRequest)
      → Ensures (HasRow rec.name) (resume_and_adopt sv rec r) NoError (λ e s. ⊥)
  resume_and_adopt-NoError rec r =
      bind-Ensures (attempt-Ensures {good = Good} (restore_existing-NoError rec r resumed))
        (adopting-NoError r)

  by_status-NoError :
      (r : CreateRequest) (rec : Record) (status : Status)
      → status ≡ provisioning
      → Ensures (HasRow rec.name) (by_status sv r rec status) NoError (λ e s. ⊥)
  by_status-NoError r rec status h = rw h (resume_and_adopt-NoError rec r)

  -- The row as it was read.
  abbrev RowRead : Text → Result Error Record → State W → Type 0
  RowRead name (ok rec) s = HasRow name s × ((rec.name ≡ name) × (rec.status ≡ provisioning))
  RowRead name (err e) s = ⊥

  by_row-NoError :
      (r : CreateRequest) (row : Result Error Record)
      → Ensures (RowRead r.name row) (by_row sv r row) NoError (λ e s. ⊥)
  by_row-NoError r (ok rec) = record {
    run = λ s (has, (named, status)).
        (by_status-NoError r rec rec.status status).run s (subst (λ n. HasRow n s) (sym named) has);
  }
  by_row-NoError r (err e) = record { run = λ s h. absurd h }

  valid_passes :
      (name : Text)
      → Ensures
          (λ s. HasStatus name provisioning s)
          (checked {A = Done} (ok tt))
          (λ d. HasStatus {W = W} name provisioning)
          (λ (e : Error) s. ⊥)
  unfolding checked
  valid_passes name = record { run = λ s h. h }

  create-NoError :
      (r : CreateRequest)
      → validate_create r ≡ ok tt
      → foreign sv r ≡ false
      → Ensures (λ s. HasStatus r.name provisioning s) (create sv r) NoError (λ e s. ⊥)
  unfolding create
  create-NoError r valid own = rw valid (
      bind-Ensures {middle = λ d. HasStatus r.name provisioning} (valid_passes r.name) (λ d.
        bind-Ensures (passed-Ensures _ _ own) (λ d.
          bind-Ensures
            (attempt-Ensures {good = RowRead r.name}
              (get-Ensures r.name sv.store accepting.store provisioning))
            (by_row-NoError r))))

-- The call reports no error of either kind, and the tenant's row is there, ready.
abbrev pub IsFinished :
    {W : Type 0} {A : Type 0} → Text → Outcome Error (State W) (A × Option Error) → Type 0
IsFinished name o = After (λ answer t. (answer.1 ≡ none) × HasStatus name ready t) (λ e t. ⊥) o

finished :
    {W A : Type 0} (name : Text) (o : Outcome Error (State W) (A × Option Error))
    → After (λ answer t. answer.1 ≡ none) (λ e t. ⊥) o
    → ((a : A) (t : State W) → o ≡ returns (a, none) t → HasStatus name ready t)
    → IsFinished name o
finished name (returns (a, e) t) h k = (h, k a t (ap (λ (x : Option Error). returns (a, x) t) h))
finished name (raises e t) h k = absurd h

-- At a site without dashboards, where the database, the secrets store and every backend that the
-- tenant's steps call accept what they are asked: a reconcile of a tenant that is not being deleted
-- reports no error, and leaves its row ready.
pub reconcile-IsFinished :
    {W : Type 0} (sv : Service W) (name : Text) (status : Status) (s : State W)
    → IsAccepting sv
    → sv.dashboards ≡ none
    → is_deleting sv status ≡ false
    → HasStatus name status s
    → IsFinished name (reconcile sv name s)
reconcile-IsFinished sv name status s accepting no_dashboards alive has =
    finished name _ ((reconcile-NoError sv accepting no_dashboards name status alive).run s has)
      (λ result t h. reconcile-HasStatus sv name s t result h)

-- At such a site, a create of a tenant that an earlier create has left provisioning reports no
-- error, and leaves its row ready, provided that the request passes the checks and brings no token
-- of another tenant.
pub create-IsFinished :
    {W : Type 0} (sv : Service W) (r : CreateRequest) (s : State W)
    → IsAccepting sv
    → sv.dashboards ≡ none
    → validate_create r ≡ ok tt
    → foreign sv r ≡ false
    → HasStatus r.name provisioning s
    → IsFinished r.name (create sv r s)
create-IsFinished sv r s accepting no_dashboards valid own has =
    finished r.name _ ((create-NoError sv accepting no_dashboards r valid own).run s has)
      (λ result t h. create-HasStatus sv r s t result h)
