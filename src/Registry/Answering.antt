-- ===== src/Registry/Answering.antt =====
-- The calls of internal/store/store.go on a tenant that has a row, where the database and the
-- secrets store answer: none of them fails.
use deevnet_provisioning_api.Prelude.{
  ◌≡◌, refl, sym, subst, Option, none, some, Text, Result, ok, err,
}
use deevnet_provisioning_api.Alloc.Address.{Status}
use deevnet_provisioning_api.Calls.{Outcome, returns, raises, Call}
use deevnet_provisioning_api.Calls.Outcomes.{
  After, Ensures, given-Ensures, give-Ensures, fail_with-Ensures, gets-Ensures, bind-Ensures,
  modify-Ensures,
}
use deevnet_provisioning_api.Calls.Certain.{
  Sure, IsOk, sure_rules, attempt-IsOk, bind-Sure, give-Sure,
}
use deevnet_provisioning_api.Registry.{
  Error, Secrets, Record, AuditEntry, State, Sealer, Store, outside, keep,
}
use deevnet_provisioning_api.Registry.Sealing.{
  seal_with, opened_one, open_one, open_with, seal_secrets, open_secrets,
}
use deevnet_provisioning_api.Registry.Tenants.{
  find_row, found, get, write_row, exec_one, set_status, set_secrets, record_step, audit,
  write_audit,
}
use deevnet_provisioning_api.Registry.Parts.{list_device_addresses}
use deevnet_provisioning_api.Lifecycle.Readiness.{HasStatus, find_row-update_rows}
use deevnet_provisioning_api.Lifecycle.Ready.{find_row-name}

-- A call that never fails.
pub record Answers {W A : Type 0} (call : Call Error W A) : Type 0 where
  pub answer : (w : W) → (a : A) × (u : W) × (call w ≡ returns a u)

pub record IsAnswering {W : Type 0} (p : Store W) : Type 0 where
  pub query : Answers p.query
  pub seals :
      (sealer : Sealer W) → p.sealer ≡ some sealer → (text : Text) → Answers (sealer.seal text)
  pub opens :
      (sealer : Sealer W)
      → p.sealer ≡ some sealer
      → (text : Text) → Answers (sealer.open_sealed text)

-- The tenant has a row.
pub record HasRow {W : Type 0} (name : Text) (s : State W) : Type 0 where
  pub row : Record
  pub there : find_row name s.registry.tenants ≡ some row

module _ {W : Type 0} (name : Text) where
  kept_row :
      {A : Type 0} (s : State W) (o : Outcome Error W A)
      → ((a : A) × (u : W) × (o ≡ returns a u))
      → HasRow name s
      → After (λ (a : A). HasRow name) (λ (e : Error) (t : State W). ⊥) (keep s.registry o)
  kept_row s (returns a u) h has = record { row = has.row; there = has.there }
  kept_row s (raises e u) (a, v, h) has = absurd (cc)

  pub outside-Sure :
      {A : Type 0} (call : Call Error W A) → Answers call → Sure (HasRow name) (outside call)
  unfolding outside
  outside-Sure call h = record {
    sure = record { run = λ s has. kept_row s (call s.world) (h.answer s.world) has };
  }

  kept_status_lem :
      {A : Type 0} (status : Status) (s : State W) (o : Outcome Error W A)
      → ((a : A) × (u : W) × (o ≡ returns a u))
      → HasStatus name status s
      → After
          (λ (a : A). HasStatus name status)
          (λ (e : Error) (t : State W). ⊥)
          (keep s.registry o)
  kept_status_lem status s (returns a u) h has = has
  kept_status_lem status s (raises e u) (a, v, h) has = absurd (cc)

  kept_status :
      {A : Type 0} (status : Status) (call : Call Error W A)
      → Answers call
      → Ensures
          (λ s. HasStatus name status s)
          (outside call)
          (λ a s. HasStatus name status s)
          (λ e s. ⊥)
  unfolding outside
  kept_status status call h = record {
    run = λ s has. kept_status_lem status s (call s.world) (h.answer s.world) has;
  }

  module _ (p : Store W) (answering : IsAnswering p) where
    found_there :
        (row : Option Record)
        → Ensures
            (λ (s : State W). HasRow name s × ((r : Record) × (row ≡ some r)))
            (found p row)
            (λ r. HasRow name)
            (λ e s. ⊥)
    found_there none = fail_with-Ensures _ (λ s h. let e = h.1.1 in absurd (cc))
    found_there (some r) = give-Ensures r (λ s h. h.0)

    exec_one-Sure :
        (f : Record → Record)
        → ((r : Record) → (f r).name ≡ r.name)
        → Sure (HasRow name) (exec_one p name f)
    unfolding exec_one write_row
    exec_one-Sure f stays = record {
      sure = bind-Ensures (outside-Sure p.query answering.query).sure (λ d.
          bind-Ensures {middle = λ row s. HasRow name s × ((r : Record) × (row ≡ some r))}
            (gets-Ensures _ (λ s h. (h, (h.row, h.there))))
            (λ row. bind-Ensures (found_there row) (λ r. modify-Ensures _ (λ s h. record {
              row = f h.row;
              there = find_row-update_rows name f s.registry.tenants h.row stays h.there;
            }))));
    }

    pub set_status-Sure : (status : Status) → Sure (HasRow name) (set_status p name status)
    unfolding set_status
    set_status-Sure status = exec_one-Sure _ (λ r. refl)

    pub record_step-Sure :
        (step : Text) (e : Option Error) → Sure (HasRow name) (record_step p name step e)
    unfolding record_step
    record_step-Sure step e = exec_one-Sure _ (λ r. refl)

    write_audit-Sure : (entry : AuditEntry) → Sure (HasRow name) (write_audit p entry)
    unfolding write_audit
    write_audit-Sure entry = record {
      sure = modify-Ensures _ (λ s h. record { row = h.row; there = h.there });
    }

    pub audit-Sure : (entry : AuditEntry) → Sure (HasRow name) (audit p entry)
    unfolding audit
    audit-Sure entry = bind-Sure _ _ (outside-Sure _ answering.query) (λ d. write_audit-Sure entry)

    seal_with-Sure :
        (sealer : Option (Sealer W)) (x : Secrets)
        → ((y : Sealer W) → sealer ≡ some y → (text : Text) → Answers (y.seal text))
        → Sure (HasRow name) (seal_with sealer x)
    seal_with-Sure none x h = give-Sure x
    seal_with-Sure (some y) x h =
        let answers : (text : Text) → Answers (y.seal text) = h y refl in
        search (sure_rules, outside-Sure, answers) depth 14

    pub set_secrets-Sure : (x : Secrets) → Sure (HasRow name) (set_secrets p name x)
    unfolding set_secrets seal_secrets
    set_secrets-Sure x =
        bind-Sure _ _ (seal_with-Sure p.sealer x answering.seals)
          (λ sealed. exec_one-Sure _ (λ r. refl))

    pub list_device_addresses-Sure : Sure (HasRow name) (list_device_addresses p name)
    unfolding list_device_addresses
    list_device_addresses-Sure = search (sure_rules, outside-Sure, answering.query)

    opened_one-Sure :
        (answer : Result Error Text)
        → Ensures
            (λ (s : State W). HasRow name s × IsOk answer)
            (opened_one answer)
            (λ a. HasRow name)
            (λ e s. ⊥)
    opened_one-Sure (ok plain) = give-Ensures _ (λ s h. h.0)
    opened_one-Sure (err e) = record { run = λ s h. absurd h.1 }

    open_one-Sure :
        (sealer : Sealer W) (stored : Text)
        → Answers (sealer.open_sealed stored)
        → Sure (HasRow name) (open_one sealer stored)
    unfolding open_one
    open_one-Sure sealer stored h = record {
      sure = bind-Ensures (attempt-IsOk (outside-Sure _ h)) (λ answer. opened_one-Sure answer);
    }

    open_with-Sure :
        (sealer : Option (Sealer W)) (x : Secrets)
        → ((y : Sealer W) → sealer ≡ some y → (text : Text) → Answers (y.open_sealed text))
        → Sure (HasRow name) (open_with sealer x)
    open_with-Sure none x h = give-Sure x
    open_with-Sure (some y) x h =
        let opens : (text : Text) → Answers (y.open_sealed text) = h y refl in
        search (sure_rules, open_one-Sure, opens) depth 14

    open_secrets-Sure : (x : Secrets) → Sure (HasRow name) (open_secrets p x)
    unfolding open_secrets
    open_secrets-Sure x = open_with-Sure p.sealer x answering.opens

    -- The row that is read, with its secrets opened.
    abbrev pub IsRowOf : Status → Record → Type 0
    IsRowOf status r = (r.name ≡ name) × (r.status ≡ status)

    row_is :
        (status : Status) (r : Record)
        → ((x : Record) × (some r ≡ some x) × IsRowOf status x)
        → IsRowOf status r
    row_is status r (x, e, same) =
        let e' : r ≡ x = cc in subst (λ y. IsRowOf status y) (sym e') same

    found_row :
        (status : Status) (row : Option Record)
        → Ensures
            (λ (s : State W). HasRow name s × ((r : Record) × (row ≡ some r) × IsRowOf status r))
            (found p row)
            (λ r s. HasRow name s × IsRowOf status r)
            (λ e s. ⊥)
    found_row status none = fail_with-Ensures _ (λ s h. let e = h.1.1 in absurd (cc))
    found_row status (some r) = give-Ensures r (λ s h. (h.0, row_is status r h.1))

    pub get-Ensures :
        (status : Status)
        → Ensures
            (λ s. HasStatus name status s)
            (get p name)
            (λ r s. HasRow name s × IsRowOf status r)
            (λ e s. ⊥)
    unfolding get
    get-Ensures status =
        bind-Ensures {middle = λ d. HasStatus name status} (kept_status status _ answering.query)
          (λ d.
            bind-Ensures
              {middle = λ row s. HasRow name s × ((r : Record) × (row ≡ some r) × IsRowOf status r)}
              (gets-Ensures _ (λ s (row, there, same). (
                record { row = row; there = there },
                (row, there, (find_row-name name _ row there, same)),
              )))
              (λ row. bind-Ensures (found_row status row) (λ r. given-Ensures (λ is_row.
                bind-Ensures (open_secrets-Sure r.secrets).sure
                  (λ secrets. give-Ensures _ (λ s has. (has, is_row)))))))

    pub get-Sure : Sure (HasRow name) (get p name)
    unfolding get
    get-Sure = record {
      sure = bind-Ensures (outside-Sure p.query answering.query).sure (λ d.
          bind-Ensures {middle = λ row s. HasRow name s × ((r : Record) × (row ≡ some r))}
            (gets-Ensures _ (λ s h. (h, (h.row, h.there))))
            (λ row.
              bind-Ensures (found_there row) (λ r.
                (bind-Sure _ _ (open_secrets-Sure r.secrets) (λ secrets. give-Sure _)).sure)));
    }
