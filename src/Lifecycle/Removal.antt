-- ===== src/Lifecycle/Removal.antt =====
-- The registry under Delete.
use deevnet_provisioning_api.Prelude.{
  cons_mem, ℕ, ◌≡◌, refl, ap, ◌∙◌, Option, none, some, List, [], ◌∷◌, Text, text_eq, Result, ok,
  err, Done, inl, inr, All, All-append, Bool-cases,
}
use mathlib.Core.List.{Memᴰ}
use deevnet_provisioning_api.Alloc.Address.{DeviceAddress, deleting}
use deevnet_provisioning_api.Site.{TrustClass}
use deevnet_provisioning_api.Calls.{
  Outcome, returns, raises, Call, state_of, fail_with, modify, next, ◌>>=◌,
}
use deevnet_provisioning_api.Calls.Laws.{for_each-Leaves, attempt-Leaves, call_rules}
use deevnet_provisioning_api.Registry.{Error, Record, Workload, WifiKey, BrokerAccount, State}
use deevnet_provisioning_api.Registry.Tenants.{without, held_indexes, remove_row, delete_tenant}
use deevnet_provisioning_api.Registry.Parts.{
  list_wifi_keys, list_broker_accounts, list_device_addresses,
}
use deevnet_provisioning_api.Registry.Keeps.{
  numbers, same_numbers, Keeps, outside-Keeps, found-Keeps, get-Keeps, set_status-Keeps,
  record_step-Keeps, list_workloads-Keeps, list_wifi_keys-Keeps, list_broker_accounts-Keeps,
  list_device_addresses-Keeps,
}
use deevnet_provisioning_api.Lifecycle.{Service, Network, Wireless, BrokerWriter, Reservations}
use deevnet_provisioning_api.Lifecycle.Steps.{Run}
use deevnet_provisioning_api.Lifecycle.Keeps.{audited-Keeps, for_backend-Keeps}
use deevnet_provisioning_api.Lifecycle.Create.{get_tenant}
use deevnet_provisioning_api.Lifecycle.Growth.{step_error-Keeps}
use deevnet_provisioning_api.Lifecycle.Invariant.{IsNumbered}
use deevnet_provisioning_api.Lifecycle.Delete.{
  remove_account_with, remove_key_with, remove_key_from_controller, remove_reservation_with,
  remove_reservation, remove_network_with, remove_network, delete_steps, after_removal, run_removal,
  delete,
}

-- The numbers without those of a name.
abbrev pub others : Text → List (ℕ × Text) → List (ℕ × Text)
others name = without (λ (p : ℕ × Text). p.1) name

held_indexes-without :
    (name : Text) (rows : List Record)
    → held_indexes (without (λ (r : Record). r.name) name rows) ≡ others name (held_indexes rows)
unfolding held_indexes without
held_indexes-without name [] = refl
held_indexes-without name (r ∷ rows) = elim (Bool-cases (text_eq r.name name)) [
  | inl e ↦ rw e (held_indexes-without name rows)
  | inr e ↦ rw e (ap (λ l. (r.index, r.name) ∷ l) (held_indexes-without name rows))
]

others-mem :
    (name : Text) (held : List (ℕ × Text)) (p : ℕ × Text) → Memᴰ p (others name held) → Memᴰ p held
unfolding without
others-mem name [] p m = m
others-mem name (q ∷ held) p m = elim (Bool-cases (text_eq q.1 name)) [
  | inl e ↦ Memᴰ.tail (others-mem name held p (rw e at m))
  | inr e ↦ cons_mem p q (others name held) held (others-mem name held p) (rw e at m)
]

pub others-IsNumbered :
    (name : Text) (held : List (ℕ × Text)) → IsNumbered held → IsNumbered (others name held)
unfolding without
others-IsNumbered name [] i = tt
others-IsNumbered name ((n, other) ∷ held) (lo, hi, no_index, no_name, rest) =
    elim (Bool-cases (text_eq other name)) [
      | inl e ↦ rw e (others-IsNumbered name held rest)
      | inr e ↦ rw e (
        lo,
        hi,
        (λ holder m. no_index holder (others-mem name held (n, holder) m)),
        (λ k m. no_name k (others-mem name held (k, other) m)),
        others-IsNumbered name held rest,
      )
    ]

module _ {W : Type 0} where
  -- What a deletion leaves: without an error every number and every workload but the tenant's, with
  -- one all of them.
  abbrev pub Removed : Text → State W → Outcome Error (State W) Done → Type 0
  Removed name s (returns d t) =
      (numbers t ≡ others name (numbers s))
      × (t.registry.workloads ≡ without (λ (w : Workload). w.tenant) name s.registry.workloads)
  Removed name s (raises e t) =
      (numbers t ≡ numbers s) × (t.registry.workloads ≡ s.registry.workloads)

  record Removes (name : Text) (call : Call Error (State W) Done) : Type 0 where
    pub result : (s : State W) → Removed name s (call s)

  fail_with-Removes : (name : Text) (e : Error) → Removes name (fail_with e)
  unfolding fail_with
  fail_with-Removes name e = record { result = λ s. (refl, refl) }

  moved :
      (name : Text) (s t : State W) (o : Outcome Error (State W) Done)
      → same_numbers.relates s t
      → Removed name t o
      → Removed name s o
  moved name s t (returns d u) e h =
      (h.0 ∙ ap (others name) e.0, h.1 ∙ ap (λ l. without (λ (w : Workload). w.tenant) name l) e.1)
  moved name s t (raises f u) e h = (h.0 ∙ e.0, h.1 ∙ e.1)

  after-Removed :
      {A : Type 0} (name : Text) (s : State W) (o : Outcome Error (State W) A)
      (k : A → Call Error (State W) Done)
      → same_numbers.relates s (state_of o)
      → ((a : A) → Removes name (k a))
      → Removed name s (next k o)
  after-Removed name s (returns a t) k e h = moved name s t (k a t) e ((h a).result t)
  after-Removed name s (raises f t) k e h = e

  bind-Removes :
      {A : Type 0} (name : Text) (call : Call Error (State W) A) (k : A → Call Error (State W) Done)
      → Keeps call
      → ((a : A) → Removes name (k a))
      → Removes name (call >>= k)
  unfolding ◌>>=◌
  bind-Removes name call k kept rest = record {
    result = λ s. after-Removed name s (call s) k (kept.after s) rest;
  }

module _ {W : Type 0} (sv : Service W) where
  remove_row-Removes : (name : Text) → Removes name (remove_row sv.store name)
  unfolding remove_row modify
  remove_row-Removes name = record {
    result = λ s. (held_indexes-without name s.registry.tenants, refl);
  }

  delete_tenant-Removes : (name : Text) → Removes name (delete_tenant sv.store name)
  unfolding delete_tenant
  delete_tenant-Removes name = bind-Removes name _ _ (outside-Keeps sv.store.query) (λ d.
      bind-Removes name _ _ (search call_rules)
        (λ row. bind-Removes name _ _ (found-Keeps sv.store row) (λ r. remove_row-Removes name)))

  after_removal-Removes :
      (name at : Text) (answer : Result Error Done) (rest : Call Error (State W) Done)
      → Removes name rest
      → Removes name (after_removal sv name at answer rest)
  after_removal-Removes name at (ok done) rest h = h
  after_removal-Removes name at (err e) rest h =
      bind-Removes name _ _ (search (call_rules, record_step-Keeps)) (λ d. fail_with-Removes name _)

  run_removal-Removes :
      (name : Text) (steps : List (Run sv))
      → All (λ (step : Run sv). Keeps step.1) steps
      → Removes name (run_removal sv name steps)
  unfolding run_removal
  run_removal-Removes name [] h = delete_tenant-Removes name
  run_removal-Removes name ((at, run) ∷ steps) h =
      bind-Removes name _ _ (attempt-Leaves _ h.0)
        (λ answer. after_removal-Removes name at answer _ (run_removal-Removes name steps h.1))

  remove_account_with-Keeps :
      (writer : Option (BrokerWriter W)) (tenant name : Text)
      → Keeps (remove_account_with sv writer tenant name)
  remove_account_with-Keeps none tenant name = search call_rules
  remove_account_with-Keeps (some writer) tenant name = search outside-Keeps

  remove_key_with-Keeps :
      (wireless : Option (Wireless W)) (tc : Option TrustClass) (k : WifiKey)
      → Keeps (remove_key_with sv wireless tc k)
  remove_key_with-Keeps none tc k = search call_rules
  remove_key_with-Keeps (some wireless) none k = search call_rules
  remove_key_with-Keeps (some wireless) (some tc) k = search outside-Keeps

  remove_reservation_with-Keeps :
      (b : Option (Reservations W)) (a : DeviceAddress) → Keeps (remove_reservation_with sv b a)
  remove_reservation_with-Keeps none a = search call_rules
  remove_reservation_with-Keeps (some b) a = search outside-Keeps

  remove_network_with-Keeps :
      (n : Option (Network W)) (rec : Record) → Keeps (remove_network_with sv n rec)
  remove_network_with-Keeps none rec = search call_rules
  remove_network_with-Keeps (some n) rec = search outside-Keeps

  delete_steps-Keeps :
      (rec : Record) (accounts : List BrokerAccount) (keys : List WifiKey)
      (addresses : List DeviceAddress)
      → All (λ (step : Run sv). Keeps step.1) (delete_steps sv rec accounts keys addresses)
  unfolding delete_steps remove_key_from_controller remove_reservation remove_network
  delete_steps-Keeps rec accounts keys addresses =
      All-append _ _ _ (for_backend-Keeps sv sv.dashboards _ (λ b. outside-Keeps _)) (
        All-append _ _ _ (for_backend-Keeps sv sv.log_writer _ (λ b. outside-Keeps _)) (
          for_each-Leaves accounts _
              (λ a. remove_account_with-Keeps sv.broker_writer rec.name a.name),
          (
            for_each-Leaves keys _ (λ k. remove_key_with-Keeps sv.wireless _ k),
            (
              for_each-Leaves addresses _ (λ a. remove_reservation_with-Keeps sv.reservations a),
              (
                remove_network_with-Keeps sv.network rec,
                (outside-Keeps _, (outside-Keeps _, (outside-Keeps _, tt))),
              ),
            ),
          ),
        ))

  get_tenant-Keeps : (name : Text) → Keeps (get_tenant sv name)
  unfolding get_tenant
  get_tenant-Keeps name = search (call_rules, get-Keeps)

  delete-Removes : (name : Text) → Removes name (delete sv name)
  unfolding delete
  delete-Removes name = bind-Removes name _ _ (get_tenant-Keeps name) (λ rec.
      bind-Removes name _ _ (list_workloads-Keeps sv.store name) (λ workloads.
        bind-Removes name _ _ (search call_rules) (λ d.
          bind-Removes name _ _ (attempt-Leaves _ (outside-Keeps sv.claims)) (λ read.
            bind-Removes name _ _ (step_error-Keeps sv _ read) (λ claims.
              bind-Removes name _ _ (search call_rules) (λ d2.
                bind-Removes name _ _ (set_status-Keeps sv.store name deleting) (λ d3.
                  bind-Removes name _ _ (audited-Keeps sv _ name)
                    (λ d4. listed-Removes name rec))))))))
    where
      listed-Removes :
          (name : Text) (rec : Record)
          → Removes name (do
            keys ← list_wifi_keys sv.store name
            accounts ← list_broker_accounts sv.store name
            addresses ← list_device_addresses sv.store name
            run_removal sv name (delete_steps sv rec accounts keys addresses))
      listed-Removes name rec = bind-Removes name _ _ (list_wifi_keys-Keeps sv.store name) (λ keys.
          bind-Removes name _ _ (list_broker_accounts-Keeps sv.store name) (λ accounts.
            bind-Removes name _ _ (list_device_addresses-Keeps sv.store name) (λ addresses.
              run_removal-Removes name _ (delete_steps-Keeps rec accounts keys addresses))))

  -- A delete that reports no error has removed the tenant's row with the rows of its workloads and
  -- no other tenant's; one that reports an error, at whichever step, has removed none.
  pub delete-Removed : (name : Text) (s : State W) → Removed name s (delete sv name s)
  delete-Removed name s = (delete-Removes name).result s
