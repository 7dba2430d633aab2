-- ===== src/Lifecycle/Reach.antt =====
-- The service over time: operations one after the other, with the outside world changing between
-- them as it likes.
use deevnet_provisioning_api.Prelude.{sym, subst, Text, Done}
use deevnet_provisioning_api.Calls.{Outcome, returns, raises, Call, state_of}
use deevnet_provisioning_api.Calls.Laws.{Leaves}
use deevnet_provisioning_api.Registry.{Error, State}
use deevnet_provisioning_api.Registry.Keeps.{numbers}
use deevnet_provisioning_api.Registry.Placing.{Placed, stays_placed}
use deevnet_provisioning_api.Lifecycle.{CreateRequest, Service}
use deevnet_provisioning_api.Lifecycle.Create.{create, reconcile}
use deevnet_provisioning_api.Lifecycle.Delete.{delete}
use deevnet_provisioning_api.Lifecycle.Invariant.{IsNumbered, same_book}
use deevnet_provisioning_api.Lifecycle.Leases.{LeaseRun, rests, run_on, book_of, given_back}
use deevnet_provisioning_api.Lifecycle.Growth.{create-grows, create-IsNumbered, numbers-reconcile}
use deevnet_provisioning_api.Lifecycle.Removal.{Removed, others-IsNumbered, delete-Removed}
use deevnet_provisioning_api.Lifecycle.Tenancy.{create-Placed, reconcile-Placed, delete-Placed}
use deevnet_provisioning_api.Devices.Addresses.{create_device_address, delete_device_address}
use deevnet_provisioning_api.Devices.Registration.{DeviceRequest, create_device, delete_device}
use deevnet_provisioning_api.Devices.Changes.{
  create_device_address-Leaves, delete_device_address-Leaves,
}
use deevnet_provisioning_api.Devices.Changes.Registration.{
  create_device-Leaves, delete_device-Leaves,
}
use deevnet_provisioning_api.Devices.Settled.{settled_change}
use deevnet_provisioning_api.Workloads.{
  WorkloadRequest, create_workload, delete_workload, put_record, delete_record,
}
use deevnet_provisioning_api.Workloads.Placement.{
  create_workload-Settles, delete_workload-Settles, put_record-Settles, delete_record-Settles,
}
use deevnet_provisioning_api.Accounts.{AccountRequest, create_account, delete_account}
use deevnet_provisioning_api.Accounts.Settled.{create_account-Settles, delete_account-Settles}
use deevnet_provisioning_api.Wireless.Issue.{KeyRequest, create_wifi_key, delete_wifi_key}
use deevnet_provisioning_api.Wireless.Admission.{admit, redeem, revoke_admission}
use deevnet_provisioning_api.Wireless.Settled.{
  create_wifi_key-Settles, delete_wifi_key-Settles, admit-Settles, redeem-Settles,
  revoke_admission-Settles,
}

pub data Operation : Type 0 where
  creates : CreateRequest → Operation
  reconciles deletes : Text → Operation
  creates_workload : Text → WorkloadRequest → Operation
  deletes_workload : Text → Text → Operation
  puts_record : Text → Text → Text → Operation
  deletes_record : Text → Text → Operation
  creates_device : Text → DeviceRequest → Operation
  deletes_device : Text → Text → Operation
  creates_address : Text → Text → Text → Operation
  deletes_address : Text → Text → Operation
  creates_account : Text → AccountRequest → Operation
  deletes_account : Text → Text → Operation
  creates_key : Text → KeyRequest → Operation
  deletes_key : Text → Text → Operation
  admits : Text → Text → Operation
  redeems : Text → Text → Operation
  revokes_admission : Text → Operation

module _ {W : Type 0} (sv : Service W) where
  -- The state after an operation, whether it succeeds or fails.
  abbrev pub after : Operation → State W → State W
  after (creates r) s = state_of (create sv r s)
  after (reconciles name) s = state_of (reconcile sv name s)
  after (deletes name) s = state_of (delete sv name s)
  after (creates_workload tenant r) s = state_of (create_workload sv tenant r s)
  after (deletes_workload tenant name) s = state_of (delete_workload sv tenant name s)
  after (puts_record tenant name address) s = state_of (put_record sv tenant name address s)
  after (deletes_record tenant name) s = state_of (delete_record sv tenant name s)
  after (creates_device tenant r) s = state_of (create_device sv tenant r s)
  after (deletes_device tenant name) s = state_of (delete_device sv tenant name s)
  after (creates_address tenant device wanted) s =
      state_of (create_device_address sv tenant device wanted s)
  after (deletes_address tenant device) s = state_of (delete_device_address sv tenant device s)
  after (creates_account tenant r) s = state_of (create_account sv tenant r s)
  after (deletes_account tenant name) s = state_of (delete_account sv tenant name s)
  after (creates_key tenant r) s = state_of (create_wifi_key sv tenant r s)
  after (deletes_key tenant name) s = state_of (delete_wifi_key sv tenant name s)
  after (admits name mac) s = state_of (admit sv name mac s)
  after (redeems token name) s = state_of (redeem sv token name s)
  after (revokes_admission name) s = state_of (revoke_admission sv name s)

  pub data Reaches (start : State W) : State W → Type 0 where
    here : Reaches start start
    drifts : {s : State W} (w : W) → Reaches start s → Reaches start (record s { world = w })
    does : {s : State W} (op : Operation) → Reaches start s → Reaches start (after op s)

  Removed-IsNumbered :
      (name : Text) (s : State W) (o : Outcome Error (State W) Done)
      → Removed name s o
      → IsNumbered (numbers s)
      → IsNumbered (numbers (state_of o))
  Removed-IsNumbered name s (returns d t) e i =
      subst IsNumbered (sym e.0) (others-IsNumbered name (numbers s) i)
  Removed-IsNumbered name s (raises f t) e i = subst IsNumbered (sym e.0) i

  Removed-LeaseRun :
      (name : Text) (s : State W) (o : Outcome Error (State W) Done)
      → Removed name s o
      → LeaseRun (book_of (numbers s)) (book_of (numbers (state_of o)))
  Removed-LeaseRun name s (returns d t) e =
      subst (λ l. LeaseRun (book_of (numbers s)) (book_of l)) (sym e.0)
        (given_back (numbers s) name)
  Removed-LeaseRun name s (raises f t) e = same_book e.0

  -- What an operation keeps, the numbering of the tenants and the places of the workloads, and what
  -- it does to the book of indexes.
  abbrev Kept : State W → State W → Type 0
  Kept s t =
      (IsNumbered (numbers s) → IsNumbered (numbers t))
      × (Placed sv.store s → Placed sv.store t)
      × LeaseRun (book_of (numbers s)) (book_of (numbers t))

  settled :
      {A : Type 0} (call : Call Error (State W) A) (s : State W)
      → Leaves (stays_placed sv.store) call
      → Kept s (state_of (call s))
  settled call s h =
      ((λ i. subst IsNumbered (sym (h.after s).0) i), (h.after s).1, same_book (h.after s).0)

  after-Kept : (op : Operation) (s : State W) → Kept s (after op s)
  after-Kept (creates r) s =
      ((λ i. (create-IsNumbered sv r s i).0), create-Placed sv r s, ((create-grows sv r).after s).3)
  after-Kept (reconciles name) s = (
    (λ i. subst IsNumbered (sym (numbers-reconcile sv name s)) i),
    reconcile-Placed sv name s,
    same_book (numbers-reconcile sv name s),
  )
  after-Kept (deletes name) s = (
    Removed-IsNumbered name s (delete sv name s) (delete-Removed sv name s),
    delete-Placed sv name s,
    Removed-LeaseRun name s (delete sv name s) (delete-Removed sv name s),
  )
  after-Kept (creates_workload tenant r) s = settled _ s (create_workload-Settles sv tenant r)
  after-Kept (deletes_workload tenant name) s = settled _ s (delete_workload-Settles sv tenant name)
  after-Kept (puts_record tenant name address) s =
      settled _ s (put_record-Settles sv tenant name address)
  after-Kept (deletes_record tenant name) s = settled _ s (delete_record-Settles sv tenant name)
  after-Kept (creates_device tenant r) s =
      settled _ s (create_device-Leaves sv _ (settled_change sv) tenant r)
  after-Kept (deletes_device tenant name) s =
      settled _ s (delete_device-Leaves sv _ (settled_change sv) tenant name)
  after-Kept (creates_address tenant device wanted) s =
      settled _ s (create_device_address-Leaves sv _ (settled_change sv) tenant device wanted)
  after-Kept (deletes_address tenant device) s =
      settled _ s (delete_device_address-Leaves sv _ (settled_change sv) tenant device)
  after-Kept (creates_account tenant r) s = settled _ s (create_account-Settles sv tenant r)
  after-Kept (deletes_account tenant name) s = settled _ s (delete_account-Settles sv tenant name)
  after-Kept (creates_key tenant r) s = settled _ s (create_wifi_key-Settles sv tenant r)
  after-Kept (deletes_key tenant name) s = settled _ s (delete_wifi_key-Settles sv tenant name)
  after-Kept (admits name mac) s = settled _ s (admit-Settles sv name mac)
  after-Kept (redeems token name) s = settled _ s (redeem-Settles sv token name)
  after-Kept (revokes_admission name) s = settled _ s (revoke_admission-Settles sv name)

  -- Whatever operations on tenants, workloads, records, devices, addresses, accounts and keys run,
  -- whichever of them fail and however the backends, the secrets store and the database behave, a
  -- registry that starts well numbered stays so: no two tenants share a name or an index, and every
  -- index is from 1 to 63.
  pub Reaches-IsNumbered :
      (start s : State W) → IsNumbered (numbers start) → Reaches start s → IsNumbered (numbers s)
  Reaches-IsNumbered start s i here = i
  Reaches-IsNumbered start s i (drifts {s = before} w path) = Reaches-IsNumbered start before i path
  Reaches-IsNumbered start s i (does {s = before} op path) =
      (after-Kept op before).0 (Reaches-IsNumbered start before i path)

  pub Reaches-Placed :
      (start s : State W) → Placed sv.store start → Reaches start s → Placed sv.store s
  Reaches-Placed start s h here = h
  Reaches-Placed start s h (drifts {s = before} w path) =
      let placed = Reaches-Placed start before h path in
      record { each = placed.each; own_ordinals = placed.own_ordinals }
  Reaches-Placed start s h (does {s = before} op path) =
      (after-Kept op before).1 (Reaches-Placed start before h path)

  -- Whatever operations on tenants, workloads, records, devices, addresses, accounts and keys run,
  -- whichever of them fail and however the outside behaves, what becomes of the tenants' indexes is
  -- a run of the book of indexes: from the book that the first registry's rows stand for to that of
  -- the last, whatever the rows' order, each step gives a name that holds none an index from 1 to
  -- 62 that nobody holds, or gives back what a name holds.
  pub Reaches-LeaseRun :
      (start s : State W)
      → Reaches start s
      → LeaseRun (book_of (numbers start)) (book_of (numbers s))
  Reaches-LeaseRun start s here = rests
  Reaches-LeaseRun start s (drifts {s = before} w path) = Reaches-LeaseRun start before path
  Reaches-LeaseRun start s (does {s = before} op path) =
      run_on (Reaches-LeaseRun start before path) (after-Kept op before).2
