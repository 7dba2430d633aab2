-- ===== src/Lifecycle/Retries.antt =====
-- Tenants that a later call finishes, and their list, at a concrete service.
use deevnet_provisioning_api.Prelude.{
  ℕ, suc, ◌≡◌, refl, subst, [], ◌∷◌, false, some, codes, text_eq, ok,
}
use deevnet_provisioning_api.Alloc.Address.{provisioning, ready}
use deevnet_provisioning_api.Calls.{returns, give, gets, ◌>>=◌}
use deevnet_provisioning_api.Names.{is_lower, is_name_byte, valid_name, reserved}
use deevnet_provisioning_api.Registry.Tenants.{find_row, list_tenants}
use deevnet_provisioning_api.Registry.{State, outside}
use deevnet_provisioning_api.Registry.Answering.{Answers}
use deevnet_provisioning_api.Lifecycle.{LogTenant, LogWriter}
use deevnet_provisioning_api.Lifecycle.Validate.{validate_create, supplies_secrets}
use deevnet_provisioning_api.Lifecycle.Create.{foreign, create, reconcile}
use deevnet_provisioning_api.Lifecycle.Readiness.{HasStatus}
use deevnet_provisioning_api.Lifecycle.Listing.{
  insert_by, sort_by, ready_vrfs, list_by_index, egress,
}
use deevnet_provisioning_api.Lifecycle.Finishing.{IsAccepting}
use deevnet_provisioning_api.Lifecycle.Finished.{
  IsFinished, reconcile-IsFinished, create-IsFinished,
}
use deevnet_provisioning_api.Lifecycle.Sample.{accepts, service, request, row, one_row}

accepted : Answers accepts
accepted = record { answer = λ w. (tt, suc w, refl) }

abbrev writer : LogWriter ℕ
writer = record { put_users = λ t. accepts; remove_users = λ name index. accepts }

writes_users :
    (b : LogWriter ℕ) → service.log_writer ≡ some b → (t : LogTenant) → Answers (b.put_users t)
writes_users b h t =
    let e : some writer ≡ some b = h in
    let same : writer ≡ b = cc in subst (λ (x : LogWriter ℕ). Answers (x.put_users t)) same accepted

service_accepts : IsAccepting service
service_accepts = record {
  store = record {
    query = accepted;
    seals = λ sealer h text. absurd (cc);
    opens = λ sealer h text. absurd (cc);
  };
  random = record { answer = λ w. ((λ i. i), suc w, refl) };
  zones = λ t. accepted;
  records = λ zone reverse l. accepted;
  forwards = λ l. accepted;
  state = λ t. accepted;
  network = λ b h n. absurd (cc);
  reservations = λ b h r. absurd (cc);
  log_writer = writes_users;
}

begun : HasStatus (codes "eds") provisioning one_row
unfolding find_row text_eq
begun = (row, refl, refl)

valid_request : validate_create request ≡ ok tt
unfolding validate_create valid_name reserved is_lower is_name_byte supplies_secrets text_eq
valid_request = refl

own_request : foreign service request ≡ false
unfolding foreign
own_request = refl

reconcile-IsFinished_example : IsFinished (codes "eds") (reconcile service (codes "eds") one_row)
reconcile-IsFinished_example =
    reconcile-IsFinished service (codes "eds") provisioning one_row service_accepts refl refl begun

create-IsFinished_example : IsFinished (codes "eds") (create service request one_row)
create-IsFinished_example =
    create-IsFinished service request one_row service_accepts refl valid_request own_request begun

-- Egress lists the ready tenants by their indexes.
listed :
    (t : State ℕ) × (egress service (record one_row {
      registry = record one_row.registry {
        tenants =
            record row { status = ready; index = 9 }
            ∷ row
            ∷ record row { name = codes "web"; status = ready; index = 3 }
            ∷ [];
      };
    })
      ≡ returns
          (record { tenant = codes "web"; vrf = codes "vrf_web" }
            ∷ record { tenant = codes "eds"; vrf = codes "vrf_eds" }
            ∷ [])
          t)
unfolding give gets ◌>>=◌ outside list_tenants insert_by sort_by ready_vrfs list_by_index egress
listed = (_, refl)
