-- ===== src/Registry/Reads.antt =====
-- Which calls of the store write nothing at all.
use deevnet_provisioning_api.Prelude.{◌≡◌, refl, ◌∙◌, Option, none, some, Text, Result, ok, err}
use deevnet_provisioning_api.Calls.{Outcome, returns, raises, Call, state_of}
use deevnet_provisioning_api.Calls.Laws.{Change, Leaves, call_rules}
use deevnet_provisioning_api.Registry.{Error, Secrets, Record, State, Sealer, Store, outside, keep}
use deevnet_provisioning_api.Registry.Sealing.{
  seal_with, opened_one, open_one, open_with, seal_secrets, open_secrets, is_unavailable,
}
use deevnet_provisioning_api.Registry.Tenants.{found, get}

-- The registry stays as it is.
abbrev pub same_registry : {W : Type 0} → Change (State W)
same_registry = record {
  relates = λ s t. t.registry ≡ s.registry;
  reflexive = λ s. refl;
  transitive = λ s t u e f. f ∙ e;
}

-- Calls that write nothing to the registry.
module _ {W : Type 0} where
  abbrev pub Reads : {A : Type 0} → Call Error (State W) A → Type 0
  Reads call = Leaves same_registry call

  keep_lem :
      {A : Type 0} (s : State W) (o : Outcome Error W A)
      → same_registry.relates s (state_of (keep s.registry o))
  keep_lem s (returns a w) = refl
  keep_lem s (raises e w) = refl

  pub outside-Reads : {A : Type 0} (call : Call Error W A) → Reads (outside call)
  unfolding outside
  outside-Reads call = record { after = λ s. keep_lem s (call s.world) }

  pub opened_one-Reads : (r : Result Error Text) → Reads (opened_one r)
  unfolding is_unavailable
  opened_one-Reads (ok plain) = search call_rules
  opened_one-Reads (err e) = search call_rules

  pub open_one-Reads : (sealer : Sealer W) (stored : Text) → Reads (open_one sealer stored)
  unfolding open_one
  open_one-Reads sealer stored = search (call_rules, outside-Reads, opened_one-Reads)

  seal_with-Reads : (sealer : Option (Sealer W)) (x : Secrets) → Reads (seal_with sealer x)
  seal_with-Reads none x = search call_rules
  seal_with-Reads (some sealer) x = search (call_rules, outside-Reads) depth 12

  open_with-Reads : (sealer : Option (Sealer W)) (x : Secrets) → Reads (open_with sealer x)
  open_with-Reads none x = search call_rules
  open_with-Reads (some sealer) x = search (call_rules, open_one-Reads) depth 12

  pub seal_secrets-Reads : (p : Store W) (x : Secrets) → Reads (seal_secrets p x)
  unfolding seal_secrets
  seal_secrets-Reads p x = seal_with-Reads p.sealer x

  open_secrets-Reads : (p : Store W) (x : Secrets) → Reads (open_secrets p x)
  unfolding open_secrets
  open_secrets-Reads p x = open_with-Reads p.sealer x

  pub found-Reads : (p : Store W) (row : Option Record) → Reads (found p row)
  found-Reads p none = search call_rules
  found-Reads p (some r) = search call_rules

  pub get-Reads : (p : Store W) (name : Text) → Reads (get p name)
  unfolding get
  get-Reads p name = search (call_rules, outside-Reads, found-Reads, open_secrets-Reads) depth 12
