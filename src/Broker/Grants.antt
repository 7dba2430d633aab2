-- ===== src/Broker/Grants.antt =====
-- The patterns of an account on their way from a tenant's request to the writer:
-- CreateBrokerAccount of internal/tenant/brokeraccounts.go, and the request that
-- internal/backend/brokerwriter makes.
use deevnet_provisioning_api.Prelude.{
  ◌≡◌, ◌↔◌, refl, ap, true, List, [], ◌∷◌, ◌++◌, Text, codes, text_eq, Result, Done, ok, err, ◌>>=◌,
  ◌>>◌, >>=-eq-ok,
}
use deevnet_provisioning_api.Names.{valid_name, valid_workload_name}
use deevnet_provisioning_api.Broker.Patterns.{
  Refusal, publish, subscribe, prefix_patterns, check_grant, check_log_grants, valid_patterns,
}
use deevnet_provisioning_api.Broker.Request.{
  Request, version, prefix, valid_hash, validate_put, validate_op, validate,
}
use deevnet_provisioning_api.Broker.Agreement.{all_short, prefix_patterns-valid_patterns}

-- The checks of CreateBrokerAccount on the patterns; what it hands on has the tenant's prefix.
unfoldable pub account_patterns :
    Text → Text → List Text → List Text → Result Refusal (List Text × List Text)
account_patterns tenant device relative_pubs relative_subs = do
  pubs ← prefix_patterns tenant publish relative_pubs
  subs ← prefix_patterns tenant subscribe relative_subs
  check_grant pubs subs
  check_log_grants tenant device pubs subs
  ok (pubs, subs)

-- Put of the writer's client
unfoldable pub put_request : Text → Text → Text → List Text → List Text → Request
put_request tenant account hash pubs subs = record {
  version = version;
  op = codes "put";
  tenant = tenant;
  account = account;
  password_hash = hash;
  publish = pubs;
  subscribe = subs;
}

ok_injective {ℓ} : {A : Type ℓ} {a b : A} → ◌≡◌ {A = Result Refusal A} (ok a) (ok b) → a ≡ b
ok_injective e = cc

-- A grant that account_patterns has let through, part by part.
record Granted (tenant : Text) (pubs subs rp rs : List Text) : Type 0 where
  publishes : prefix_patterns tenant publish rp ≡ ok pubs
  subscribes : prefix_patterns tenant subscribe rs ≡ ok subs
  granted : check_grant pubs subs ≡ ok tt

account_patterns-Granted :
    (tenant device : Text) (rp rs pubs subs : List Text)
    → account_patterns tenant device rp rs ≡ ok (pubs, subs)
    → Granted tenant pubs subs rp rs
unfolding account_patterns
account_patterns-Granted tenant device rp rs pubs subs h =
    let (ps, hp, h₁) = >>=-eq-ok (prefix_patterns tenant publish rp) _ h in
    let (ss, hs, h₂) = >>=-eq-ok (prefix_patterns tenant subscribe rs) _ h₁ in
    let (u, hg, h₃) = >>=-eq-ok (check_grant ps ss) _ h₂ in
    let (v, hl, h₄) = >>=-eq-ok (check_log_grants tenant device ps ss) _ h₃ in
    let e = ok_injective h₄ in
    let ep : ps ≡ pubs = ap (λ x. x.0) e in
    let es : ss ≡ subs = ap (λ x. x.1) e in
    record { publishes = rw (← ep) hp; subscribes = rw (← es) hs; granted = cc }

put_request-validate :
    (tenant account hash : Text) (pubs subs : List Text)
    → valid_name tenant ≡ true
    → valid_workload_name account ≡ true
    → valid_hash hash ≡ ok tt
    → check_grant pubs subs ≡ ok tt
    → validate (put_request tenant account hash pubs subs) ≡ (
        valid_patterns publish pubs (tenant ++ b'/' ∷ [])
        >> valid_patterns subscribe subs (tenant ++ b'/' ∷ []))
unfolding put_request validate validate_op validate_put prefix text_eq
put_request-validate tenant account hash pubs subs n a h g = rw (n, a, h, g) refl

both_ok :
    {E : Type 0} (one other : Result E Done)
    → ((one >> other) ≡ ok tt) ↔ (one ≡ ok tt) × (other ≡ ok tt)
both_ok (ok tt) other = ((λ h. (refl, h)), (λ h. h.1))
both_ok (err e) other = ((λ h. absurd (cc)), (λ h. absurd (let f = h.0 in cc)))

-- When the API accepts the patterns of an account, the request that it sends of them for a valid
-- tenant, a valid account and a bcrypt hash is accepted by the writer's own validation exactly when
-- no pattern is, with the tenant's prefix, longer than 256 bytes.
pub put_request_accepted :
    (tenant device account hash : Text) (relative_pubs relative_subs pubs subs : List Text)
    → account_patterns tenant device relative_pubs relative_subs ≡ ok (pubs, subs)
    → valid_name tenant ≡ true
    → valid_workload_name account ≡ true
    → valid_hash hash ≡ ok tt
    → (validate (put_request tenant account hash pubs subs) ≡ ok tt)
      ↔ (all_short pubs ≡ true) × (all_short subs ≡ true)
put_request_accepted tenant device account hash rp rs pubs subs h named n valid =
    let g = account_patterns-Granted tenant device rp rs pubs subs h in
    let p = prefix_patterns-valid_patterns tenant publish rp pubs named g.publishes in
    let q = prefix_patterns-valid_patterns tenant subscribe rs subs named g.subscribes in
    let b =
      both_ok (valid_patterns publish pubs (tenant ++ b'/' ∷ []))
        (valid_patterns subscribe subs (tenant ++ b'/' ∷ [])) in
    rw (put_request-validate tenant account hash pubs subs named n valid g.granted) (
      (λ r. let both = b.0 r in (p.0 both.0, q.0 both.1)),
      (λ short. b.1 (p.1 short.0, q.1 short.1)),
    )
