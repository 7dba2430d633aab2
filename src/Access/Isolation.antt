-- ===== src/Access/Isolation.antt =====
-- Who reaches a tenant's own objects.
use deevnet_provisioning_api.Prelude.{
  ◌≡◌, ◌≢◌, ◌⊎◌, inl, inr, refl, sym, ap, ◌∙◌, true, false, Option, none, some, [], ◌∷◌, Text,
  text_eq_iff, Bool-cases, Option-cases, arith,
}
use deevnet_provisioning_api.Access.{
  bearer, equal, Answer, row, missing, sealed, failed, Caller, Authenticated, speaks, refused,
  unavailable, Service, Principal, Identified, is, answer_unavailable, authenticate, identify,
  by_row, by_name, by_tokens, as_caller,
}
use deevnet_provisioning_api.Access.Routes.{
  Response, reached, status, own_tenant, Route, guard_of, pass, Server, Request, routed, dispatch,
  with_token, serve,
}

-- The caller has shown the operator's token, and the site has one.
pub record IsOperator (srv : Server) (token : Text) : Type 0 where
  pub configured : srv.operator_token ≢ []
  pub shown : token ≡ srv.operator_token

-- The caller has shown the token that the registry holds for this tenant: one that the API issued
-- for it, whose hash is the row's.
pub record IsTenant (sha256 : Text → Text) (s : Service) (name token : Text) : Type 0 where
  pub verifier : Text → Option Text
  pub configured : s.tokens ≡ some verifier
  pub issued : verifier token ≡ some name
  pub current : s.registry name ≡ row (sha256 token)

equal-eq :
    (presented known : Text) → equal presented known ≡ true → (known ≢ []) × (presented ≡ known)
unfolding equal
equal-eq presented [] h = absurd (cc)
equal-eq presented (c ∷ s) h = (cc, (text_eq_iff presented (c ∷ s)).0 h)

pass-own_tenant :
    (name : Text) (p q : Principal)
    → pass own_tenant name p ≡ reached q
    → (p ≡ q)
      × ((p.operator ≡ true) ⊎ ((p.operator ≡ false) × (p.tenant ≡ name) × (p.registered ≡ true)))
unfolding pass
pass-own_tenant name p q h = ground (arith, text_eq_iff p.tenant name)

routed-reached :
    (s : Service) (route : Route) (answer : Response) (q : Principal)
    → routed (some s) route answer ≡ reached q
    → answer ≡ reached q
routed-reached s route (reached p) q h = ground arith
routed-reached s route (status code) q h = absurd (ground arith)

module _ (sha256 : Text → Text) where
  by_row-speaks :
      (token name : Text) (answer : Answer) (c : Caller)
      → by_row sha256 token name answer ≡ speaks c
      → c.registered ≡ true
      → (answer ≡ row (sha256 token)) × (name ≡ c.tenant)
  by_row-speaks token name (row hash) c h reg = ground (arith, text_eq_iff hash (sha256 token))
  by_row-speaks token name missing c h reg = absurd (ground arith)
  by_row-speaks token name sealed c h reg = absurd (ground arith)
  by_row-speaks token name failed c h reg = absurd (ground arith)

  by_name-speaks :
      (s : Service) (token : Text) (named : Option Text) (c : Caller)
      → by_name sha256 s token named ≡ speaks c
      → c.registered ≡ true
      → (named ≡ some c.tenant) × (s.registry c.tenant ≡ row (sha256 token))
  by_name-speaks s token none c h reg = absurd (ground arith)
  by_name-speaks s token (some name) c h reg =
      let (current, same) = by_row-speaks token name (s.registry name) c h reg in
      (ap some same, rw same at current)

  authenticate-speaks :
      (s : Service) (token : Text) (c : Caller)
      → authenticate sha256 s token ≡ speaks c
      → c.registered ≡ true
      → IsTenant sha256 s c.tenant token
  unfolding authenticate
  authenticate-speaks s token c h reg = elim (Option-cases s.tokens) [
    | inl e ↦
        (let none_set : by_tokens sha256 s token none ≡ speaks c = rw e at h in
          absurd (ground arith))
    | inr (verify, e) ↦
        (let h' : by_name sha256 s token (verify token) ≡ speaks c = rw e at h in
          let (issued, current) = by_name-speaks s token (verify token) c h' reg in
          record { verifier = verify; configured = e; issued = issued; current = current })
  ]

  as_caller-is :
      (token : Text) (a : Authenticated) (p : Principal)
      → as_caller sha256 token a ≡ is p
      → (p.operator ≡ false)
        × (p.registered ≡ true → a ≡ speaks (record { tenant = p.tenant; registered = true }))
  as_caller-is token (speaks c) p h = (ground arith, λ reg. ground arith)
  as_caller-is token refused p h = (ground arith, λ reg. absurd (ground arith))
  as_caller-is token unavailable p h = absurd (ground arith)

  identify-is :
      (srv : Server) (s : Service) (token : Text) (p : Principal)
      → identify sha256 srv.operator_token srv.agent_token (some s) token ≡ is p
      → (p.operator ≡ true → IsOperator srv token)
        × (p.registered ≡ true → IsTenant sha256 s p.tenant token)
  unfolding identify
  identify-is srv s token p h = elim (Bool-cases (equal token srv.operator_token)) [
    | inl op ↦
        (let (set, same) = equal-eq token srv.operator_token op in
          (λ _. record { configured = set; shown = same }, λ reg. absurd (ground arith)))
    | inr no_op ↦ elim (Bool-cases (equal token srv.agent_token)) [
      | inl ag ↦ (λ b. absurd (ground arith), λ reg. absurd (ground arith))
      | inr no_ag ↦
          (let h' : as_caller sha256 token (authenticate sha256 s token) ≡ is p = ground arith in
            let (no_operator, speaks_for) = as_caller-is token (authenticate sha256 s token) p h' in
            (
              λ b. absurd (ground arith),
              λ reg.
                  authenticate-speaks s token (record { tenant = p.tenant; registered = true })
                    (speaks_for reg) refl,
            ))
    ]
  ]

  dispatch-reached :
      (srv : Server) (req : Request) (s : Service) (i : Identified) (q : Principal)
      → srv.service ≡ some s
      → guard_of req.route ≡ own_tenant
      → dispatch srv req i ≡ reached q
      → (i ≡ is q) × ((q.operator ≡ true) ⊎ ((q.tenant ≡ req.name) × (q.registered ≡ true)))
  dispatch-reached srv req s (is p) q e g h =
      let h' : routed (some s) req.route (pass (guard_of req.route) req.name p) ≡ reached q =
        rw e at h in
      let (same, either) =
        pass-own_tenant req.name p q (rw g at (routed-reached s req.route _ q h')) in
      let tenant_eq : p.tenant ≡ q.tenant = ap (λ (x : Principal). x.tenant) same in
      let registered_eq : p.registered ≡ q.registered = ap (λ (x : Principal). x.registered) same in
      let operator_eq : p.operator ≡ q.operator = ap (λ (x : Principal). x.operator) same in
      (
        ap is same,
        elim either [
          | inl op ↦ inl (sym operator_eq ∙ op)
          | inr t ↦ inr (sym tenant_eq ∙ t.1, sym registered_eq ∙ t.2)
        ],
      )
  dispatch-reached srv req s answer_unavailable q e g h = absurd (ground arith)

  reached_with :
      (srv : Server) (req : Request) (s : Service) (token : Text) (q : Principal)
      → srv.service ≡ some s
      → guard_of req.route ≡ own_tenant
      → with_token sha256 srv req (some token) ≡ reached q
      → IsOperator srv token ⊎ IsTenant sha256 s req.name token
  reached_with srv req s token q e g h =
      let through : dispatch srv req
            (identify sha256 srv.operator_token srv.agent_token srv.service token)
          ≡ reached q =
        ground arith in
      let (who, either) =
        dispatch-reached srv req s
          (identify sha256 srv.operator_token srv.agent_token srv.service token) q e g through in
      let who' : identify sha256 srv.operator_token srv.agent_token (some s) token ≡ is q =
        rw e at who in
      let (operator, tenant) = identify-is srv s token q who' in
      elim either [ inl op ↦ inl (operator op) | inr (own, reg) ↦ inr (rw own at (tenant reg)) ]

  -- A request reaches a tenant's own objects only with the operator's token, or with the token that
  -- the API issued for that tenant and whose hash the tenant's row holds.
  pub serve-own_tenant :
      (srv : Server) (req : Request) (s : Service) (q : Principal)
      → srv.service ≡ some s
      → guard_of req.route ≡ own_tenant
      → serve sha256 srv req ≡ reached q
      → (token : Text) × (bearer req.authorization ≡ some token)
        × (IsOperator srv token ⊎ IsTenant sha256 s req.name token)
  unfolding serve
  serve-own_tenant srv req s q e g h = elim (Option-cases (bearer req.authorization)) [
    | inl no_token ↦
        (let denied : with_token sha256 srv req none ≡ reached q = rw no_token at h in
          absurd (ground arith))
    | inr (token, shown) ↦
        (let h' : with_token sha256 srv req (some token) ≡ reached q = rw shown at h in
          (token, shown, reached_with srv req s token q e g h'))
  ]
