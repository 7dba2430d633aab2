-- ===== src/Broker/LogSpace.antt =====
-- The reserved log level: CheckLogGrants and touchesLog against what a filter matches.
use deevnet_provisioning_api.Prelude.{
  ◌≡◌, refl, ap, ap₂, ◌↔◌, ◌≢◌, ◌⊎◌, inl, inr, true, false, List, [], ◌∷◌, ◌++◌, arith, is_empty,
  All, Text, text_eq, text_eq_iff, contains, split, split-append, split_free, ok, >>=-eq-ok,
}
use mathlib.Core.List.{Memᴰ}
use deevnet_provisioning_api.Names.{
  is_name_byte, is_lower, is_digit, is_label_byte, valid_name, valid_workload_name,
}
use deevnet_provisioning_api.Names.Laws.{valid_name-free, valid_workload_name-free}
use deevnet_provisioning_api.Broker.Patterns.{
  plus_level, hash_level, log_level, check_levels, valid_wildcards, touches_levels, touches_log,
  own_log_topic, check_log_publish, check_log_subscribe, check_log_grants,
}
use deevnet_provisioning_api.Broker.Topics.{
  Matches, done, hash, plus, same, IsPlain, Matches-instance,
}

-- A filter that matches a topic at or under the wanted levels touches them.
touches_levels-of_Matches :
    (wants levels rest : List Text)
    → Matches levels (wants ++ rest)
    → touches_levels levels wants ≡ true
unfolding touches_levels
touches_levels-of_Matches [] levels rest m = refl
touches_levels-of_Matches (want ∷ wants) levels rest (hash level topic e) =
    ground (arith, text_eq_iff level hash_level)
touches_levels-of_Matches (want ∷ wants) levels rest (plus level name {filter} e m) = ground (
  arith,
  text_eq_iff level hash_level,
  text_eq_iff level plus_level,
  touches_levels-of_Matches wants filter rest m,
)
touches_levels-of_Matches (want ∷ wants) levels rest (same level name {filter} e m) = ground (
  arith,
  text_eq_iff level hash_level,
  text_eq_iff level name,
  touches_levels-of_Matches wants filter rest m,
)

touches_levels-cons :
    (level want : Text) (levels wants : List Text)
    → touches_levels (level ∷ levels) (want ∷ wants) ≡ true
    → (level ≡ hash_level)
      ⊎ (((level ≡ plus_level) ⊎ (level ≡ want)) × (touches_levels levels wants ≡ true))
unfolding touches_levels
touches_levels-cons level want levels wants h =
    ground
      (arith, text_eq_iff level hash_level, text_eq_iff level plus_level, text_eq_iff level want)

check_levels-tail :
    (level : Text) (levels : List Text)
    → check_levels (level ∷ levels) ≡ ok tt
    → check_levels levels ≡ ok tt
unfolding check_levels
check_levels-tail level [] h = refl
check_levels-tail level (l ∷ ls) h = ground arith

check_levels-hash : (levels : List Text) → check_levels (hash_level ∷ levels) ≡ ok tt → levels ≡ []
unfolding check_levels contains text_eq
check_levels-hash [] h = refl
check_levels-hash (l ∷ ls) h = cc

-- The topic that a touching filter and the wanted levels have in common.
Matches-of_touches_levels :
    (wants levels : List Text)
    → All IsPlain wants
    → check_levels levels ≡ ok tt
    → touches_levels levels wants ≡ true
    → (rest : List Text) × All IsPlain rest × Matches levels (wants ++ rest)
Matches-of_touches_levels [] levels plain fine t = Matches-instance levels fine
Matches-of_touches_levels (want ∷ wants) [] plain fine t = (unfold touches_levels in absurd (cc))
Matches-of_touches_levels (want ∷ wants) (level ∷ levels) plain fine t =
    elim (touches_levels-cons level want levels wants t) [
      | inl e ↦
          (let fine' : check_levels (hash_level ∷ levels) ≡ ok tt = rw e at fine in
            ([], tt, rw (check_levels-hash levels fine') (hash level _ e)))
      | inr (either, later) ↦
          (let (rest, ok_rest, m) =
              Matches-of_touches_levels wants levels plain.1 (check_levels-tail level levels fine)
                later in
            elim either [
              | inl e ↦ (rest, ok_rest, plus level want e m)
              | inr e ↦ (rest, ok_rest, same level want e m)
            ])
    ]

log_level-IsPlain : IsPlain log_level
unfolding contains
log_level-IsPlain = (refl, refl)

pub valid_name-IsPlain : (tenant : Text) → valid_name tenant ≡ true → IsPlain tenant
unfolding is_name_byte is_lower is_digit
valid_name-IsPlain tenant h =
    (valid_name-free b'+' tenant refl h, valid_name-free b'#' tenant refl h)

-- A filter without a fault touches the log space of a tenant exactly when it matches some topic at
-- or under <tenant>/log.
pub touches_log_iff :
    (tenant filter : Text)
    → valid_name tenant ≡ true
    → valid_wildcards filter ≡ ok tt
    → (touches_log tenant filter ≡ true) ↔ (
        (rest : List Text) × All IsPlain rest
        × Matches (split b'/' filter) (tenant ∷ log_level ∷ rest))
unfolding touches_log valid_wildcards
touches_log_iff tenant filter named fine = (
  Matches-of_touches_levels (tenant ∷ log_level ∷ []) (split b'/' filter)
      (valid_name-IsPlain tenant named, (log_level-IsPlain, tt)) fine,
  λ found. touches_levels-of_Matches (tenant ∷ log_level ∷ []) (split b'/' filter) found.0 found.2,
)

module _ (tenant device : Text) where
  check_log_publish-mem :
      (pubs : List Text) (p : Text)
      → check_log_publish tenant device pubs ≡ ok tt
      → Memᴰ p pubs
      → touches_log tenant p ≡ true
      → (is_empty device ≡ false) × (p ≡ own_log_topic tenant device)
  unfolding check_log_publish
  check_log_publish-mem [] p h m t = elim m [ ]
  check_log_publish-mem (q ∷ pubs) p h (Memᴰ.head e) t = ground (
    arith,
    text_eq_iff q (own_log_topic tenant device),
    text_eq_iff p (own_log_topic tenant device),
  )
  check_log_publish-mem (q ∷ pubs) p h (Memᴰ.tail m) t =
      check_log_publish-mem pubs p (ground arith) m t

  check_log_subscribe-mem :
      (subs : List Text) (s : Text)
      → check_log_subscribe tenant device subs ≡ ok tt
      → Memᴰ s subs
      → touches_log tenant s ≡ true
      → is_empty device ≡ true
  unfolding check_log_subscribe
  check_log_subscribe-mem [] s h m t = elim m [ ]
  check_log_subscribe-mem (q ∷ subs) s h (Memᴰ.head e) t = ground arith
  check_log_subscribe-mem (q ∷ subs) s h (Memᴰ.tail m) t =
      check_log_subscribe-mem subs s (ground arith) m t

split-own_log_topic :
    (tenant device : Text)
    → contains b'/' tenant ≡ false
    → contains b'/' device ≡ false
    → split b'/' (own_log_topic tenant device) ≡ tenant ∷ log_level ∷ device ∷ []
unfolding own_log_topic
split-own_log_topic tenant device ft fd =
    rw (split-append b'/' tenant (log_level ++ b'/' ∷ device) ft) (
      rw (split-append b'/' log_level device (unfold contains in refl))
        (rw (split_free b'/' device fd) refl))

-- A filter of plain levels matches the topic that it spells and no other.
Matches-IsPlain :
    (levels topic : List Text) → All IsPlain levels → Matches levels topic → levels ≡ topic
unfolding contains
Matches-IsPlain [] topic plain done = refl
Matches-IsPlain (level ∷ levels) topic plain (hash l t e) = cc
Matches-IsPlain (level ∷ levels) topic plain (plus l name e m) = cc
Matches-IsPlain (level ∷ levels) topic plain (same l name {filter} {topic = rest} e m) =
    ap₂ (λ (a : Text) (b : List Text). a ∷ b) e (Matches-IsPlain filter rest plain.1 m)

eq_nil_of_is_empty : (s : Text) → is_empty s ≡ true → s ≡ []
eq_nil_of_is_empty [] h = refl
eq_nil_of_is_empty (c ∷ s) h = cc

-- The grants that the check accepts confine the log space. A device account publishes to no topic
-- at or under <tenant>/log but <tenant>/log/<device>, and subscribes to none of them; an account
-- with no device publishes to none of them. The device's name holds no slash and no wildcard.
pub record IsLogConfined (tenant device : Text) (pubs subs : List Text) : Type 0 where
  pub publishes :
      (p : Text) (rest : List Text)
      → Memᴰ p pubs
      → Matches (split b'/' p) (tenant ∷ log_level ∷ rest)
      → (device ≢ []) × (rest ≡ device ∷ [])
  pub subscribes :
      (s : Text) (rest : List Text)
      → Memᴰ s subs
      → Matches (split b'/' s) (tenant ∷ log_level ∷ rest)
      → device ≡ []

IsPlain-of_device :
    (device : Text)
    → (device ≡ []) ⊎ (valid_workload_name device ≡ true)
    → (contains b'/' device ≡ false) × IsPlain device
unfolding is_label_byte is_name_byte is_lower is_digit contains
IsPlain-of_device device (inl e) = rw e (refl, (refl, refl))
IsPlain-of_device device (inr h) = (
  valid_workload_name-free b'/' device refl h,
  (valid_workload_name-free b'+' device refl h, valid_workload_name-free b'#' device refl h),
)

rest_of_own :
    (tenant device : Text) (rest : List Text)
    → valid_name tenant ≡ true
    → (device ≡ []) ⊎ (valid_workload_name device ≡ true)
    → Matches (split b'/' (own_log_topic tenant device)) (tenant ∷ log_level ∷ rest)
    → rest ≡ device ∷ []
unfolding is_name_byte is_lower is_digit
rest_of_own tenant device rest named dev m =
    let (no_slash, plain) = IsPlain-of_device device dev in
    let e : split b'/' (own_log_topic tenant device) ≡ tenant ∷ log_level ∷ device ∷ [] =
      split-own_log_topic tenant device (valid_name-free b'/' tenant refl named) no_slash in
    let same_levels =
      Matches-IsPlain (tenant ∷ log_level ∷ device ∷ []) (tenant ∷ log_level ∷ rest)
        (valid_name-IsPlain tenant named, (log_level-IsPlain, (plain, tt))) (rw e at m) in
    cc

-- If the check accepts an account's patterns, they confine the log space of its tenant: a device
-- account publishes to no topic at or under <tenant>/log but its own, <tenant>/log/<device>, and
-- subscribes to none of them, and an account with no device publishes to none of them. The tenant's
-- name is valid, and the device is empty or has a valid name.
pub check_log_grants-IsLogConfined :
    (tenant device : Text) (pubs subs : List Text)
    → valid_name tenant ≡ true
    → (device ≡ []) ⊎ (valid_workload_name device ≡ true)
    → check_log_grants tenant device pubs subs ≡ ok tt
    → IsLogConfined tenant device pubs subs
unfolding check_log_grants touches_log
check_log_grants-IsLogConfined tenant device pubs subs named dev h =
    let (u, hp, hs) = >>=-eq-ok (check_log_publish tenant device pubs) _ h in
    record {
      publishes = λ p rest mem m.
          let t = touches_levels-of_Matches (tenant ∷ log_level ∷ []) (split b'/' p) rest m in
          let (some_device, own) = check_log_publish-mem tenant device pubs p hp mem t in
          (
            λ e. cc (ap (λ (x : Text). is_empty x) e),
            rest_of_own tenant device rest named dev (rw own at m),
          );
      subscribes = λ s rest mem m.
          let t = touches_levels-of_Matches (tenant ∷ log_level ∷ []) (split b'/' s) rest m in
          eq_nil_of_is_empty device (check_log_subscribe-mem tenant device subs s hs mem t);
    }
