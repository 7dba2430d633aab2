-- ===== src/Broker/Confinement.antt =====
-- What a validated request confines an account to.
use deevnet_provisioning_api.Prelude.{
  ℕ, suc, ◌≡◌, ◌≤◌, refl, ap, sym, ◌∙◌, ◌⊎◌, true, false, List, [], ◌∷◌, ◌++◌, arith, length, Text,
  codes, text_eq, contains, has_prefix, has_prefix_split, split, split-append, ok, inl, inr, ◌≢◌,
}
use mathlib.Core.List.{Memᴰ, append_assoc}
use deevnet_provisioning_api.Names.{is_name_byte, is_lower, is_digit, valid_name}
use deevnet_provisioning_api.Names.Laws.{valid_name-free, append_injective_free}
use deevnet_provisioning_api.Broker.Patterns.{
  plus_level, hash_level, valid_wildcards, check_pattern, check_from, valid_patterns, max_pattern,
  Field, publish, subscribe,
}
use deevnet_provisioning_api.Broker.Request.{
  Request, username, prefix, validate_put, validate_op, validate,
}
use deevnet_provisioning_api.Broker.Topics.{Matches, hash, plus, same, IsPlain}
use deevnet_provisioning_api.Broker.LogSpace.{valid_name-IsPlain}

-- What check_pattern has established of a filter.
pub record IsChecked (prefix p : Text) : Type 0 where
  pub under : has_prefix p prefix ≡ true
  pub wild : valid_wildcards p ≡ ok tt
  pub short : length p ≤ max_pattern
  pub no_percent : contains b'%' p ≡ false

check_pattern-IsChecked : (prefix p : Text) → check_pattern prefix p ≡ ok tt → IsChecked prefix p
unfolding check_pattern
check_pattern-IsChecked prefix p h = ground arith

check_from-IsChecked :
    (field : Field) (i : ℕ) (prefix : Text) (pats : List Text) (p : Text)
    → check_from field i prefix pats ≡ ok tt
    → Memᴰ p pats
    → IsChecked prefix p
unfolding check_from
check_from-IsChecked field i prefix [] p h m = elim m [ ]
check_from-IsChecked field i prefix (q ∷ pats) p h (Memᴰ.head e) =
    rw e (check_pattern-IsChecked prefix q (ground arith))
check_from-IsChecked field i prefix (q ∷ pats) p h (Memᴰ.tail m) =
    check_from-IsChecked field (suc i) prefix pats p (ground arith) m

valid_patterns-IsChecked :
    (field : Field) (prefix : Text) (pats : List Text) (p : Text)
    → valid_patterns field pats prefix ≡ ok tt
    → Memᴰ p pats
    → IsChecked prefix p
unfolding valid_patterns
valid_patterns-IsChecked field prefix pats p h m =
    check_from-IsChecked field 0 prefix pats p (ground arith) m

plain_ne_hash : (level : Text) → IsPlain level → level ≢ hash_level
unfolding contains
plain_ne_hash level plain e = cc

plain_ne_plus : (level : Text) → IsPlain level → level ≢ plus_level
unfolding contains
plain_ne_plus level plain e = cc

head_of_Matches :
    (tenant : Text) (levels topic : List Text)
    → IsPlain tenant
    → Matches (tenant ∷ levels) topic
    → (rest : List Text) × (topic ≡ tenant ∷ rest)
unfolding contains
head_of_Matches tenant levels topic plain (hash l t e) = absurd (plain_ne_hash tenant plain e)
head_of_Matches tenant levels topic plain (plus l name e m) = absurd (plain_ne_plus tenant plain e)
head_of_Matches tenant levels topic plain (same l name {topic = rest} e m) =
    (rest, ap (λ (x : Text). x ∷ rest) (sym e))

-- A filter under a tenant's prefix matches only topics whose first level is the tenant.
first_level :
    (tenant p : Text) (topic : List Text)
    → valid_name tenant ≡ true
    → has_prefix p (tenant ++ b'/' ∷ []) ≡ true
    → Matches (split b'/' p) topic
    → (rest : List Text) × (topic ≡ tenant ∷ rest)
unfolding is_name_byte is_lower is_digit
first_level tenant p topic named under m =
    let (tail, e) = has_prefix_split p (tenant ++ b'/' ∷ []) under in
    let e' : p ≡ tenant ++ b'/' ∷ tail = e ∙ append_assoc tenant (b'/' ∷ []) tail in
    let s : split b'/' p ≡ tenant ∷ split b'/' tail =
      ap (split b'/') e' ∙ split-append b'/' tenant tail (valid_name-free b'/' tenant refl named) in
    head_of_Matches tenant (split b'/' tail) topic (valid_name-IsPlain tenant named) (rw s at m)

validate-named : (r : Request) → validate r ≡ ok tt → valid_name r.tenant ≡ true
unfolding validate
validate-named r h = ground arith

record IsValidPut (r : Request) : Type 0 where
  named : valid_name r.tenant ≡ true
  publishes : valid_patterns publish r.publish (prefix r) ≡ ok tt
  subscribes : valid_patterns subscribe r.subscribe (prefix r) ≡ ok tt

validate_put-patterns :
    (r : Request)
    → validate_put r ≡ ok tt
    → (valid_patterns publish r.publish (prefix r) ≡ ok tt)
      × (valid_patterns subscribe r.subscribe (prefix r) ≡ ok tt)
unfolding validate_put
validate_put-patterns r h = ground arith

validate_op-put : (r : Request) → r.op ≡ codes "put" → validate_op r ≡ validate_put r
unfolding validate_op text_eq
validate_op-put r put = rw put refl

validate-IsValidPut : (r : Request) → r.op ≡ codes "put" → validate r ≡ ok tt → IsValidPut r
validate-IsValidPut r put h =
    let checked : validate_op r ≡ ok tt = (unfold validate in ground arith) in
    let (pubs, subs) = validate_put-patterns r (sym (validate_op-put r put) ∙ checked) in
    record { named = validate-named r h; publishes = pubs; subscribes = subs }

granted-under :
    (r : Request) (p : Text)
    → IsValidPut r
    → (Memᴰ p r.publish) ⊎ (Memᴰ p r.subscribe)
    → IsChecked (prefix r) p
granted-under r p v (inl m) = valid_patterns-IsChecked publish (prefix r) r.publish p v.publishes m
granted-under r p v (inr m) =
    valid_patterns-IsChecked subscribe (prefix r) r.subscribe p v.subscribes m

-- The writer confines an account to its tenant: if it accepts a put, every topic that one of the
-- account's patterns matches has the tenant's name as its first level.
pub validate-confines :
    (r : Request) (p : Text) (topic : List Text)
    → r.op ≡ codes "put"
    → validate r ≡ ok tt
    → (Memᴰ p r.publish) ⊎ (Memᴰ p r.subscribe)
    → Matches (split b'/' p) topic
    → (rest : List Text) × (topic ≡ r.tenant ∷ rest)
unfolding prefix
validate-confines r p topic put h mem m =
    let v = validate-IsValidPut r put h in
    first_level r.tenant p topic v.named (granted-under r p v mem).under m

-- The broker knows an account by a name that determines its tenant and its account: no two
-- validated requests for different tenants or different accounts share one.
pub username_injective :
    (r q : Request)
    → validate r ≡ ok tt
    → validate q ≡ ok tt
    → username r ≡ username q
    → (r.tenant ≡ q.tenant) × (r.account ≡ q.account)
unfolding username is_name_byte is_lower is_digit
username_injective r q hr hq e =
    append_injective_free b'-' r.tenant q.tenant r.account q.account
      (valid_name-free b'-' r.tenant refl (validate-named r hr))
      (valid_name-free b'-' q.tenant refl (validate-named q hq)) e
