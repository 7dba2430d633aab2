-- ===== src/Broker/Agreement.antt =====
-- The patterns that the API prefixes, as the writer checks them.
use deevnet_provisioning_api.Prelude.{
  ℕ, suc, ◌≡◌, ◌↔◌, refl, ap, sym, Bool, true, false, List, [], ◌∷◌, ◌++◌, arith, length, all,
  is_empty, Text, contains, contains-append, has_prefix, has_prefix-append, Result, ok, err,
  >>=-eq-ok, refuse_if, leb, ltb,
}
use mathlib.Core.List.{append_assoc}
use deevnet_provisioning_api.Names.{is_name_byte, is_lower, is_digit, valid_name}
use deevnet_provisioning_api.Names.Laws.{valid_name-free}
use deevnet_provisioning_api.Broker.Patterns.{
  PatternFault, Refusal, too_long, Field, located, max_pattern, valid_wildcards, check_pattern,
  check_from, valid_patterns, prefix_pattern, prefix_from, prefix_patterns,
}

-- A relative pattern that the API accepted, and the filter that it stands for.
record IsPrefixed (tenant relative p : Text) : Type 0 where
  absolute : p ≡ tenant ++ b'/' ∷ relative
  no_percent : contains b'%' relative ≡ false
  wild : valid_wildcards p ≡ ok tt

prefix_pattern-IsPrefixed :
    (tenant relative p : Text)
    → prefix_pattern tenant relative ≡ ok p
    → IsPrefixed tenant relative p
unfolding prefix_pattern
prefix_pattern-IsPrefixed tenant relative p h = ground arith

is_empty-append : (s : Text) (c : ℕ) (t : Text) → is_empty (s ++ c ∷ t) ≡ false
is_empty-append [] c t = refl
is_empty-append (d ∷ s) c t = refl

module _ (tenant relative : Text) (named : valid_name tenant ≡ true) where
  contains-percent :
      contains b'%' relative ≡ false → contains b'%' (tenant ++ b'/' ∷ relative) ≡ false
  unfolding contains is_name_byte is_lower is_digit
  contains-percent h =
      ground
        (arith, contains-append b'%' tenant (b'/' ∷ relative), valid_name-free b'%' tenant refl)

  has_prefix-tenant : has_prefix (tenant ++ b'/' ∷ relative) (tenant ++ b'/' ∷ []) ≡ true
  has_prefix-tenant =
      rw (sym (append_assoc tenant (b'/' ∷ []) relative))
        (has_prefix-append (tenant ++ b'/' ∷ []) relative)

  check-absolute :
      contains b'%' relative ≡ false
      → valid_wildcards (tenant ++ b'/' ∷ relative) ≡ ok tt
      → check_pattern (tenant ++ b'/' ∷ []) (tenant ++ b'/' ∷ relative)
        ≡ refuse_if (ltb max_pattern (length (tenant ++ b'/' ∷ relative))) too_long
  unfolding check_pattern
  check-absolute no_percent wild =
      ground (
        arith,
        is_empty-append tenant b'/' relative,
        has_prefix-tenant,
        contains-percent no_percent,
      )

check-prefixed :
    (tenant relative p : Text)
    → valid_name tenant ≡ true
    → prefix_pattern tenant relative ≡ ok p
    → check_pattern (tenant ++ b'/' ∷ []) p ≡ refuse_if (ltb max_pattern (length p)) too_long
check-prefixed tenant relative p named h =
    let i = prefix_pattern-IsPrefixed tenant relative p h in
    rw i.absolute (check-absolute tenant relative named i.no_percent (rw i.absolute at i.wild))

abbrev pub all_short : List Text → Bool
all_short = all (λ p. leb (length p) max_pattern)

check_from-cons :
    (field : Field) (i : ℕ) (prefix p : Text) (ps : List Text)
    → check_pattern prefix p ≡ refuse_if (ltb max_pattern (length p)) too_long
    → (check_from field (suc i) prefix ps ≡ ok tt) ↔ (all_short ps ≡ true)
    → (check_from field i prefix (p ∷ ps) ≡ ok tt) ↔ (all_short (p ∷ ps) ≡ true)
unfolding check_from
check_from-cons field i prefix p ps e ih = ground arith

located-eq-ok {ℓ} :
    {A : Type ℓ} (field : Field) (i : ℕ) (r : Result PatternFault A) (a : A)
    → located field i r ≡ ok a
    → r ≡ ok a
located-eq-ok field i (ok b) a h = cc
located-eq-ok field i (err fault) a h = cc

ok_injective : {a b : List Text} → ◌≡◌ {A = Result Refusal (List Text)} (ok a) (ok b) → a ≡ b
ok_injective e = cc

prefix_from-check_from :
    (tenant : Text) (field : Field) (i j : ℕ) (relatives ps : List Text)
    → valid_name tenant ≡ true
    → prefix_from tenant field i relatives ≡ ok ps
    → ((check_from field j (tenant ++ b'/' ∷ []) ps ≡ ok tt) ↔ (all_short ps ≡ true))
      × (length ps ≡ length relatives)
unfolding prefix_from
prefix_from-check_from tenant field i j [] ps named h = (unfold check_from in ground arith)
prefix_from-check_from tenant field i j (relative ∷ relatives) ps named h =
    let (p, hp, h') = >>=-eq-ok (located field i (prefix_pattern tenant relative)) _ h in
    let (rest, hr, e) = >>=-eq-ok (prefix_from tenant field (suc i) relatives) _ h' in
    let hp' : prefix_pattern tenant relative ≡ ok p = located-eq-ok field i _ p hp in
    let (ih, len) = prefix_from-check_from tenant field (suc i) (suc j) relatives rest named hr in
    let e' : p ∷ rest ≡ ps = ok_injective e in
    rw (← e') (
      check_from-cons field j (tenant ++ b'/' ∷ []) p rest
          (check-prefixed tenant relative p named hp') ih,
      ap suc len,
    )

-- The writer accepts the patterns that the API has prefixed exactly when none of them is, with its
-- prefix, longer than 256 bytes. The API itself measures a pattern without its prefix.
pub prefix_patterns-valid_patterns :
    (tenant : Text) (field : Field) (relatives ps : List Text)
    → valid_name tenant ≡ true
    → prefix_patterns tenant field relatives ≡ ok ps
    → (valid_patterns field ps (tenant ++ b'/' ∷ []) ≡ ok tt) ↔ (all_short ps ≡ true)
unfolding prefix_patterns valid_patterns
prefix_patterns-valid_patterns tenant field relatives ps named h =
    let (u, few, h') = >>=-eq-ok _ (λ _. prefix_from tenant field 0 relatives) h in
    let (same, len) = prefix_from-check_from tenant field 0 0 relatives ps named h' in ground arith
