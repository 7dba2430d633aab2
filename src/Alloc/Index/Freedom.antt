-- ===== src/Alloc/Index/Freedom.antt =====
-- When an index is free: the test of pickIndex against its meaning.
use deevnet_provisioning_api.Prelude.{
  ℕ, ◌≡◌, ◌↔◌, inl, inr, refl, sym, ap, true, false, List, [], ◌∷◌, all, Text, text_eq, text_eq_iff,
  ◌==◌, ==_iff, Bool-cases, and-eq-true, not-eq-true, arith,
}
use mathlib.Core.List.{Memᴰ}
use deevnet_provisioning_api.Alloc.Index.{Claim, zones_at, is_held, free}

-- An index that the tenant may have: no row of the registry holds it, and no zone of the fabric
-- carries it but the tenant's own.
pub record IsFree (name : Text) (held : List (ℕ × Text)) (claims : List Claim) (n : ℕ)
    : Type 0 where
  pub unheld : (holder : Text) → ¬ (Memᴰ (n, holder) held)
  pub unclaimed : (c : Claim) → Memᴰ c claims → c.index ≡ n → c.zone ≡ name

not_mem_of_is_held :
    (n : ℕ) (held : List (ℕ × Text)) (holder : Text)
    → is_held n held ≡ false
    → ¬ (Memᴰ (n, holder) held)
unfolding is_held
not_mem_of_is_held n [] holder h m = elim m [ ]
not_mem_of_is_held n ((index, who) ∷ held) holder h (Memᴰ.head e) =
    let same : n ≡ index = ap (λ (x : ℕ × Text). x.0) e in ground arith
not_mem_of_is_held n ((index, who) ∷ held) holder h (Memᴰ.tail m) =
    not_mem_of_is_held n held holder (ground arith) m

is_held_of_not_mem :
    (n : ℕ) (held : List (ℕ × Text))
    → ((holder : Text) → ¬ (Memᴰ (n, holder) held))
    → is_held n held ≡ false
unfolding is_held
is_held_of_not_mem n [] h = refl
is_held_of_not_mem n ((index, who) ∷ held) h = elim (Bool-cases (index == n)) [
  | inl e ↦ absurd (
      h who
        (Memᴰ.head (ap (λ (k : ℕ). let x : ℕ × Text = (k, who) in x) (sym ((==_iff index n).0 e)))))
  | inr e ↦ rw e (is_held_of_not_mem n held (λ holder m. h holder (Memᴰ.tail m)))
]

zones_at-mem :
    (name : Text) (n : ℕ) (claims : List Claim) (c : Claim)
    → all (λ zone. text_eq zone name) (zones_at n claims) ≡ true
    → Memᴰ c claims
    → c.index ≡ n
    → c.zone ≡ name
unfolding zones_at
zones_at-mem name n [] c h m e = elim m [ ]
zones_at-mem name n (d ∷ claims) c h (Memᴰ.head e') e =
    let same : d.index ≡ n = rw (← e') e in
    let zone : d.zone ≡ name = ground (arith, text_eq_iff d.zone name) in rw e' zone
zones_at-mem name n (d ∷ claims) c h (Memᴰ.tail m) e =
    zones_at-mem name n claims c (ground arith) m e

zones_at-all :
    (name : Text) (n : ℕ) (claims : List Claim)
    → ((c : Claim) → Memᴰ c claims → c.index ≡ n → c.zone ≡ name)
    → all (λ zone. text_eq zone name) (zones_at n claims) ≡ true
unfolding zones_at
zones_at-all name n [] h = refl
zones_at-all name n (d ∷ claims) h =
    let rest = zones_at-all name n claims (λ c m. h c (Memᴰ.tail m)) in
    let here = h d (Memᴰ.head refl) in
    elim (Bool-cases (d.index == n)) [
      | inl e ↦ rw e (rw ((text_eq_iff d.zone name).1 (here ((==_iff d.index n).0 e))) rest)
      | inr e ↦ rw e rest
    ]

module _ (name : Text) (held : List (ℕ × Text)) (claims : List Claim) where
  pub free_iff : (n : ℕ) → (free name held claims n ≡ true) ↔ IsFree name held claims n
  unfolding free
  free_iff n = (
    λ h.
        let (unheld, zones) = and-eq-true _ _ h in
        record {
          unheld = λ holder. not_mem_of_is_held n held holder (not-eq-true _ unheld);
          unclaimed = λ c. zones_at-mem name n claims c zones;
        },
    λ f. rw (is_held_of_not_mem n held f.unheld) (zones_at-all name n claims f.unclaimed),
  )
