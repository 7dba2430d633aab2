-- ===== src/Lifecycle/Invariant.antt =====
-- What every operation on a tenant keeps of the registry: the names and the indexes are the
-- tenants' own.
use deevnet_provisioning_api.Prelude.{
  ℕ, ◌≤◌, ◌≡◌, ◌⊎◌, inl, inr, refl, ◌∙◌, sym, ap, subst, false, List, [], ◌∷◌, ◌++◌, Text,
  text_eq_iff, arith,
}
use mathlib.Core.List.{Memᴰ}
use mathlib.Core.List.Memᴰ.{append_cases}
use deevnet_provisioning_api.Calls.{Call}
use deevnet_provisioning_api.Calls.Laws.{Change, Leaves}
use deevnet_provisioning_api.Registry.{Error, State}
use deevnet_provisioning_api.Registry.Tenants.{holds_name}
use deevnet_provisioning_api.Lifecycle.Leases.{LeaseRun, rests, run_on, book_of}
use deevnet_provisioning_api.Registry.Keeps.{numbers, Keeps}

-- No index and no name stands in two rows, and each index is from 1 to 63.
abbrev pub IsNumbered : List (ℕ × Text) → Type 0
IsNumbered [] = Unit {0}
IsNumbered ((n, name) ∷ held) =
    (1 ≤ n)
    × (n ≤ 63)
    × ((holder : Text) → ¬ (Memᴰ (n, holder) held))
    × ((m : ℕ) → ¬ (Memᴰ (m, name) held))
    × IsNumbered held

pub holds_name-mem :
    (name : Text) (held : List (ℕ × Text)) (n : ℕ)
    → holds_name name held ≡ false
    → ¬ (Memᴰ (n, name) held)
unfolding holds_name
holds_name-mem name [] n h m = elim m [ ]
holds_name-mem name ((k, holder) ∷ held) n h (Memᴰ.head e) =
    let same : name ≡ holder = ap (λ (x : ℕ × Text). x.1) e in
    ground (arith, text_eq_iff holder name, same)
holds_name-mem name ((k, holder) ∷ held) n h (Memᴰ.tail m) =
    holds_name-mem name held n (ground arith) m

snoc_cases : {A : Type 0} (xs : List A) (x y : A) → Memᴰ y (xs ++ x ∷ []) → (Memᴰ y xs) ⊎ (y ≡ x)
snoc_cases xs x y m = elim (append_cases xs m) [
  | inl old ↦ inl old
  | inr (Memᴰ.head e) ↦ inr e
  | inr (Memᴰ.tail none_left) ↦ elim none_left [ ]
]

pub append-IsNumbered :
    (held : List (ℕ × Text)) (n : ℕ) (name : Text)
    → IsNumbered held
    → 1 ≤ n
    → n ≤ 63
    → ((holder : Text) → ¬ (Memᴰ (n, holder) held))
    → ((m : ℕ) → ¬ (Memᴰ (m, name) held))
    → IsNumbered (held ++ (n, name) ∷ [])
append-IsNumbered [] n name i lo hi f g =
    (lo, hi, (λ holder m. elim m [ ]), (λ k m. elim m [ ]), tt)
append-IsNumbered ((k, other) ∷ held) n name (l, h, no_index, no_name, rest) lo hi f g = (
  l,
  h,
  λ holder m. elim (snoc_cases held (n, name) (k, holder) m) [
    | inl old ↦ no_index holder old
    | inr e ↦ f other (Memᴰ.head (ap (λ (x : ℕ × Text). (x.0, other)) (sym e)))
  ],
  λ j m. elim (snoc_cases held (n, name) (j, other) m) [
    | inl old ↦ no_name j old
    | inr e ↦ g k (Memᴰ.head (ap (λ (x : ℕ × Text). (k, x.1)) (sym e)))
  ],
  append-IsNumbered held n name rest lo hi (λ holder m. f holder (Memᴰ.tail m))
      (λ m o. g m (Memᴰ.tail o)),
)

-- The registry stays well numbered, the tenants that are there keep their indexes, the workloads
-- stay as they are, and what was done with the indexes is a run of the book.
abbrev pub grows : {W : Type 0} → Change (State W)
grows = record {
  relates = λ s t.
      (IsNumbered (numbers s) → IsNumbered (numbers t))
      × ((p : ℕ × Text) → Memᴰ p (numbers s) → Memᴰ p (numbers t))
      × (t.registry.workloads ≡ s.registry.workloads)
      × LeaseRun (book_of (numbers s)) (book_of (numbers t));
  reflexive = λ s. ((λ i. i), (λ p m. m), refl, rests);
  transitive =
      λ s t u a b. ((λ i. b.0 (a.0 i)), (λ p m. b.1 p (a.1 p m)), b.2 ∙ a.2, run_on a.3 b.3);
}

pub same_book :
    {held later : List (ℕ × Text)} → later ≡ held → LeaseRun (book_of held) (book_of later)
same_book {held = held} e = subst (λ l. LeaseRun (book_of held) (book_of l)) (sym e) rests

module _ {W : Type 0} where
  pub Keeps-grows : {A : Type 0} (call : Call Error (State W) A) → Keeps call → Leaves grows call
  Keeps-grows call k = record {
    after = λ s. (
      (λ i. subst IsNumbered (sym (k.after s).0) i),
      (λ p m. subst (λ h. Memᴰ p h) (sym (k.after s).0) m),
      (k.after s).1,
      same_book (k.after s).0,
    );
  }
