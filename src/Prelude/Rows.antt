-- ===== src/Prelude/Rows.antt =====
-- Rows of a table: those that a test leaves, and keys that no two rows share.
use mathlib.Core.Path.{◌≡◌, sym, ap, subst}
use mathlib.Core.Logic.{inl, inr}
use mathlib.Core.Bool.{Bool, false}
use mathlib.Core.List.{List, [], ◌∷◌, ◌++◌, Memᴰ, map}
use mathlib.Core.List.Memᴰ.{append_cases}
use deevnet_provisioning_api.Prelude.Tests.{if◌then◌else◌, Bool-cases}
use deevnet_provisioning_api.Prelude.Lists.{All, cons_mem}

module _ {ℓ} {A : Type ℓ} where
  -- The rows but those of the test.
  unfoldable pub drop_where : (A → Bool) → List A → List A
  drop_where test [] = []
  drop_where test (a ∷ rows) = let rest = drop_where test rows in if test a then rest else a ∷ rest

  pub mem-drop_where :
      (test : A → Bool) (rows : List A) (a : A) → Memᴰ a (drop_where test rows) → Memᴰ a rows
  unfolding drop_where
  mem-drop_where test [] a m = m
  mem-drop_where test (b ∷ rows) a m = elim (Bool-cases (test b)) [
    | inl e ↦ Memᴰ.tail (mem-drop_where test rows a (rw e at m))
    | inr e ↦ cons_mem a b _ rows (mem-drop_where test rows a) (rw e at m)
  ]

  pub mem_left :
      (test : A → Bool) (rows : List A) (a : A)
      → Memᴰ a rows
      → test a ≡ false
      → Memᴰ a (drop_where test rows)
  unfolding drop_where
  mem_left test [] a m h = m
  mem_left test (b ∷ rows) a (Memᴰ.head e) h =
      let left : test b ≡ false = subst (λ x. test x ≡ false) e h in rw left (Memᴰ.head e)
  mem_left test (b ∷ rows) a (Memᴰ.tail m) h = elim (Bool-cases (test b)) [
    | inl e ↦ rw e (mem_left test rows a m h)
    | inr e ↦ rw e (Memᴰ.tail (mem_left test rows a m h))
  ]

  abbrev pub IsUnique : List A → Type ℓ
  IsUnique [] = Unit
  IsUnique (k ∷ ks) = (¬ (Memᴰ k ks)) × IsUnique ks

  pub snoc-IsUnique : (ks : List A) (k : A) → IsUnique ks → ¬ (Memᴰ k ks) → IsUnique (ks ++ k ∷ [])
  snoc-IsUnique [] k u n = ((λ m. elim m [ ]), tt)
  snoc-IsUnique (j ∷ ks) k (here_only, u) n = (
    λ m. elim (append_cases ks m) [
      | inl old ↦ here_only old
      | inr (Memᴰ.head e) ↦ n (Memᴰ.head (sym e))
      | inr (Memᴰ.tail none_left) ↦ elim none_left [ ]
    ],
    snoc-IsUnique ks k u (λ m. n (Memᴰ.tail m)),
  )

module _ {ℓ κ} {A : Type ℓ} (P Q : A → Type κ) where
  pub All-drop_where :
      (test : A → Bool) (rows : List A)
      → ((a : A) → test a ≡ false → P a → Q a)
      → All P rows
      → All Q (drop_where test rows)
  unfolding drop_where
  All-drop_where test [] f h = tt
  All-drop_where test (a ∷ rows) f h = elim (Bool-cases (test a)) [
    | inl e ↦ rw e (All-drop_where test rows f h.1)
    | inr e ↦ rw e (f a e h.0, All-drop_where test rows f h.1)
  ]

  pub All-map :
      (g : A → A) (rows : List A) → ((a : A) → P a → Q (g a)) → All P rows → All Q (map g rows)
  All-map g [] f h = tt
  All-map g (a ∷ rows) f h = (f a h.0, All-map g rows f h.1)

  pub All-mono : (rows : List A) → ((a : A) → P a → Q a) → All P rows → All Q rows
  All-mono [] f h = tt
  All-mono (a ∷ rows) f h = (f a h.0, All-mono rows f h.1)

module _ {ℓ κ} {A : Type ℓ} (P : A → Type κ) where
  pub All-mem : (rows : List A) (a : A) → All P rows → Memᴰ a rows → P a
  All-mem [] a h m = elim m [ ]
  All-mem (b ∷ rows) a h (Memᴰ.head e) = subst P (sym e) h.0
  All-mem (b ∷ rows) a h (Memᴰ.tail m) = All-mem rows a h.1 m

module _ {ℓ κ} {A : Type ℓ} {K : Type κ} (key : A → K) where
  pub mem-map : (rows : List A) (a : A) → Memᴰ a rows → Memᴰ (key a) (map key rows)
  mem-map [] a m = elim m [ ]
  mem-map (b ∷ rows) a (Memᴰ.head e) = Memᴰ.head (ap key e)
  mem-map (b ∷ rows) a (Memᴰ.tail m) = Memᴰ.tail (mem-map rows a m)

  pub mem-map-drop_where :
      (test : A → Bool) (rows : List A) (k : K)
      → Memᴰ k (map key (drop_where test rows))
      → Memᴰ k (map key rows)
  unfolding drop_where
  mem-map-drop_where test [] k m = m
  mem-map-drop_where test (b ∷ rows) k m = elim (Bool-cases (test b)) [
    | inl e ↦ Memᴰ.tail (mem-map-drop_where test rows k (rw e at m))
    | inr e ↦ cons_mem k (key b) _ _ (mem-map-drop_where test rows k) (rw e at m)
  ]

  pub drop_where-IsUnique :
      (test : A → Bool) (rows : List A)
      → IsUnique (map key rows)
      → IsUnique (map key (drop_where test rows))
  unfolding drop_where
  drop_where-IsUnique test [] u = tt
  drop_where-IsUnique test (a ∷ rows) u = elim (Bool-cases (test a)) [
    | inl e ↦ rw e (drop_where-IsUnique test rows u.1)
    | inr e ↦
        rw e
          ((λ m. u.0 (mem-map-drop_where test rows (key a) m)), drop_where-IsUnique test rows u.1)
  ]

  -- Two rows with one key are one row.
  pub unique_row :
      (rows : List A) (a b : A)
      → IsUnique (map key rows)
      → Memᴰ a rows
      → Memᴰ b rows
      → key a ≡ key b
      → a ≡ b
  unique_row [] a b u m n same = elim m [ ]
  unique_row (c ∷ rows) a b u (Memᴰ.head e) (Memᴰ.head f) same = cc
  unique_row (c ∷ rows) a b u (Memᴰ.head e) (Memᴰ.tail n) same =
      absurd (u.0 (subst (λ k. Memᴰ k (map key rows)) (cc) (mem-map rows b n)))
  unique_row (c ∷ rows) a b u (Memᴰ.tail m) (Memᴰ.head f) same =
      absurd (u.0 (subst (λ k. Memᴰ k (map key rows)) (cc) (mem-map rows a m)))
  unique_row (c ∷ rows) a b u (Memᴰ.tail m) (Memᴰ.tail n) same = unique_row rows a b u.1 m n same
