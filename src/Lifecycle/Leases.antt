-- ===== src/Lifecycle/Leases.antt =====
-- What the service promises of its indexes, without the table of internal/store/store.go that keeps
-- them: a book of who holds which, in which a name without an index takes one that nobody holds,
-- and gives it back.
use deevnet_provisioning_api.Prelude.{
  ℕ, ◌≤◌, ◌≡◌, ◌≢◌, refl, sym, subst, ap₂, false, Bool-cases, inl, inr, Option, none, some, List,
  [], ◌∷◌, ◌++◌, Text, text_eq, text_eq_iff, text_eq_refl, eq_of_text_eq, arith, if◌then◌else◌,
}
use mathlib.Core.List.{Memᴰ}
use deevnet_provisioning_api.Registry.Tenants.{without, holds_name}

-- The index that a name holds.
abbrev pub Book : Type 0
Book = Text → Option ℕ

abbrev pub with_lease : Text → Option ℕ → Book → Book
with_lease name index book asked = if text_eq asked name then index else book asked

pub data LeaseRun (start : Book) : Book → Type 0 where
  rests : LeaseRun start start
  takes :
      {book : Book} (name : Text) (n : ℕ)
      → LeaseRun start book
      → book name ≡ none
      → ((other : Text) → book other ≢ some n)
      → 1 ≤ n
      → n ≤ 62
      → LeaseRun start (with_lease name (some n) book)
  gives_back :
      {book : Book} (name : Text) → LeaseRun start book → LeaseRun start (with_lease name none book)

pub run_on : {one other last : Book} → LeaseRun one other → LeaseRun other last → LeaseRun one last
run_on first rests = first
run_on first (takes name n rest absent fresh lo hi) =
    takes name n (run_on first rest) absent fresh lo hi
run_on first (gives_back name rest) = gives_back name (run_on first rest)

-- The book that the rows of the table stand for, whatever their order.
unfoldable pub book_of : List (ℕ × Text) → Book
book_of [] asked = none
book_of ((n, name) ∷ held) asked = if text_eq asked name then some n else book_of held asked

head_mem :
    (k n : ℕ) (name asked : Text) (held : List (ℕ × Text))
    → some k ≡ some n
    → asked ≡ name
    → Memᴰ (n, asked) ((k, name) ∷ held)
head_mem k n name asked held h e =
    let same : k ≡ n = cc in Memᴰ.head (ap₂ (λ (a : ℕ) (b : Text). (a, b)) (sym same) e)

pub book_of-mem :
    (held : List (ℕ × Text)) (asked : Text) (n : ℕ)
    → book_of held asked ≡ some n
    → Memᴰ (n, asked) held
unfolding book_of
book_of-mem [] asked n h = absurd (cc)
book_of-mem ((k, name) ∷ held) asked n h = elim (Bool-cases (text_eq asked name)) [
  | inl e ↦ head_mem k n name asked held (rw e at h) (eq_of_text_eq asked name e)
  | inr e ↦ Memᴰ.tail (book_of-mem held asked n (rw e at h))
]

-- A name without a row holds nothing.
pub book_of-absent :
    (held : List (ℕ × Text)) (name : Text) → holds_name name held ≡ false → book_of held name ≡ none
unfolding book_of holds_name
book_of-absent [] name h = refl
book_of-absent ((k, other) ∷ held) name h =
    ground (arith, book_of-absent held name, text_eq_iff name other, text_eq_iff other name)

book_of-snoc :
    (held : List (ℕ × Text)) (n : ℕ) (name asked : Text)
    → book_of held name ≡ none
    → book_of (held ++ (n, name) ∷ []) asked ≡ with_lease name (some n) (book_of held) asked
unfolding book_of
book_of-snoc [] n name asked h = refl
book_of-snoc ((k, other) ∷ held) n name asked h = ground (
  arith,
  book_of-snoc held n name asked,
  text_eq_iff asked other,
  text_eq_iff asked name,
  text_eq_refl other,
)

book_of-without :
    (held : List (ℕ × Text)) (name asked : Text)
    → book_of (without (λ (p : ℕ × Text). p.1) name held) asked
      ≡ with_lease name none (book_of held) asked
unfolding book_of without
book_of-without [] name asked = ground arith
book_of-without ((k, other) ∷ held) name asked = ground (
  arith,
  book_of-without held name asked,
  text_eq_iff asked other,
  text_eq_iff asked name,
  text_eq_iff other name,
)

-- A new row, and the rows without those of a name, in the book.
pub taken :
    (held : List (ℕ × Text)) (n : ℕ) (name : Text)
    → holds_name name held ≡ false
    → ((holder : Text) → ¬ (Memᴰ (n, holder) held))
    → 1 ≤ n
    → n ≤ 62
    → LeaseRun (book_of held) (book_of (held ++ (n, name) ∷ []))
taken held n name absent fresh lo hi =
    subst (λ b. LeaseRun (book_of held) b)
      (λ i asked. sym (book_of-snoc held n name asked (book_of-absent held name absent)) i)
      (takes name n rests (book_of-absent held name absent)
        (λ other h. fresh other (book_of-mem held other n h)) lo hi)

pub given_back :
    (held : List (ℕ × Text)) (name : Text)
    → LeaseRun (book_of held) (book_of (without (λ (p : ℕ × Text). p.1) name held))
given_back held name =
    subst (λ b. LeaseRun (book_of held) b) (λ i asked. sym (book_of-without held name asked) i)
      (gives_back name rests)
