-- ===== src/Prelude/Strings.antt =====
-- A Go string is its list of bytes. What the program uses of the package strings.
use Prim.Native.Char.{code}
use Prim.Native.String.{String}
use Prim.Native.Nat.{ℕ}
use mathlib.Core.Path.{◌≡◌, refl, sym, ap, ap₂, ◌∙◌}
use mathlib.Core.Logic.{◌↔◌, ◌≢◌, inl, inr}
use mathlib.Core.Bool.{Bool, true, false, ◌&&◌, ◌||◌}
use mathlib.Core.List.{List, [], ◌∷◌, ◌++◌}
use native.Mathlib.Omega.{arith}
use deevnet_provisioning_api.Prelude.Tests.{◌==◌, ==_iff, if◌then◌else◌, and-eq-true, Bool-cases}
use deevnet_provisioning_api.Prelude.Lists.{All}

abbrev pub Text : Type 0
Text = List ℕ

-- The bytes of an ASCII literal.
abbrev pub codes : String → Text
codes String.[] = []
codes (String.◌∷◌ c s) = code c ∷ codes s

-- s == t
unfoldable pub text_eq : Text → Text → Bool
text_eq [] [] = true
text_eq (c ∷ s) (d ∷ t) = c == d && text_eq s t
text_eq _ _ = false

pub text_eq_refl : (s : Text) → text_eq s s ≡ true
unfolding text_eq
text_eq_refl [] = refl
text_eq_refl (c ∷ s) = ground (arith, text_eq_refl s)

pub eq_of_text_eq : (s t : Text) → text_eq s t ≡ true → s ≡ t
unfolding text_eq
eq_of_text_eq [] [] h = refl
eq_of_text_eq (c ∷ s) (d ∷ t) h = ground (arith, eq_of_text_eq s t)
eq_of_text_eq _ _ h = cc

pub text_eq_iff : (s t : Text) → (text_eq s t ≡ true) ↔ (s ≡ t)
text_eq_iff s t = (eq_of_text_eq s t, λ e. rw e (text_eq_refl t))

-- strings.HasPrefix(s, p)
unfoldable pub has_prefix : Text → Text → Bool
has_prefix s [] = true
has_prefix [] (d ∷ p) = false
has_prefix (c ∷ s) (d ∷ p) = c == d && has_prefix s p

pub has_prefix-append : (p s : Text) → has_prefix (p ++ s) p ≡ true
unfolding has_prefix
has_prefix-append [] s = refl
has_prefix-append (c ∷ p) s = ground (arith, has_prefix-append p s)

pub has_prefix_split : (s p : Text) → has_prefix s p ≡ true → (rest : Text) × (s ≡ p ++ rest)
unfolding has_prefix
has_prefix_split s [] h = (s, refl)
has_prefix_split [] (d ∷ p) h = cc
has_prefix_split (c ∷ s) (d ∷ p) h =
    let (here, later) = and-eq-true _ _ h in
    let (rest, e) = has_prefix_split s p later in
    (rest, ap₂ (λ (a : ℕ) (b : Text). a ∷ b) ((==_iff c d).0 here) e)

-- strings.HasSuffix(s, string(c)), for one byte
unfoldable pub ends_in : ℕ → Text → Bool
ends_in c [] = false
ends_in c (d ∷ []) = d == c
ends_in c (d ∷ e ∷ s) = ends_in c (e ∷ s)

-- strings.ContainsRune(s, c), for an ASCII character
unfoldable pub contains : ℕ → Text → Bool
contains c [] = false
contains c (d ∷ s) = d == c || contains c s

pub contains-append : (c : ℕ) (s t : Text) → contains c (s ++ t) ≡ (contains c s || contains c t)
unfolding contains
contains-append c [] t = refl
contains-append c (d ∷ s) t = ground (arith, contains-append c s t)

abbrev pub cons_head : ℕ → List Text → List Text
cons_head c [] = (c ∷ []) ∷ []
cons_head c (part ∷ parts) = (c ∷ part) ∷ parts

-- strings.Split(s, string(sep)), for one byte
unfoldable pub split : ℕ → Text → List Text
split sep [] = [] ∷ []
split sep (c ∷ s) = let rest = split sep s in if c == sep then [] ∷ rest else cons_head c rest

pub split-cons_sep : (sep : ℕ) (s : Text) → split sep (sep ∷ s) ≡ [] ∷ split sep s
unfolding split
split-cons_sep sep s = ground arith

pub split_free : (sep : ℕ) (s : Text) → contains sep s ≡ false → split sep s ≡ s ∷ []
unfolding split contains
split_free sep [] h = refl
split_free sep (c ∷ s) h = ground (arith, split_free sep s)

-- The first part ends at the first separator.
pub split-append :
    (sep : ℕ) (s t : Text) → contains sep s ≡ false → split sep (s ++ sep ∷ t) ≡ s ∷ split sep t
unfolding split contains
split-append sep [] t h = ground arith
split-append sep (c ∷ s) t h = ground (arith, split-append sep s t)

-- Texts joined by a separator: what split takes apart.
unfoldable pub join : ℕ → List Text → Text
join sep [] = []
join sep (part ∷ []) = part
join sep (part ∷ next ∷ parts) = part ++ sep ∷ join sep (next ∷ parts)

join-cons_head :
    (sep c : ℕ) (part : Text) (parts : List Text)
    → join sep ((c ∷ part) ∷ parts) ≡ c ∷ join sep (part ∷ parts)
unfolding join
join-cons_head sep c part [] = refl
join-cons_head sep c part (next ∷ parts) = refl

split-cons :
    (sep : ℕ) (s : Text) → (part : Text) × (parts : List Text) × (split sep s ≡ part ∷ parts)
unfolding split
split-cons sep [] = ([], [], refl)
split-cons sep (c ∷ s) =
    let (part, parts, e) = split-cons sep s in
    elim (Bool-cases (c == sep)) [
      | inl same ↦ ([], split sep s, rw same refl)
      | inr other ↦ (c ∷ part, parts, rw other (rw e refl))
    ]

join-nil_cons :
    (sep : ℕ) (parts : List Text) → parts ≢ [] → join sep ([] ∷ parts) ≡ sep ∷ join sep parts
unfolding join
join-nil_cons sep [] h = absurd (h refl)
join-nil_cons sep (part ∷ parts) h = refl

pub join-split : (sep : ℕ) (s : Text) → join sep (split sep s) ≡ s
unfolding split
join-split sep [] = (unfold join in refl)
join-split sep (c ∷ s) =
    let (part, parts, e) = split-cons sep s in
    let ih = join-split sep s in
    elim (Bool-cases (c == sep)) [
      | inl same ↦ rw same (
          join-nil_cons sep (split sep s) (λ none_left. cc e)
          ∙ ap₂ (λ (a : ℕ) (b : Text). a ∷ b) (sym ((==_iff c sep).0 same)) ih)
      | inr other ↦ rw other (
          rw e (
            join-cons_head sep c part parts
            ∙ ap (λ (x : Text). c ∷ x) (sym (ap (join sep) e) ∙ ih)))
    ]

pub split-All_free : (sep : ℕ) (s : Text) → All (λ part. contains sep part ≡ false) (split sep s)
unfolding split contains
split-All_free sep [] = (refl, tt)
split-All_free sep (c ∷ s) =
    let (part, parts, e) = split-cons sep s in
    let ih = split-All_free sep s in
    elim (Bool-cases (c == sep)) [
      | inl same ↦ rw same (refl, ih)
      | inr other ↦ rw other (rw e (let ih' = rw e at ih in (ground arith, ih'.1)))
    ]
