-- ===== src/Alloc/Index.antt =====
-- pickIndex of internal/tenant/service.go. The registry's map from index to tenant and the list of
-- the fabric's claims are lists; `none` is ErrExhausted.
mod Search
pub mod Freedom
pub mod Choice
mod Tests
use deevnet_provisioning_api.Prelude.{
  ℕ, zero, suc, ◌+◌, Bool, true, false, not, ◌&&◌, ◌||◌, Option, none, some, List, [], ◌∷◌, all,
  leb, Text, text_eq, ◌==◌, if◌then◌else◌,
}
use deevnet_provisioning_api.Site.{min_index, max_allocatable}

pub record Claim : Type 0 where
  pub index : ℕ
  pub zone : Text

-- fabric[n]
unfoldable pub zones_at : ℕ → List Claim → List Text
zones_at n [] = []
zones_at n (c ∷ claims) =
    let rest = zones_at n claims in if c.index == n then c.zone ∷ rest else rest

-- `_, taken := held[n]`
unfoldable pub is_held : ℕ → List (ℕ × Text) → Bool
is_held n [] = false
is_held n ((index, holder) ∷ held) = index == n || is_held n held

-- The indexes of the fabric's zones that carry the name.
unfoldable pub own_indexes : Text → List Claim → List ℕ
own_indexes name [] = []
own_indexes name (c ∷ claims) =
    let rest = own_indexes name claims in if text_eq c.zone name then c.index ∷ rest else rest

-- sort.Ints
unfoldable pub insert_int : ℕ → List ℕ → List ℕ
insert_int n [] = n ∷ []
insert_int n (m ∷ ms) = if leb n m then n ∷ m ∷ ms else m ∷ insert_int n ms

unfoldable pub sort_ints : List ℕ → List ℕ
sort_ints [] = []
sort_ints (n ∷ ns) = insert_int n (sort_ints ns)

-- The first of a list that passes a test, and the first of a run of numbers.
unfoldable pub first_of_list : (ℕ → Bool) → List ℕ → Option ℕ
first_of_list test [] = none
first_of_list test (n ∷ ns) = if test n then some n else first_of_list test ns

unfoldable pub first_from : (ℕ → Bool) → ℕ → ℕ → Option ℕ
first_from test n zero = none
first_from test n (suc rounds) = if test n then some n else first_from test (suc n) rounds

module _ (name : Text) (held : List (ℕ × Text)) (claims : List Claim) where
  unfoldable pub free : ℕ → Bool
  free n = not (is_held n held) && all (λ zone. text_eq zone name) (zones_at n claims)

  unfoldable pub usable : ℕ → Bool
  usable n = leb min_index n && (leb n max_allocatable && free n)

  unfoldable pub or_lowest : Option ℕ → Option ℕ
  or_lowest (some n) = some n
  or_lowest none = first_from free min_index max_allocatable

  unfoldable pub pick_index : ℕ → Option ℕ
  pick_index requested =
      if not (requested == 0) && free requested
      then some requested
      else or_lowest (first_of_list usable (sort_ints (own_indexes name claims)))
