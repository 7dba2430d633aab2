-- ===== src/Alloc/Index/Tests.antt =====
-- Indexes at concrete registries and fabrics.
use deevnet_provisioning_api.Prelude.{
  ℕ, ◌≡◌, ◌≤◌, ◌↔◌, refl, none, some, List, [], ◌∷◌, Text, codes, text_eq,
}
use deevnet_provisioning_api.Alloc.Index.{
  Claim, zones_at, is_held, own_indexes, insert_int, sort_ints, first_of_list, first_from, free,
  usable, or_lowest, pick_index,
}
use deevnet_provisioning_api.Alloc.Index.Freedom.{IsFree}
use deevnet_provisioning_api.Alloc.Index.Choice.{
  IsUsableRequest, IsChosen, pick_index-IsChosen, pick_index-none_iff,
}

picking : Unit {0}
unfolding zones_at is_held own_indexes insert_int sort_ints first_of_list first_from free usable
    or_lowest pick_index text_eq
picking = tt

abbrev held_rows : List (ℕ × Text)
held_rows = (1, codes "eds") ∷ (3, codes "lab") ∷ []

abbrev fabric : List Claim
fabric =
    record { index = 5; zone = codes "web" }
    ∷ record { index = 2; zone = codes "old" }
    ∷ record { index = 4; zone = codes "web" }
    ∷ []

picks :
    (pick_index (codes "web") held_rows fabric 0 ≡ some 4)
    × (pick_index (codes "web") held_rows fabric 5 ≡ some 5)
    × (pick_index (codes "web") held_rows fabric 2 ≡ some 4)
    × (pick_index (codes "new") held_rows fabric 0 ≡ some 6)
    × (pick_index (codes "new") held_rows fabric 9 ≡ some 9)
unfolding picking
picks = (refl, refl, refl, refl, refl)

pick_index-IsChosen_example : IsChosen (codes "web") held_rows fabric 2 4
pick_index-IsChosen_example = pick_index-IsChosen (codes "web") held_rows fabric 2 4 picks.2

pick_index-none_iff_example : (pick_index (codes "web") held_rows fabric 0 ≡ none) ↔ (
    ¬ (IsUsableRequest (codes "web") held_rows fabric 0)
    × ((m : ℕ) → 1 ≤ m → m ≤ 62 → ¬ (IsFree (codes "web") held_rows fabric m)))
pick_index-none_iff_example = pick_index-none_iff (codes "web") held_rows fabric 0
