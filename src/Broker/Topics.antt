-- ===== src/Broker/Topics.antt =====
-- What a topic filter matches, by MQTT 3.1.1 section 4.7: the specification that the checks are
-- held against.
use deevnet_provisioning_api.Prelude.{
  ◌≡◌, refl, ◌⊎◌, inl, inr, false, List, [], ◌∷◌, arith, All, Text, codes, text_eq_iff, contains,
  ok,
}
use deevnet_provisioning_api.Broker.Patterns.{plus_level, hash_level, check_levels}

-- The levels of a filter against those of a topic.
pub data Matches : List Text → List Text → Type 0 where
  done : Matches [] []
  hash : (level : Text) (topic : List Text) → level ≡ hash_level → Matches (level ∷ []) topic
  plus :
      (level name : Text) {filter topic : List Text}
      → level ≡ plus_level
      → Matches filter topic
      → Matches (level ∷ filter) (name ∷ topic)
  same :
      (level name : Text) {filter topic : List Text}
      → level ≡ name
      → Matches filter topic
      → Matches (level ∷ filter) (name ∷ topic)

-- A topic's levels hold no wildcard.
abbrev pub IsPlain : Text → Type 0
IsPlain level = (contains b'+' level ≡ false) × (contains b'#' level ≡ false)

-- The shapes of a level that is not refused.
abbrev pub LevelForm : Text → List Text → Type 0
LevelForm level levels =
    ((level ≡ hash_level) × (levels ≡ []))
    ⊎ (((level ≡ plus_level) × (check_levels levels ≡ ok tt))
        ⊎ (IsPlain level × (check_levels levels ≡ ok tt)))

pub check_levels-LevelForm :
    (level : Text) (levels : List Text)
    → check_levels (level ∷ levels) ≡ ok tt
    → LevelForm level levels
unfolding check_levels
check_levels-LevelForm level levels h =
    ground (arith, text_eq_iff level plus_level, text_eq_iff level hash_level)

-- A filter without a fault matches some topic.
pub Matches-instance :
    (filter : List Text)
    → check_levels filter ≡ ok tt
    → (topic : List Text) × All IsPlain topic × Matches filter topic
Matches-instance [] h = ([], tt, done)
Matches-instance (level ∷ levels) h = elim (check_levels-LevelForm level levels h) [
  | inl (is_hash, last) ↦ ([], tt, rw last (hash level [] is_hash))
  | inr (inl (is_plus, later)) ↦
      (let (topic, plain, m) = Matches-instance levels later in
        (
          codes "x" ∷ topic,
          ((unfold contains in (refl, refl)), plain),
          plus level (codes "x") is_plus m,
        ))
  | inr (inr (here, later)) ↦
      (let (topic, plain, m) = Matches-instance levels later in
        (level ∷ topic, (here, plain), same level level refl m))
]
