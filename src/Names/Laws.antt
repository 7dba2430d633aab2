-- ===== src/Names/Laws.antt =====
-- What a valid name is free of, and that it has a single reading beside a dash or a dot.
use deevnet_provisioning_api.Prelude.{
  ℕ, ◌≤◌, ◌≡◌, refl, true, false, [], ◌∷◌, ◌++◌, length, all, arith, Text, contains, ◌==◌,
}
use deevnet_provisioning_api.Names.{
  is_lower, is_digit, is_name_byte, is_label_byte, is_label, valid_workload_name, valid_name,
}

name_byte-ne : (c d : ℕ) → is_name_byte d ≡ true → is_name_byte c ≡ false → (d == c) ≡ false
unfolding is_name_byte is_lower is_digit
name_byte-ne c d h k = ground arith

all_name_byte-free :
    (c : ℕ) (s : Text) → is_name_byte c ≡ false → all is_name_byte s ≡ true → contains c s ≡ false
unfolding contains
all_name_byte-free c [] h k = refl
all_name_byte-free c (d ∷ s) h k = ground (arith, name_byte-ne c d, all_name_byte-free c s)

valid_name-all : (s : Text) → valid_name s ≡ true → all is_name_byte s ≡ true
unfolding valid_name is_name_byte
valid_name-all [] h = cc
valid_name-all (c ∷ s) h = ground arith

pub valid_name-free :
    (c : ℕ) (s : Text) → is_name_byte c ≡ false → valid_name s ≡ true → contains c s ≡ false
valid_name-free c s h k = all_name_byte-free c s h (valid_name-all s k)

label_byte-ne : (c d : ℕ) → is_label_byte d ≡ true → is_label_byte c ≡ false → (d == c) ≡ false
unfolding is_label_byte is_name_byte is_lower is_digit
label_byte-ne c d h k = ground arith

all_label_byte-free :
    (c : ℕ) (s : Text) → is_label_byte c ≡ false → all is_label_byte s ≡ true → contains c s ≡ false
unfolding contains
all_label_byte-free c [] h k = refl
all_label_byte-free c (d ∷ s) h k = ground (arith, label_byte-ne c d, all_label_byte-free c s)

valid_workload_name-all : (s : Text) → valid_workload_name s ≡ true → all is_label_byte s ≡ true
unfolding valid_workload_name is_label is_label_byte is_name_byte
valid_workload_name-all [] h = cc
valid_workload_name-all (c ∷ s) h = ground arith

pub valid_workload_name-free :
    (c : ℕ) (s : Text)
    → is_label_byte c ≡ false
    → valid_workload_name s ≡ true
    → contains c s ≡ false
valid_workload_name-free c s h k = all_label_byte-free c s h (valid_workload_name-all s k)

pub length-valid_name : (s : Text) → valid_name s ≡ true → (1 ≤ length s) × (length s ≤ 8)
unfolding valid_name
length-valid_name [] h = cc
length-valid_name (c ∷ s) h = (omega arith, ground arith)

-- What stands before the first separator is determined by the whole text.
pub append_injective_free :
    (c : ℕ) (s t u v : Text)
    → contains c s ≡ false
    → contains c t ≡ false
    → (s ++ c ∷ u) ≡ (t ++ c ∷ v)
    → (s ≡ t) × (u ≡ v)
unfolding contains
append_injective_free c [] [] u v h k e = (refl, cc)
append_injective_free c [] (d ∷ t) u v h k e = ground arith
append_injective_free c (d ∷ s) [] u v h k e = ground arith
append_injective_free c (a ∷ s) (b ∷ t) u v h k e =
    let (same, rest) =
      append_injective_free c s t u v (ground arith) (ground arith) (ground arith) in
    (ground arith, rest)
