-- ===== src/Mac/Forms.antt =====
-- The canonical form of a MAC address, and what the two spellings have in common.
use deevnet_provisioning_api.Prelude.{
  ℕ, zero, suc, ◌*◌, ◌-◌, ◌≡◌, refl, true, Option, none, some, [], ◌∷◌, arith, length, all, map,
  Text, Option-cases, inl, inr,
}
use deevnet_provisioning_api.Mac.{
  is_lower_hex, cons_digit, to_upper, keep_digit, hex_digits, pairs, spell, normalize_mac,
  controller_byte,
}

keep_digit-lower_hex :
    (c : ℕ) (rest : Option Text) → is_lower_hex c ≡ true → keep_digit c rest ≡ cons_digit c rest
unfolding keep_digit
keep_digit-lower_hex c rest h = ground arith

keep_digit-colon : (rest : Option Text) → keep_digit b':' rest ≡ rest
unfolding keep_digit
keep_digit-colon rest = refl

-- Every kept digit is a digit or a lower-case letter up to f.
keep_digit-all :
    (c : ℕ) (rest : Option Text) (digits : Text)
    → ((ds : Text) → rest ≡ some ds → all is_lower_hex ds ≡ true)
    → keep_digit c rest ≡ some digits
    → all is_lower_hex digits ≡ true
unfolding keep_digit
keep_digit-all c none digits ih h = ground arith
keep_digit-all c (some ds) digits ih h = ground (arith, ih ds)

hex_digits-all : (s digits : Text) → hex_digits s ≡ some digits → all is_lower_hex digits ≡ true
unfolding hex_digits
hex_digits-all [] digits h = ground arith
hex_digits-all (c ∷ s) digits h = keep_digit-all c (hex_digits s) digits (hex_digits-all s) h

hex_digits-cons :
    (c : ℕ) (s : Text) → is_lower_hex c ≡ true → hex_digits (c ∷ s) ≡ cons_digit c (hex_digits s)
unfolding hex_digits
hex_digits-cons c s h = keep_digit-lower_hex c (hex_digits s) h

abbrev IsEven : Text → Type 0
IsEven [] = Unit
IsEven (a ∷ []) = ⊥
IsEven (a ∷ b ∷ s) = IsEven s

IsEven-of_length : (k : ℕ) (s : Text) → length s ≡ k * 2 → IsEven s
IsEven-of_length zero [] h = tt
IsEven-of_length zero (a ∷ s) h = absurd (omega arith)
IsEven-of_length (suc k) [] h = tt
IsEven-of_length (suc k) (a ∷ []) h = absurd (omega arith)
IsEven-of_length (suc k) (a ∷ b ∷ s) h = IsEven-of_length k s (omega arith)

-- A spelling of each byte that keeps the digits and the separators.
pub record IsSpelling (f : ℕ → ℕ) : Type 0 where
  pub digit :
      (c : ℕ) (rest : Option Text)
      → is_lower_hex c ≡ true
      → keep_digit (f c) rest ≡ cons_digit c rest
  pub colon : (rest : Option Text) → keep_digit (f b':') rest ≡ rest

hex_digits-pairs :
    (f : ℕ → ℕ) (ds : Text)
    → IsSpelling f
    → IsEven ds
    → all is_lower_hex ds ≡ true
    → hex_digits (map f (pairs ds)) ≡ some ds
unfolding pairs hex_digits
hex_digits-pairs f [] sp e h = refl
hex_digits-pairs f (a ∷ []) sp e h = absurd e
hex_digits-pairs f (a ∷ b ∷ []) sp e h =
    rw (sp.digit a _ (ground arith)) (rw (sp.digit b _ (ground arith)) refl)
hex_digits-pairs f (a ∷ b ∷ c ∷ s) sp e h = rw (sp.digit a _ (ground arith)) (
    rw (sp.digit b _ (ground arith))
      (rw (sp.colon _) (rw (hex_digits-pairs f (c ∷ s) sp e (ground arith)) refl)))

pub controller_byte-IsSpelling : IsSpelling controller_byte
unfolding controller_byte keep_digit to_upper
controller_byte-IsSpelling = record { digit = λ c rest h. ground arith; colon = λ rest. refl }

pub id-IsSpelling : IsSpelling (λ c. c)
id-IsSpelling = record { digit = keep_digit-lower_hex; colon = keep_digit-colon }

pub length-pairs : (k : ℕ) (ds : Text) → length ds ≡ suc k * 2 → length (pairs ds) ≡ suc k * 3 - 1
unfolding pairs
length-pairs k [] h = absurd (omega arith)
length-pairs k (a ∷ []) h = absurd (omega arith)
length-pairs k (a ∷ b ∷ []) h = omega arith
length-pairs zero (a ∷ b ∷ c ∷ s) h = absurd (omega arith)
length-pairs (suc k) (a ∷ b ∷ c ∷ s) h = omega (arith, length-pairs k (c ∷ s))

-- The digits behind a normalized address.
pub record IsSpelled (digits m : Text) : Type 0 where
  pub twelve : length digits ≡ 12
  pub hex : all is_lower_hex digits ≡ true
  pub spelled : m ≡ pairs digits

pub normalize_mac-IsSpelled :
    (s m : Text)
    → normalize_mac s ≡ some m
    → (digits : Text) × (hex_digits s ≡ some digits) × IsSpelled digits m
unfolding normalize_mac
normalize_mac-IsSpelled s m h = elim (Option-cases (hex_digits s)) [
  | inl e ↦ (let k : spell none ≡ some m = rw e at h in absurd (cc))
  | inr (ds, e) ↦
      (ds, e, record { twelve = ground arith; hex = hex_digits-all s ds e; spelled = ground arith })
]

pub normalize-pairs :
    (f : ℕ → ℕ) (digits m : Text)
    → IsSpelling f
    → IsSpelled digits m
    → normalize_mac (map f m) ≡ some m
unfolding normalize_mac
normalize-pairs f digits m sp i = rw i.spelled (
    rw (hex_digits-pairs f digits sp (IsEven-of_length 6 digits i.twelve) i.hex)
      (ground (arith, i.twelve)))
