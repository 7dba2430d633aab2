-- ===== src/Alloc/Index/Search.antt =====
-- The searches of pickIndex: over a sorted list, and upwards from a number.
use deevnet_provisioning_api.Prelude.{
  ℕ, zero, suc, ◌+◌, ◌≤◌, ◌<◌, ◌≡◌, ◌≢◌, ◌⊎◌, inl, inr, refl, sym, ap, subst, Bool, true, false,
  none, some, List, [], ◌∷◌, All, leb, leb_iff, Bool-cases, arith, Text, text_eq, text_eq_iff,
}
use mathlib.Core.List.{Memᴰ}
use native.Mathlib.Decide.{dec_lt}
use deevnet_provisioning_api.Alloc.Index.{
  Claim, own_indexes, insert_int, sort_ints, first_of_list, first_from,
}

All-mem : (P : ℕ → Type 0) (ns : List ℕ) (m : ℕ) → All P ns → Memᴰ m ns → P m
All-mem P [] m h k = elim k [ ]
All-mem P (n ∷ ns) m h (Memᴰ.head e) = subst P (sym e) h.0
All-mem P (n ∷ ns) m h (Memᴰ.tail k) = All-mem P ns m h.1 k

All-le : (n m : ℕ) (ns : List ℕ) → n ≤ m → All (λ k. m ≤ k) ns → All (λ k. n ≤ k) ns
All-le n m [] h a = tt
All-le n m (k ∷ ns) h a = (omega arith, All-le n m ns h a.1)

abbrev pub IsSorted : List ℕ → Type 0
IsSorted [] = Unit
IsSorted (n ∷ ns) = All (λ m. n ≤ m) ns × IsSorted ns

All-insert_int : (P : ℕ → Type 0) (n : ℕ) (ns : List ℕ) → P n → All P ns → All P (insert_int n ns)
unfolding insert_int
All-insert_int P n [] p a = (p, tt)
All-insert_int P n (m ∷ ns) p a = elim (Bool-cases (leb n m)) [
  | inl e ↦ rw e (p, a)
  | inr e ↦ rw e (a.0, All-insert_int P n ns p a.1)
]

insert_int-IsSorted : (n : ℕ) (ns : List ℕ) → IsSorted ns → IsSorted (insert_int n ns)
unfolding insert_int
insert_int-IsSorted n [] s = (tt, tt)
insert_int-IsSorted n (m ∷ ns) s = elim (Bool-cases (leb n m)) [
  | inl e ↦ (let le : n ≤ m = (leb_iff n m).0 e in rw e ((le, All-le n m ns le s.0), s))
  | inr e ↦
      (let le : m ≤ n = ground arith in
        rw e (All-insert_int (λ k. m ≤ k) n ns le s.0, insert_int-IsSorted n ns s.1))
]

sort_ints-IsSorted : (ns : List ℕ) → IsSorted (sort_ints ns)
unfolding sort_ints
sort_ints-IsSorted [] = tt
sort_ints-IsSorted (n ∷ ns) = insert_int-IsSorted n (sort_ints ns) (sort_ints-IsSorted ns)

mem-insert_int : (n m : ℕ) (ns : List ℕ) → (m ≡ n) ⊎ Memᴰ m ns → Memᴰ m (insert_int n ns)
unfolding insert_int
mem-insert_int n m [] (inl e) = Memᴰ.head e
mem-insert_int n m [] (inr k) = elim k [ ]
mem-insert_int n m (x ∷ ns) (inl e) = elim (Bool-cases (leb n x)) [
  | inl b ↦ rw b (Memᴰ.head e)
  | inr b ↦ rw b (Memᴰ.tail (mem-insert_int n m ns (inl e)))
]
mem-insert_int n m (x ∷ ns) (inr (Memᴰ.head e)) = elim (Bool-cases (leb n x)) [
  | inl b ↦ rw b (Memᴰ.tail (Memᴰ.head e))
  | inr b ↦ rw b (Memᴰ.head e)
]
mem-insert_int n m (x ∷ ns) (inr (Memᴰ.tail k)) = elim (Bool-cases (leb n x)) [
  | inl b ↦ rw b (Memᴰ.tail (Memᴰ.tail k))
  | inr b ↦ rw b (Memᴰ.tail (mem-insert_int n m ns (inr k)))
]

pub mem-sort_ints : (m : ℕ) (ns : List ℕ) → Memᴰ m ns → Memᴰ m (sort_ints ns)
unfolding sort_ints
mem-sort_ints m [] k = k
mem-sort_ints m (n ∷ ns) (Memᴰ.head e) = mem-insert_int n m (sort_ints ns) (inl e)
mem-sort_ints m (n ∷ ns) (Memᴰ.tail k) =
    mem-insert_int n m (sort_ints ns) (inr (mem-sort_ints m ns k))

module _ (test : ℕ → Bool) where
  pub first_of_list-test : (ns : List ℕ) (n : ℕ) → first_of_list test ns ≡ some n → test n ≡ true
  unfolding first_of_list
  first_of_list-test [] n h = cc
  first_of_list-test (m ∷ ns) n h = ground (arith, first_of_list-test ns n)

  -- Of a sorted list the first that passes is the least that does.
  first_of_list-le :
      (ns : List ℕ) (n m : ℕ)
      → IsSorted ns
      → first_of_list test ns ≡ some n
      → Memᴰ m ns
      → test m ≡ true
      → n ≤ m
  unfolding first_of_list
  first_of_list-le [] n m s h k t = elim k [ ]
  first_of_list-le (x ∷ ns) n m s h (Memᴰ.head e) t =
      let same : test x ≡ true = rw (← e) t in let eq : x ≡ n = ground arith in omega (arith, e)
  first_of_list-le (x ∷ ns) n m s h (Memᴰ.tail k) t = elim (Bool-cases (test x)) [
    | inl e ↦
        (let eq : x ≡ n = ground arith in
          let le : x ≤ m = All-mem (λ j. x ≤ j) ns m s.0 k in omega arith)
    | inr e ↦ first_of_list-le ns n m s.1 (ground arith) k t
  ]

  pub first_of_list-ne-none :
      (ns : List ℕ) (m : ℕ) → Memᴰ m ns → test m ≡ true → first_of_list test ns ≢ none
  unfolding first_of_list
  first_of_list-ne-none [] m k t = elim k [ ]
  first_of_list-ne-none (x ∷ ns) m (Memᴰ.head e) t =
      let same : test x ≡ true = rw (← e) t in ground arith
  first_of_list-ne-none (x ∷ ns) m (Memᴰ.tail k) t = ground (arith, first_of_list-ne-none ns m k t)

  pub first_of_sorted-le :
      (ns : List ℕ) (n m : ℕ)
      → first_of_list test (sort_ints ns) ≡ some n
      → Memᴰ m ns
      → test m ≡ true
      → n ≤ m
  first_of_sorted-le ns n m h k t =
      first_of_list-le (sort_ints ns) n m (sort_ints-IsSorted ns) h (mem-sort_ints m ns k) t

  pub first_from-some :
      (lo rounds n : ℕ)
      → first_from test lo rounds ≡ some n
      → (test n ≡ true) × (lo ≤ n) × (n < lo + rounds)
  unfolding first_from
  first_from-some lo zero n h = cc
  first_from-some lo (suc rounds) n h = ground (arith, first_from-some (suc lo) rounds n)

  pub first_from-below :
      (lo rounds n m : ℕ) → first_from test lo rounds ≡ some n → lo ≤ m → m < n → test m ≡ false
  unfolding first_from
  first_from-below lo zero n m h l k = cc
  first_from-below lo (suc rounds) n m h l k = elim (dec_lt lo m) [
    | yes later ↦ ground (arith, first_from-below (suc lo) rounds n m)
    | no here ↦ (let eq : m ≡ lo = omega arith in rw eq (ground arith))
  ]

  pub first_from-none :
      (lo rounds m : ℕ)
      → first_from test lo rounds ≡ none
      → lo ≤ m
      → m < lo + rounds
      → test m ≡ false
  unfolding first_from
  first_from-none lo zero m h l k = absurd (omega arith)
  first_from-none lo (suc rounds) m h l k = elim (dec_lt lo m) [
    | yes later ↦ ground (arith, first_from-none (suc lo) rounds m)
    | no here ↦ (let eq : m ≡ lo = omega arith in rw eq (ground arith))
  ]

pub own_indexes-mem :
    (name : Text) (claims : List Claim) (c : Claim)
    → Memᴰ c claims
    → c.zone ≡ name
    → Memᴰ c.index (own_indexes name claims)
unfolding own_indexes
own_indexes-mem name [] c m e = elim m [ ]
own_indexes-mem name (d ∷ claims) c (Memᴰ.head same) e =
    let zone : d.zone ≡ name = rw (← same) e in
    rw ((text_eq_iff d.zone name).1 zone) (Memᴰ.head (ap (λ (x : Claim). x.index) same))
own_indexes-mem name (d ∷ claims) c (Memᴰ.tail m) e =
    let rest = own_indexes-mem name claims c m e in
    elim (Bool-cases (text_eq d.zone name)) [ inl t ↦ rw t (Memᴰ.tail rest) | inr t ↦ rw t rest ]

own_indexes-All :
    (P : ℕ → Type 0) (name : Text) (claims : List Claim)
    → ((c : Claim) → Memᴰ c claims → c.zone ≡ name → P c.index)
    → All P (own_indexes name claims)
unfolding own_indexes
own_indexes-All P name [] h = tt
own_indexes-All P name (d ∷ claims) h =
    let rest = own_indexes-All P name claims (λ c m. h c (Memᴰ.tail m)) in
    elim (Bool-cases (text_eq d.zone name)) [
      | inl t ↦ rw t (h d (Memᴰ.head refl) ((text_eq_iff d.zone name).0 t), rest)
      | inr t ↦ rw t rest
    ]

All-sort_ints : (P : ℕ → Type 0) (ns : List ℕ) → All P ns → All P (sort_ints ns)
unfolding sort_ints
All-sort_ints P [] a = tt
All-sort_ints P (n ∷ ns) a = All-insert_int P n (sort_ints ns) a.0 (All-sort_ints P ns a.1)

first_of_list-All :
    (P : ℕ → Type 0) (test : ℕ → Bool) (ns : List ℕ) (n : ℕ)
    → All P ns
    → first_of_list test ns ≡ some n
    → P n
unfolding first_of_list
first_of_list-All P test [] n a h = (let no_value : none ≡ some n = h in absurd (cc))
first_of_list-All P test (m ∷ ns) n a h = elim (Bool-cases (test m)) [
  | inl e ↦ (let eq : m ≡ n = ground arith in subst P eq a.0)
  | inr e ↦ first_of_list-All P test ns n a.1 (ground arith)
]

-- What holds of the indexes of a tenant's own zones holds of the one that is found.
pub own-first :
    (P : ℕ → Type 0) (test : ℕ → Bool) (name : Text) (claims : List Claim) (n : ℕ)
    → ((c : Claim) → Memᴰ c claims → c.zone ≡ name → P c.index)
    → first_of_list test (sort_ints (own_indexes name claims)) ≡ some n
    → P n
own-first P test name claims n h e =
    first_of_list-All P test (sort_ints (own_indexes name claims)) n
      (All-sort_ints P (own_indexes name claims) (own_indexes-All P name claims h)) e
