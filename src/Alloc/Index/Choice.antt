-- ===== src/Alloc/Index/Choice.antt =====
-- Which index a tenant is given.
use deevnet_provisioning_api.Prelude.{
  ℕ, zero, suc, ◌≤◌, ◌<◌, ◌≡◌, ◌≢◌, ◌↔◌, ◌⊎◌, inl, inr, refl, sym, ◌∙◌, true, not, ◌&&◌, Option,
  none, some, List, Text, ◌==◌, Bool-cases, Option-cases, and-eq-true, arith,
}
use mathlib.Core.List.{Memᴰ}
use deevnet_provisioning_api.Alloc.Index.Search.{
  mem-sort_ints, first_of_list-test, first_of_list-ne-none, first_of_sorted-le, first_from-some,
  first_from-below, first_from-none, own_indexes-mem, own-first,
}
use deevnet_provisioning_api.Alloc.Index.Freedom.{IsFree, free_iff}
use deevnet_provisioning_api.Alloc.Index.{
  Claim, own_indexes, sort_ints, first_of_list, first_from, free, usable, or_lowest, pick_index,
}

module _ (name : Text) (held : List (ℕ × Text)) (claims : List Claim) where
  -- A zone of the fabric by the tenant's name, at an index that it may have.
  pub record IsOwn (c : Claim) : Type 0 where
    pub claimed : Memᴰ c claims
    pub named : c.zone ≡ name
    pub low : 1 ≤ c.index
    pub high : c.index ≤ 62
    pub free_index : IsFree name held claims c.index

  abbrev pub own_first : Option ℕ
  own_first = first_of_list (usable name held claims) (sort_ints (own_indexes name claims))

  usable_iff :
      (n : ℕ)
      → (usable name held claims n ≡ true) ↔ ((1 ≤ n) × (n ≤ 62) × IsFree name held claims n)
  unfolding usable
  usable_iff n = (
    λ h. (ground arith, ground arith, (free_iff name held claims n).0 (ground arith)),
    λ h.
        (let f = (free_iff name held claims n).1 h.2 in
          let lo = h.0 in let hi = h.1 in ground arith),
  )

  own_first-le : (n : ℕ) (c : Claim) → own_first ≡ some n → IsOwn c → n ≤ c.index
  own_first-le n c h o =
      first_of_sorted-le (usable name held claims) (own_indexes name claims) n c.index h
        (own_indexes-mem name claims c o.claimed o.named)
        ((usable_iff c.index).1 (o.low, o.high, o.free_index))

  own_first-IsOwn : (n : ℕ) → own_first ≡ some n → (c : Claim) × IsOwn c × (c.index ≡ n)
  own_first-IsOwn n h =
      let (low, high, f) =
        (usable_iff n).0 (
          first_of_list-test (usable name held claims) (sort_ints (own_indexes name claims)) n h) in
      let (c, m, zone, same) =
        own-first (λ k. (c : Claim) × Memᴰ c claims × (c.zone ≡ name) × (c.index ≡ k))
          (usable name held claims) name claims n (λ c m z. (c, m, z, refl)) h in
      (
        c,
        record {
          claimed = m;
          named = zone;
          low = rw same low;
          high = rw same high;
          free_index = rw same f;
        },
        same,
      )

  own_first-ne-none : (c : Claim) → IsOwn c → own_first ≢ none
  own_first-ne-none c o =
      first_of_list-ne-none (usable name held claims) (sort_ints (own_indexes name claims)) c.index
        (mem-sort_ints c.index (own_indexes name claims)
          (own_indexes-mem name claims c o.claimed o.named))
        ((usable_iff c.index).1 (o.low, o.high, o.free_index))

  abbrev pub IsUsableRequest : ℕ → Type 0
  IsUsableRequest requested = (requested ≢ 0) × IsFree name held claims requested

  pick_index-request :
      (requested : ℕ)
      → IsUsableRequest requested
      → pick_index name held claims requested ≡ some requested
  unfolding pick_index
  pick_index-request requested u =
      let f = (free_iff name held claims requested).1 u.1 in let ne = u.0 in ground arith

  pick_index-no_request :
      (requested : ℕ)
      → ¬ (IsUsableRequest requested)
      → pick_index name held claims requested ≡ or_lowest name held claims own_first
  unfolding pick_index
  pick_index-no_request requested u =
      elim (Bool-cases (not (requested == 0) && free name held claims requested)) [
        | inl e ↦
            (let (ne, f) = and-eq-true _ _ e in
              absurd (u (ne_of_test requested ne, (free_iff name held claims requested).0 f)))
        | inr e ↦ rw e refl
      ]
    where
      ne_of_test : (n : ℕ) → not (n == 0) ≡ true → n ≢ 0
      ne_of_test n h = ground arith

  dec_request : (requested : ℕ) → (IsUsableRequest requested) ⊎ (¬ (IsUsableRequest requested))
  dec_request zero = inr (λ u. u.0 refl)
  dec_request (suc n) = elim (Bool-cases (free name held claims (suc n))) [
    | inl e ↦ inl ((omega arith), (free_iff name held claims (suc n)).0 e)
    | inr e ↦ inr (λ u. (let f = (free_iff name held claims (suc n)).1 u.1 in ground arith))
  ]

  or_lowest-lowest :
      (n m : ℕ)
      → or_lowest name held claims own_first ≡ some n
      → ((c : Claim) → ¬ (IsOwn c))
      → 1 ≤ m
      → m < n
      → ¬ (IsFree name held claims m)
  unfolding or_lowest
  or_lowest-lowest n m h none_own lo lt f = elim (Option-cases own_first) [
    | inl e ↦
        (let found : first_from (free name held claims) 1 62 ≡ some n = ground arith in
          let taken = first_from-below (free name held claims) 1 62 n m found lo lt in
          let fr = (free_iff name held claims m).1 f in ground arith)
    | inr (k, e) ↦ (let (c, o, same) = own_first-IsOwn k e in none_own c o)
  ]

  or_lowest-usable :
      (n : ℕ)
      → or_lowest name held claims own_first ≡ some n
      → (1 ≤ n) × (n ≤ 62) × IsFree name held claims n
  unfolding or_lowest
  or_lowest-usable n h = elim (Option-cases own_first) [
    | inl e ↦
        (let found : first_from (free name held claims) 1 62 ≡ some n = ground arith in
          let (f, lo, hi) = first_from-some (free name held claims) 1 62 n found in
          (lo, omega arith, (free_iff name held claims n).0 f))
    | inr (k, e) ↦
        (let (c, o, same) = own_first-IsOwn k e in
          let eq : c.index ≡ n = ground arith in rw (← eq) (o.low, o.high, o.free_index))
  ]

  -- What a tenant is given, as the decision records put it.
  pub record IsChosen (requested n : ℕ) : Type 0 where
    pub free_index : IsFree name held claims n
    pub in_range : (n ≡ requested) ⊎ ((1 ≤ n) × (n ≤ 62))
    pub request_kept : IsUsableRequest requested → n ≡ requested
    pub own_kept :
        ¬ (IsUsableRequest requested)
        → (c : Claim) → IsOwn c
        → ((d : Claim) × IsOwn d × (d.index ≡ n)) × (n ≤ c.index)
    pub lowest :
        ¬ (IsUsableRequest requested)
        → ((c : Claim) → ¬ (IsOwn c))
        → (m : ℕ) → 1 ≤ m
        → m < n
        → ¬ (IsFree name held claims m)

  or_lowest-IsOwn :
      (n : ℕ) (c : Claim)
      → or_lowest name held claims own_first ≡ some n
      → IsOwn c
      → ((d : Claim) × IsOwn d × (d.index ≡ n)) × (n ≤ c.index)
  unfolding or_lowest
  or_lowest-IsOwn n c h o = elim (Option-cases own_first) [
    | inl e ↦ absurd (own_first-ne-none c o e)
    | inr (k, e) ↦
        (let eq : k ≡ n = ground arith in
          let e' : own_first ≡ some n = rw eq at e in (own_first-IsOwn n e', own_first-le n c e' o))
  ]

  IsChosen-by_request :
      (requested n : ℕ) → IsUsableRequest requested → n ≡ requested → IsChosen requested n
  IsChosen-by_request requested n u e = record {
    free_index = rw e u.1;
    in_range = inl e;
    request_kept = λ _. e;
    own_kept = λ none_usable c o. absurd (none_usable u);
    lowest = λ none_usable no_own m lo lt f. none_usable u;
  }

  IsChosen-without_request :
      (requested n : ℕ)
      → ¬ (IsUsableRequest requested)
      → or_lowest name held claims own_first ≡ some n
      → IsChosen requested n
  IsChosen-without_request requested n v h =
      let (lo, hi, f) = or_lowest-usable n h in
      record {
        free_index = f;
        in_range = inr (lo, hi);
        request_kept = λ u. absurd (v u);
        own_kept = λ _ c o. or_lowest-IsOwn n c h o;
        lowest = λ _ no_own m l k. or_lowest-lowest n m h no_own l k;
      }

  -- The index that a tenant is given is free: no registry row holds it and no other tenant's zone
  -- carries it. It is the one requested if that is free; otherwise, with zones of its own on the
  -- fabric at free indexes from 1 to 62, the lowest of those; otherwise the lowest free one from 1
  -- to 62.
  pub pick_index-IsChosen :
      (requested n : ℕ) → pick_index name held claims requested ≡ some n → IsChosen requested n
  pick_index-IsChosen requested n h = elim (dec_request requested) [
    | inl u ↦
        (let same = pick_index-request requested u in
          IsChosen-by_request requested n u (ground arith))
    | inr v ↦ IsChosen-without_request requested n v (sym (pick_index-no_request requested v) ∙ h)
  ]

  or_lowest-ne-none :
      (m : ℕ)
      → 1 ≤ m
      → m ≤ 62
      → IsFree name held claims m
      → or_lowest name held claims own_first ≢ none
  unfolding or_lowest
  or_lowest-ne-none m lo hi f h = elim (Option-cases own_first) [
    | inl e ↦
        (let gone : first_from (free name held claims) 1 62 ≡ none = ground arith in
          let taken = first_from-none (free name held claims) 1 62 m gone lo (omega arith) in
          let fr = (free_iff name held claims m).1 f in ground arith)
    | inr (k, e) ↦ ground arith
  ]

  -- A tenant is refused an index exactly when the one requested is not free, or none is requested,
  -- and no index from 1 to 62 is free.
  pub pick_index-none_iff :
      (requested : ℕ)
      → (pick_index name held claims requested ≡ none) ↔ (
          ¬ (IsUsableRequest requested)
          × ((m : ℕ) → 1 ≤ m → m ≤ 62 → ¬ (IsFree name held claims m)))
  pick_index-none_iff requested = (
    λ h. (
      λ u. (let same = pick_index-request requested u in ground arith),
      λ m lo hi f. elim (dec_request requested) [
        | inl u ↦ (let same = pick_index-request requested u in ground arith)
        | inr v ↦ or_lowest-ne-none m lo hi f (sym (pick_index-no_request requested v) ∙ h)
      ],
    ),
    λ h. elim (Option-cases (pick_index name held claims requested)) [
      | inl e ↦ e
      | inr (n, e) ↦
          (let (lo, hi, f) = or_lowest-usable n (sym (pick_index-no_request requested h.0) ∙ e) in
            absurd (h.1 n lo hi f))
    ],
  )

  -- The index stands in no row, and is one that the table takes, if the one requested is.
  pub pick_index-is_new :
      (requested n : ℕ)
      → requested ≤ 62
      → pick_index name held claims requested ≡ some n
      → (1 ≤ n) × (n ≤ 62) × ((holder : Text) → ¬ (Memᴰ (n, holder) held))
  pick_index-is_new requested n bound h = elim (dec_request requested) [
    | inl u ↦
        (let same = pick_index-request requested u in
          let eq : requested ≡ n = ground arith in
          let ne = u.0 in (omega arith, omega arith, rw (← eq) u.1.unheld))
    | inr v ↦
        (let (lo, hi, f) = or_lowest-usable n (sym (pick_index-no_request requested v) ∙ h) in
          (lo, hi, f.unheld))
  ]
