-- ===== src/Certificates/Named.antt =====
-- The names that internal/tenant/certificates.go builds for a certificate, and the comparison with
-- those that the signer's certificate has.
use deevnet_provisioning_api.Prelude.{
  ◌≡◌, refl, sym, subst, ◌⊎◌, inl, inr, Bool-cases, true, false, not, List, [], ◌∷◌, ◌++◌, All,
  All-append, Text, codes, text_eq, eq_of_text_eq, ok, >>=-eq-ok, refuse_if, arith, length, ltb,
}
use deevnet_provisioning_api.Names.{valid_workload_name}
use deevnet_provisioning_api.Site.{Site, service_zone, site_zone, certificate_site_list}
use deevnet_provisioning_api.Certificates.Checks.{
  has_name, check_label, more_labels, certificate_labels, more_sites, certificate_sites, in_zone,
  names_at_sites, certificate_names, text_leb, insert_text, sort_texts, names_eq, same_names,
}

-- A label that a tenant may ask for
pub record IsLabel (label : Text) : Type 0 where
  pub valid : valid_workload_name label ≡ true
  pub free : text_eq label (codes "device") ≡ false

-- A site that the tenant may name a service at: the API's own, or one that it issues for.
abbrev pub IsServed : Site → Text → Type 0
IsServed site at = (at ≡ site.name) ⊎ (has_name (certificate_site_list site) at ≡ true)

-- A label in one of the tenant's own zones.
pub data IsOwn (site : Site) (tenant name : Text) : Type 0 where
  everywhere :
      (label : Text)
      → IsLabel label
      → name ≡ label ++ b'.' ∷ service_zone site tenant
      → IsOwn site tenant name
  at_site :
      (label at : Text)
      → IsLabel label
      → IsServed site at
      → name ≡ label ++ b'.' ∷ site_zone site tenant at
      → IsOwn site tenant name

check_label-IsLabel :
    (labels : List Text) (label : Text) → check_label labels label ≡ ok tt → IsLabel label
unfolding check_label
check_label-IsLabel labels label h = ground arith

more_labels-IsLabel :
    (labels more out : List Text)
    → All IsLabel labels
    → more_labels labels more ≡ ok out
    → All IsLabel out
unfolding more_labels
more_labels-IsLabel labels [] out h e =
    let same : labels ≡ out = cc in subst (λ l. All IsLabel l) same h
more_labels-IsLabel labels (label ∷ more) out h e =
    let (d, checked, rest) = >>=-eq-ok (check_label labels label) _ e in
    more_labels-IsLabel (labels ++ label ∷ []) more out
      (All-append IsLabel labels (label ∷ []) h (check_label-IsLabel labels label checked, tt)) rest

pub certificate_labels-IsLabel :
    (name : Text) (more labels : List Text)
    → certificate_labels name more ≡ ok labels
    → All IsLabel labels
unfolding certificate_labels
certificate_labels-IsLabel name more labels h =
    let (d, valid, h₁) = >>=-eq-ok (refuse_if (not (valid_workload_name name)) _) _ h in
    let (d₂, free, h₂) = >>=-eq-ok (refuse_if (text_eq name (codes "device")) _) _ h₁ in
    let (out, built, h₃) = >>=-eq-ok (more_labels (name ∷ []) more) _ h₂ in
    let (d₃, few, h₄) = >>=-eq-ok (refuse_if (ltb 8 (length out)) _) _ h₃ in
    let same : out ≡ labels = cc in
    subst (λ l. All IsLabel l) same
      (more_labels-IsLabel (name ∷ []) more out
        (record { valid = ground arith; free = ground arith }, tt) built)

more_sites-IsServed :
    (site : Site) (out asked sites : List Text)
    → All (IsServed site) out
    → more_sites (certificate_site_list site) out asked ≡ ok sites
    → All (IsServed site) sites
unfolding more_sites
more_sites-IsServed site out [] sites h e =
    let same : out ≡ sites = cc in subst (λ l. All (IsServed site) l) same h
more_sites-IsServed site out (at ∷ asked) sites h e =
    let (d, known, h₁) =
      >>=-eq-ok (refuse_if (not (has_name (certificate_site_list site) at)) _) _ e in
    let (d₂, once, h₂) = >>=-eq-ok (refuse_if (has_name out at) _) _ h₁ in
    more_sites-IsServed site (out ++ at ∷ []) asked sites
      (All-append (IsServed site) out (at ∷ []) h (inr (ground arith), tt)) h₂

pub certificate_sites-IsServed :
    (site : Site) (asked sites : List Text)
    → certificate_sites site asked ≡ ok sites
    → All (IsServed site) sites
unfolding certificate_sites
certificate_sites-IsServed site [] sites h =
    let same : site.name ∷ [] ≡ sites = cc in subst (λ l. All (IsServed site) l) same (inl refl, tt)
certificate_sites-IsServed site (first ∷ asked) sites h =
    more_sites-IsServed site [] (first ∷ asked) sites tt h

in_zone-All :
    (P : Text → Type 0) (zone : Text) (labels : List Text)
    → ((label : Text) → IsLabel label → P (label ++ b'.' ∷ zone))
    → All IsLabel labels
    → All P (in_zone zone labels)
in_zone-All P zone [] f h = tt
in_zone-All P zone (label ∷ labels) f h = (f label h.0, in_zone-All P zone labels f h.1)

names_at_sites-IsOwn :
    (site : Site) (tenant : Text) (labels sites : List Text)
    → All IsLabel labels
    → All (IsServed site) sites
    → All (IsOwn site tenant) (names_at_sites site tenant labels sites)
unfolding names_at_sites
names_at_sites-IsOwn site tenant labels [] h k = tt
names_at_sites-IsOwn site tenant labels (at ∷ sites) h k =
    All-append (IsOwn site tenant) (in_zone (site_zone site tenant at) labels) _
      (in_zone-All (IsOwn site tenant) _ labels (λ label l. at_site label at l k.0 refl) h)
      (names_at_sites-IsOwn site tenant labels sites h k.1)

pub certificate_names-IsOwn :
    (site : Site) (tenant : Text) (labels sites : List Text)
    → All IsLabel labels
    → All (IsServed site) sites
    → All (IsOwn site tenant) (certificate_names site tenant labels sites)
unfolding certificate_names
certificate_names-IsOwn site tenant labels sites h k =
    All-append (IsOwn site tenant) (in_zone (service_zone site tenant) labels) _
      (in_zone-All (IsOwn site tenant) _ labels (λ label l. everywhere label l refl) h)
      (names_at_sites-IsOwn site tenant labels sites h k)

-- Sorting moves names only, so what holds of each name holds of each after it, and before it.
module _ (P : Text → Type 0) where
  insert_text-All : (t : Text) (texts : List Text) → P t → All P texts → All P (insert_text t texts)
  unfolding insert_text
  insert_text-All t [] h k = (h, tt)
  insert_text-All t (u ∷ texts) h k = elim (Bool-cases (text_leb t u)) [
    | inl e ↦ rw e (h, k)
    | inr e ↦ rw e (k.0, insert_text-All t texts h k.1)
  ]

  sort_texts-All : (texts : List Text) → All P texts → All P (sort_texts texts)
  unfolding sort_texts
  sort_texts-All [] h = tt
  sort_texts-All (t ∷ texts) h = insert_text-All t (sort_texts texts) h.0 (sort_texts-All texts h.1)

  All-insert_text : (t : Text) (texts : List Text) → All P (insert_text t texts) → P t × All P texts
  unfolding insert_text
  All-insert_text t [] h = (h.0, tt)
  All-insert_text t (u ∷ texts) h = elim (Bool-cases (text_leb t u)) [
    | inl e ↦ let k = rw e at h in (k.0, k.1)
    | inr e ↦
        let k = rw e at h in let (here, rest) = All-insert_text t texts k.1 in (here, (k.0, rest))
  ]

  All-sort_texts : (texts : List Text) → All P (sort_texts texts) → All P texts
  unfolding sort_texts
  All-sort_texts [] h = tt
  All-sort_texts (t ∷ texts) h =
      let (here, rest) = All-insert_text t (sort_texts texts) h in (here, All-sort_texts texts rest)

names_eq-eq : (names more : List Text) → names_eq names more ≡ true → names ≡ more
unfolding names_eq
names_eq-eq [] [] h = refl
names_eq-eq [] (m ∷ more) h = absurd (cc)
names_eq-eq (n ∷ names) [] h = absurd (cc)
names_eq-eq (n ∷ names) (m ∷ more) h = ground (arith, eq_of_text_eq n m, names_eq-eq names more)

pub same_names-All :
    (P : Text → Type 0) (names more : List Text)
    → same_names names more ≡ true
    → All P more
    → All P names
unfolding same_names
same_names-All P names more h k = All-sort_texts P names (
    subst (λ l. All P l) (sym (names_eq-eq (sort_texts names) (sort_texts more) h))
      (sort_texts-All P more k))
