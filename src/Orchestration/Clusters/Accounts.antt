-- ===== src/Orchestration/Clusters/Accounts.antt =====
-- No finding is lost when findings are merged: each stands in one cluster, and the finding that the
-- cluster becomes is it, or is linked to from it.
use mathlib.Core.List.Perm
use mathlib.Core.List.{Perm, perm_middle}
use pr_sentinel.Prelude.{
  ℕ, ◌≡◌, ◌⊎◌, inl, inr, refl, sym, subst, Bool, true, false, List, [], ◌∷◌, ◌++◌, ◌==◌, any,
  concat, All, All-map_pred, In, append_assoc, append-nil, In-append, In-append_left, All-In,
  In-append_right, max_of, arith, Bool-cases,
}
use pr_sentinel.Runtime.{Floats, Unicode}
use pr_sentinel.Domain.Enums.{AgentType}
use pr_sentinel.Domain.Models.{Finding}
use pr_sentinel.Orchestration.Titles.{same_issue}
use pr_sentinel.Orchestration.Clusters.{
  Merged, weaker, place, cluster_from, links_to, merged_finding, collapse, collapse_all, merge,
}

-- The finding of `m` is the one called `i`, or was linked to from it.
abbrev pub StandsFor : Merged → ℕ → Type 0
StandsFor m i = (i ≡ m.finding.id) ⊎ In (i, m.finding.id) m.links

abbrev Linked : ℕ → List (ℕ × ℕ) → Finding → Type 0
Linked parent links f = (f.id ≡ parent) ⊎ In (f.id, parent) links

Linked-cons :
    (parent : ℕ) (links : List (ℕ × ℕ)) (l : ℕ × ℕ) (f : Finding)
    → Linked parent links f
    → Linked parent (l ∷ links) f
Linked-cons parent links l f (inl e) = inl e
Linked-cons parent links l f (inr m) = inr (inr m)

links_to_same :
    (parent : ℕ) (f : Finding) (fs : List Finding)
    → (f.id == parent) ≡ true
    → links_to parent (f ∷ fs) ≡ links_to parent fs
unfolding links_to
links_to_same parent f fs h = rw h

links_to_other :
    (parent : ℕ) (f : Finding) (fs : List Finding)
    → (f.id == parent) ≡ false
    → links_to parent (f ∷ fs) ≡ (f.id, parent) ∷ links_to parent fs
unfolding links_to
links_to_other parent f fs h = rw h

abbrev LinkedAll : ℕ → List Finding → List (ℕ × ℕ) → Type 0
LinkedAll parent fs links = All (Linked parent links) fs

pub linked : (parent : ℕ) (fs : List Finding) → LinkedAll parent fs (links_to parent fs)
linked parent [] = tt
linked parent (f ∷ fs) = elim (Bool-cases (f.id == parent)) [
  | inl same ↦
      subst (LinkedAll parent (f ∷ fs)) (sym (links_to_same parent f fs same))
        (inl (ground arith), linked parent fs)
  | inr other ↦ subst (LinkedAll parent (f ∷ fs)) (sym (links_to_other parent f fs other)) (
    inr (inl refl),
    All-map_pred (Linked parent (links_to parent fs))
        (Linked parent ((f.id, parent) ∷ links_to parent fs))
        (Linked-cons parent (links_to parent fs) (f.id, parent)) fs (linked parent fs),
  )
]

collapse-StandsFor :
    (F : Floats) (order : List AgentType → List AgentType) (f : Finding) (fs : List Finding)
    → All (λ g. StandsFor (collapse F order f fs) g.id) (f ∷ fs)
unfolding collapse merged_finding
collapse-StandsFor F order f [] = (inl refl, tt)
collapse-StandsFor F order f (g ∷ fs) = linked (max_of weaker f (g ∷ fs)).id (f ∷ g ∷ fs)

place-perm :
    (same : Finding → Finding → Bool) (f : Finding) (clusters : List (List Finding))
    → Perm (concat (place same f clusters)) (f ∷ concat clusters)
unfolding place
place-perm same f [] = Perm.rfl
place-perm same f (c ∷ cs) = elim (Bool-cases (any (same f) c)) [
  | inl found ↦ rw (found, append_assoc) (perm_middle c (concat cs))
  | inr new ↦
      rw new (Perm.trans (Perm.append_left c (place-perm same f cs)) (perm_middle c (concat cs)))
]

cluster_from-perm :
    (same : Finding → Finding → Bool) (clusters : List (List Finding)) (fs : List Finding)
    → Perm (concat (cluster_from same clusters fs)) (concat clusters ++ fs)
unfolding cluster_from
cluster_from-perm same clusters [] = rw append-nil Perm.rfl
cluster_from-perm same clusters (f ∷ fs) =
    Perm.trans (cluster_from-perm same (place same f clusters) fs) (
      Perm.trans (Perm.append_right fs (place-perm same f clusters))
        (Perm.symm (perm_middle (concat clusters) fs)))

-- The clusters share out the findings: each finding stands in one cluster, as often as it was given.
pub clusters-perm :
    (same : Finding → Finding → Bool) (fs : List Finding)
    → Perm (concat (cluster_from same [] fs)) fs
clusters-perm same fs = cluster_from-perm same [] fs

module _ (same : Finding → Finding → Bool) where
  place_new : (f : Finding) (cs : List (List Finding)) → In f (concat (place same f cs))
  unfolding place
  place_new f [] = inl refl
  place_new f (c ∷ cs) = elim (Bool-cases (any (same f) c)) [
    | inl found ↦
        rw found
          (In-append_left f (c ++ f ∷ []) (concat cs) (In-append_right f c (f ∷ []) (inl refl)))
    | inr new ↦ rw new (In-append_right f c _ (place_new f cs))
  ]

  place_old :
      (f x : Finding) (cs : List (List Finding))
      → In x (concat cs)
      → In x (concat (place same f cs))
  unfolding place
  place_old f x [] m = absurd m
  place_old f x (c ∷ cs) m = elim (Bool-cases (any (same f) c)) [
    | inl found ↦ rw found (elim (In-append x c (concat cs) m) [
      | inl a ↦ In-append_left x (c ++ f ∷ []) (concat cs) (In-append_left x c (f ∷ []) a)
      | inr b ↦ In-append_right x (c ++ f ∷ []) (concat cs) b
    ])
    | inr new ↦ rw new (elim (In-append x c (concat cs) m) [
      | inl a ↦ In-append_left x c _ a
      | inr b ↦ In-append_right x c _ (place_old f x cs b)
    ])
  ]

  clustered :
      (x : Finding) (cs : List (List Finding)) (fs : List Finding)
      → In x (concat cs) ⊎ In x fs
      → In x (concat (cluster_from same cs fs))
  unfolding cluster_from
  clustered x cs [] (inl m) = m
  clustered x cs [] (inr m) = absurd m
  clustered x cs (f ∷ fs) (inl m) = clustered x (place same f cs) fs (inl (place_old f x cs m))
  clustered x cs (f ∷ fs) (inr (inl e)) =
      clustered x (place same f cs) fs
        (inl (subst (λ y. In y (concat (place same f cs))) (sym e) (place_new f cs)))
  clustered x cs (f ∷ fs) (inr (inr m)) = clustered x (place same f cs) fs (inr m)

abbrev pub IsAccounted : List Merged → Finding → Type 0
IsAccounted ms x = (m : Merged) × In m ms × StandsFor m x.id

pub StandsFor-In :
    (m : Merged) (fs : List Finding) (x : Finding)
    → All (λ g. StandsFor m g.id) fs
    → In x fs
    → StandsFor m x.id
StandsFor-In m fs x h i =
    All-In (λ g. StandsFor m g.id) (λ a b e s. subst (λ (g : Finding). StandsFor m g.id) (sym e) s)
      x fs h i

collapse_all-accounts :
    (F : Floats) (order : List AgentType → List AgentType) (cs : List (List Finding)) (x : Finding)
    → In x (concat cs)
    → IsAccounted (collapse_all F order cs) x
unfolding collapse_all
collapse_all-accounts F order [] x m = absurd m
collapse_all-accounts F order ([] ∷ cs) x m = collapse_all-accounts F order cs x m
collapse_all-accounts F order ((f ∷ fs) ∷ cs) x m = elim (In-append x (f ∷ fs) (concat cs) m) [
  | inl here ↦ (
    collapse F order f fs,
    inl refl,
    StandsFor-In (collapse F order f fs) (f ∷ fs) x (collapse-StandsFor F order f fs) here,
  )
  | inr later ↦ let (k, i, s) = collapse_all-accounts F order cs x later in (k, inr i, s)
]

-- Each finding that goes into the merge is a finding that comes out, or is linked to one by its
-- `merged_into`.
pub merge-accounts :
    (F : Floats) (U : Unicode) (order : List AgentType → List AgentType) (fs : List Finding)
    (x : Finding)
    → In x fs
    → IsAccounted (merge F U order fs) x
unfolding merge
merge-accounts F U order fs x m =
    collapse_all-accounts F order (cluster_from (same_issue F U) [] fs) x
      (clustered (same_issue F U) x [] fs (inr m))
