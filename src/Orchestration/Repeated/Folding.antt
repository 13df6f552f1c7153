-- ===== src/Orchestration/Repeated/Folding.antt =====
-- Folding repeated recommendations: what is kept, and what is accounted for.
use pr_sentinel.Prelude.{
  ℕ, suc, ◌≡◌, ◌⊎◌, inl, inr, refl, sym, ap, subst, true, not, List, [], ◌∷◌, ◌++◌, map, All, In,
  In-append, In-append_left, In-append_right, In-filter_by_back, max_of, length, ltb, arith,
  Bool-cases,
}
use pr_sentinel.Domain.Enums.{is_collapsible}
use pr_sentinel.Domain.Models.{Finding}
use pr_sentinel.Orchestration.Clusters.{Merged, weaker}
use pr_sentinel.Orchestration.Clusters.Accounts.{StandsFor, StandsFor-In, IsAccounted, linked}
use pr_sentinel.Orchestration.Repeated.{
  Group, same_key, add_to, group_from, fold, keep, emit, emit_all, collapse_repeated,
}

abbrev members : Group → List Finding
members g = g.first ∷ g.rest

abbrev all_members : List Group → List Finding
all_members [] = []
all_members (g ∷ gs) = members g ++ all_members gs

add_to_new : (f : Finding) (gs : List Group) → In f (all_members (add_to f gs))
unfolding add_to
add_to_new f [] = inl refl
add_to_new f (g ∷ gs) = elim (Bool-cases (same_key g f)) [
  | inl found ↦ rw found (
      In-append_left f (g.first ∷ (g.rest ++ f ∷ [])) (all_members gs)
        (inr (In-append_right f g.rest (f ∷ []) (inl refl))))
  | inr new ↦ rw new (In-append_right f (members g) _ (add_to_new f gs))
]

grown : (x f : Finding) (g : Group) → In x (members g) → In x (g.first ∷ (g.rest ++ f ∷ []))
grown x f g (inl e) = inl e
grown x f g (inr m) = inr (In-append_left x g.rest (f ∷ []) m)

add_to_old :
    (f x : Finding) (gs : List Group) → In x (all_members gs) → In x (all_members (add_to f gs))
unfolding add_to
add_to_old f x [] m = absurd m
add_to_old f x (g ∷ gs) m = elim (Bool-cases (same_key g f)) [
  | inl found ↦ rw found (elim (In-append x (members g) (all_members gs) m) [
    | inl a ↦ In-append_left x (g.first ∷ (g.rest ++ f ∷ [])) (all_members gs) (grown x f g a)
    | inr b ↦ In-append_right x (g.first ∷ (g.rest ++ f ∷ [])) (all_members gs) b
  ])
  | inr new ↦ rw new (elim (In-append x (members g) (all_members gs) m) [
    | inl a ↦ In-append_left x (members g) _ a
    | inr b ↦ In-append_right x (members g) _ (add_to_old f x gs b)
  ])
]

grouped :
    (x : Finding) (gs : List Group) (fs : List Finding)
    → In x (all_members gs) ⊎ (In x fs × (is_collapsible x.category ≡ true))
    → In x (all_members (group_from gs fs))
unfolding group_from
grouped x gs [] (inl m) = m
grouped x gs [] (inr m) = absurd m.0
grouped x gs (f ∷ fs) (inl m) = elim (Bool-cases (is_collapsible f.category)) [
  | inl h ↦ rw h (grouped x (add_to f gs) fs (inl (add_to_old f x gs m)))
  | inr h ↦ rw h (grouped x gs fs (inl m))
]
grouped x gs (f ∷ fs) (inr (inl e, c)) =
    let h : is_collapsible f.category ≡ true =
      subst (λ (y : Finding). is_collapsible y.category ≡ true) e c in
    rw h (
      grouped x (add_to f gs) fs
        (inl (subst (λ y. In y (all_members (add_to f gs))) (sym e) (add_to_new f gs))))
grouped x gs (f ∷ fs) (inr (inr m, c)) = elim (Bool-cases (is_collapsible f.category)) [
  | inl h ↦ rw h (grouped x (add_to f gs) fs (inr (m, c)))
  | inr h ↦ rw h (grouped x gs fs (inr (m, c)))
]

fold-StandsFor : (f : Finding) (fs : List Finding) → All (λ g. StandsFor (fold f fs) g.id) (f ∷ fs)
unfolding fold
fold-StandsFor f fs = linked (max_of weaker f fs).id (f ∷ fs)

kept-In : (x : Finding) (fs : List Finding) → In x fs → IsAccounted (map keep fs) x
unfolding keep
kept-In x [] m = absurd m
kept-In x (f ∷ fs) (inl e) = (keep f, inl refl, inl (ap (λ (g : Finding). g.id) e))
kept-In x (f ∷ fs) (inr m) = let (k, i, s) = kept-In x fs m in (k, inr i, s)

emit-accounts :
    (threshold : ℕ) (g : Group) (x : Finding) → In x (members g) → IsAccounted (emit threshold g) x
unfolding emit
emit-accounts threshold g x m = elim (Bool-cases (ltb (suc (length g.rest)) threshold)) [
  | inl few ↦ rw few (kept-In x (members g) m)
  | inr many ↦ rw many (
    fold g.first g.rest,
    inl refl,
    StandsFor-In (fold g.first g.rest) (members g) x (fold-StandsFor g.first g.rest) m,
  )
]

IsAccounted-left : (ms ns : List Merged) (x : Finding) → IsAccounted ms x → IsAccounted (ms ++ ns) x
IsAccounted-left ms ns x (m, i, s) = (m, In-append_left m ms ns i, s)

IsAccounted-right :
    (ms ns : List Merged) (x : Finding) → IsAccounted ns x → IsAccounted (ms ++ ns) x
IsAccounted-right ms ns x (m, i, s) = (m, In-append_right m ms ns i, s)

emit_all-accounts :
    (threshold : ℕ) (gs : List Group) (x : Finding)
    → In x (all_members gs)
    → IsAccounted (emit_all threshold gs) x
unfolding emit_all
emit_all-accounts threshold [] x m = absurd m
emit_all-accounts threshold (g ∷ gs) x m = elim (In-append x (members g) (all_members gs) m) [
  | inl here ↦ IsAccounted-left (emit threshold g) _ x (emit-accounts threshold g x here)
  | inr later ↦ IsAccounted-right (emit threshold g) _ x (emit_all-accounts threshold gs x later)
]

-- Each finding that goes into the folding comes out, or is linked to one that does.
pub collapse_repeated-accounts :
    (threshold : ℕ) (fs : List Finding) (x : Finding)
    → In x fs
    → IsAccounted (collapse_repeated threshold fs) x
unfolding collapse_repeated
collapse_repeated-accounts threshold fs x m = elim (Bool-cases (is_collapsible x.category)) [
  | inl c ↦
      IsAccounted-right _ _ x
        (emit_all-accounts threshold (group_from [] fs) x (grouped x [] fs (inr (m, c))))
  | inr c ↦ IsAccounted-left _ _ x (
      kept-In x _ (
        In-filter_by_back (λ (f : Finding). not (is_collapsible f.category)) fs x m (ground arith)))
]

abbrev id_of : Finding → ℕ
id_of f = f.id

-- The primary finding of a group.
abbrev pub primary_of : Finding → List Finding → Finding
primary_of f fs = max_of weaker f fs
