-- ===== src/Orchestration/Clusters/Concerns.antt =====
-- When the finding that a cluster becomes still counts as a security finding.
use pr_sentinel.Prelude.{
  ◌≡◌, ◌⊎◌, ◌↔◌, inl, inr, refl, sym, ap, ◌∙◌, subst, true, some, List, ◌∷◌, map, any, In, max_of,
  In-max_of, any_sound, any_complete, In-filter_by_back, In-of_filter_by, text_leb, sort, In-map,
  map-In, In-sort, sort-In,
}
use pr_sentinel.Runtime.{Floats}
use pr_sentinel.Domain.Enums.{
  AgentType, security, Category, all_categories, category_name, category_of, Family, family_of,
  same_category, same_category_iff, injection,
}
use pr_sentinel.Domain.Models.{Finding, is_security}
use pr_sentinel.Domain.Models.Security.{
  ConcernsSecurity, is_security-iff-ConcernsSecurity, category_of-category_name,
}
use pr_sentinel.Orchestration.Clusters.{weaker, categories_of, merged_finding, collapse}

category_name_injective : (c d : Category) → category_name c ≡ category_name d → c ≡ d
category_name_injective c d e =
    let h : some c ≡ some d =
      sym (category_of-category_name c) ∙ ap category_of e ∙ category_of-category_name d in
    cc

listed : (c : Category) → any (same_category c) all_categories ≡ true
unfolding same_category
listed injection = refl
listed _ = refl

In-all_categories : (c : Category) → In c all_categories
In-all_categories c =
    let (d, m, t) = any_sound (same_category c) all_categories (listed c) in
    subst (λ k. In k all_categories) (sym ((same_category_iff c d).0 t)) m

-- The names a merged finding carries are those of its members' categories.
named :
    (c : Category) (cluster : List Finding)
    → In (category_name c) (sort text_leb (map category_name (categories_of cluster)))
    → (h : Finding) × In h cluster × (h.category ≡ c)
unfolding categories_of
named c cluster m =
    let (d, i, e) =
      map-In category_name (category_name c) (categories_of cluster)
        (sort-In text_leb (category_name c) (map category_name (categories_of cluster)) m) in
    let (_, t) =
      In-of_filter_by (λ c. any (λ f. same_category f.category c) cluster) all_categories d i in
    let (h, j, s) = any_sound (λ f. same_category f.category d) cluster t in
    (h, j, (same_category_iff h.category d).0 s ∙ category_name_injective d c e)

names :
    (h : Finding) (cluster : List Finding)
    → In h cluster
    → In (category_name h.category) (sort text_leb (map category_name (categories_of cluster)))
unfolding categories_of
names h cluster j =
    In-sort text_leb (category_name h.category) (map category_name (categories_of cluster)) (
      In-map category_name h.category (categories_of cluster) (
        In-filter_by_back (λ c. any (λ f. same_category f.category c) cluster) all_categories
          h.category (In-all_categories h.category)
          (any_complete (λ f. same_category f.category h.category) cluster h j
            ((same_category_iff h.category h.category).1 refl))))

-- Of two findings or more, the agent of the strongest, and the categories of all, decide.
abbrev pub RaisesConcern : Finding → List Finding → Type 0
RaisesConcern f fs =
    ((max_of weaker f fs).agent ≡ security)
    ⊎ ((h : Finding) × In h (f ∷ fs) × (family_of h.category ≡ Family.security))

concern_raised :
    (F : Floats) (order : List AgentType → List AgentType) (f : Finding) (g : Finding)
    (fs : List Finding)
    → ConcernsSecurity (collapse F order f (g ∷ fs)).finding
    → RaisesConcern f (g ∷ fs)
unfolding collapse merged_finding
concern_raised F order f g fs (inl a) = inl a
concern_raised F order f g fs (inr (inl c)) =
    inr (max_of weaker f (g ∷ fs), In-max_of weaker f (g ∷ fs), c)
concern_raised F order f g fs (inr (inr (c, m, s))) =
    let (h, j, e) = named c (f ∷ g ∷ fs) m in inr (h, j, ap family_of e ∙ s)

raised_concern :
    (F : Floats) (order : List AgentType → List AgentType) (f : Finding) (g : Finding)
    (fs : List Finding)
    → RaisesConcern f (g ∷ fs)
    → ConcernsSecurity (collapse F order f (g ∷ fs)).finding
unfolding collapse merged_finding
raised_concern F order f g fs (inl a) = inl a
raised_concern F order f g fs (inr (h, j, s)) = inr (inr (h.category, names h (f ∷ g ∷ fs) j, s))

-- The finding that two findings or more become is a security finding exactly when the strongest of
-- them is the security agent's, or one of them has a category of the security family. That another
-- of them is the security agent's does not count.
pub collapse-is_security_iff :
    (F : Floats) (order : List AgentType → List AgentType) (f : Finding) (g : Finding)
    (fs : List Finding)
    → (is_security (collapse F order f (g ∷ fs)).finding ≡ true) ↔ RaisesConcern f (g ∷ fs)
collapse-is_security_iff F order f g fs =
    let (there, back) = is_security-iff-ConcernsSecurity (collapse F order f (g ∷ fs)).finding in
    (λ t. concern_raised F order f g fs (there t), λ r. back (raised_concern F order f g fs r))
