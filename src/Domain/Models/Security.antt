-- ===== src/Domain/Models/Security.antt =====
-- Which findings count as security findings, against the families of concern.
use pr_sentinel.Prelude.{
  ◌≡◌, refl, ◌↔◌, ◌⊎◌, inl, inr, true, some, Text, arith, any_sound, any_complete, find_first_sound,
  In, Bool-cases, Option-cases, text_eq, text_eq_iff,
}
use pr_sentinel.Domain.Enums.{
  security, Category, Family, family_of, same_agent, same_agent_iff, is_security_category,
  category_name, category_of, all_categories, injection,
}
use pr_sentinel.Domain.Models.{Finding, is_security, names_security}

pub category_of-category_name : (c : Category) → category_of (category_name c) ≡ some c
unfolding category_of category_name text_eq
category_of-category_name injection = refl
category_of-category_name _ = refl

pub category_name-category_of :
    (name : Text) (c : Category) → category_of name ≡ some c → category_name c ≡ name
unfolding category_of
category_name-category_of name c h =
    (text_eq_iff (category_name c) name).0
      (find_first_sound (λ d. text_eq (category_name d) name) all_categories c h)

-- SECURITY_CATEGORIES holds the categories of the security family, and no others.
pub is_security_category_iff :
    (c : Category) → (is_security_category c ≡ true) ↔ (family_of c ≡ Family.security)
unfolding is_security_category family_of
is_security_category_iff injection = ground arith
is_security_category_iff _ = ground arith

abbrev pub ConcernsSecurity : Finding → Type 0
ConcernsSecurity f =
    (f.agent ≡ security)
    ⊎ (family_of f.category ≡ Family.security)
    ⊎ ((c : Category) × In (category_name c) f.categories × (family_of c ≡ Family.security))

names_security_sound :
    (name : Text)
    → names_security name ≡ true
    → (c : Category) × (category_name c ≡ name) × (family_of c ≡ Family.security)
unfolding names_security
names_security_sound name h = elim (Option-cases (category_of name)) [
  | inl e ↦ absurd (ground arith)
  | inr (c, e) ↦
      (c, category_name-category_of name c e, (is_security_category_iff c).0 (ground arith))
]

names_security_complete :
    (c : Category) → family_of c ≡ Family.security → names_security (category_name c) ≡ true
unfolding names_security
names_security_complete c h =
    rw (category_of-category_name c, names_security) ((is_security_category_iff c).1 h)

sound : (f : Finding) → is_security f ≡ true → ConcernsSecurity f
unfolding is_security
sound f h = elim (Bool-cases (same_agent f.agent security)) [
  | inl a ↦ inl ((same_agent_iff f.agent security).0 a)
  | inr a ↦ elim (Bool-cases (is_security_category f.category)) [
    | inl c ↦ inr (inl ((is_security_category_iff f.category).0 c))
    | inr c ↦
        let (name, m, t) = any_sound names_security f.categories (ground arith) in
        let (d, e, s) = names_security_sound name t in inr (inr (d, rw e m, s))
  ]
]

complete : (f : Finding) → ConcernsSecurity f → is_security f ≡ true
unfolding is_security
complete f (inl a) = rw ((same_agent_iff f.agent security).1 a)
complete f (inr (inl c)) = ground (arith, (is_security_category_iff f.category).1 c)
complete f (inr (inr (c, m, s))) = ground (
  arith,
  any_complete names_security f.categories (category_name c) m (names_security_complete c s),
)

-- `is_security` holds exactly when the security agent raised the finding, or its category is of the
-- security family, or a contributor named a category of that family.
pub is_security-iff-ConcernsSecurity : (f : Finding) → (is_security f ≡ true) ↔ ConcernsSecurity f
is_security-iff-ConcernsSecurity f = (sound f, complete f)
