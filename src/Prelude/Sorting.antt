-- ===== src/Prelude/Sorting.antt =====
-- sorted() and max() with a key, and sets as lists without repeats. A stable sort has one result, so
-- insertion gives what sorted() gives.

use mathlib.Core.Path.{◌≡◌, refl, subst}
use mathlib.Core.Logic.{◌⊎◌, inl, inr}
use mathlib.Core.Bool.{Bool, true, false, not, ◌||◌, ◌&&◌}
use mathlib.Core.List.{List, [], ◌∷◌}
use mathlib.Core.List.Perm
use mathlib.Core.List.{Perm}
use native.Mathlib.Omega.{arith}
use pr_sentinel.Prelude.Tests.{Bool-cases, ltb, ◌==◌, if◌then◌else◌}
use pr_sentinel.Prelude.Lists.{In, filter_by}
use pr_sentinel.Prelude.Texts.{Text}

-- a <= b on texts, by code points.
unfoldable pub text_leb : Text → Text → Bool
text_leb [] t = true
text_leb (a ∷ s) [] = false
text_leb (a ∷ s) (b ∷ t) = ltb a b || (a == b && text_leb s t)

pub text_leb_total : (s t : Text) → text_leb s t ≡ false → text_leb t s ≡ true
unfolding text_leb
text_leb_total [] t h = ground (arith, h)
text_leb_total (a ∷ s) [] h = refl
text_leb_total (a ∷ s) (b ∷ t) h = ground (arith, text_leb_total s t)

module _ {A : Type 0} (le : A → A → Bool) where
  -- Before the first element that is larger.
  unfoldable pub insert_sorted : A → List A → List A
  insert_sorted x [] = x ∷ []
  insert_sorted x (y ∷ ys) = if le x y then x ∷ y ∷ ys else y ∷ insert_sorted x ys

  unfoldable pub sort : List A → List A
  unfolding insert_sorted
  sort [] = []
  sort (x ∷ xs) = insert_sorted x (sort xs)

  insert_sorted-perm : (x : A) (xs : List A) → Perm (insert_sorted x xs) (x ∷ xs)
  unfolding insert_sorted
  insert_sorted-perm x [] = Perm.rfl
  insert_sorted-perm x (y ∷ ys) = elim (Bool-cases (le x y)) [
    | inl h ↦ ground (arith, h, Perm.refl (x ∷ y ∷ ys))
    | inr h ↦
        ground (arith, h, Perm.trans (Perm.cons y (insert_sorted-perm x ys)) (Perm.swap x y ys))
  ]

  pub sort-perm : (xs : List A) → Perm (sort xs) xs
  unfolding sort
  sort-perm [] = Perm.rfl
  sort-perm (x ∷ xs) = Perm.trans (insert_sorted-perm x (sort xs)) (Perm.cons x (sort-perm xs))

  -- Each element is not larger than the next.
  abbrev pub IsSorted : List A → Type 0
  IsSorted [] = Unit
  IsSorted (x ∷ []) = Unit
  IsSorted (x ∷ y ∷ ys) = (le x y ≡ true) × IsSorted (y ∷ ys)

  module _ (total : (x y : A) → le x y ≡ false → le y x ≡ true) where
    insert_sorted-IsSorted : (x : A) (xs : List A) → IsSorted xs → IsSorted (insert_sorted x xs)
    unfolding insert_sorted
    insert_sorted-IsSorted x [] h = tt
    insert_sorted-IsSorted x (y ∷ []) h = ground (arith, total x y)
    insert_sorted-IsSorted x (y ∷ z ∷ ys) h =
        ground (arith, total x y, insert_sorted-IsSorted x (z ∷ ys) h.1)

    pub sort-IsSorted : (xs : List A) → IsSorted (sort xs)
    unfolding sort
    sort-IsSorted [] = tt
    sort-IsSorted (x ∷ xs) = insert_sorted-IsSorted x (sort xs) (sort-IsSorted xs)

-- max(x, *xs, key=…): the first of the largest. `lt` compares the keys.
module _ {A : Type 0} (lt : A → A → Bool) where
  unfoldable pub max_of : A → List A → A
  max_of best [] = best
  max_of best (x ∷ xs) = max_of (if lt best x then x else best) xs

  pub In-max_of : (best : A) (xs : List A) → (max_of best xs ≡ best) ⊎ In (max_of best xs) xs
  unfolding max_of
  In-max_of best [] = inl refl
  In-max_of best (x ∷ xs) = elim (Bool-cases (lt best x)) [
    | inl h ↦ ground (arith, h, In-max_of x xs)
    | inr h ↦ ground (arith, h, In-max_of best xs)
  ]

-- The elements in their first order, each once.
unfoldable pub unique {ℓ} : {A : Type ℓ} → (A → A → Bool) → List A → List A
unique same [] = []
unique same (x ∷ xs) = x ∷ filter_by (λ y. not (same x y)) (unique same xs)

module _ {A : Type 0} (le : A → A → Bool) where
  In-insert_sorted : (x y : A) (xs : List A) → (x ≡ y) ⊎ In x xs → In x (insert_sorted le y xs)
  unfolding insert_sorted
  In-insert_sorted x y [] m = m
  In-insert_sorted x y (z ∷ xs) m = elim (Bool-cases (le y z)) [
    | inl h ↦ rw h m
    | inr h ↦ rw h (elim m [
      | inl e ↦ inr (In-insert_sorted x y xs (inl e))
      | inr (inl e) ↦ inl e
      | inr (inr i) ↦ inr (In-insert_sorted x y xs (inr i))
    ])
  ]

  pub In-sort : (x : A) (xs : List A) → In x xs → In x (sort le xs)
  unfolding sort
  In-sort x [] m = absurd m
  In-sort x (y ∷ xs) (inl e) = In-insert_sorted x y (sort le xs) (inl e)
  In-sort x (y ∷ xs) (inr m) = In-insert_sorted x y (sort le xs) (inr (In-sort x xs m))

  inserted_here : (y z : A) (xs : List A) → le y z ≡ true → insert_sorted le y (z ∷ xs) ≡ y ∷ z ∷ xs
  unfolding insert_sorted
  inserted_here y z xs h = rw h

  inserted_later :
      (y z : A) (xs : List A)
      → le y z ≡ false
      → insert_sorted le y (z ∷ xs) ≡ z ∷ insert_sorted le y xs
  unfolding insert_sorted
  inserted_later y z xs h = rw h

  insert_sorted-In : (x y : A) (xs : List A) → In x (insert_sorted le y xs) → (x ≡ y) ⊎ In x xs
  insert_sorted-In x y [] m = unfold insert_sorted in m
  insert_sorted-In x y (z ∷ xs) m = elim (Bool-cases (le y z)) [
    | inl h ↦ subst (In x) (inserted_here y z xs h) m
    | inr h ↦ elim (subst (In x) (inserted_later y z xs h) m) [
      | inl e ↦ inr (inl e)
      | inr i ↦ elim (insert_sorted-In x y xs i) [ inl e ↦ inl e | inr j ↦ inr (inr j) ]
    ]
  ]

  pub sort-In : (x : A) (xs : List A) → In x (sort le xs) → In x xs
  unfolding sort
  sort-In x [] m = m
  sort-In x (y ∷ xs) m = elim (insert_sorted-In x y (sort le xs) m) [
    | inl e ↦ inl e
    | inr i ↦ inr (sort-In x xs i)
  ]
