-- ===== src/Prelude/Distinct.antt =====
-- Lists of numbers without repeats: two with the same members are equally long.
use Prim.Native.Nat.{ℕ, ◌+◌}
use mathlib.Core.Path.{◌≡◌, refl, sym, ap}
use mathlib.Core.Logic.{◌↔◌, inl, inr}
use mathlib.Core.Bool.{Bool, not}
use mathlib.Core.List.{List, [], ◌∷◌}
use native.Mathlib.Omega.{arith}
use pr_sentinel.Prelude.Tests.{Bool-cases, ◌==◌, ==_iff}
use pr_sentinel.Prelude.Lists.{length, In, filter_by, In-filter_by_back, In-of_filter_by}

abbrev pub IsDistinct : List ℕ → Type 0
IsDistinct [] = Unit
IsDistinct (x ∷ xs) = (¬ In x xs) × IsDistinct xs

abbrev pub differs : ℕ → ℕ → Bool
differs n x = not (x == n)

abbrev pub remove : ℕ → List ℕ → List ℕ
remove n xs = filter_by (differs n) xs

remove-absent : (n : ℕ) (xs : List ℕ) → ¬ In n xs → remove n xs ≡ xs
remove-absent n [] h = refl
remove-absent n (x ∷ xs) h = elim (Bool-cases (x == n)) [
  | inl t ↦ absurd (h (inl (sym ((==_iff x n).0 t))))
  | inr f ↦ rw f (ap (λ ys. x ∷ ys) (remove-absent n xs (λ m. h (inr m))))
]

pub length-remove :
    (n : ℕ) (xs : List ℕ) → IsDistinct xs → In n xs → length (remove n xs) + 1 ≡ length xs
length-remove n [] d m = absurd m
length-remove n (x ∷ xs) d m = elim (Bool-cases (x == n)) [
  | inl t ↦ rw t (rw (remove-absent n xs (λ i. d.0 (rw ((==_iff x n).0 t) i))) (omega arith))
  | inr f ↦ rw f (elim m [
    | inl e ↦ absurd (ground (arith, e, f))
    | inr i ↦ omega (arith, length-remove n xs d.1 i)
  ])
]

filter-IsDistinct : (p : ℕ → Bool) (xs : List ℕ) → IsDistinct xs → IsDistinct (filter_by p xs)
filter-IsDistinct p [] d = tt
filter-IsDistinct p (x ∷ xs) d = elim (Bool-cases (p x)) [
  | inl t ↦ rw t (λ m. d.0 (In-of_filter_by p xs x m).0, filter-IsDistinct p xs d.1)
  | inr f ↦ rw f (filter-IsDistinct p xs d.1)
]

pub same_members_length :
    (xs ys : List ℕ)
    → IsDistinct xs
    → IsDistinct ys
    → ((n : ℕ) → In n xs ↔ In n ys)
    → length xs ≡ length ys
same_members_length [] [] d d' same = refl
same_members_length [] (y ∷ ys) d d' same = absurd ((same y).1 (inl refl))
same_members_length (x ∷ xs) ys d d' same = omega (
  arith,
  length-remove x ys d' ((same x).0 (inl refl)),
  same_members_length xs (remove x ys) d.1 (filter-IsDistinct (differs x) ys d')
      (λ n. (there n, back n)),
)
  where
    there : (n : ℕ) → In n xs → In n (remove x ys)
    there n m =
        In-filter_by_back (differs x) ys n ((same n).0 (inr m)) (elim (Bool-cases (n == x)) [
          | inl t ↦ absurd (d.0 (rw (sym ((==_iff n x).0 t)) m))
          | inr f ↦ rw f refl
        ])

    back : (n : ℕ) → In n (remove x ys) → In n xs
    back n m =
        let (i, f) = In-of_filter_by (differs x) ys n m in
        elim ((same n).1 i) [ inl e ↦ absurd (ground (arith, e, f)) | inr j ↦ j ]
