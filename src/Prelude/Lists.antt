-- ===== src/Prelude/Lists.antt =====
-- Lists measured and indexed by native numbers, and the list comprehensions of the program.
use Prim.Native.Nat.{ℕ, zero, suc, ◌+◌, ◌≤◌, min}
use mathlib.Core.Path.{◌≡◌, refl, sym, ap}
use mathlib.Core.Logic.{◌≢◌, ◌⊎◌, inl, inr}
use mathlib.Core.Bool.{Bool, true, false, ◌||◌}
use mathlib.Core.List.{List, [], ◌∷◌, ◌++◌, map}
use mathlib.Core.Option.{Option, none, some}
use native.Mathlib.Omega.{arith}
use pr_sentinel.Prelude.Tests.{Bool-cases, if◌then◌else◌}

module _ {ℓ} {A : Type ℓ} where
  abbrev pub length : List A → ℕ
  length [] = 0
  length (x ∷ xs) = suc (length xs)

  abbrev pub take : ℕ → List A → List A
  take zero xs = []
  take (suc n) [] = []
  take (suc n) (x ∷ xs) = x ∷ take n xs

  abbrev pub replicate : ℕ → A → List A
  replicate zero a = []
  replicate (suc n) a = a ∷ replicate n a

  abbrev pub drop : ℕ → List A → List A
  drop zero xs = xs
  drop (suc n) [] = []
  drop (suc n) (x ∷ xs) = drop n xs

  -- [x for x in xs if p(x)]
  abbrev pub filter_by : (A → Bool) → List A → List A
  filter_by p [] = []
  filter_by p (x ∷ xs) = if p x then x ∷ filter_by p xs else filter_by p xs

  -- any(p(x) for x in xs)
  abbrev pub any : (A → Bool) → List A → Bool
  any p [] = false
  any p (x ∷ xs) = p x || any p xs

  -- next((x for x in xs if p(x)), None)
  abbrev pub find_first : (A → Bool) → List A → Option A
  find_first p [] = none
  find_first p (x ∷ xs) = if p x then some x else find_first p xs

  -- The lists one behind another.
  abbrev pub concat : List (List A) → List A
  concat [] = []
  concat (xs ∷ xss) = xs ++ concat xss

  -- A predicate of every element; it computes to a tuple.
  abbrev pub All {κ} : (A → Type κ) → List A → Type κ
  All P [] = Unit
  All P (x ∷ xs) = P x × All P xs

  pub length-append : (xs ys : List A) → length (xs ++ ys) ≡ length xs + length ys
  length-append [] ys = omega arith
  length-append (x ∷ xs) ys = omega (arith, length-append xs ys)

  pub length-take : (n : ℕ) (xs : List A) → length (take n xs) ≡ min n (length xs)
  length-take zero xs = omega arith
  length-take (suc n) [] = omega arith
  length-take (suc n) (x ∷ xs) = omega (arith, length-take n xs)

  pub length-filter_by : (p : A → Bool) (xs : List A) → length (filter_by p xs) ≤ length xs
  length-filter_by p [] = omega arith
  length-filter_by p (x ∷ xs) = ground (arith, length-filter_by p xs)

  pub All-filter_by : (p : A → Bool) (xs : List A) → All (λ x. p x ≡ true) (filter_by p xs)
  All-filter_by p [] = tt
  All-filter_by p (x ∷ xs) = ground (arith, All-filter_by p xs)

  pub find_first_sound :
      (p : A → Bool) (xs : List A) (x : A) → find_first p xs ≡ some x → p x ≡ true
  find_first_sound p [] x h = cc
  find_first_sound p (y ∷ ys) x h = ground (arith, find_first_sound p ys x)

  pub All-append {κ} : (P : A → Type κ) (xs ys : List A) → All P xs → All P ys → All P (xs ++ ys)
  All-append P [] ys hx hy = hy
  All-append P (x ∷ xs) ys hx hy = (hx.0, All-append P xs ys hx.1 hy)

  pub All-map_pred {κ μ} :
      (P : A → Type κ) (Q : A → Type μ)
      → ((x : A) → P x → Q x)
      → (xs : List A) → All P xs
      → All Q xs
  All-map_pred P Q f [] h = tt
  All-map_pred P Q f (x ∷ xs) h = (f x h.0, All-map_pred P Q f xs h.1)

module _ {A : Type 0} where
  -- `x` stands in the list, with the place kept.
  abbrev pub In : A → List A → Type 0
  In x [] = ⊥
  In x (y ∷ ys) = (x ≡ y) ⊎ In x ys

  pub All-In {κ} :
      (P : A → Type κ)
      → ((x y : A) → x ≡ y → P y → P x)
      → (x : A) (xs : List A) → All P xs
      → In x xs
      → P x
  All-In P move x [] h m = absurd m
  All-In P move x (y ∷ ys) h (inl e) = move x y e h.0
  All-In P move x (y ∷ ys) h (inr m) = All-In P move x ys h.1 m

  pub In-append_left : (x : A) (xs ys : List A) → In x xs → In x (xs ++ ys)
  In-append_left x [] ys m = absurd m
  In-append_left x (z ∷ xs) ys (inl e) = inl e
  In-append_left x (z ∷ xs) ys (inr m) = inr (In-append_left x xs ys m)

  pub In-append_right : (x : A) (xs ys : List A) → In x ys → In x (xs ++ ys)
  In-append_right x [] ys m = m
  In-append_right x (z ∷ xs) ys m = inr (In-append_right x xs ys m)

  pub In-append : (x : A) (xs ys : List A) → In x (xs ++ ys) → In x xs ⊎ In x ys
  In-append x [] ys m = inr m
  In-append x (z ∷ xs) ys (inl e) = inl (inl e)
  In-append x (z ∷ xs) ys (inr m) = elim (In-append x xs ys m) [
    | inl a ↦ inl (inr a)
    | inr b ↦ inr b
  ]

  pub any_sound : (p : A → Bool) (xs : List A) → any p xs ≡ true → (x : A) × In x xs × (p x ≡ true)
  any_sound p [] h = cc
  any_sound p (x ∷ xs) h = elim (Bool-cases (p x)) [
    | inl t ↦ (x, inl refl, t)
    | inr f ↦ let (y, m, t) = any_sound p xs (rw f at h) in (y, inr m, t)
  ]

  pub any_complete : (p : A → Bool) (xs : List A) (x : A) → In x xs → p x ≡ true → any p xs ≡ true
  any_complete p [] x m t = absurd m
  any_complete p (y ∷ ys) x (inl e) t = rw (← e, t)
  any_complete p (y ∷ ys) x (inr m) t = ground (arith, any_complete p ys x m t)

  pub In-filter_by_back :
      (p : A → Bool) (xs : List A) (x : A) → In x xs → p x ≡ true → In x (filter_by p xs)
  In-filter_by_back p [] x m t = absurd m
  In-filter_by_back p (y ∷ ys) x (inl e) t = rw (← e, t) (inl refl)
  In-filter_by_back p (y ∷ ys) x (inr m) t = elim (Bool-cases (p y)) [
    | inl h ↦ rw h (inr (In-filter_by_back p ys x m t))
    | inr h ↦ rw h (In-filter_by_back p ys x m t)
  ]

  pub In-of_filter_by :
      (p : A → Bool) (xs : List A) (x : A) → In x (filter_by p xs) → In x xs × (p x ≡ true)
  In-of_filter_by p [] x m = absurd m
  In-of_filter_by p (y ∷ ys) x m = split_first (p y) refl m (In-of_filter_by p ys x)
    where
      split_first :
          (b : Bool)
          → p y ≡ b
          → In x (if b then y ∷ filter_by p ys else filter_by p ys)
          → (In x (filter_by p ys) → In x ys × (p x ≡ true))
          → In x (y ∷ ys) × (p x ≡ true)
      split_first true t (inl e) ih = (inl e, rw e t)
      split_first true t (inr r) ih = let (m', h) = ih r in (inr m', h)
      split_first false t r ih = let (m', h) = ih r in (inr m', h)

  pub length-filter_by-none :
      (p : A → Bool) (xs : List A) → ((x : A) → In x xs → p x ≢ true) → length (filter_by p xs) ≡ 0
  length-filter_by-none p [] h = refl
  length-filter_by-none p (x ∷ xs) h = elim (Bool-cases (p x)) [
    | inl t ↦ absurd (h x (inl refl) t)
    | inr f ↦ rw f (length-filter_by-none p xs (λ y m. h y (inr m)))
  ]

  pub not-In-empty : (x : A) (xs : List A) → length xs ≡ 0 → ¬ In x xs
  not-In-empty x [] h m = m
  not-In-empty x (y ∷ ys) h m = omega arith

  pub In-find_first :
      (p : A → Bool) (xs : List A) (x : A) → find_first p xs ≡ some x → In x xs × (p x ≡ true)
  In-find_first p [] x h = cc
  In-find_first p (y ∷ ys) x h = elim (Bool-cases (p y)) [
    | inl t ↦ let e = first y x t h in (inl (sym e), rw (← e) t)
    | inr f ↦ let (m, t) = In-find_first p ys x (rw f at h) in (inr m, t)
  ]
    where
      first : (y x : A) → p y ≡ true → find_first p (y ∷ ys) ≡ some x → y ≡ x
      first y x t h = ground (arith, t, h)

module _ {A : Type 0} where
  pub find_first-none :
      (p : A → Bool) (xs : List A) → find_first p xs ≡ none → (x : A) → In x xs → p x ≡ false
  find_first-none p [] h x m = absurd m
  find_first-none p (y ∷ ys) h x m = elim (Bool-cases (p y)) [
    | inl t ↦ absurd (ground (arith, h, t))
    | inr f ↦ elim m [ inl e ↦ rw e f | inr i ↦ find_first-none p ys (rw f at h) x i ]
  ]

module _ {A B : Type 0} where
  pub In-map : (f : A → B) (x : A) (xs : List A) → In x xs → In (f x) (map f xs)
  In-map f x [] m = absurd m
  In-map f x (y ∷ ys) (inl e) = inl (ap f e)
  In-map f x (y ∷ ys) (inr m) = inr (In-map f x ys m)

  pub map-In : (f : A → B) (y : B) (xs : List A) → In y (map f xs) → (x : A) × In x xs × (f x ≡ y)
  map-In f y [] m = absurd m
  map-In f y (x ∷ xs) (inl e) = (x, inl refl, sym e)
  map-In f y (x ∷ xs) (inr m) = let (z, i, e) = map-In f y xs m in (z, inr i, e)
