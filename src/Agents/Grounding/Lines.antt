-- ===== src/Agents/Grounding/Lines.antt =====
-- Where the lines of a finding are put.
use pr_sentinel.Prelude.{
  ◌⊎◌, ℕ, ℤ, pos, negsuc, distance, clamp, ◌≤◌, max, ◌≡◌, inl, inr, refl, sym, ◌∙◌, subst, Bool,
  true, false, Option, none, some, List, [], ◌∷◌, any, any_sound, In, ltb, ◌==◌, ==_iff, arith,
  Bool-cases, Option-cases,
}
use pr_sentinel.Agents.Grounding.{closest, largest, addressed, place_lines}

addressed_sound :
    (a : ℤ) (lines : List ℕ) (n : ℕ) → addressed a lines ≡ some n → (a ≡ pos n) × In n lines
unfolding addressed
addressed_sound (pos m) lines n h = elim (Bool-cases (any (λ k. k == m) lines)) [
  | inl yes_in ↦
      let (k, i, t) = any_sound (λ k. k == m) lines yes_in in
      let e : m ≡ n = ground (arith, h, yes_in) in
      (cc, subst (λ x. In x lines) e (subst (λ x. In x lines) ((==_iff k m).0 t) i))
  | inr not_in ↦ absurd (ground (arith, h, not_in))
]
addressed_sound (negsuc m) lines n h = absurd (ground (arith, h))

module _ (a : ℤ) (best n : ℕ) (ns : List ℕ) where
  closest-nearer :
      ltb (distance n a) (distance best a) ≡ true → closest a best (n ∷ ns) ≡ closest a n ns
  unfolding closest
  closest-nearer h = rw h

  closest-farther :
      ltb (distance n a) (distance best a) ≡ false → closest a best (n ∷ ns) ≡ closest a best ns
  unfolding closest
  closest-farther h = rw h

pub In-closest : (a : ℤ) (best : ℕ) (ns : List ℕ) → In (closest a best ns) (best ∷ ns)
In-closest a best [] = inl (unfold closest in refl)
In-closest a best (n ∷ ns) = elim (Bool-cases (ltb (distance n a) (distance best a))) [
  | inl h ↦
      subst (λ x. In x (best ∷ n ∷ ns)) (sym (closest-nearer a best n ns h))
        (inr (In-closest a n ns))
  | inr h ↦
      subst (λ x. In x (best ∷ n ∷ ns)) (sym (closest-farther a best n ns h))
        (elim (In-closest a best ns) [ inl e ↦ inl e | inr i ↦ inr (inr i) ])
]

abbrev IsNearest : ℤ → ℕ → List ℕ → Type 0
IsNearest a k ns = (n : ℕ) → In n ns → distance k a ≤ distance n a

IsNearest-of :
    (a : ℤ) (k best : ℕ) (ns : List ℕ)
    → distance k a ≤ distance best a
    → IsNearest a k ns
    → IsNearest a k (best ∷ ns)
IsNearest-of a k best ns le all n (inl e) = subst (λ x. distance k a ≤ distance x a) (sym e) le
IsNearest-of a k best ns le all n (inr i) = all n i

pub closest-IsNearest :
    (a : ℤ) (best : ℕ) (ns : List ℕ) → IsNearest a (closest a best ns) (best ∷ ns)
closest-IsNearest a best [] =
    unfold closest in IsNearest-of a best best [] (omega arith) (λ n i. absurd i)
closest-IsNearest a best (m ∷ ns) = elim (Bool-cases (ltb (distance m a) (distance best a))) [
  | inl h ↦
      subst (λ k. IsNearest a k (best ∷ m ∷ ns)) (sym (closest-nearer a best m ns h))
        (IsNearest-of a (closest a m ns) best (m ∷ ns)
          (le_trans (closest-IsNearest a m ns m (inl refl))
            (ltb→le (distance m a) (distance best a) h))
          (closest-IsNearest a m ns))
  | inr h ↦
      subst (λ k. IsNearest a k (best ∷ m ∷ ns)) (sym (closest-farther a best m ns h))
        (IsNearest-of a (closest a best ns) best (m ∷ ns)
          (closest-IsNearest a best ns best (inl refl))
          (IsNearest-of a (closest a best ns) m ns
            (le_trans (closest-IsNearest a best ns best (inl refl))
              (not-ltb→le (distance m a) (distance best a) h))
            (λ n i. closest-IsNearest a best ns n (inr i))))
]
  where
    le_trans : {x y z : ℕ} → x ≤ y → y ≤ z → x ≤ z
    le_trans p q = omega arith

    ltb→le : (x y : ℕ) → ltb x y ≡ true → x ≤ y
    ltb→le x y h = ground arith

    not-ltb→le : (x y : ℕ) → ltb x y ≡ false → y ≤ x
    not-ltb→le x y h = ground arith

largest_le :
    (best : ℕ) (ns : List ℕ) → (best ≤ largest best ns) × ((n : ℕ) → In n ns → n ≤ largest best ns)
unfolding largest
largest_le best [] = (omega arith, λ n i. absurd i)
largest_le best (m ∷ ns) =
    let (le, all) = largest_le (max best m) ns in
    (omega (arith, le), λ n i. elim i [ inl e ↦ omega (arith, e, le) | inr j ↦ all n j ])

pub le_largest : (l n : ℕ) (ls : List ℕ) → In n (l ∷ ls) → n ≤ largest l ls
le_largest l n ls (inl e) = let (le, all) = largest_le l ls in omega (arith, e, le)
le_largest l n ls (inr i) = let (le, all) = largest_le l ls in all n i

pub In-largest : (l : ℕ) (ls : List ℕ) → In (largest l ls) (l ∷ ls)
unfolding largest
In-largest l [] = inl refl
In-largest l (n ∷ ls) = elim (In-largest (max l n) ls) [
  | inl e ↦ elim (max_cases l n) [ inl m ↦ inl (e ∙ m) | inr m ↦ inr (inl (e ∙ m)) ]
  | inr i ↦ inr (inr i)
]
  where
    max_cases : (x y : ℕ) → (max x y ≡ x) ⊎ (max x y ≡ y)
    max_cases x y = ground arith

-- Where a finding is put: on a line of the diff, that the model named or that is the nearest and at
-- most three away, to a last line that is not before it and not behind the diff.
pub record IsPlaced (lines : List ℕ) (hi : ℕ) (a : ℤ) (start end : ℕ) (snapped : Bool)
    : Type 0 where
  pub listed : In start lines
  pub ordered : start ≤ end
  pub within : end ≤ hi
  pub kept : snapped ≡ false → a ≡ pos start
  pub near : distance start a ≤ 3

placed_there : (a : ℤ) (n : ℕ) → a ≡ pos n → distance n a ≤ 3
placed_there a n e = subst (λ x. distance n x ≤ 3) (sym e) (omega arith)

clamp_between : (lo hi : ℕ) (a : ℤ) → lo ≤ hi → (lo ≤ clamp lo hi a) × (clamp lo hi a ≤ hi)
clamp_between lo hi (pos a) h = (omega arith, omega arith)
clamp_between lo hi (negsuc a) h = (omega arith, h)

module _ (walk : ℕ → List ℕ → ℕ × List ℕ)
    (walked : (l n : ℕ) (ls : List ℕ) → In n ((walk l ls).0 ∷ (walk l ls).1) → In n (l ∷ ls))
    (a b : ℤ) (l : ℕ) (ls : List ℕ) where
  abbrev nearest : ℕ
  nearest = closest a (walk l ls).0 (walk l ls).1

  In-nearest : In nearest (l ∷ ls)
  In-nearest = walked l nearest ls (In-closest a (walk l ls).0 (walk l ls).1)

  place_lines-found :
      (n : ℕ)
      → addressed a (l ∷ ls) ≡ some n
      → place_lines walk a b l ls ≡ some (n, clamp n (largest l ls) b, false)
  unfolding place_lines
  place_lines-found n e = rw (e, place_lines)

  place_lines-far :
      addressed a (l ∷ ls) ≡ none
      → ltb 3 (distance nearest a) ≡ true
      → place_lines walk a b l ls ≡ none
  unfolding place_lines
  place_lines-far e far = rw (e, place_lines) (rw (far, place_lines))

  pub place_lines-near :
      addressed a (l ∷ ls) ≡ none
      → ltb 3 (distance nearest a) ≡ false
      → place_lines walk a b l ls
        ≡ some (nearest, clamp nearest (largest l ls) (pos (clamp nearest (largest l ls) b)), true)
  unfolding place_lines
  place_lines-near e close = rw (e, place_lines) (rw (close, place_lines))

  abbrev AllPlaced : Option (ℕ × ℕ × Bool) → Type 0
  AllPlaced none = Unit
  AllPlaced (some (start, end, snapped)) = IsPlaced (l ∷ ls) (largest l ls) a start end snapped

  place_lines-AllPlaced : AllPlaced (place_lines walk a b l ls)
  place_lines-AllPlaced = elim (Option-cases (addressed a (l ∷ ls))) [
    | inr (n, e) ↦
        let (at, i) = addressed_sound a (l ∷ ls) n e in
        let (lo, hi) = clamp_between n (largest l ls) b (le_largest l n ls i) in
        subst AllPlaced (sym (place_lines-found n e)) (record {
          listed = i;
          ordered = lo;
          within = hi;
          kept = λ _. at;
          near = placed_there a n at;
        })
    | inl e ↦ elim (Bool-cases (ltb 3 (distance nearest a))) [
      | inl far ↦ subst AllPlaced (sym (place_lines-far e far)) tt
      | inr close ↦
          let (lo, hi) =
            clamp_between nearest (largest l ls) (pos (clamp nearest (largest l ls) b))
              (le_largest l nearest ls In-nearest) in
          subst AllPlaced (sym (place_lines-near e close)) (record {
            listed = In-nearest;
            ordered = lo;
            within = hi;
            kept = λ f. cc;
            near = ground (arith, close);
          })
    ]
  ]

  pub place_lines-IsPlaced :
      (start end : ℕ) (snapped : Bool)
      → place_lines walk a b l ls ≡ some (start, end, snapped)
      → IsPlaced (l ∷ ls) (largest l ls) a start end snapped
  place_lines-IsPlaced start end snapped h = subst AllPlaced h place_lines-AllPlaced

  -- A line of the diff within three of the one the model named is enough.
  pub place_lines-some :
      (walk_all : (n : ℕ) → In n (l ∷ ls) → In n ((walk l ls).0 ∷ (walk l ls).1)) (n : ℕ)
      → In n (l ∷ ls)
      → distance n a ≤ 3
      → (r : ℕ × ℕ × Bool) × (place_lines walk a b l ls ≡ some r)
  place_lines-some walk_all n i le = elim (Option-cases (addressed a (l ∷ ls))) [
    | inr (m, e) ↦ (_, place_lines-found m e)
    | inl e ↦ (
      _,
      place_lines-near e
          (not_far (closest-IsNearest a (walk l ls).0 (walk l ls).1 n (walk_all n i)) le),
    )
  ]
    where
      not_far : {x y : ℕ} → x ≤ y → y ≤ 3 → ltb 3 x ≡ false
      not_far p q = ground arith
