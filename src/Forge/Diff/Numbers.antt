-- ===== src/Forge/Diff/Numbers.antt =====
-- Decimal numerals in hunk headers: what `show` prints, `number` reads.
use pr_sentinel.Prelude.{
  ℕ, zero, suc, ◌+◌, ◌*◌, ◌/◌, ◌%◌, ◌<◌, ◌≡◌, refl, ap, ◌∙◌, inl, inr, Bool-cases, none, some, [],
  ◌∷◌, ◌++◌, Text, show, show_digits, ltb, arith,
}
use pr_sentinel.Runtime.{Unicode, IsAscii}
use pr_sentinel.Forge.Diff.{number, number_from}

-- The text does not go on with a digit.
abbrev pub StopsDigits : Unicode → Text → Type 0
StopsDigits U [] = Unit
StopsDigits U (c ∷ s) = U.digit c ≡ none

module _ (U : Unicode) (ascii : IsAscii U) where
  number_from-digit :
      (a d : ℕ) (acc : Text)
      → d < 10
      → number_from U a ((48 + d) ∷ acc) ≡ number_from U (a * 10 + d) acc
  unfolding number_from
  number_from-digit a d acc h = rw (ascii.digit_of d h, number_from)

  number-show_digits :
      (f n : ℕ) (acc : Text) → n < f → number U (show_digits f n acc) ≡ some (number_from U n acc)
  unfolding show_digits number number_from
  number-show_digits zero n acc h = elim h [ ]
  number-show_digits (suc f) n acc h = elim (Bool-cases (ltb n 10)) [
    | inl small ↦ rw (small, ascii.digit_of n (ground arith)) refl
    | inr large ↦ rw large (
        number-show_digits f (n / 10) ((48 + n % 10) ∷ acc) (ground arith)
        ∙ ap some (number_from-digit (n / 10) (n % 10) acc (omega arith))
        ∙ ap (λ k. some (number_from U k acc)) (omega arith))
  ]

  number_from-stop : (n : ℕ) (rest : Text) → StopsDigits U rest → number_from U n rest ≡ (n, rest)
  unfolding number_from
  number_from-stop n [] h = refl
  number_from-stop n (c ∷ rest) h = rw (h, number_from)

  show_digits-append :
      (f n : ℕ) (acc rest : Text) → show_digits f n acc ++ rest ≡ show_digits f n (acc ++ rest)
  unfolding show_digits
  show_digits-append zero n acc rest = refl
  show_digits-append (suc f) n acc rest =
      ground (arith, show_digits-append f (n / 10) ((48 + n % 10) ∷ acc) rest)

  -- A number that is printed in front of a text that is no digit is read back.
  pub number-show :
      (n : ℕ) (rest : Text) → StopsDigits U rest → number U (show n ++ rest) ≡ some (n, rest)
  unfolding show
  number-show n rest h =
      rw (show_digits-append (suc n) n [] rest)
        (number-show_digits (suc n) n rest (omega arith) ∙ ap some (number_from-stop n rest h))
