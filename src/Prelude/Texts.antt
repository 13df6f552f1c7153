-- ===== src/Prelude/Texts.antt =====
-- Python's `str` as the list of its code points, and what the program does with texts.
use Prim.Native.Nat.{ℕ, zero, suc, ◌+◌, ◌-◌, ◌/◌, ◌%◌}
use Prim.Native.Char.{code}
use Prim.Native.String.{String}
use mathlib.Core.Path.{◌≡◌, refl, ap, ◌∙◌}
use mathlib.Core.Logic.{◌↔◌, ◌≢◌}
use mathlib.Core.Bool.{Bool, true, false, ◌&&◌, ◌||◌}
use mathlib.Core.List.{List, [], ◌∷◌, ◌++◌, reverse, reverse-cons, append-nil, append_assoc}
use native.Mathlib.Omega.{arith}
use mathlib.Core.Option.{Option, none, some}
use pr_sentinel.Prelude.Lists.{length, replicate, All}
use pr_sentinel.Prelude.Tests.{leb, ◌==◌, ltb, if◌then◌else◌}

abbrev pub Text : Type 0
Text = List ℕ

-- A literal.
abbrev pub codes : String → Text
codes String.[] = []
codes (String.◌∷◌ c s) = code c ∷ codes s

-- a == b
unfoldable pub text_eq : Text → Text → Bool
text_eq [] [] = true
text_eq (a ∷ s) (b ∷ t) = (a == b) && text_eq s t
text_eq _ _ = false

pub text_eq_iff : (s t : Text) → (text_eq s t ≡ true) ↔ (s ≡ t)
unfolding text_eq
text_eq_iff [] [] = ground arith
text_eq_iff [] (b ∷ t) = ground arith
text_eq_iff (a ∷ s) [] = ground arith
text_eq_iff (a ∷ s) (b ∷ t) = ground (arith, text_eq_iff s t)

pub text_eq_refl : (s : Text) → text_eq s s ≡ true
text_eq_refl s = (text_eq_iff s s).1 refl

-- s.startswith(p)
unfoldable pub starts_with : Text → Text → Bool
starts_with s [] = true
starts_with [] (b ∷ p) = false
starts_with (a ∷ s) (b ∷ p) = (a == b) && starts_with s p

-- sep.join(xs)
unfoldable pub join : Text → List Text → Text
join sep [] = []
join sep (x ∷ []) = x
join sep (x ∷ y ∷ r) = x ++ sep ++ join sep (y ∷ r)

-- str(n), on fuel: a number has at most as many digits as its value plus one.
unfoldable pub show_digits : ℕ → ℕ → Text → Text
show_digits zero n acc = acc
show_digits (suc f) n acc =
    let rest = show_digits f (n / 10) ((48 + n % 10) ∷ acc) in
    if ltb n 10 then (48 + n) ∷ acc else rest

unfoldable pub show : ℕ → Text
unfolding show_digits
show n = show_digits (suc n) n []

-- s.strip(), for a given test of white space.
unfoldable pub strip_left : (ℕ → Bool) → Text → Text
strip_left space [] = []
strip_left space (c ∷ s) = if space c then strip_left space s else c ∷ s

unfoldable pub strip : (ℕ → Bool) → Text → Text
strip space s = reverse (strip_left space (reverse (strip_left space s)))

-- The characters that end a line for str.splitlines.
unfoldable pub is_line_break : ℕ → Bool
is_line_break c =
    (leb 10 c && leb c 13) || (leb 28 c && leb c 30) || c == 133 || c == 8232 || c == 8233

-- s.splitlines(): `after_cr` says that a carriage return has just ended a line, whose newline
-- belongs to it.
flush_line : Text → List Text
flush_line [] = []
flush_line (d ∷ line) = reverse (d ∷ line) ∷ []

unfoldable pub split_lines_from : Bool → Text → Text → List Text
unfolding flush_line
split_lines_from after_cr line [] = flush_line line
split_lines_from after_cr line (c ∷ s) = elim (after_cr && c == 10) [
  | true ↦ split_lines_from false [] s
  | false ↦ elim (is_line_break c) [
    | true ↦ reverse line ∷ split_lines_from (c == 13) [] s
    | false ↦ split_lines_from false (c ∷ line) s
  ]
]

unfoldable pub split_lines : Text → List Text
unfolding split_lines_from is_line_break
split_lines s = split_lines_from false [] s

split_lines_runs : split_lines (codes "a\r\nbc\n\nd") ≡ codes "a" ∷ codes "bc" ∷ [] ∷ codes "d" ∷ []
unfolding split_lines
split_lines_runs = refl

-- The rest of a text behind a prefix.
unfoldable pub expect : Text → Text → Option Text
expect [] s = some s
expect (a ∷ p) [] = none
expect (a ∷ p) (b ∷ s) = if a == b then expect p s else none

pub expect-append : (p s : Text) → expect p (p ++ s) ≡ some s
unfolding expect
expect-append [] s = refl
expect-append (a ∷ p) s = ground (arith, expect-append p s)

-- f"{t:>n}"
unfoldable pub pad_left : ℕ → Text → Text
pad_left n t = replicate (n - length t) 32 ++ t

abbrev pub HasNoBreak : Text → Type 0
HasNoBreak t = All (λ c. is_line_break c ≡ false) t

newline : is_line_break 10 ≡ true
unfolding is_line_break
newline = refl

split_lines_from-line :
    (line acc rest : Text)
    → HasNoBreak line
    → split_lines_from false acc (line ++ 10 ∷ rest)
      ≡ (reverse acc ++ line) ∷ split_lines_from false [] rest
unfolding split_lines_from
split_lines_from-line [] acc rest h = rw (newline, split_lines_from) (rw append-nil)
split_lines_from-line (c ∷ line) acc rest h =
    rw (h.0, split_lines_from)
      (split_lines_from-line line (c ∷ acc) rest h.1
        ∙ ap (λ l. l ∷ split_lines_from false [] rest) (simp (reverse-cons, append_assoc)))

split_lines_from-last :
    (line acc : Text)
    → HasNoBreak line
    → acc ++ line ≢ []
    → split_lines_from false acc line ≡ (reverse acc ++ line) ∷ []
unfolding split_lines_from
split_lines_from-last [] [] h some_char = absurd (some_char refl)
split_lines_from-last [] (d ∷ acc) h some_char = rw append-nil
split_lines_from-last (c ∷ line) acc h some_char =
    rw (h.0, split_lines_from)
      (split_lines_from-last line (c ∷ acc) h.1 (ground arith)
        ∙ ap (λ l. l ∷ []) (simp (reverse-cons, append_assoc)))

-- Lines that hold a character each, and no break, come back from their join.
pub split_lines-join :
    (ls : List Text)
    → All (λ l. HasNoBreak l × (l ≢ [])) ls
    → split_lines (join (codes "\n") ls) ≡ ls
unfolding split_lines join
split_lines-join [] h = refl
split_lines-join (l ∷ []) h = split_lines_from-last l [] h.0.0 h.0.1
split_lines-join (l ∷ m ∷ ls) h = rw append_assoc (
    split_lines_from-line l [] (join (codes "\n") (m ∷ ls)) h.0.0
    ∙ ap (λ r. l ∷ r) (split_lines-join (m ∷ ls) h.1))
