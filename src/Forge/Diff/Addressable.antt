-- ===== src/Forge/Diff/Addressable.antt =====
-- The lines that an inline comment can be attached to.

use pr_sentinel.Prelude.{
  ℕ, ◌+◌, ◌≤◌, ◌<◌, ◌≡◌, ◌∙◌, refl, sym, ap, subst, ◌↔◌, inl, inr, some, List, [], ◌∷◌, ◌++◌, map,
  All, In, In-append, In-append_left, In-append_right,
}
use mathlib.Core.Option.{get_or}
use pr_sentinel.Runtime.{Unicode, IsAscii}
use pr_sentinel.Domain.Models.{hunk_lines, addressable_lines}
use pr_sentinel.Forge.Diff.{FilePayload, parse_patch, build_diff_file}
use pr_sentinel.Forge.Diff.RoundTrip.{parse_patch-print_patch}
use pr_sentinel.Forge.Diff.Source.{
  HunkSource, print_patch, shown, added_numbers, context_numbers, shown_numbers, hunk_of,
  IsPrintable,
}

abbrev pub Shows : List HunkSource → ℕ → Type 0
Shows hs n = (h : HunkSource) × In h hs × (h.new_start ≤ n) × (n < h.new_start + shown h.body)

shown_of_own :
    (h : HunkSource) (n : ℕ)
    → In n (added_numbers h.new_start h.body ++ context_numbers h.new_start h.body)
    → (h.new_start ≤ n) × (n < h.new_start + shown h.body)
shown_of_own h n m =
    (shown_numbers h.body h.new_start n).0 (In-append n (added_numbers h.new_start h.body) _ m)

own_of_shown :
    (h k : HunkSource) (n : ℕ)
    → k ≡ h
    → k.new_start ≤ n
    → n < k.new_start + shown k.body
    → In n (added_numbers h.new_start h.body ++ context_numbers h.new_start h.body)
own_of_shown h k n e lo hi =
    elim ((shown_numbers h.body h.new_start n).1 (rw (← e) lo, rw (← e) hi)) [
      | inl a ↦ In-append_left n _ _ a
      | inr c ↦ In-append_right n _ _ c
    ]

Shows→In :
    (U : Unicode) (n : ℕ) (hs : List HunkSource) (k : HunkSource)
    → In k hs
    → k.new_start ≤ n
    → n < k.new_start + shown k.body
    → In n (hunk_lines (map (hunk_of U) hs))
unfolding hunk_lines hunk_of
Shows→In U n [] k m lo hi = absurd m
Shows→In U n (h ∷ hs) k (inl e) lo hi = In-append_left n _ _ (own_of_shown h k n e lo hi)
Shows→In U n (h ∷ hs) k (inr m) lo hi = In-append_right n _ _ (Shows→In U n hs k m lo hi)

In→Shows :
    (U : Unicode) (n : ℕ) (hs : List HunkSource)
    → In n (hunk_lines (map (hunk_of U) hs))
    → Shows hs n
unfolding hunk_lines hunk_of
In→Shows U n [] m = absurd m
In→Shows U n (h ∷ hs) m =
    elim (In-append n (added_numbers h.new_start h.body ++ context_numbers h.new_start h.body) _
      m) [
        | inl own ↦ let (lo, hi) = shown_of_own h n own in (h, inl refl, lo, hi)
        | inr rest ↦ let (k, i, lo, hi) = In→Shows U n hs rest in (k, inr i, lo, hi)
      ]

-- An inline comment can be attached exactly to the lines that the diff shows: a number is
-- addressable in a file built from a printed patch if and only if it lies in the stretch of some
-- hunk, which begins at the hunk's start and is as long as its added and context lines together.
pub addressable_iff :
    (U : Unicode)
    → IsAscii U
    → (p : FilePayload) (hs : List HunkSource) (n : ℕ) → All IsPrintable hs
    → p.patch ≡ some (print_patch hs)
    → In n (addressable_lines (build_diff_file U p)) ↔ Shows hs n
unfolding addressable_lines build_diff_file
addressable_iff U ascii p hs n printable e =
    let parsed =
      ap (λ o. hunk_lines (parse_patch U (get_or o []))) e
      ∙ ap hunk_lines (parse_patch-print_patch U ascii hs printable) in
    (
      λ m. In→Shows U n hs (subst (In n) parsed m),
      λ (k, i, lo, hi). subst (In n) (sym parsed) (Shows→In U n hs k i lo hi),
    )
