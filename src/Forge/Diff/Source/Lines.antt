-- ===== src/Forge/Diff/Source/Lines.antt =====
-- The lines of a printed patch hold a character each, and no line break.
use pr_sentinel.Prelude.{
  ℕ, zero, suc, ◌+◌, ◌/◌, ◌%◌, ◌<◌, ◌≡◌, ◌≢◌, refl, false, List, [], ◌∷◌, ◌++◌, map, Text, codes,
  show, show_digits, ltb, All, All-append, HasNoBreak, is_line_break, Bool-cases, inl, inr, arith,
}
use pr_sentinel.Forge.Diff.Source.{
  BodyLine, added, context, removed, marker, body_text, HunkSource, header_text, hunk_text,
  patch_lines, BodyHasNoBreak, IsPrintable,
}

abbrev pub IsLine : Text → Type 0
IsLine l = HasNoBreak l × (l ≢ [])

abbrev Plain : ℕ → Type 0
Plain c = is_line_break c ≡ false

digit-Plain : (d : ℕ) → d < 10 → Plain (48 + d)
unfolding is_line_break
digit-Plain d h = ground arith

show_digits-HasNoBreak : (f n : ℕ) (acc : Text) → HasNoBreak acc → HasNoBreak (show_digits f n acc)
unfolding show_digits
show_digits-HasNoBreak zero n acc h = h
show_digits-HasNoBreak (suc f) n acc h = elim (Bool-cases (ltb n 10)) [
  | inl small ↦ rw small (digit-Plain n (ground arith), h)
  | inr large ↦ rw large (
      show_digits-HasNoBreak f (n / 10) ((48 + n % 10) ∷ acc)
        (digit-Plain (n % 10) (omega arith), h))
]

show-HasNoBreak : (n : ℕ) → HasNoBreak (show n)
unfolding show
show-HasNoBreak n = show_digits-HasNoBreak (suc n) n [] tt

numeral-HasNoBreak : (n : ℕ) (rest : Text) → HasNoBreak rest → HasNoBreak (show n ++ rest)
numeral-HasNoBreak n rest h = All-append Plain (show n) rest (show-HasNoBreak n) h

header-HasNoBreak : (h : HunkSource) → HasNoBreak h.heading → HasNoBreak (header_text h)
unfolding header_text is_line_break
header-HasNoBreak h heading =
    let ending : HasNoBreak (codes " @@" ++ h.heading) = (refl, (refl, (refl, heading))) in
    let new_lines = numeral-HasNoBreak h.new_lines _ ending in
    let new_start = numeral-HasNoBreak h.new_start _ (refl, new_lines) in
    let old_lines = numeral-HasNoBreak h.old_lines _ (refl, (refl, new_start)) in
    (refl, (refl, (refl, (refl, numeral-HasNoBreak h.old_start _ (refl, old_lines)))))

body-IsLine : (b : BodyLine) → BodyHasNoBreak b → IsLine (body_text b)
unfolding body_text is_line_break
body-IsLine (added t) h = ((refl, h), ground arith)
body-IsLine (context t) h = ((refl, h), ground arith)
body-IsLine (removed t) h = ((refl, h), ground arith)
body-IsLine (marker t) h = ((refl, h), ground arith)

map-body-IsLine : (body : List BodyLine) → All BodyHasNoBreak body → All IsLine (map body_text body)
map-body-IsLine [] h = tt
map-body-IsLine (b ∷ body) h = (body-IsLine b h.0, map-body-IsLine body h.1)

header-ne : (h : HunkSource) → header_text h ≢ []
unfolding header_text
header-ne h = ground arith

pub patch_lines-IsLine : (hs : List HunkSource) → All IsPrintable hs → All IsLine (patch_lines hs)
unfolding patch_lines hunk_text
patch_lines-IsLine [] p = tt
patch_lines-IsLine (h ∷ hs) p = (
  (header-HasNoBreak h p.0.heading, header-ne h),
  All-append IsLine (map body_text h.body) (patch_lines hs) (map-body-IsLine h.body p.0.body)
      (patch_lines-IsLine hs p.1),
)
