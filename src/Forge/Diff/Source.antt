-- ===== src/Forge/Diff/Source.antt =====
-- Hunks as a diff tool has them, the patch that prints them, and the lines of the new file that
-- they show: an account of diffs that does not mention the parser.
pub mod Lines
use pr_sentinel.Prelude.{
  ℕ, suc, ◌+◌, ◌≤◌, ◌<◌, ◌≡◌, ◌≢◌, ◌↔◌, ◌⊎◌, inl, inr, List, [], ◌∷◌, ◌++◌, map, Text, codes, show,
  join, strip, All, In, HasNoBreak, arith, In-append, In-append_left, In-append_right,
}
use pr_sentinel.Runtime.{Unicode}
use pr_sentinel.Domain.Models.{Hunk}

pub data BodyLine : Type 0 where
  added context removed marker : Text → BodyLine

unfoldable pub body_text : BodyLine → Text
body_text (added t) = b'+' ∷ t
body_text (context t) = b' ' ∷ t
body_text (removed t) = b'-' ∷ t
body_text (marker t) = 92 ∷ t

pub record HunkSource : Type 0 where
  pub old_start : ℕ
  pub old_lines : ℕ
  pub new_start : ℕ
  pub new_lines : ℕ
  pub heading : Text
  pub body : List BodyLine

unfoldable pub header_text : HunkSource → Text
header_text h =
    codes "@@ -"
    ++ (show h.old_start
        ++ (codes ","
            ++ (show h.old_lines
                ++ (codes " +"
                    ++ (show h.new_start
                        ++ (codes "," ++ (show h.new_lines ++ (codes " @@" ++ h.heading))))))))

unfoldable pub hunk_text : HunkSource → List Text
unfolding header_text
hunk_text h = header_text h ∷ map body_text h.body

unfoldable pub patch_lines : List HunkSource → List Text
patch_lines [] = []
patch_lines (h ∷ hs) = hunk_text h ++ patch_lines hs

unfoldable pub print_patch : List HunkSource → Text
print_patch hs = join (codes "\n") (patch_lines hs)

-- How many lines of the new file a hunk shows.
abbrev pub shown : List BodyLine → ℕ
shown [] = 0
shown (added t ∷ body) = suc (shown body)
shown (context t ∷ body) = suc (shown body)
shown (_ ∷ body) = shown body

-- The numbers of the added lines, and of the context lines, from `n` on.
abbrev pub added_numbers : ℕ → List BodyLine → List ℕ
added_numbers n [] = []
added_numbers n (added t ∷ body) = n ∷ added_numbers (n + 1) body
added_numbers n (context t ∷ body) = added_numbers (n + 1) body
added_numbers n (_ ∷ body) = added_numbers n body

abbrev pub context_numbers : ℕ → List BodyLine → List ℕ
context_numbers n [] = []
context_numbers n (added t ∷ body) = context_numbers (n + 1) body
context_numbers n (context t ∷ body) = n ∷ context_numbers (n + 1) body
context_numbers n (_ ∷ body) = context_numbers n body

-- The hunk that a parser should return.
unfoldable pub hunk_of : Unicode → HunkSource → Hunk
hunk_of U h = record {
  old_start = h.old_start;
  old_lines = h.old_lines;
  new_start = h.new_start;
  new_lines = h.new_lines;
  header = strip U.is_space h.heading;
  added_lines = added_numbers h.new_start h.body;
  context_lines = context_numbers h.new_start h.body;
  text = join (codes "\n") (hunk_text h);
}

abbrev pub BodyHasNoBreak : BodyLine → Type 0
BodyHasNoBreak (added t) = HasNoBreak t
BodyHasNoBreak (context t) = HasNoBreak t
BodyHasNoBreak (removed t) = HasNoBreak t
BodyHasNoBreak (marker t) = HasNoBreak t

-- No text of the hunk holds a line break.
pub record IsPrintable (h : HunkSource) : Type 0 where
  pub heading : HasNoBreak h.heading
  pub body : All BodyHasNoBreak h.body

-- The added and the context lines together are the lines that the hunk shows, one after another.
pub shown_numbers :
    (body : List BodyLine) (s n : ℕ)
    → (In n (added_numbers s body) ⊎ In n (context_numbers s body))
      ↔ ((s ≤ n) × (n < s + shown body))
shown_numbers [] s n = ground arith
shown_numbers (added t ∷ body) s n = ground (arith, shown_numbers body (s + 1) n)
shown_numbers (context t ∷ body) s n = ground (arith, shown_numbers body (s + 1) n)
shown_numbers (removed t ∷ body) s n = shown_numbers body s n
shown_numbers (marker t ∷ body) s n = shown_numbers body s n
