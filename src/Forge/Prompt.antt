-- ===== src/Forge/Prompt.antt =====
-- src/pr_sentinel/forge/diff.py: the diff as a model reads it. As in Forge.Diff, `next` is the number
-- of the last new line plus one.
pub mod Room
mod Examples
use pr_sentinel.Prelude.{
  ℕ, ◌+◌, ◌-◌, Bool, true, false, List, [], ◌∷◌, ◌++◌, map, Text, codes, show, join, split_lines,
  starts_with, length, replicate, drop, ltb, if◌then◌else◌,
}
use pr_sentinel.Domain.Models.{Hunk, DiffFile}

-- f"{n:>6}"
pad_number : ℕ → Text
pad_number n = replicate (6 - length (show n)) b' ' ++ show n

-- The lines of a hunk behind its header, with their numbers in the new file.
number_lines : ℕ → List Text → List Text
unfolding pad_number
number_lines next [] = []
number_lines next (line ∷ lines) =
    let after = number_lines (next + 1) lines in
    let same = number_lines next lines in
    if starts_with line (codes "+")
    then (pad_number next ++ codes " + " ++ drop 1 line) ∷ after
    else if starts_with line (codes "-")
    then (codes "       - " ++ drop 1 line) ∷ same
    else if starts_with line (codes "\\")
    then same
    else (pad_number next
        ++ codes "   "
        ++ (if starts_with line (codes " ") then drop 1 line else line))
      ∷ after

hunk_block : Hunk → List Text
unfolding number_lines
hunk_block h =
    (codes "@@ -"
      ++ show h.old_start
      ++ codes ","
      ++ show h.old_lines
      ++ codes " +"
      ++ show h.new_start
      ++ codes ","
      ++ show h.new_lines
      ++ codes " @@ "
      ++ h.header)
    ∷ number_lines h.new_start (drop 1 (split_lines h.text))

hunk_blocks : List Hunk → List Text
hunk_blocks [] = []
hunk_blocks (h ∷ hs) = hunk_block h ++ hunk_blocks hs

-- "\n".join(block)
unfoldable pub render_file : DiffFile → Text
unfolding hunk_blocks hunk_block
render_file f = join (codes "\n") (
    (codes "+++ "
      ++ f.path
      ++ codes "  ("
      ++ f.status
      ++ codes ", +"
      ++ show f.additions
      ++ codes "/-"
      ++ show f.deletions
      ++ codes ")")
    ∷ hunk_blocks f.hunks)

unfoldable pub binary_note : DiffFile → Text
binary_note f =
    codes "+++ " ++ f.path ++ codes "\n[binary file, " ++ show f.additions ++ codes " additions]"

unfoldable pub omitted_note : DiffFile → Text
omitted_note f = codes "+++ " ++ f.path ++ codes "\n[omitted: diff budget exhausted]"

-- What the loop appends to `out`, and whether it sets `truncated`, from `used` on.
unfoldable pub render_from : ℕ → ℕ → List DiffFile → List Text × Bool
render_from max_bytes used [] = ([], false)
render_from max_bytes used (f ∷ fs) =
    let skipped = render_from max_bytes used fs in
    let kept = render_from max_bytes (used + length (render_file f)) fs in
    if f.binary
    then (binary_note f ∷ skipped.0, skipped.1)
    else if ltb max_bytes (used + length (render_file f))
    then (omitted_note f ∷ skipped.0, true)
    else (render_file f ∷ kept.0, kept.1)

unfoldable pub render_for_prompt : List DiffFile → ℕ → Text × Bool
render_for_prompt files max_bytes =
    let result = render_from max_bytes 0 files in (join (codes "\n\n") result.0, result.1)
