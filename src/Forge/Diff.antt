-- ===== src/Forge/Diff.antt =====
-- src/pr_sentinel/forge/diff.py: unified diffs. The program keeps the number of the last new line
-- seen, from new_start - 1 on, which may be -1; `next` is that number plus one.
use pr_sentinel.Prelude.{
  ℕ, ◌+◌, ◌*◌, Bool, false, not, ◌&&◌, Option, none, some, ◌>>=◌, List, [], ◌∷◌, ◌++◌, Text, codes,
  text_eq, starts_with, split_lines, join, strip, expect, length, ltb, if◌then◌else◌,
}
pub mod Numbers
pub mod Source
pub mod RoundTrip
pub mod Addressable
mod Examples
use mathlib.Core.Option.{get_or}
use pr_sentinel.Runtime.{Unicode}
use pr_sentinel.Domain.Models.{Hunk, DiffFile}

module _ (U : Unicode) where
  -- The digits at the front of a text, read as a number behind the digits of `acc`.
  pub number_from : ℕ → Text → ℕ × Text
  number_from acc [] = (acc, [])
  number_from acc (c ∷ s) = elim (U.digit c) [
    | none ↦ (acc, c ∷ s)
    | some d ↦ number_from (acc * 10 + d) s
  ]

  -- \d+
  pub number : Text → Option (ℕ × Text)
  number [] = none
  number (c ∷ s) = elim (U.digit c) [ none ↦ none | some d ↦ some (number_from d s) ]

  -- (?:,(\d+))? and `or 1`. A comma with no digits matches neither the group nor what follows it.
  pub line_count : Text → Option (ℕ × Text)
  line_count s = elim (expect (codes ",") s) [ none ↦ some (1, s) | some r ↦ number r ]

  -- _HUNK_HEADER.match(line), and the hunk that it opens.
  pub open_hunk : Text → Option Hunk
  open_hunk line = do
    a ← expect (codes "@@ -") line
    (old_start, b) ← number a
    (old_lines, c) ← line_count b
    d ← expect (codes " +") c
    (new_start, e) ← number d
    (new_lines, f) ← line_count e
    g ← expect (codes " @@") f
    some (record {
      old_start = old_start;
      old_lines = old_lines;
      new_start = new_start;
      new_lines = new_lines;
      header = strip U.is_space g;
      added_lines = [];
      context_lines = [];
      text = [];
    })

pub record ParseState : Type 0 where
  pub hunks : List Hunk
  pub current : Option Hunk
  pub next : ℕ
  pub buf : List Text

-- current.text = "\n".join(buf); hunks.append(current)
pub close_hunk : Option Hunk → List Text → List Hunk → List Hunk
close_hunk none buf hunks = hunks
close_hunk (some h) buf hunks = hunks ++ record h { text = join (codes "\n") buf } ∷ []

-- A line inside a hunk, by its first character.
pub body_line : Hunk → Text → ParseState → ParseState
body_line h line st =
    if starts_with line (codes "+")
    then record st {
      current = some (record h { added_lines = h.added_lines ++ st.next ∷ [] });
      next = st.next + 1;
      buf = st.buf ++ line ∷ [];
    }
    else if starts_with line (codes "-")
    then record st { buf = st.buf ++ line ∷ [] }
    else if starts_with line (codes "\\")
    then record st { buf = st.buf ++ line ∷ [] }
    else record st {
      current = some (record h { context_lines = h.context_lines ++ st.next ∷ [] });
      next = st.next + 1;
      buf = st.buf ++ line ∷ [];
    }

module _ (U : Unicode) where
  -- The body of the loop.
  pub parse_line : ParseState → Text → ParseState
  unfolding close_hunk body_line
  parse_line st line = elim (open_hunk U line) [
    | some h ↦ record {
      hunks = close_hunk st.current st.buf st.hunks;
      current = some h;
      next = h.new_start;
      buf = line ∷ [];
    }
    | none ↦ elim st.current [ none ↦ st | some h ↦ body_line h line st ]
  ]

  pub parse_from : ParseState → List Text → List Hunk
  parse_from st [] = close_hunk st.current st.buf st.hunks
  parse_from st (line ∷ lines) = parse_from (parse_line st line) lines

  unfoldable pub parse_patch : Text → List Hunk
  unfolding parse_from parse_line open_hunk number number_from line_count close_hunk body_line
  parse_patch patch =
      parse_from (record { hunks = []; current = none; next = 0; buf = [] }) (split_lines patch)

-- One element of GitHub's list of files; `none` is a missing key.
pub record FilePayload : Type 0 where
  pub filename : Text
  pub previous_filename : Option Text
  pub status : Option Text
  pub additions : Option ℕ
  pub deletions : Option ℕ
  pub patch : Option Text

is_removed : Option Text → Bool
is_removed none = false
is_removed (some s) = text_eq s (codes "removed")

unfoldable pub build_diff_file : Unicode → FilePayload → DiffFile
unfolding is_removed
build_diff_file U p =
    let patch = get_or p.patch [] in
    record {
      path = p.filename;
      previous_path = p.previous_filename;
      status = get_or p.status (codes "modified");
      additions = get_or p.additions 0;
      deletions = get_or p.deletions 0;
      patch = patch;
      hunks = parse_patch U patch;
      binary = not (ltb 0 (length patch)) && not (is_removed p.status);
    }
