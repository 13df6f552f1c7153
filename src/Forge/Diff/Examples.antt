-- ===== src/Forge/Diff/Examples.antt =====
-- Concrete patches.
use pr_sentinel.Prelude.{
  expect, join, show, split_lines, starts_with, ℕ, ◌≡◌, ◌↔◌, refl, none, some, List, [], ◌∷◌, ◌++◌,
  map, codes, All, In, is_line_break, arith,
}
use pr_sentinel.Runtime.Samples.{ascii, ascii-IsAscii}
use pr_sentinel.Domain.Models.{Hunk, addressable_lines}
use pr_sentinel.Forge.Diff.{FilePayload, parse_patch, build_diff_file}
use pr_sentinel.Forge.Diff.Source.{
  body_text, hunk_text, patch_lines, added, context, removed, marker, HunkSource, print_patch,
  hunk_of, IsPrintable,
}
use pr_sentinel.Forge.Diff.RoundTrip.{parse_patch-print_patch}
use pr_sentinel.Forge.Diff.Addressable.{Shows, addressable_iff}

abbrev change : List HunkSource
change =
    record {
      old_start = 3;
      old_lines = 2;
      new_start = 3;
      new_lines = 2;
      heading = codes " def f():";
      body = context (codes "a") ∷ removed (codes "b") ∷ added (codes "c") ∷ [];
    }
    ∷ record {
      old_start = 9;
      old_lines = 0;
      new_start = 10;
      new_lines = 1;
      heading = [];
      body = added (codes "d") ∷ marker (codes " No newline at end of file") ∷ [];
    }
    ∷ []

change-IsPrintable : All IsPrintable change
unfolding is_line_break
change-IsPrintable = (
  record {
    heading = (refl, (refl, (refl, (refl, (refl, (refl, (refl, (refl, (refl, tt)))))))));
    body = ((refl, tt), ((refl, tt), ((refl, tt), tt)));
  },
  (record { heading = tt; body = ((refl, tt), (ground arith, tt)) }, tt),
)

abbrev numbers : List Hunk → List (List ℕ)
numbers hs = map (λ h. h.added_lines) hs

test_parse : numbers (parse_patch ascii (print_patch change)) ≡ (4 ∷ []) ∷ (10 ∷ []) ∷ []
unfolding parse_patch print_patch split_lines join patch_lines hunk_text show body_text expect
    starts_with
test_parse = refl

-- A header with no counts, and lines before the first header.
test_short_header :
    numbers (parse_patch ascii (codes "noise\n@@ -1 +7 @@\n one\n+two\n-three")) ≡ (8 ∷ []) ∷ []
unfolding parse_patch split_lines expect starts_with
test_short_header = refl

-- A form feed inside an added line ends it for splitlines, and the line after it is misnumbered.
test_form_feed :
    numbers (parse_patch ascii (codes "@@ -1 +1,2 @@\n+a" ++ 12 ∷ codes "b\n+c"))
    ≡ (1 ∷ 3 ∷ []) ∷ []
unfolding parse_patch split_lines expect starts_with
test_form_feed = refl

parse_patch-print_patch_example :
    parse_patch ascii (print_patch change) ≡ map (hunk_of ascii) change
parse_patch-print_patch_example =
    parse_patch-print_patch ascii ascii-IsAscii change change-IsPrintable

abbrev payload : FilePayload
payload = record {
  filename = codes "app/db.py";
  previous_filename = none;
  status = some (codes "modified");
  additions = some 2;
  deletions = some 1;
  patch = some (print_patch change);
}

addressable_iff_example :
    In 10 (addressable_lines (build_diff_file ascii payload)) ↔ Shows change 10
addressable_iff_example =
    addressable_iff ascii ascii-IsAscii payload change 10 change-IsPrintable refl
