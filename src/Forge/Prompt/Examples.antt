-- ===== src/Forge/Prompt/Examples.antt =====
-- A change of one file and of one image, as a model reads it.
use pr_sentinel.Prelude.{
  show, split_lines, starts_with, ◌≤◌, ◌≡◌, ◌↔◌, refl, true, false, none, [], ◌∷◌, map, codes, join,
}
use pr_sentinel.Domain.Models.{DiffFile}
use pr_sentinel.Forge.Prompt.{render_file, render_for_prompt}
use pr_sentinel.Forge.Prompt.Room.{total_room, shown_as, render_for_prompt_iff}

abbrev source : DiffFile
source = record {
  path = codes "a.py";
  previous_path = none;
  status = codes "modified";
  additions = 1;
  deletions = 1;
  hunks =
      record {
        old_start = 3;
        old_lines = 2;
        new_start = 3;
        new_lines = 2;
        header = codes "def f():";
        added_lines = 4 ∷ [];
        context_lines = 3 ∷ [];
        text = codes "@@ -3,2 +3,2 @@ def f():\n a\n-b\n+c";
      }
      ∷ [];
  patch = [];
  binary = false;
}

abbrev image : DiffFile
image = record {
  path = codes "i.png";
  previous_path = none;
  status = codes "added";
  additions = 0;
  deletions = 0;
  hunks = [];
  patch = [];
  binary = true;
}

test_gutter :
    render_file source
    ≡ codes
        "+++ a.py  (modified, +1/-1)\n@@ -3,2 +3,2 @@ def f():\n     3   a\n       - b\n     4 + c"
unfolding render_file join show split_lines starts_with
test_gutter = refl

render_for_prompt_iff_example :
    (((render_for_prompt (source ∷ image ∷ []) 100).1 ≡ false)
      ↔ (total_room (source ∷ image ∷ []) ≤ 100))
    × ((render_for_prompt (source ∷ image ∷ []) 100).1 ≡ false
        → (render_for_prompt (source ∷ image ∷ []) 100).0
          ≡ join (codes "\n\n") (map shown_as (source ∷ image ∷ [])))
render_for_prompt_iff_example = render_for_prompt_iff (source ∷ image ∷ []) 100
