-- ===== src/Retrieval/Chunking/Examples.antt =====
-- The chunks of a small file.
use pr_sentinel.Prelude.{
  is_line_break, join, split_lines_from, strip, strip_left, text_eq, ◌≤◌, ◌≡◌, ◌⊎◌, refl, true,
  none, some, [], ◌∷◌, Text, codes, length, In, split_lines, starts_with, if◌then◌else◌, map, ℕ,
}
use pr_sentinel.Runtime.Samples.{ascii}
use pr_sentinel.Retrieval.Chunking.{
  after_dot, boundaries_from, cap, cap_all, chunk, definitions, header, last_part, lines_between,
  python_line, whole, windows_from, Patterns, Chunk, chunk_file, boundaries, is_python, is_blank,
  language_of, windows,
}
use pr_sentinel.Retrieval.Chunking.Coverage.{first_kept, chunk_file_covers}
use pr_sentinel.Retrieval.Chunking.Windows.{IsPiece, HasLine}

abbrev patterns : Patterns
patterns = record {
  python_def = λ line. if starts_with line (codes "def ") then some (codes "f") else none;
  brace_def = λ line. none;
}

abbrev span : Chunk → ℕ × ℕ
span c = (c.start_line, c.end_line)

-- Two lines, then a definition of two lines.
abbrev text : Text
text = codes "import os\n\ndef f():\n    return 1\n"

test_chunks : map span (chunk_file ascii patterns (codes "a.py") text none) ≡ (3, 4) ∷ []
unfolding chunk_file split_lines cap_all whole boundaries boundaries_from language_of text_eq
    strip_left starts_with header definitions cap chunk strip lines_between join is_line_break
    split_lines_from after_dot is_blank is_python last_part python_line windows windows_from
test_chunks = refl

-- A range of 130 lines is two windows that overlap by 15 lines.
test_windows : map span (windows (codes "a.md") [] none 1 130 none) ≡ (1, 120) ∷ (106, 130) ∷ []
unfolding windows windows_from chunk
test_windows = refl

chunk_file_covers_example :
    ((c : Chunk)
      → In c (chunk_file ascii patterns (codes "a.py") text none)
      → IsPiece (split_lines text) 1 (length (split_lines text)) c)
    × ((n : ℕ)
        → first_kept (
            boundaries ascii patterns
              (is_python (language_of (codes "a.py") none))
              (split_lines text))
          ≤ n
        → n ≤ length (split_lines text)
        → (c : Chunk) × IsPiece (split_lines text) 1 (length (split_lines text)) c
          × HasLine n c
          × (In c (chunk_file ascii patterns (codes "a.py") text none)
              ⊎ (is_blank ascii c.content ≡ true)))
chunk_file_covers_example = chunk_file_covers ascii patterns (codes "a.py") text none
