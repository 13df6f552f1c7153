-- ===== src/Retrieval/Chunking.antt =====
-- src/pr_sentinel/retrieval/chunking.py. The two regular expressions are a parameter; content_hash,
-- which is a digest, and as_row are left out.
pub mod Windows
pub mod Coverage
mod Examples
use pr_sentinel.Prelude.{
  ℕ, zero, suc, ◌+◌, ◌-◌, ◌≤◌, min, Bool, true, false, not, ◌&&◌, ◌||◌, ◌==◌, Option, none, some,
  List, [], ◌∷◌, ◌++◌, map, Text, codes, text_eq, any, filter_by, find_first, length, take, drop,
  join, strip, strip_left, split_lines, leb, ltb, if◌then◌else◌,
}
use pr_sentinel.Runtime.{Unicode}

-- The name in the match of _PY_DEF and of _BRACE_DEF at the start of a line.
pub record Patterns : Type 0 where
  pub python_def : Text → Option Text
  pub brace_def : Text → Option Text

abbrev pub max_chunk_lines : ℕ
max_chunk_lines = 120

abbrev pub min_chunk_lines : ℕ
min_chunk_lines = 5

abbrev pub window_overlap : ℕ
window_overlap = 15

-- SKIP_DIRS
abbrev pub skip_dirs : List Text
skip_dirs =
    codes ".git"
    ∷ codes "node_modules"
    ∷ codes "venv"
    ∷ codes ".venv"
    ∷ codes "__pycache__"
    ∷ codes "dist"
    ∷ codes "build"
    ∷ codes "target"
    ∷ codes ".next"
    ∷ codes ".mypy_cache"
    ∷ codes ".pytest_cache"
    ∷ codes "vendor"
    ∷ codes ".terraform"
    ∷ codes "migrations/__pycache__"
    ∷ []

-- LANGUAGE_BY_EXT
abbrev pub languages : List (Text × Text)
languages =
    (codes ".py", codes "python")
    ∷ (codes ".ts", codes "typescript")
    ∷ (codes ".tsx", codes "typescript")
    ∷ (codes ".js", codes "javascript")
    ∷ (codes ".jsx", codes "javascript")
    ∷ (codes ".go", codes "go")
    ∷ (codes ".rs", codes "rust")
    ∷ (codes ".java", codes "java")
    ∷ (codes ".kt", codes "kotlin")
    ∷ (codes ".rb", codes "ruby")
    ∷ (codes ".php", codes "php")
    ∷ (codes ".cs", codes "csharp")
    ∷ (codes ".c", codes "c")
    ∷ (codes ".h", codes "c")
    ∷ (codes ".cc", codes "cpp")
    ∷ (codes ".cpp", codes "cpp")
    ∷ (codes ".hpp", codes "cpp")
    ∷ (codes ".sql", codes "sql")
    ∷ (codes ".sh", codes "shell")
    ∷ (codes ".tf", codes "terraform")
    ∷ (codes ".md", codes "markdown")
    ∷ (codes ".yaml", codes "yaml")
    ∷ (codes ".yml", codes "yaml")
    ∷ []

-- INDEXABLE_EXT: its members are the keys of LANGUAGE_BY_EXT.
abbrev pub indexable_ext : List Text
indexable_ext = map (λ p. p.0) languages

pub record Chunk : Type 0 where
  pub file_path : Text
  pub start_line : ℕ
  pub end_line : ℕ
  pub content : Text
  pub symbol : Option Text
  pub language : Option Text

-- path.rsplit(".", 1)[-1], with the part behind the last dot so far.
after_dot : Text → Text → Text
after_dot [] part = part
after_dot (c ∷ s) part = if c == b'.' then after_dot s s else after_dot s part

last_part : Text → Text
unfolding after_dot
last_part path = after_dot path path

-- language or LANGUAGE_BY_EXT.get(…)
unfoldable pub language_of : Text → Option Text → Option Text
unfolding last_part
language_of path (some (c ∷ s)) = some (c ∷ s)
language_of path _ = elim (find_first (λ p. text_eq p.0 (codes "." ++ last_part path)) languages) [
  | none ↦ none
  | some p ↦ some p.1
]

-- The line numbers, from `n` on, where a definition starts, with its name.
unfoldable pub boundaries_from : (Text → Option Text) → ℕ → List Text → List (ℕ × Text)
boundaries_from pattern n [] = []
boundaries_from pattern n (line ∷ lines) =
    let rest = boundaries_from pattern (n + 1) lines in
    elim (pattern line) [ none ↦ rest | some name ↦ (n, name) ∷ rest ]

-- A line that starts with white space is no definition.
unfoldable pub python_line : Unicode → Patterns → Text → Option Text
python_line U P line = if text_eq line (strip_left U.is_space line) then P.python_def line else none

-- _python_boundaries, _brace_boundaries
unfoldable pub boundaries : Unicode → Patterns → Bool → List Text → List (ℕ × Text)
unfolding python_line
boundaries U P is_python lines =
    boundaries_from (if is_python then python_line U P else P.brace_def) 1 lines

-- "\n".join(lines[start - 1 : stop]), for `start` from one on.
unfoldable pub lines_between : List Text → ℕ → ℕ → Text
lines_between lines start stop =
    join (codes "\n") (take (stop - (start - 1)) (drop (start - 1) lines))

module _ (path : Text) (lines : List Text) (language : Option Text) where
  unfoldable pub chunk : ℕ → ℕ → Option Text → Chunk
  chunk start stop symbol = record {
    file_path = path;
    start_line = start;
    end_line = stop;
    content = lines_between lines start stop;
    symbol = symbol;
    language = language;
  }

  -- The loop of _windows, on fuel: the cursor moves on each round, so `end + 1 - start` rounds are
  -- enough.
  unfoldable pub windows_from : ℕ → ℕ → ℕ → Option Text → List Chunk
  windows_from zero cursor end symbol = []
  windows_from (suc fuel) cursor end symbol =
      let stop = min (cursor + max_chunk_lines - 1) end in
      let rest = windows_from fuel (cursor + (max_chunk_lines - window_overlap)) end symbol in
      if not (leb cursor end)
      then []
      else if leb end stop
      then chunk cursor stop symbol ∷ []
      else chunk cursor stop symbol ∷ rest

  -- _windows; `end or len(lines)` is the caller's.
  unfoldable pub windows : ℕ → ℕ → Option Text → List Chunk
  windows start end symbol = windows_from (end + 1 - start) start end symbol

  -- The loop of _from_boundaries.
  unfoldable pub definitions : List (ℕ × Text) → List Chunk
  definitions [] = []
  definitions ((start, symbol) ∷ []) =
      if ltb (length lines) start then [] else chunk start (length lines) (some symbol) ∷ []
  definitions ((start, symbol) ∷ (next, name) ∷ rest) =
      let later = definitions ((next, name) ∷ rest) in
      if ltb (next - 1) start then later else chunk start (next - 1) (some symbol) ∷ later

  -- The header of the file.
  unfoldable pub header : ℕ → List Chunk
  header first =
      if ltb min_chunk_lines first then chunk 1 (first - 1) (some (codes "<module>")) ∷ [] else []

  -- _from_boundaries, or the windows of a file without boundaries.
  unfoldable pub whole : List (ℕ × Text) → List Chunk
  whole [] = windows 1 (length lines) none
  whole ((first, name) ∷ rest) = header first ++ definitions ((first, name) ∷ rest)

  -- A chunk that is too long is cut into windows.
  unfoldable pub cap : Chunk → List Chunk
  cap c =
      if leb (c.end_line - c.start_line + 1) max_chunk_lines
      then c ∷ []
      else windows c.start_line c.end_line c.symbol

  unfoldable pub cap_all : List Chunk → List Chunk
  cap_all [] = []
  cap_all (c ∷ cs) = cap c ++ cap_all cs

pub is_blank : Unicode → Text → Bool
is_blank U t = leb (length (strip U.is_space t)) 0

pub is_python : Option Text → Bool
is_python none = false
is_python (some name) = text_eq name (codes "python")

unfoldable pub chunk_file : Unicode → Patterns → Text → Text → Option Text → List Chunk
unfolding is_blank is_python
chunk_file U P path text language =
    let lines = split_lines text in
    let lang = language_of path language in
    if leb (length lines) 0
    then []
    else filter_by (λ c. not (is_blank U c.content))
        (cap_all path lines lang (whole path lines lang (boundaries U P (is_python lang) lines)))

-- path.split("/")
unfoldable pub split_slashes : Text → List Text
split_slashes [] = [] ∷ []
split_slashes (c ∷ s) =
    let rest = split_slashes s in
    if c == b'/' then [] ∷ rest else elim rest [ [] ↦ (c ∷ []) ∷ [] | t ∷ ts ↦ (c ∷ t) ∷ ts ]

pub should_index : Text → ℕ → ℕ → Bool
unfolding split_slashes last_part
should_index path size_bytes max_bytes =
    if any (λ part. any (text_eq part) skip_dirs) (split_slashes path)
    then false
    else if ltb max_bytes size_bytes
    then false
    else let ext = if any (λ c. c == b'.') path then codes "." ++ last_part path else [] in
      any (text_eq ext) indexable_ext
