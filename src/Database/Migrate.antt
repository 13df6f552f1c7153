-- ===== src/Database/Migrate.antt =====
-- src/pr_sentinel/db/migrate.py. The checksum, whether a statement runs, and the sorted files of the
-- directory are arguments; the log is left out.
pub mod Again
mod Examples
use pr_sentinel.Prelude.{
  ℕ, zero, suc, ◌+◌, ◌-◌, ◌≡◌, refl, Bool, true, false, not, ◌&&◌, ◌||◌, ◌==◌, Option, none, some,
  List, [], ◌∷◌, ◌++◌, map, reverse, Text, codes, text_eq, starts_with, strip, split_lines, join,
  any, filter_by, length, leb, ltb, if◌then◌else◌,
}
use pr_sentinel.Runtime.{Unicode}

-- Where the splitter stands; `copying n m` takes n more characters as they are, and goes on as `m`.
pub data Mode : Type 0 where
  plain line_comment block_comment single_quoted double_quoted : Mode
  dollar_quoted : Text → Mode
  copying : ℕ → Mode → Mode

-- [A-Za-z_] and [A-Za-z0-9_]
is_tag_start : ℕ → Bool
is_tag_start c = (leb 65 c && leb c 90) || (leb 97 c && leb c 122) || c == b'_'

is_tag_char : ℕ → Bool
unfolding is_tag_start
is_tag_char c = is_tag_start c || (leb 48 c && leb c 57)

-- The name of a tag up to its dollar, and the dollar.
tag_rest : Text → Option Text
unfolding is_tag_char
tag_rest [] = none
tag_rest (c ∷ s) =
    let rest = tag_rest s in
    if c == b'$'
    then some (c ∷ [])
    else if is_tag_char c
    then elim rest [ none ↦ none | some t ↦ some (c ∷ t) ]
    else none

-- _DOLLAR_TAG.match behind its first dollar.
unfoldable pub dollar_tag : Text → Option Text
unfolding tag_rest is_tag_start
dollar_tag [] = none
dollar_tag (c ∷ s) =
    let rest = tag_rest (c ∷ s) in
    if c == b'$'
    then some (codes "$$")
    else if is_tag_start c
    then elim rest [ none ↦ none | some t ↦ some (b'$' ∷ t) ]
    else none

next_is : ℕ → Text → Bool
next_is d [] = false
next_is d (c ∷ s) = c == d

-- The mode behind the character `c`, with `s` to follow, other than behind a top-level semicolon.
unfoldable pub mode_after : Mode → ℕ → Text → Mode
unfolding next_is
mode_after line_comment c s = if c == 10 then plain else line_comment
mode_after block_comment c s =
    if c == b'*' && next_is b'/' s then copying 1 plain else block_comment
mode_after (dollar_quoted tag) c s =
    if starts_with (c ∷ s) tag then copying (length tag - 1) plain else dollar_quoted tag
mode_after single_quoted c s = if c == b'\'' then plain else single_quoted
mode_after double_quoted c s = if c == b'"' then plain else double_quoted
mode_after (copying zero m) c s = m
mode_after (copying (suc zero) m) c s = m
mode_after (copying (suc (suc n)) m) c s = copying (suc n) m
mode_after plain c s =
    if c == b'-' && next_is b'-' s
    then copying 1 line_comment
    else if c == b'/' && next_is b'*' s
    then copying 1 block_comment
    else if c == b'\''
    then single_quoted
    else if c == b'"'
    then double_quoted
    else if c == b'$'
    then elim (dollar_tag s) [
      | none ↦ plain
      | some tag ↦ copying (length tag - 1) (dollar_quoted tag)
    ]
    else plain

is_plain : Mode → Bool
is_plain plain = true
is_plain _ = false

-- "".join(buf).strip(), when it is not empty.
unfoldable pub flush : Unicode → Text → List Text
flush U buf =
    let stmt = strip U.is_space (reverse buf) in if leb (length stmt) 0 then [] else stmt ∷ []

-- The loop of split_statements, with the buffer in reverse.
unfoldable pub split_from : Unicode → Mode → Text → Text → List Text
unfolding is_plain
split_from U m buf [] = flush U buf
split_from U m buf (c ∷ s) = elim (is_plain m && c == b';') [
  | true ↦ flush U buf ++ split_from U plain [] s
  | false ↦ split_from U (mode_after m c s) (c ∷ buf) s
]

-- _is_only_comments
unfoldable pub is_only_comments : Unicode → Text → Bool
is_only_comments U stmt =
    let kept =
      filter_by
        (λ line.
          let t = strip U.is_space line in
          not (leb (length t) 0) && not (starts_with t (codes "--")))
        (split_lines stmt) in
    leb (length (strip U.is_space (join (codes "\n") kept))) 0

unfoldable pub split_statements : Unicode → Text → List Text
split_statements U sql = filter_by (λ s. not (is_only_comments U s)) (split_from U plain [] sql)

-- _LEDGER
abbrev pub ledger_statement : Text
ledger_statement =
    codes
      "\nCREATE TABLE IF NOT EXISTS schema_migrations (\n    filename    TEXT PRIMARY KEY,\n    checksum    TEXT NOT NULL,\n    applied_at  TIMESTAMPTZ NOT NULL DEFAULT now()\n)\n"

-- The rows of schema_migrations, none while there is no such table, and the statements that
-- conn.execute has run on the database, other than the INSERT into schema_migrations, which shows in
-- its rows.
pub record Schema : Type 0 where
  pub ledger : List (Text × Text)
  pub executed : List Text

-- The statements up to the first that fails, and whether all ran.
unfoldable pub execute_all : (Text → Bool) → List Text → Schema → Schema × Bool
execute_all runs [] db = (db, true)
execute_all runs (stmt ∷ stmts) db =
    let later = execute_all runs stmts (record db { executed = stmt ∷ db.executed }) in
    if runs stmt then later else (db, false)

unfoldable pub is_applied : Text → Schema → Bool
is_applied name db = any (λ r. text_eq r.0 name) db.ledger

-- The names that were applied, or none when a statement raised the RuntimeError.
pub record Applied : Type 0 where
  pub schema : Schema
  pub names : List Text
  pub finished : Bool

module _ (U : Unicode) (checksum : Text → Text) (runs : Text → Bool) where
  -- One file that is not in the ledger.
  unfoldable pub apply_file : Text → Text → Schema → Schema × Bool
  apply_file name sql db =
      let (ran, all) = execute_all runs (split_statements U sql) db in
      if all
      then (record ran { ledger = (name, checksum sql) ∷ ran.ledger }, true)
      else (ran, false)

  -- The loop of apply_migrations over the files, as names with texts. A file in the ledger is not run
  -- again, whatever its checksum.
  unfoldable pub apply_from : List (Text × Text) → Schema → List Text → Applied
  apply_from [] db names = record { schema = db; names = names; finished = true }
  apply_from ((name, sql) ∷ files) db names =
      let (ran, all) = apply_file name sql db in
      let skipped = apply_from files db names in
      let later = apply_from files ran (names ++ name ∷ []) in
      if is_applied name db
      then skipped
      else if all
      then later
      else record { schema = ran; names = []; finished = false }

  -- The statement of the ledger makes a table that is empty, or changes nothing.
  unfoldable pub apply_migrations : List (Text × Text) → Schema → Applied
  apply_migrations files db =
      apply_from files (record db { executed = ledger_statement ∷ db.executed }) []
