-- ===== src/Database/Migrate/Examples.antt =====
-- Statements with quotes, comments and a dollar-quoted body, and a run of two files.
use pr_sentinel.Prelude.{
  split_lines_from, is_line_break, ◌≡◌, refl, true, List, [], ◌∷◌, Text, codes, starts_with, strip,
  strip_left, split_lines, join, text_eq,
}
use pr_sentinel.Runtime.Samples.{ascii}
use pr_sentinel.Database.Migrate.{
  dollar_tag, apply_file, apply_from, execute_all, flush, is_applied, is_only_comments, mode_after,
  split_from, split_statements, Schema, Applied, apply_migrations, ledger_statement,
}
use pr_sentinel.Database.Migrate.Again.{apply_migrations_again}

test_split :
    split_statements ascii (codes "a';'; $t$;$t$;--;") ≡ codes "a';'" ∷ codes "$t$;$t$" ∷ []
unfolding split_statements split_from mode_after flush strip strip_left is_only_comments join
    split_lines starts_with dollar_tag split_lines_from is_line_break
test_split = refl

abbrev fresh : Schema
fresh = record { ledger = []; executed = [] }

abbrev files : List (Text × Text)
files = (codes "001", codes "a;") ∷ (codes "002", codes "b;") ∷ []

-- The second file has changed.
abbrev later : List (Text × Text)
later = (codes "001", codes "a;") ∷ (codes "002", codes "b; c;") ∷ []

abbrev first : Applied
first = apply_migrations ascii (λ sql. codes "sum") (λ stmt. true) files fresh

runs_all : first.finished ≡ true
unfolding apply_migrations apply_from is_applied apply_file execute_all split_statements split_from
    mode_after flush strip strip_left is_only_comments join split_lines starts_with text_eq
runs_all = refl

test_names : first.names ≡ codes "001" ∷ codes "002" ∷ []
unfolding apply_migrations apply_from is_applied apply_file execute_all split_statements split_from
    mode_after flush strip strip_left is_only_comments join split_lines starts_with text_eq
test_names = refl

apply_migrations_again_example :
    apply_migrations ascii (λ sql. codes "sum") (λ stmt. true) later first.schema ≡ record {
      schema = record {
        ledger = first.schema.ledger;
        executed = ledger_statement ∷ first.schema.executed;
      };
      names = [];
      finished = true;
    }
apply_migrations_again_example =
    apply_migrations_again ascii (λ sql. codes "sum") (λ stmt. true) files later fresh runs_all refl
