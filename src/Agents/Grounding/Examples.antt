-- ===== src/Agents/Grounding/Examples.antt =====
-- Reports of a model on a change of one file.
use pr_sentinel.Prelude.{
  In, inl, inr, arith, strip, strip_left, starts_with, ℕ, ℤ, pos, ◌≡◌, refl, Bool, true, false,
  Option, none, some, List, [], ◌∷◌, Text, codes, text_eq, map, if◌then◌else◌,
}
use pr_sentinel.Runtime.Json.{Read, got, refused, FloatValue, finite, not_a_number, Json}
use pr_sentinel.Runtime.Samples.{ascii, thousandths}
use pr_sentinel.Domain.Enums.{security}
use pr_sentinel.Domain.Models.{
  file_at, addressable_lines, hunk_lines, make_finding, DiffFile, PullRequestContext, Finding,
}
use pr_sentinel.Agents.Grounding.Kept.{ground_raw_keeps}
use pr_sentinel.Agents.Grounding.{
  path_of, grounded, parse_from, count_in, locate, ground_lines, read_numbers, place_lines,
  addressed, closest, largest, evidence_of, draft, clamp_confidence, Parsed, ground_raw,
  parse_findings,
}
use pr_sentinel.Agents.Grounding.Tally.{IsTally, parse_findings-IsTally}

-- A path, a line and a confidence, and the values in them.
data Value : Type 0 where
  report : Text → ℤ → FloatValue → Value
  word : Text → Value
  whole : ℤ → Value
  decimal : FloatValue → Value

abbrev field : Value → Text → Option Value
field (report path line sure) key =
    if text_eq key (codes "file_path")
    then some (word path)
    else if text_eq key (codes "line_start")
    then some (whole line)
    else if text_eq key (codes "confidence")
    then some (decimal sure)
    else if text_eq key (codes "title")
    then some (word (codes "Missing check"))
    else if text_eq key (codes "rationale")
    then some (word (codes "Unsafe"))
    else none
field _ key = none

abbrev is_report : Value → Bool
is_report (report path line sure) = true
is_report _ = false

abbrev as_text : Value → Text
as_text (word t) = t
as_text _ = []

abbrev as_int : Value → Read ℤ
as_int (whole n) = got n
as_int _ = refused

abbrev as_float : Value → Read FloatValue
as_float (decimal x) = got x
as_float _ = refused

abbrev values : Json Value
values = record {
  is_dict = is_report;
  get = field;
  truthy = λ v. true;
  text = as_text;
  int = as_int;
  float = as_float;
  items = λ v. none;
  line = λ v. none;
}

abbrev file : DiffFile
file = record {
  path = codes "app/db.py";
  previous_path = none;
  status = codes "modified";
  additions = 1;
  deletions = 0;
  hunks =
      record {
        old_start = 10;
        old_lines = 2;
        new_start = 10;
        new_lines = 3;
        header = [];
        added_lines = 11 ∷ [];
        context_lines = 10 ∷ 12 ∷ [];
        text = [];
      }
      ∷ [];
  patch = [];
  binary = false;
}

abbrev change : PullRequestContext
change = record {
  repo_full_name = codes "a/b";
  repo_github_id = 1;
  is_private = true;
  number = 7;
  title = [];
  body = [];
  author = [];
  head_sha = [];
  base_sha = [];
  base_ref = codes "main";
  files = file ∷ [];
  truncated = false;
}

abbrev as_listed : ℕ → List ℕ → ℕ × List ℕ
as_listed l ls = (l, ls)

abbrev reports : List Value
reports =
    report (codes "./app/db.py") (pos 11) (finite 800)
    ∷ report (codes "db.py") (pos 15) not_a_number
    ∷ report (codes "app/db.py") (pos 40) (finite 900)
    ∷ word []
    ∷ []

abbrev kept : List Finding → List (ℕ × ℕ × ℕ)
kept fs = map (λ f. (f.line_start, f.line_end, f.confidence)) fs

-- The first is kept, the second moved to line 12 and, its confidence being NaN, held for certain;
-- the third is too far off.
abbrev result : Parsed
result = elim (parse_findings values thousandths ascii as_listed security (λ n. n) change reports) [
  | some p ↦ p
  | none ↦ record { findings = []; dropped = 0; snapped = 0 }
]

test_kept :
    (kept result.findings ≡ (11, 11, 800) ∷ (12, 12, 1000) ∷ [])
    × (result.dropped ≡ 2)
    × (result.snapped ≡ 1)
unfolding parse_findings parse_from count_in ground_raw locate file_at text_eq ground_lines
    addressable_lines hunk_lines read_numbers place_lines addressed closest largest evidence_of
    make_finding draft clamp_confidence strip strip_left starts_with path_of
test_kept = (refl, refl, refl)

parsed :
    parse_findings values thousandths ascii as_listed security (λ n. n) change reports ≡ some result
unfolding parse_findings parse_from count_in ground_raw locate file_at text_eq ground_lines
    addressable_lines hunk_lines read_numbers place_lines addressed closest largest evidence_of
    make_finding draft clamp_confidence strip strip_left starts_with path_of
parsed = refl

parse_findings-IsTally_example : IsTally thousandths security change 4 result
parse_findings-IsTally_example =
    parse_findings-IsTally values thousandths ascii as_listed (λ l n ls i. i) security (λ n. n)
      change reports result parsed

abbrev near_miss : Value
near_miss = report (codes "db.py") (pos 15) (finite 800)

abbrev drafted : Finding
drafted = draft values thousandths ascii as_listed security 5 near_miss file (0, 0) (finite 800) []

located : locate change (path_of values near_miss) ≡ some file
unfolding locate path_of file_at text_eq starts_with
located = refl

twelve_listed : In 12 (addressable_lines file)
unfolding addressable_lines
twelve_listed = inr (inr (inl refl))

numbers_read : read_numbers values near_miss ≡ got (pos 15, pos 15, finite 800)
unfolding read_numbers text_eq
numbers_read = refl

no_evidence : evidence_of values none file.path ≡ got []
unfolding evidence_of
no_evidence = refl

accepted : make_finding thousandths ascii drafted ≡ some drafted
unfolding make_finding draft clamp_confidence strip strip_left text_eq
accepted = refl

ground_raw_keeps_example :
    (f : Finding) × (snapped : Bool) × (ground_raw values thousandths ascii as_listed security 5
        near_miss change
      ≡ grounded f snapped)
unfolding text_eq
ground_raw_keeps_example =
    ground_raw_keeps values thousandths ascii as_listed (λ l n ls i. i) (λ l n ls i. i) security
      change 5 near_miss file (pos 15) (pos 15) (finite 800) [] 12 drafted located twelve_listed
      (omega arith) numbers_read no_evidence accepted
