-- ===== src/Agents/Grounding.antt =====
-- src/pr_sentinel/agents/base.py: _ground, _coerce, _evidence and the loop of _parse. A finding of a model stands only
-- if its lines are lines of the diff. `walk` is the order in which Python walks a set: which line it
-- meets first, and which after it.
pub mod Lines
pub mod Sound
pub mod Tally
pub mod Kept
mod Examples
use pr_sentinel.Prelude.{
  ℕ, ℤ, pos, negsuc, distance, clamp, ◌+◌, max, min, Bool, true, false, not, ◌&&◌, ◌||◌, Option,
  none, some, List, [], ◌∷◌, ◌++◌, Text, codes, reverse, any, filter_by, take, ltb, ◌==◌,
  starts_with, if◌then◌else◌, ◌>>=◌,
}
use mathlib.Core.Option.{get_or}
use pr_sentinel.Runtime.{Float, Floats, Unicode}
use pr_sentinel.Runtime.Json.{
  Read, got, refused, crashed, FloatValue, below_zero, finite, infinite, not_a_number, Json,
}
use pr_sentinel.Domain.Enums.{
  AgentType, Category, other, category_of, Severity, critical, major, minor, info, severity_of,
}
use pr_sentinel.Domain.Models.{
  DiffFile, PullRequestContext, Evidence, Finding, addressable_lines, file_at, make_finding,
}

-- max(0.0, min(1.0, confidence)): min keeps 1.0 where the comparison with NaN is false.
unfoldable pub clamp_confidence : Floats → FloatValue → Float
clamp_confidence F below_zero = 0
clamp_confidence F (finite c) = min F.one c
clamp_confidence F infinite = F.one
clamp_confidence F not_a_number = F.one

-- path.lstrip("./")
strip_dots : Text → Text
strip_dots [] = []
strip_dots (c ∷ s) = if c == b'.' || c == b'/' then strip_dots s else c ∷ s

ends_with : Text → Text → Bool
ends_with s suffix = starts_with (reverse s) (reverse suffix)

only : List DiffFile → Option DiffFile
only (f ∷ []) = some f
only _ = none

or_only : Option DiffFile → List DiffFile → Option DiffFile
unfolding only
or_only (some f) candidates = some f
or_only none candidates = only candidates

-- The file of the diff that a path means: itself, or the one file that fits its end.
unfoldable pub locate : PullRequestContext → Text → Option DiffFile
unfolding ends_with or_only
locate pr path =
    or_only (file_at pr path)
      (filter_by (λ f. ends_with f.path path || ends_with path f.path) pr.files)

-- min(addressable, key=lambda n: abs(n - start)): the first of the nearest.
unfoldable pub closest : ℤ → ℕ → List ℕ → ℕ
closest start best [] = best
closest start best (n ∷ ns) =
    closest start (if ltb (distance n start) (distance best start) then n else best) ns

-- max(addressable)
unfoldable pub largest : ℕ → List ℕ → ℕ
largest best [] = best
largest best (n ∷ ns) = largest (max best n) ns

-- start, where it is in the set.
unfoldable pub addressed : ℤ → List ℕ → Option ℕ
addressed (pos n) lines = if any (λ m. m == n) lines then some n else none
addressed (negsuc n) lines = none

abbrev pub snap_window : ℕ
snap_window = 3

-- The first and the last line, and whether they were moved; `none` drops the finding.
unfoldable pub place_lines : (ℕ → List ℕ → ℕ × List ℕ) → ℤ → ℤ → ℕ → List ℕ → Option (ℕ × ℕ × Bool)
place_lines walk start end l ls =
    let hi = largest l ls in
    elim (addressed start (l ∷ ls)) [
      | some s ↦ some (s, clamp s hi end, false)
      | none ↦
          let (first, rest) = walk l ls in
          let nearest = closest start first rest in
          if ltb snap_window (distance nearest start)
          then none
          else some (nearest, clamp nearest hi (pos (clamp nearest hi end)), true)
    ]

lower_text : Unicode → Text → Text
lower_text U [] = []
lower_text U (c ∷ s) = U.lower c ++ lower_text U s

module _ {J : Type 0} (P : Json J) where
  -- str(v.get(key, default))
  text_at : J → Text → Text → Text
  text_at v key default = elim (P.get v key) [ none ↦ default | some x ↦ P.text x ]

  line_at : J → Text → Option (Option ℤ)
  line_at v key = elim (P.get v key) [ none ↦ some none | some x ↦ P.line x ]

  -- str(v.get(key) or default)
  text_or : J → Text → Text → Text
  text_or v key default = elim (P.get v key) [
    | none ↦ default
    | some x ↦ if P.truthy x then P.text x else default
  ]

  unfoldable pub evidence_item : Text → J → Option Evidence
  unfolding text_at line_at text_or
  evidence_item default_path item = elim (P.is_dict item) [
    | false ↦ none
    | true ↦ elim (line_at item (codes "line_start")) [
      | none ↦ none
      | some line_start ↦ elim (line_at item (codes "line_end")) [
        | none ↦ none
        | some line_end ↦ some (record {
          kind = text_at item (codes "kind") (codes "diff");
          file_path = text_or item (codes "file_path") default_path;
          line_start = line_start;
          line_end = line_end;
          excerpt = take 500 (text_at item (codes "excerpt") []);
        })
      ]
    ]
  ]

  evidence_items : Text → List J → List Evidence
  evidence_items default_path [] = []
  evidence_items default_path (item ∷ items) =
      let rest = evidence_items default_path items in
      elim (evidence_item default_path item) [ none ↦ rest | some e ↦ e ∷ rest ]

  -- _evidence(raw.get("evidence"), default_path)
  unfoldable pub evidence_of : Option J → Text → Read (List Evidence)
  unfolding evidence_items
  evidence_of none default_path = got []
  evidence_of (some raw) default_path =
      if P.truthy raw
      then elim (P.items raw) [
        | none ↦ crashed
        | some items ↦ got (take 12 (evidence_items default_path items))
      ]
      else got []

  -- int(raw.get(key, default))
  int_at : J → Text → ℤ → Read ℤ
  int_at raw key default = elim (P.get raw key) [ none ↦ got default | some v ↦ P.int v ]

  -- float(raw.get(key, 0.0))
  float_at : J → Text → Read FloatValue
  float_at raw key = elim (P.get raw key) [ none ↦ got (finite 0) | some v ↦ P.float v ]

  -- The block that reads start, end and confidence.
  unfoldable pub read_numbers : J → Read (ℤ × ℤ × FloatValue)
  unfolding int_at float_at
  read_numbers raw = elim (int_at raw (codes "line_start") (pos 0)) [
    | refused ↦ refused
    | crashed ↦ crashed
    | got start ↦ elim (int_at raw (codes "line_end") start) [
      | refused ↦ refused
      | crashed ↦ crashed
      | got end ↦ elim (float_at raw (codes "confidence")) [
        | refused ↦ refused
        | crashed ↦ crashed
        | got confidence ↦ got (start, end, confidence)
      ]
    ]
  ]

  -- str(raw.get(key)).lower()
  name_at : Unicode → J → Text → Text
  unfolding text_at lower_text
  name_at U raw key = lower_text U (text_at raw key (codes "None"))

  -- The path of a report, with the dots and slashes in front taken away.
  unfoldable pub path_of : J → Text
  unfolding text_at strip_dots
  path_of raw = strip_dots (text_at raw (codes "file_path") [])

-- What _ground returns, or that an exception leaves it.
pub data Ground : Type 0 where
  dropped : Ground
  raises : Ground
  grounded : Finding → Bool → Ground

-- `return None` on a missing value, or on a TypeError or ValueError that the code catches.
abbrev pub on_option : {A : Type 0} → Option A → (A → Ground) → Ground
on_option none rest = dropped
on_option (some a) rest = rest a

abbrev pub on_read : {A : Type 0} → Read A → (A → Ground) → Ground
on_read (got a) rest = rest a
on_read refused rest = dropped
on_read crashed rest = raises

module _ {J : Type 0} (P : Json J) (F : Floats) (U : Unicode) (walk : ℕ → List ℕ → ℕ × List ℕ)
    (agent : AgentType) where
  -- The arguments of Finding(...).
  unfoldable pub draft : ℕ → J → DiffFile → ℕ × ℕ → FloatValue → List Evidence → Finding
  unfolding name_at text_at
  draft id raw file (line_start, line_end) confidence evidence = record {
    id = id;
    agent = agent;
    category = get_or (category_of (name_at P U raw (codes "category"))) other;
    severity = get_or (severity_of (name_at P U raw (codes "severity"))) minor;
    file_path = file.path;
    line_start = line_start;
    line_end = line_end;
    title = take 200 (text_at P raw (codes "title") []);
    body = take 4000 (text_at P raw (codes "body") []);
    rationale = take 4000 (text_at P raw (codes "rationale") []);
    confidence = clamp_confidence F confidence;
    evidence = evidence;
    agreeing = [];
    categories = [];
    merged_into = none;
  }

  unfoldable pub ground_lines : ℕ → J → DiffFile → List ℕ → Ground
  ground_lines id raw file [] = dropped
  ground_lines id raw file (l ∷ ls) = on_read (read_numbers P raw) (λ (start, end, confidence).
      on_option (place_lines walk start end l ls) (λ (line_start, line_end, snapped).
        on_read (evidence_of P (P.get raw (codes "evidence")) file.path) (λ evidence.
          on_option
            (make_finding F U (draft id raw file (line_start, line_end) confidence evidence))
            (λ f. grounded f snapped))))

  -- _ground(raw, ctx)
  unfoldable pub ground_raw : ℕ → J → PullRequestContext → Ground
  ground_raw id raw pr =
      on_option (locate pr (path_of P raw))
        (λ file. ground_lines id raw file (addressable_lines file))

-- The loop of _parse over the findings: those that are kept, and the counts of the dropped and the
-- moved; `none` is an exception that leaves it. `new_id` is uuid4.
pub record Parsed : Type 0 where
  pub findings : List Finding
  pub dropped : ℕ
  pub snapped : ℕ

unfoldable pub count_in : Ground → Parsed → Option Parsed
count_in dropped p = some (record p { dropped = p.dropped + 1 })
count_in raises p = none
count_in (grounded f true) p =
    some (record p { findings = p.findings ++ f ∷ []; snapped = p.snapped + 1 })
count_in (grounded f false) p = some (record p { findings = p.findings ++ f ∷ [] })

module _ {J : Type 0} (P : Json J) (F : Floats) (U : Unicode) (walk : ℕ → List ℕ → ℕ × List ℕ)
    (agent : AgentType) (new_id : ℕ → ℕ) (pr : PullRequestContext) where
  ground_item : ℕ → J → Ground
  ground_item n raw =
      if P.is_dict raw then ground_raw P F U walk agent (new_id n) raw pr else dropped

  unfoldable pub parse_from : ℕ → List J → Parsed → Option Parsed
  unfolding ground_item
  parse_from n [] p = some p
  parse_from n (raw ∷ raws) p = count_in (ground_item n raw) p >>= parse_from (n + 1) raws

  unfoldable pub parse_findings : List J → Option Parsed
  parse_findings raws = parse_from 0 raws (record { findings = []; dropped = 0; snapped = 0 })
