-- ===== src/Domain/Models.antt =====
-- src/pr_sentinel/domain/models.py. A uuid and a time are numbers, a dictionary's text is a `Text`,
-- and the line numbers of diffs and findings are natural numbers; those of an
-- evidence, which a model writes, are any integers.
pub mod Lines
pub mod Security
use mathlib.Core.Bool.{◌&&◌}
use pr_sentinel.Prelude.{
  ℕ, ℤ, ◌+◌, ◌-◌, ◌≤◌, max, Bool, true, false, not, ◌&&◌, ◌||◌, Option, none, some, List, [], ◌∷◌,
  ◌++◌, map, Text, codes, text_eq, find_first, any, filter_by, leb, if◌then◌else◌, strip, take,
  length, show, ltb,
}
use pr_sentinel.Runtime.{Float, Floats, Unicode}
use pr_sentinel.Domain.Enums.{
  AgentType, security, Category, Severity, Decision, EscalationReason, VerdictStatus, ok,
  same_agent, category_of, is_security_category,
}

pub record Hunk : Type 0 where
  pub old_start : ℕ
  pub old_lines : ℕ
  pub new_start : ℕ
  pub new_lines : ℕ
  pub header : Text
  pub added_lines : List ℕ
  pub context_lines : List ℕ
  pub text : Text

-- The last line of the hunk in the new file. The sum is never less than one.
unfoldable pub new_end : Hunk → ℕ
new_end h = h.new_start + max h.new_lines 1 - 1

pub record DiffFile : Type 0 where
  pub path : Text
  pub previous_path : Option Text
  pub status : Text
  pub additions : ℕ
  pub deletions : ℕ
  pub hunks : List Hunk
  pub patch : Text
  pub binary : Bool

-- The set as a list of its members.
unfoldable pub hunk_lines : List Hunk → List ℕ
hunk_lines [] = []
hunk_lines (h ∷ hs) = h.added_lines ++ h.context_lines ++ hunk_lines hs

unfoldable pub addressable_lines : DiffFile → List ℕ
unfolding hunk_lines
addressable_lines f = hunk_lines f.hunks

pub record PullRequestContext : Type 0 where
  pub repo_full_name : Text
  pub repo_github_id : ℕ
  pub is_private : Bool
  pub number : ℕ
  pub title : Text
  pub body : Text
  pub author : Text
  pub head_sha : Text
  pub base_sha : Text
  pub base_ref : Text
  pub files : List DiffFile
  pub truncated : Bool

sum_changes : List DiffFile → ℕ
sum_changes [] = 0
sum_changes (f ∷ fs) = f.additions + f.deletions + sum_changes fs

unfoldable pub total_changes : PullRequestContext → ℕ
unfolding sum_changes
total_changes pr = sum_changes pr.files

-- PullRequestContext.file
unfoldable pub file_at : PullRequestContext → Text → Option DiffFile
file_at pr path = find_first (λ f. text_eq f.path path) pr.files

pub record CodeChunk : Type 0 where
  pub file_path : Text
  pub start_line : ℕ
  pub end_line : ℕ
  pub content : Text
  pub symbol : Option Text
  pub language : Option Text
  pub score : Float

-- An empty symbol is falsy, as a missing one.
symbol_suffix : Option Text → Text
symbol_suffix none = []
symbol_suffix (some []) = []
symbol_suffix (some (c ∷ s)) = codes "  (" ++ (c ∷ s) ++ codes ")"

unfoldable pub render_chunk : CodeChunk → ℕ → Text
unfolding symbol_suffix
render_chunk c max_chars =
    let head =
      c.file_path
      ++ codes ":"
      ++ show c.start_line
      ++ codes "-"
      ++ show c.end_line
      ++ symbol_suffix c.symbol in
    let body =
      if leb (length c.content) max_chars
      then c.content
      else take max_chars c.content ++ codes "\n… [truncated]" in
    codes "--- " ++ head ++ codes "\n" ++ body

pub record Evidence : Type 0 where
  pub kind : Text
  pub file_path : Text
  pub line_start : Option ℤ
  pub line_end : Option ℤ
  pub excerpt : Text

pub record Finding : Type 0 where
  pub id : ℕ
  pub agent : AgentType
  pub category : Category
  pub severity : Severity
  pub file_path : Text
  pub line_start : ℕ
  pub line_end : ℕ
  pub title : Text
  pub body : Text
  pub rationale : Text
  pub confidence : Float
  pub evidence : List Evidence
  pub agreeing : List Text
  pub categories : List Text
  pub merged_into : Option ℕ

is_empty : Text → Bool
is_empty [] = true
is_empty (c ∷ s) = false

-- What pydantic makes of a literal Finding(...): the validators of the class in turn, and `none`
-- for the ValueError.
unfoldable pub make_finding : Floats → Unicode → Finding → Option Finding
unfolding is_empty
make_finding F U f =
    let title = strip U.is_space f.title in
    let rationale = strip U.is_space f.rationale in
    if ltb F.one f.confidence || is_empty title || is_empty rationale
    then none
    else some
        (record f { line_end = max f.line_end f.line_start; title = title; rationale = rationale })

names_security : Text → Bool
names_security name = elim (category_of name) [ none ↦ false | some c ↦ is_security_category c ]

-- Finding.is_security
unfoldable pub is_security : Finding → Bool
unfolding names_security
is_security f =
    if same_agent f.agent security || is_security_category f.category
    then true
    else any names_security f.categories

unfoldable pub overlaps : Finding → Finding → Bool
overlaps a b =
    text_eq a.file_path b.file_path && leb a.line_start b.line_end && leb b.line_start a.line_end

pub record AgentVerdict : Type 0 where
  pub agent : AgentType
  pub status : VerdictStatus
  pub findings : List Finding
  pub summary : Text
  pub model : Text
  pub prompt_version : Text
  pub input_tokens : ℕ
  pub output_tokens : ℕ
  pub cached_tokens : ℕ
  pub cost_usd : Float
  pub duration_ms : ℕ
  pub error : Option Text

is_ok : VerdictStatus → Bool
is_ok ok = true
is_ok _ = false

-- AgentVerdict.ok
unfoldable pub verdict_ok : AgentVerdict → Bool
unfolding is_ok
verdict_ok v = is_ok v.status

pub record ReviewOutcome : Type 0 where
  pub review_id : ℕ
  pub decision : Decision
  pub reason : Option EscalationReason
  pub overall_confidence : Float
  pub findings : List Finding
  pub postable : List Finding
  pub verdicts : List AgentVerdict
  pub summary : Text
  pub total_cost_usd : Float
  pub created_at : ℕ

unfoldable pub failed_agents : ReviewOutcome → List AgentType
failed_agents o = map (λ v. v.agent) (filter_by (λ v. not (verdict_ok v)) o.verdicts)

pub record WebhookJob : Type 0 where
  pub delivery_id : Text
  pub event : Text
  pub action : Text
  pub repo_full_name : Text
  pub repo_github_id : ℕ
  pub is_private : Bool
  pub pr_number : ℕ
  pub head_sha : Text
  pub base_sha : Text
  pub title : Text
  pub author : Text
  pub received_at : ℕ
