-- ===== src/Forge/Github.antt =====
-- src/pr_sentinel/forge/github.py: post_review and the texts of a review. How _request ends, with its
-- breaker and its retries, is an argument.
use pr_sentinel.Prelude.{
  ℕ, Bool, true, false, ◌&&◌, ◌==◌, ltb, Option, none, some, List, [], ◌∷◌, ◌++◌, map, length, Text,
  codes, join, show, if◌then◌else◌,
}
use pr_sentinel.Runtime.{Floats}
use pr_sentinel.Domain.Enums.{
  Severity, critical, major, minor, info, severity_name, category_name, agent_name,
}
use pr_sentinel.Domain.Models.{Finding}

-- _SEVERITY_BADGE
severity_badge : Severity → Text
severity_badge critical = codes "🔴 **critical**"
severity_badge major = codes "🟠 **major**"
severity_badge minor = codes "🟡 minor"
severity_badge info = codes "🔵 info"

-- _render_comment
unfoldable pub render_comment : Floats → Finding → Text
unfolding severity_badge
render_comment F f =
    severity_badge f.severity
    ++ codes " · `"
    ++ category_name f.category
    ++ codes "` · "
    ++ agent_name f.agent
    ++ codes " agent · confidence "
    ++ F.fixed2 f.confidence
    ++ codes "\n\n**"
    ++ f.title
    ++ codes "**\n\n"
    ++ f.body
    ++ codes "\n\n<details><summary>Why this was raised</summary>\n\n"
    ++ f.rationale
    ++ codes "\n\n</details>"

appendix_entry : Floats → Finding → Text
appendix_entry F f =
    codes "- `"
    ++ f.file_path
    ++ codes ":"
    ++ show f.line_start
    ++ codes "` — **"
    ++ f.title
    ++ codes "** ("
    ++ severity_name f.severity
    ++ codes ", "
    ++ F.fixed2 f.confidence
    ++ codes ")"

-- _fallback_appendix
unfoldable pub fallback_appendix : Floats → List Finding → Text
unfolding appendix_entry
fallback_appendix F findings = join (codes "\n") (
    codes "\n\n---\n\n_Inline comments were rejected; findings listed here instead._\n"
    ∷ map (appendix_entry F) findings)

-- A comment at a line of the new file.
pub record InlineComment : Type 0 where
  pub path : Text
  pub line : ℕ
  pub body : Text

-- A review that GitHub has taken, with the findings that it was made from.
pub record Comment : Type 0 where
  pub repo_full_name : Text
  pub number : ℕ
  pub head_sha : Text
  pub body : Text
  pub inline : List InlineComment
  pub findings : List Finding

-- How _request ends: with an answer, which may hold the id of the review; with a GitHubError of this
-- status, by which GitHub refuses the request; or with another exception or a lost connection, and
-- whether GitHub has taken the request.
pub data Answer : Type 0 where
  replied : Option ℕ → Answer
  rejected : ℕ → Answer
  broken_off : Bool → Answer

-- GitHub has taken the request.
unfoldable pub takes : Answer → Bool
takes (replied id) = true
takes (rejected status) = false
takes (broken_off taken) = taken

-- What a call with this answer leaves on GitHub, and what it returns, `none` for an exception.
unfoldable pub send_request : Answer → Comment → List Comment × Option (Option ℕ)
send_request (replied id) c = (c ∷ [], some id)
send_request (rejected status) c = ([], none)
send_request (broken_off taken) c = (if taken then c ∷ [] else [], none)

-- exc.status == 422 and comments
unfoldable pub is_refused_inline : Answer → List Finding → Bool
is_refused_inline (rejected status) findings = status == 422 && ltb 0 (length findings)
is_refused_inline (replied id) findings = false
is_refused_inline (broken_off taken) findings = false

module _ (F : Floats) (repo : Text) (number : ℕ) (commit_sha body : Text)
    (findings : List Finding) where
  inline_comment : Finding → InlineComment
  inline_comment f = record { path = f.file_path; line = f.line_end; body = render_comment F f }

  -- The review with comments at the lines of its findings.
  unfoldable pub inline_review : Comment
  unfolding inline_comment
  inline_review = record {
    repo_full_name = repo;
    number = number;
    head_sha = commit_sha;
    body = body;
    inline = map inline_comment findings;
    findings = findings;
  }

  -- The review of the second attempt, with the findings in its body.
  unfoldable pub summary_review : Comment
  summary_review = record {
    repo_full_name = repo;
    number = number;
    head_sha = commit_sha;
    body = body ++ fallback_appendix F findings;
    inline = [];
    findings = findings;
  }

  -- post_review, with the answers to its first and its second request.
  unfoldable pub post_review : Answer → Answer → List Comment × Option (Option ℕ)
  post_review first second =
      if is_refused_inline first findings
      then send_request second summary_review
      else send_request first inline_review
