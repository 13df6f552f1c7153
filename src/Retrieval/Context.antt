-- ===== src/Retrieval/Context.antt =====
-- src/pr_sentinel/retrieval/context.py: the notes on the index, what is rendered, and how the hits of
-- the files are merged. The embedder and the search are arguments; the events are left out.
pub mod Merge
mod Examples
use pr_sentinel.Prelude.{
  ℕ, zero, suc, ◌+◌, ◌-◌, max, Bool, true, false, not, ◌&&◌, ◌||◌, ◌==◌, Option, none, some, List,
  [], ◌∷◌, ◌++◌, map, Text, codes, text_eq, any, filter_by, length, take, join, sort, leb, ltb,
  if◌then◌else◌,
}
use pr_sentinel.Domain.Models.{CodeChunk, DiffFile, PullRequestContext, render_chunk}

pub data Drift : Type 0 where
  unindexed stale : Drift

-- index_drift: an empty sha is falsy, as a missing one.
unfoldable pub index_drift : Option Text → Text → Option Drift
index_drift indexed [] = none
index_drift none (c ∷ base) = some unindexed
index_drift (some []) (c ∷ base) = some unindexed
index_drift (some (d ∷ sha)) (c ∷ base) = if text_eq (d ∷ sha) (c ∷ base) then none else some stale

text_or_nothing : Option Text → Text
text_or_nothing none = []
text_or_nothing (some t) = t

unfoldable pub index_drift_note : Option Drift → Option Text → Text → Option Text
unfolding text_or_nothing
index_drift_note none indexed base = none
index_drift_note (some unindexed) indexed base = some (
    codes
      "This repository has no semantic index. Anything not in the diff is unknown; do not invent callers or conventions.")
index_drift_note (some stale) indexed base = some (
    codes "The semantic index is commit "
    ++ take 12 (text_or_nothing indexed)
    ++ codes ", not this pull request's base "
    ++ take 12 base
    ++ codes ". Retrieved code may be stale. A disagreement between it and the diff is unresolved.")

pub record ReviewContext : Type 0 where
  pub pr : PullRequestContext
  pub diff_text : Text
  pub chunks : List CodeChunk
  pub conventions : List Text
  pub truncated : Bool
  pub drift : Option Drift
  pub indexed_sha : Option Text

-- The loop of render_repository_context, where `used` characters are taken.
unfoldable pub blocks_from : ℕ → ℕ → List Text → List Text
blocks_from max_chars used [] = []
blocks_from max_chars used (block ∷ blocks) =
    let rest = blocks_from max_chars (used + length block) blocks in
    if ltb max_chars (used + length block) then [] else block ∷ rest

with_note : Option Text → Text → Text
with_note none body = body
with_note (some note) body = note ++ codes "\n\n" ++ body

-- chunk.render() is render_chunk with its default of characters.
unfoldable pub render_repository_context : ReviewContext → ℕ → ℕ → Text
unfolding blocks_from with_note
render_repository_context ctx chunk_chars max_chars =
    let note = index_drift_note ctx.drift ctx.indexed_sha ctx.pr.base_sha in
    with_note note (
      if leb (length ctx.chunks) 0
      then codes "(no repository context retrieved — treat unseen code as unknown)"
      else join (codes "\n\n")
          (blocks_from max_chars 0 (map (λ c. render_chunk c chunk_chars) ctx.chunks)))

pub render_conventions : ReviewContext → Text
render_conventions ctx =
    if leb (length ctx.conventions) 0
    then codes "(none recorded)"
    else join (codes "\n") (map (λ c. codes "- " ++ c) ctx.conventions)

-- [f for f in pr.files if not f.binary and f.status != "removed"]
unfoldable pub source_files : PullRequestContext → List DiffFile
source_files pr = filter_by (λ f. not f.binary && not (text_eq f.status (codes "removed"))) pr.files

-- (hit.file_path, hit.start_line)
abbrev pub Key : Type 0
Key = Text × ℕ

unfoldable pub chunk_key : CodeChunk → Key
chunk_key c = (c.file_path, c.start_line)

unfoldable pub same_chunk_key : Key → Key → Bool
same_chunk_key a b = text_eq a.0 b.0 && a.1 == b.1

-- The hits of one file that have not been seen, and all that has been seen then.
unfoldable pub keep_new : List Key → List CodeChunk → List CodeChunk × List Key
unfolding chunk_key
keep_new seen [] = ([], seen)
keep_new seen (hit ∷ hits) =
    let old = keep_new seen hits in
    let (kept, seen') = keep_new (chunk_key hit ∷ seen) hits in
    if any (same_chunk_key (chunk_key hit)) seen then old else (hit ∷ kept, seen')

-- per_file_hits[path] = kept
unfoldable pub set_hits :
    Text → List CodeChunk → List (Text × List CodeChunk) → List (Text × List CodeChunk)
set_hits path kept [] = (path, kept) ∷ []
set_hits path kept ((name, hits) ∷ rest) =
    let later = set_hits path kept rest in
    if text_eq name path then (name, kept) ∷ rest else (name, hits) ∷ later

-- The loop over the files, with what has been seen and kept; a search that raises is `none`.
unfoldable pub gather :
    (DiffFile → Option (List CodeChunk))
    → List DiffFile
    → List Key
    → List (Text × List CodeChunk)
    → List (Text × List CodeChunk)
gather search [] seen per_file = per_file
gather search (f ∷ files) seen per_file =
    let skipped = gather search files seen per_file in
    elim (search f) [
      | none ↦ skipped
      | some hits ↦
          let (kept, seen') = keep_new seen hits in
          gather search files seen' (set_hits f.path kept per_file)
    ]

-- The first hit of each list, and the lists behind them.
unfoldable pub heads : List (List CodeChunk) → List CodeChunk
heads [] = []
heads ([] ∷ xss) = heads xss
heads ((x ∷ xs) ∷ xss) = x ∷ heads xss

unfoldable pub tails : List (List CodeChunk) → List (List CodeChunk)
tails [] = []
tails ([] ∷ xss) = tails xss
tails ((x ∷ xs) ∷ xss) = xs ∷ tails xss

-- max((len(v) for v in lists), default=0)
unfoldable pub longest : List (List CodeChunk) → ℕ
longest [] = 0
longest (xs ∷ xss) = max (length xs) (longest xss)

-- row.sort(key=score, reverse=True), which keeps the order of equal scores.
unfoldable pub by_score : CodeChunk → CodeChunk → Bool
by_score a b = leb b.score a.score

-- One round for each rank.
unfoldable pub rounds : ℕ → List (List CodeChunk) → List CodeChunk
rounds zero xss = []
rounds (suc n) xss = sort by_score (heads xss) ++ rounds n (tails xss)

unfoldable pub interleave : List (List CodeChunk) → List CodeChunk
interleave xss = rounds (longest xss) xss

-- ctx.chunks, when the queries could be embedded.
unfoldable pub context_chunks :
    (DiffFile → Option (List CodeChunk)) → ℕ → PullRequestContext → List CodeChunk
context_chunks search top_k pr =
    take top_k (interleave (map (λ p. p.1) (gather search (take 12 (source_files pr)) [] [])))
