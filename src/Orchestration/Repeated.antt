-- ===== src/Orchestration/Repeated.antt =====
-- src/pr_sentinel/orchestration/aggregator.py: a recommendation that one agent repeats across the
-- diff becomes one finding.
pub mod Folding
use pr_sentinel.Prelude.{
  ℕ, pos, suc, ◌+◌, max, ◌≡◌, Bool, true, false, not, ◌&&◌, ◌||◌, Option, none, some, List, [], ◌∷◌,
  ◌++◌, map, Text, codes, text_eq, text_leb, filter_by, length, take, ltb, leb, ◌==◌, sort, max_of,
  join, show, if◌then◌else◌,
}
use pr_sentinel.Runtime.{Float}
use pr_sentinel.Domain.Enums.{AgentType, Category, same_agent, same_category, is_collapsible}
use pr_sentinel.Domain.Models.{Evidence, Finding}
use pr_sentinel.Orchestration.Clusters.{Merged, weaker, links_to}

-- One entry of the dictionary of groups, whose list is never empty.
pub record Group : Type 0 where
  pub agent : AgentType
  pub category : Category
  pub first : Finding
  pub rest : List Finding

unfoldable pub same_key : Group → Finding → Bool
same_key g f = same_agent g.agent f.agent && same_category g.category f.category

-- groups.setdefault(key, []).append(f)
unfoldable pub add_to : Finding → List Group → List Group
add_to f [] = record { agent = f.agent; category = f.category; first = f; rest = [] } ∷ []
add_to f (g ∷ gs) =
    if same_key g f then record g { rest = g.rest ++ f ∷ [] } ∷ gs else g ∷ add_to f gs

unfoldable pub group_from : List Group → List Finding → List Group
unfolding add_to
group_from groups [] = groups
group_from groups (f ∷ fs) =
    group_from (if is_collapsible f.category then add_to f groups else groups) fs

-- The order of the listing: path, then first line.
before : Finding → Finding → Bool
before a b =
    (text_leb a.file_path b.file_path && not (text_leb b.file_path a.file_path))
    || (text_eq a.file_path b.file_path && leb a.line_start b.line_start)

list_entry : Finding → Text
list_entry f =
    codes "- `" ++ f.file_path ++ codes ":" ++ show f.line_start ++ codes "` — " ++ f.title

fold_body : Finding → List Finding → ℕ → Text
unfolding before list_entry
fold_body primary others total =
    primary.body
    ++ codes "\n\nThe same gap appears at "
    ++ show (length others)
    ++ codes " other place(s) in this change:\n\n"
    ++ join (codes "\n") (map list_entry (sort before others))
    ++ codes "\n\n_Collapsed into one comment: this is one piece of work, not "
    ++ show total
    ++ codes " separate ones._"

unfoldable pub cite : Finding → Evidence
cite f = record {
  kind = codes "diff";
  file_path = f.file_path;
  line_start = some (pos f.line_start);
  line_end = some (pos f.line_end);
  excerpt = take 200 f.title;
}

unfoldable pub max_confidence : Float → List Finding → Float
max_confidence c [] = c
max_confidence c (f ∷ fs) = max_confidence (max c f.confidence) fs

unfoldable pub others_of : Finding → List Finding → List Finding
others_of primary group = filter_by (λ f. not (f.id == primary.id)) group

-- _fold of the group f ∷ fs.
unfoldable pub fold : Finding → List Finding → Merged
unfolding fold_body
fold f fs =
    let primary = max_of weaker f fs in
    let others = others_of primary (f ∷ fs) in
    record {
      finding = record primary {
        body = fold_body primary others (length (f ∷ fs));
        evidence = take 12 (primary.evidence ++ map cite others);
        confidence = max_confidence f.confidence fs;
        title = primary.title ++ codes " (and " ++ show (length others) ++ codes " more)";
      };
      links = links_to primary.id (f ∷ fs);
    }

keep : Finding → Merged
keep f = record { finding = f; links = [] }

-- A group below the threshold stays as it is.
unfoldable pub emit : ℕ → Group → List Merged
unfolding keep
emit threshold g =
    if ltb (suc (length g.rest)) threshold
    then map keep (g.first ∷ g.rest)
    else fold g.first g.rest ∷ []

unfoldable pub emit_all : ℕ → List Group → List Merged
emit_all threshold [] = []
emit_all threshold (g ∷ gs) = emit threshold g ++ emit_all threshold gs

-- _collapse_repeated, with settings.collapse_repeated_after
unfoldable pub collapse_repeated : ℕ → List Finding → List Merged
unfolding keep group_from
collapse_repeated threshold findings =
    map keep (filter_by (λ f. not (is_collapsible f.category)) findings)
    ++ emit_all threshold (group_from [] findings)
