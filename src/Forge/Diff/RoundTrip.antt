-- ===== src/Forge/Diff/RoundTrip.antt =====
-- Parsing a printed patch gives its hunks.
use native.Mathlib.Nat.{add-zero}
use pr_sentinel.Prelude.{
  ℕ, ◌+◌, ◌≡◌, ◌∙◌, refl, sym, ap, none, some, List, [], ◌∷◌, ◌++◌, map, Text, codes, expect,
  expect-append, show, strip, arith, starts_with, append_assoc, append-nil, All, split_lines-join,
}
use pr_sentinel.Runtime.{Unicode, IsAscii}
use pr_sentinel.Domain.Models.{Hunk}
use pr_sentinel.Forge.Diff.{
  ParseState, open_hunk, line_count, close_hunk, body_line, parse_line, parse_from, parse_patch,
}
use pr_sentinel.Forge.Diff.Numbers.{StopsDigits, number-show}
use pr_sentinel.Forge.Diff.Source.Lines.{patch_lines-IsLine}
use pr_sentinel.Forge.Diff.Source.{
  BodyLine, added, context, removed, marker, body_text, HunkSource, header_text, hunk_text,
  patch_lines, print_patch, shown, added_numbers, context_numbers, hunk_of, IsPrintable,
}

module _ (U : Unicode) (ascii : IsAscii U) where
  abbrev opened : HunkSource → Hunk
  opened h = record {
    old_start = h.old_start;
    old_lines = h.old_lines;
    new_start = h.new_start;
    new_lines = h.new_lines;
    header = strip U.is_space h.heading;
    added_lines = [];
    context_lines = [];
    text = [];
  }

  line_count-show :
      (n : ℕ) (rest : Text)
      → StopsDigits U rest
      → line_count U (codes "," ++ (show n ++ rest)) ≡ some (n, rest)
  unfolding line_count
  line_count-show n rest h =
      rw (expect-append (codes ",") (show n ++ rest), line_count) (number-show U ascii n rest h)

  open_hunk-header : (h : HunkSource) → open_hunk U (header_text h) ≡ some (opened h)
  unfolding open_hunk header_text
  open_hunk-header h = rw (expect-append (codes "@@ -")) (
      rw (number-show U ascii h.old_start _ ascii.no_comma) (
        rw (line_count-show h.old_lines _ ascii.no_space) (
          rw (expect-append (codes " +")) (
            rw (number-show U ascii h.new_start _ ascii.no_comma) (
              rw (line_count-show h.new_lines _ ascii.no_space)
                (rw (expect-append (codes " @@")) refl))))))

  -- A line of a body extends the hunk that is open.
  abbrev inside : List Hunk → Hunk → ℕ → List Text → ParseState
  inside hunks h next buf = record { hunks = hunks; current = some h; next = next; buf = buf }

  abbrev extended : Hunk → ℕ → List BodyLine → Hunk
  extended h next body = record h {
    added_lines = h.added_lines ++ added_numbers next body;
    context_lines = h.context_lines ++ context_numbers next body;
  }

  module _ (hunks : List Hunk) (h : Hunk) (next : ℕ) (buf : List Text) (t : Text) where
    parse_line-added :
        parse_line U (inside hunks h next buf) (body_text (added t))
        ≡ inside hunks
            (record h { added_lines = h.added_lines ++ next ∷ [] })
            (next + 1)
            (buf ++ body_text (added t) ∷ [])
    unfolding parse_line body_line starts_with body_text open_hunk expect
    parse_line-added = refl

    parse_line-context :
        parse_line U (inside hunks h next buf) (body_text (context t))
        ≡ inside hunks
            (record h { context_lines = h.context_lines ++ next ∷ [] })
            (next + 1)
            (buf ++ body_text (context t) ∷ [])
    unfolding parse_line body_line starts_with body_text open_hunk expect
    parse_line-context = refl

    parse_line-removed :
        parse_line U (inside hunks h next buf) (body_text (removed t))
        ≡ inside hunks h next (buf ++ body_text (removed t) ∷ [])
    unfolding parse_line body_line starts_with body_text open_hunk expect
    parse_line-removed = refl

    parse_line-marker :
        parse_line U (inside hunks h next buf) (body_text (marker t))
        ≡ inside hunks h next (buf ++ body_text (marker t) ∷ [])
    unfolding parse_line body_line starts_with body_text open_hunk expect
    parse_line-marker = refl

  same_inside :
      {hunks : List Hunk} (h : Hunk) {a a' c c' : List ℕ} {n n' : ℕ} {b b' : List Text}
      → a ≡ a'
      → c ≡ c'
      → n ≡ n'
      → b ≡ b'
      → inside hunks (record h { added_lines = a; context_lines = c }) n b
        ≡ inside hunks (record h { added_lines = a'; context_lines = c' }) n' b'
  same_inside h p q r s = cc

  parse_body :
      (body : List BodyLine) (hunks : List Hunk) (h : Hunk) (next : ℕ) (buf rest : List Text)
      → parse_from U (inside hunks h next buf) (map body_text body ++ rest)
        ≡ parse_from U
            (inside hunks (extended h next body) (next + shown body) (buf ++ map body_text body))
            rest
  unfolding parse_from
  parse_body [] hunks h next buf rest = simp (append-nil, add-zero)
  parse_body (added t ∷ body) hunks h next buf rest =
      ap (λ st. parse_from U st (map body_text body ++ rest)) (parse_line-added hunks h next buf t)
      ∙ parse_body body hunks (record h { added_lines = h.added_lines ++ next ∷ [] }) (next + 1)
          (buf ++ body_text (added t) ∷ []) rest
      ∙ ap (λ st. parse_from U st rest)
          (same_inside h (append_assoc h.added_lines _ _) refl (omega arith) (append_assoc buf _ _))
  parse_body (context t ∷ body) hunks h next buf rest =
      ap (λ st. parse_from U st (map body_text body ++ rest))
        (parse_line-context hunks h next buf t)
      ∙ parse_body body hunks (record h { context_lines = h.context_lines ++ next ∷ [] }) (next + 1)
          (buf ++ body_text (context t) ∷ []) rest
      ∙ ap (λ st. parse_from U st rest)
          (same_inside h refl (append_assoc h.context_lines _ _) (omega arith)
            (append_assoc buf _ _))
  parse_body (removed t ∷ body) hunks h next buf rest =
      ap (λ st. parse_from U st (map body_text body ++ rest))
        (parse_line-removed hunks h next buf t)
      ∙ parse_body body hunks h next (buf ++ body_text (removed t) ∷ []) rest
      ∙ ap (λ st. parse_from U st rest) (same_inside h refl refl refl (append_assoc buf _ _))
  parse_body (marker t ∷ body) hunks h next buf rest =
      ap (λ st. parse_from U st (map body_text body ++ rest)) (parse_line-marker hunks h next buf t)
      ∙ parse_body body hunks h next (buf ++ body_text (marker t) ∷ []) rest
      ∙ ap (λ st. parse_from U st rest) (same_inside h refl refl refl (append_assoc buf _ _))

  parse_header :
      (h : HunkSource) (st : ParseState)
      → parse_line U st (header_text h)
        ≡ inside (close_hunk st.current st.buf st.hunks) (opened h) h.new_start (header_text h ∷ [])
  unfolding parse_line
  parse_header h st = rw (open_hunk-header h, parse_line)

  close_hunk-hunk_of :
      (h : HunkSource) (hunks : List Hunk)
      → close_hunk (some (extended (opened h) h.new_start h.body)) (hunk_text h) hunks
        ≡ hunks ++ hunk_of U h ∷ []
  unfolding close_hunk hunk_of
  close_hunk-hunk_of h hunks = refl

  -- Whatever hunk is open, it is closed first, and the printed hunks follow.
  parse_from-patch_lines :
      (hs : List HunkSource) (st : ParseState)
      → parse_from U st (patch_lines hs)
        ≡ close_hunk st.current st.buf st.hunks ++ map (hunk_of U) hs
  unfolding parse_from patch_lines hunk_text
  parse_from-patch_lines [] st = sym (append-nil _)
  parse_from-patch_lines (h ∷ hs) st =
      ap (λ s. parse_from U s (map body_text h.body ++ patch_lines hs)) (parse_header h st)
      ∙ parse_body h.body _ (opened h) h.new_start (header_text h ∷ []) (patch_lines hs)
      ∙ parse_from-patch_lines hs _
      ∙ ap (λ l. l ++ map (hunk_of U) hs) (close_hunk-hunk_of h _)
      ∙ append_assoc (close_hunk st.current st.buf st.hunks) (hunk_of U h ∷ []) (map (hunk_of U) hs)

  -- Parsing the patch that prints some hunks gives those hunks: the ranges of their headers, the
  -- text, and the new-file number of every added and every context line. The texts hold no line
  -- break.
  pub parse_patch-print_patch :
      (hs : List HunkSource)
      → All IsPrintable hs
      → parse_patch U (print_patch hs) ≡ map (hunk_of U) hs
  unfolding parse_patch print_patch
  parse_patch-print_patch hs h =
      rw (split_lines-join (patch_lines hs) (patch_lines-IsLine hs h))
        (parse_from-patch_lines hs (record { hunks = []; current = none; next = 0; buf = [] }))
