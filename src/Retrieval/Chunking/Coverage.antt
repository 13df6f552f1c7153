-- ===== src/Retrieval/Chunking/Coverage.antt =====
-- The chunks of a file are pieces of it, and together they hold its lines from the first definition on.
use pr_sentinel.Prelude.{
  ℕ, ◌+◌, ◌-◌, ◌≤◌, ◌≡◌, ◌⊎◌, inl, inr, refl, true, false, not, Option, none, some, List, [], ◌∷◌,
  Text, length, leb, ltb, In, In-append, In-append_left, In-append_right, In-filter_by_back,
  In-of_filter_by, split_lines, Bool-cases, Option-cases, codes, if◌then◌else◌, arith,
}
use pr_sentinel.Runtime.{Unicode}
use pr_sentinel.Retrieval.Chunking.{
  Chunk, Patterns, language_of, boundaries, boundaries_from, is_python, is_blank, lines_between,
  chunk, windows, cap, cap_all, definitions, header, whole, chunk_file,
}
use pr_sentinel.Retrieval.Chunking.Windows.{IsPiece, HasLine, AreWindows, windows_from-AreWindows}

-- A chunk of any length between `lo` and `hi`.
abbrev IsRange : List Text → ℕ → ℕ → Chunk → Type 0
IsRange lines lo hi c =
    (lo ≤ c.start_line)
    × (c.start_line ≤ c.end_line)
    × (c.end_line ≤ hi)
    × (c.content ≡ lines_between lines c.start_line c.end_line)

-- Boundaries that rise from `lo` on and stay in the file.
abbrev IsRising : ℕ → ℕ → List (ℕ × Text) → Type 0
IsRising lo hi [] = Unit
IsRising lo hi (b ∷ bs) = (lo ≤ b.0) × (b.0 ≤ hi) × IsRising (b.0 + 1) hi bs

IsRising-weaken :
    (lo lo' hi : ℕ) (bs : List (ℕ × Text)) → lo' ≤ lo → IsRising lo hi bs → IsRising lo' hi bs
IsRising-weaken lo lo' hi [] h r = tt
IsRising-weaken lo lo' hi (b ∷ bs) h r = let (a, c, d) = r in (omega (arith, a, h), c, d)

boundaries_from-IsRising :
    (pattern : Text → Option Text) (n hi : ℕ) (lines : List Text)
    → n + length lines ≤ hi + 1
    → IsRising n hi (boundaries_from pattern n lines)
unfolding boundaries_from
boundaries_from-IsRising pattern n hi [] h = tt
boundaries_from-IsRising pattern n hi (line ∷ lines) h =
    let later = boundaries_from-IsRising pattern (n + 1) hi lines (omega (arith, h)) in
    elim (Option-cases (pattern line)) [
      | inl e ↦ rw (boundaries_from, e) (IsRising-weaken (n + 1) n hi _ (omega arith) later)
      | inr (name, e) ↦ rw (boundaries_from, e) (omega arith, omega (arith, h), later)
    ]

-- The first line that the chunks hold: a header of up to four lines before the first definition is
-- left out.
abbrev pub first_kept : List (ℕ × Text) → ℕ
first_kept [] = 1
first_kept (b ∷ bs) = if ltb 5 b.0 then 1 else b.0

module _ (path : Text) (lines : List Text) (language : Option Text) where
  windows-AreWindows :
      (start end : ℕ) (symbol : Option Text)
      → start ≤ end
      → AreWindows path lines language start end (windows path lines language start end symbol)
  unfolding windows
  windows-AreWindows start end symbol h =
      windows_from-AreWindows path lines language (end + 1 - start) start end symbol h
        (omega (arith, h))

  -- A range is cut into pieces of it that hold its lines.
  cap-AreWindows :
      (lo hi : ℕ) (c : Chunk)
      → IsRange lines lo hi c
      → AreWindows path lines language c.start_line c.end_line (cap path lines language c)
  unfolding cap
  cap-AreWindows lo hi c r = elim (Bool-cases (leb (c.end_line - c.start_line + 1) 120)) [
    | inl t ↦ rw t (
        (
          λ d m. elim m [
            | inl e ↦ rw e (omega arith, r.1, omega arith, ground (arith, t, r.1), r.3)
            | inr i ↦ absurd i
          ],
          λ n l u. (c, inl refl, (l, u)),
        ))
    | inr f ↦ rw f (windows-AreWindows c.start_line c.end_line c.symbol r.1)
  ]

  -- What holds of the chunks of a file whose first covered line is `first`.
  abbrev Cover : ℕ → List Chunk → Type 0
  Cover first cs =
      ((c : Chunk) → In c cs → IsRange lines 1 (length lines) c)
      × ((n : ℕ) → first ≤ n → n ≤ length lines → (c : Chunk) × In c cs × HasLine n c)

  definitions-Cover :
      (start : ℕ) (symbol : Text) (bs : List (ℕ × Text))
      → IsRising 1 (length lines) ((start, symbol) ∷ bs)
      → Cover start (definitions path lines language ((start, symbol) ∷ bs))
  unfolding definitions chunk
  definitions-Cover start symbol [] r =
      let (low, high, done) = r in
      rw (definitions, in_file high)
        (
          (λ c m. elim m [ inl e ↦ rw e (low, high, omega arith, refl) | inr i ↦ absurd i ]),
          λ n l u. (chunk path lines language start (length lines) (some symbol), inl refl, (l, u)),
        )
    where
      in_file : start ≤ length lines → ltb (length lines) start ≡ false
      in_file h = ground (arith, h)
  definitions-Cover start symbol ((next, name) ∷ rest) r =
      let (low, high, behind) = r in
      let (ranges, covered) =
        definitions-Cover next name rest (
          IsRising-weaken (start + 1) 1 (length lines) ((next, name) ∷ rest) (omega arith)
            behind) in
      rw (definitions, not_empty behind.0)
        (
          (λ c m. elim m [
            | inl e ↦ rw e (low, omega (arith, behind.0), omega (arith, behind.1), refl)
            | inr i ↦ ranges c i
          ]),
          λ n l u. elim (Bool-cases (leb next n)) [
            | inl t ↦ let (c, i, has) = covered n (ground (arith, t)) u in (c, inr i, has)
            | inr f ↦ (
              chunk path lines language start (next - 1) (some symbol),
              inl refl,
              (l, ground (arith, f)),
            )
          ],
        )
    where
      not_empty : start + 1 ≤ next → ltb (next - 1) start ≡ false
      not_empty h = ground (arith, h)

  whole-Cover :
      (bs : List (ℕ × Text))
      → 1 ≤ length lines
      → IsRising 1 (length lines) bs
      → Cover (first_kept bs) (whole path lines language bs)
  unfolding whole header chunk
  whole-Cover [] some_line r =
      let (pieces, covered) = windows-AreWindows 1 (length lines) none some_line in
      (λ c m. let (a, b, d, w, t) = pieces c m in (a, b, d, t), covered)
  whole-Cover ((first, name) ∷ rest) some_line r =
      let (ranges, covered) = definitions-Cover first name rest r in
      elim (Bool-cases (ltb 5 first)) [
        | inl t ↦
            rw (header, t)
              (
                (λ c m. elim m [
                  | inl e ↦ rw e (omega arith, ground (arith, t), omega (arith, r.1), refl)
                  | inr i ↦ ranges c i
                ]),
                λ n l u. elim (Bool-cases (leb first n)) [
                  | inl k ↦ let (c, i, has) = covered n (ground (arith, k)) u in (c, inr i, has)
                  | inr f ↦ (
                    chunk path lines language 1 (first - 1) (some (codes "<module>")),
                    inl refl,
                    (l, ground (arith, f)),
                  )
                ],
              )
        | inr f ↦ rw (header, f) (ranges, covered)
      ]

  -- Cutting the long chunks keeps the lines, and leaves pieces.
  cap_all-AreWindows :
      (first : ℕ) (cs : List Chunk)
      → ((c : Chunk) → In c cs → IsRange lines 1 (length lines) c)
      → ((d : Chunk) → In d (cap_all path lines language cs) → IsPiece lines 1 (length lines) d)
        × ((n : ℕ) (c : Chunk)
            → In c cs
            → HasLine n c
            → (d : Chunk) × In d (cap_all path lines language cs) × HasLine n d)
  unfolding cap_all
  cap_all-AreWindows first [] ranges = (λ d m. absurd m, λ n c m h. absurd m)
  cap_all-AreWindows first (c ∷ cs) ranges =
      let (pieces, covered) = cap-AreWindows 1 (length lines) c (ranges c (inl refl)) in
      let (low, order, high, text) = ranges c (inl refl) in
      let (more, kept) = cap_all-AreWindows first cs (λ x m. ranges x (inr m)) in
      (
        λ d m. elim (In-append d (cap path lines language c) (cap_all path lines language cs) m) [
          | inl i ↦
              let (a, b, e, w, t) = pieces d i in
              (omega (arith, a, low), b, omega (arith, e, high), w, t)
          | inr i ↦ more d i
        ],
        λ n x m h. elim m [
          | inl e ↦
              let (d, i, has) = covered n (rw e at h.0) (rw e at h.1) in
              (
                d,
                In-append_left d (cap path lines language c) (cap_all path lines language cs) i,
                has,
              )
          | inr j ↦
              let (d, i, has) = kept n x j h in
              (
                d,
                In-append_right d (cap path lines language c) (cap_all path lines language cs) i,
                has,
              )
        ],
      )

first_kept-pos : (hi : ℕ) (bs : List (ℕ × Text)) → IsRising 1 hi bs → 1 ≤ first_kept bs
first_kept-pos hi [] r = omega arith
first_kept-pos hi (b ∷ bs) r = ground (arith, r.0)

-- Every chunk of a file has at most 120 lines and is the text of the lines that it names, and every
-- line of the file, from the first definition on or, where that comes behind line 5 or there is none,
-- from line 1 on, is in such a chunk, which chunk_file gives unless its text is blank.
pub chunk_file_covers :
    (U : Unicode) (P : Patterns) (path text : Text) (language : Option Text)
    → let lines = split_lines text in
      ((c : Chunk) → In c (chunk_file U P path text language) → IsPiece lines 1 (length lines) c)
      × ((n : ℕ)
          → first_kept (boundaries U P (is_python (language_of path language)) lines) ≤ n
          → n ≤ length lines
          → (c : Chunk) × IsPiece lines 1 (length lines) c
            × HasLine n c
            × (In c (chunk_file U P path text language) ⊎ (is_blank U c.content ≡ true)))
unfolding chunk_file boundaries
chunk_file_covers U P path text language =
    let lines = split_lines text in
    let lang = language_of path language in
    let bs = boundaries U P (is_python lang) lines in
    let rising = boundaries_from-IsRising _ 1 (length lines) lines (omega arith) in
    elim (Bool-cases (leb (length lines) 0)) [
      | inl t ↦
          rw (chunk_file, t)
            (
              (λ c m. absurd m),
              λ n l u. absurd (
                  no_line n (first_kept bs) (length lines) (first_kept-pos (length lines) bs rising)
                    l u t),
            )
      | inr f ↦
          let (ranges, covered) = whole-Cover path lines lang bs (ground (arith, f)) rising in
          let (pieces, kept) =
            cap_all-AreWindows path lines lang 1 (whole path lines lang bs) ranges in
          rw (chunk_file, f)
            (
              (λ c m.
                  pieces c
                    (In-of_filter_by (λ c. not (is_blank U c.content))
                      (cap_all path lines lang (whole path lines lang bs)) c m).0),
              λ n l u.
                  let (c, i, has) = covered n l u in
                  let (d, j, has') = kept n c i has in
                  (
                    d,
                    pieces d j,
                    has',
                    elim (Bool-cases (is_blank U d.content)) [
                      | inl b ↦ inr b
                      | inr g ↦ inl (
                          In-filter_by_back (λ c. not (is_blank U c.content))
                            (cap_all path lines lang (whole path lines lang bs)) d j (rw g refl))
                    ],
                  ),
            )
    ]
  where
    no_line : (n first len : ℕ) → 1 ≤ first → first ≤ n → n ≤ len → leb len 0 ≡ true → ⊥
    no_line n first len a b c d = absurd (ground (arith, a, b, c, d))
