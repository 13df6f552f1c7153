-- ===== src/Retrieval/Chunking/Windows.antt =====
-- The windows over a range of lines: how long they are, and that they cover the range.
use pr_sentinel.Prelude.{
  ℕ, zero, suc, ◌+◌, ◌-◌, ◌≤◌, ◌<◌, min, ◌≡◌, inl, inr, refl, true, false, Option, List, [], ◌∷◌,
  Text, leb, In, Bool-cases, arith,
}
use pr_sentinel.Retrieval.Chunking.{Chunk, max_chunk_lines, lines_between, chunk, windows_from}

-- A chunk of at most 120 lines between `lo` and `hi`, with the text of exactly those lines.
abbrev pub IsPiece : List Text → ℕ → ℕ → Chunk → Type 0
IsPiece lines lo hi c =
    (lo ≤ c.start_line)
    × (c.start_line ≤ c.end_line)
    × (c.end_line ≤ hi)
    × (c.end_line < c.start_line + max_chunk_lines)
    × (c.content ≡ lines_between lines c.start_line c.end_line)

-- The chunk has the line.
abbrev pub HasLine : ℕ → Chunk → Type 0
HasLine n c = (c.start_line ≤ n) × (n ≤ c.end_line)

module _ (path : Text) (lines : List Text) (language : Option Text) where
  -- One round of the loop, for a cursor in the range.
  last_round :
      (fuel cursor end : ℕ) (symbol : Option Text)
      → cursor ≤ end
      → end ≤ cursor + 119
      → windows_from path lines language (suc fuel) cursor end symbol
        ≡ chunk path lines language cursor end symbol ∷ []
  unfolding windows_from
  last_round fuel cursor end symbol h k = rw (started, stopped, ended) refl
    where
      started : leb cursor end ≡ true
      started = ground (arith, h)

      stopped : min (cursor + max_chunk_lines - 1) end ≡ end
      stopped = omega (arith, k)

      ended : leb end end ≡ true
      ended = ground arith

  more_rounds :
      (fuel cursor end : ℕ) (symbol : Option Text)
      → cursor + 119 < end
      → windows_from path lines language (suc fuel) cursor end symbol
        ≡ chunk path lines language cursor (cursor + 119) symbol
          ∷ windows_from path lines language fuel (cursor + 105) end symbol
  unfolding windows_from
  more_rounds fuel cursor end symbol h = rw (started, stopped, not_ended) refl
    where
      started : leb cursor end ≡ true
      started = ground (arith, h)

      stopped : min (cursor + max_chunk_lines - 1) end ≡ cursor + 119
      stopped = omega (arith, h)

      not_ended : leb end (cursor + 119) ≡ false
      not_ended = ground (arith, h)

  -- With enough fuel the windows are pieces of the range, and each line of the range is in one.
  abbrev pub AreWindows : ℕ → ℕ → List Chunk → Type 0
  AreWindows start end cs =
      ((c : Chunk) → In c cs → IsPiece lines start end c)
      × ((n : ℕ) → start ≤ n → n ≤ end → (c : Chunk) × In c cs × HasLine n c)

  pub windows_from-AreWindows :
      (fuel cursor end : ℕ) (symbol : Option Text)
      → cursor ≤ end
      → end < cursor + fuel
      → AreWindows cursor end (windows_from path lines language fuel cursor end symbol)
  unfolding chunk
  windows_from-AreWindows zero cursor end symbol h k = absurd (omega (arith, h, k))
  windows_from-AreWindows (suc fuel) cursor end symbol h k =
      elim (Bool-cases (leb end (cursor + 119))) [
        | inl t ↦ rw (last_round fuel cursor end symbol h (ground (arith, t))) (
          (λ c m. elim m [
            | inl e ↦ rw e (omega arith, h, omega arith, ground (arith, t), refl)
            | inr i ↦ absurd i
          ]),
          λ n l r. (chunk path lines language cursor end symbol, inl refl, (l, r)),
        )
        | inr f ↦ rw (more_rounds fuel cursor end symbol (ground (arith, f))) (
            let (pieces, covered) =
              windows_from-AreWindows fuel (cursor + 105) end symbol (ground (arith, f))
                (omega (arith, k)) in
            (
              (λ c m. elim m [
                | inl e ↦ rw e (omega arith, omega arith, ground (arith, f), omega arith, refl)
                | inr i ↦ let (a, b, d, w, t) = pieces c i in (omega (arith, a), b, d, w, t)
              ]),
              λ n l r. elim (Bool-cases (leb n (cursor + 119))) [
                | inl t ↦ (
                  chunk path lines language cursor (cursor + 119) symbol,
                  inl refl,
                  (l, ground (arith, t)),
                )
                | inr g ↦ let (c, i, has) = covered n (ground (arith, g)) r in (c, inr i, has)
              ],
            ))
      ]
