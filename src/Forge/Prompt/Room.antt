-- ===== src/Forge/Prompt/Room.antt =====
-- When the whole diff fits.
use pr_sentinel.Prelude.{
  ℕ, ◌+◌, ◌≤◌, ◌≡◌, ◌↔◌, ◌∙◌, inl, inr, refl, sym, ap, subst, Bool, true, false, List, [], ◌∷◌, map,
  Text, codes, join, length, ltb, arith, Bool-cases, if◌then◌else◌,
}
use pr_sentinel.Domain.Models.{DiffFile}
use pr_sentinel.Forge.Prompt.{
  render_file, binary_note, omitted_note, render_from, render_for_prompt,
}

-- What a file takes of the room, and what it is shown as.
abbrev pub room_of : DiffFile → ℕ
room_of f = if f.binary then 0 else length (render_file f)

abbrev pub total_room : List DiffFile → ℕ
total_room [] = 0
total_room (f ∷ fs) = room_of f + total_room fs

abbrev pub shown_as : DiffFile → Text
shown_as f = if f.binary then binary_note f else render_file f

abbrev Fits : ℕ → ℕ → List DiffFile → List Text × Bool → Type 0
Fits bound used fs (texts, truncated) =
    ((truncated ≡ false) ↔ (used + total_room fs ≤ bound))
    × (truncated ≡ false → texts ≡ map shown_as fs)

module _ (bound used : ℕ) (f : DiffFile) (fs : List DiffFile) where
  binary_step :
      f.binary ≡ true
      → render_from bound used (f ∷ fs)
        ≡ (binary_note f ∷ (render_from bound used fs).0, (render_from bound used fs).1)
  unfolding render_from
  binary_step b = rw b

  large_step :
      f.binary ≡ false
      → ltb bound (used + length (render_file f)) ≡ true
      → render_from bound used (f ∷ fs) ≡ (omitted_note f ∷ (render_from bound used fs).0, true)
  unfolding render_from
  large_step b large = simp (b, large)

  small_step :
      f.binary ≡ false
      → ltb bound (used + length (render_file f)) ≡ false
      → render_from bound used (f ∷ fs) ≡ (
        render_file f ∷ (render_from bound (used + length (render_file f)) fs).0,
        (render_from bound (used + length (render_file f)) fs).1,
      )
  unfolding render_from
  small_step b small = simp (b, small)

  shown_binary : f.binary ≡ true → (room_of f ≡ 0) × (shown_as f ≡ binary_note f)
  shown_binary b = rw b (refl, refl)

  shown_text :
      f.binary ≡ false → (room_of f ≡ length (render_file f)) × (shown_as f ≡ render_file f)
  shown_text b = rw b (refl, refl)

render_from-Fits :
    (bound used : ℕ) (fs : List DiffFile)
    → used ≤ bound
    → Fits bound used fs (render_from bound used fs)
render_from-Fits bound used [] h = unfold render_from in ground arith
render_from-Fits bound used (f ∷ fs) h = elim (Bool-cases f.binary) [
  | inl b ↦
      let (room, text) = shown_binary bound used f fs b in
      let ((there, back), full) = render_from-Fits bound used fs h in
      subst (Fits bound used (f ∷ fs)) (sym (binary_step bound used f fs b)) (
        (λ t. omega (arith, there t, room), λ le. back (omega (arith, le, room))),
        λ t. ap (λ xs. binary_note f ∷ xs) (full t) ∙ ap (λ x. x ∷ map shown_as fs) (sym text),
      )
  | inr b ↦ elim (Bool-cases (ltb bound (used + length (render_file f)))) [
    | inl large ↦
        let (room, text) = shown_text bound used f fs b in
        subst (Fits bound used (f ∷ fs)) (sym (large_step bound used f fs b large)) (
          (λ t. absurd (ground (arith, t)), λ le. absurd (ground (arith, le, room, large))),
          λ t. absurd (ground (arith, t)),
        )
    | inr small ↦
        let (room, text) = shown_text bound used f fs b in
        let ((there, back), full) =
          render_from-Fits bound (used + length (render_file f)) fs (ground (arith, small)) in
        subst (Fits bound used (f ∷ fs)) (sym (small_step bound used f fs b small)) (
          (λ t. omega (arith, there t, room), λ le. back (omega (arith, le, room))),
          λ t. ap (λ xs. render_file f ∷ xs) (full t) ∙ ap (λ x. x ∷ map shown_as fs) (sym text),
        )
  ]
]

-- The diff is reported as complete exactly when its rendered files, the binary ones aside, are
-- together no longer than the bound, and then the text is every file, one behind another.
pub render_for_prompt_iff :
    (files : List DiffFile) (max_bytes : ℕ)
    → (((render_for_prompt files max_bytes).1 ≡ false) ↔ (total_room files ≤ max_bytes))
      × ((render_for_prompt files max_bytes).1 ≡ false
          → (render_for_prompt files max_bytes).0 ≡ join (codes "\n\n") (map shown_as files))
unfolding render_for_prompt
render_for_prompt_iff files max_bytes =
    let (fits, full) = render_from-Fits max_bytes 0 files (omega arith) in
    (
      (λ t. omega (arith, fits.0 t), λ le. fits.1 (omega (arith, le))),
      λ t. ap (join (codes "\n\n")) (full t),
    )
