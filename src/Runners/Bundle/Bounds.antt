-- ===== src/Runners/Bundle/Bounds.antt =====
-- What is put in front of a review, and how long it can be.
use previewer.Prelude.{
  ℕ, zero, suc, ◌+◌, ◌-◌, ◌*◌, ◌≤◌, ◌≡◌, refl, false, some, List, [], ◌∷◌, ◌++◌, length,
  length-append, take, leb, ltb, ◌==◌, if◌then◌else◌, arith, inl, inr, Bool-cases, All, All-map,
  Option-cases,
}
use previewer.Core.Text.{Text}
use previewer.Core.Lines.{newline}
use previewer.Runners.Streams.{join_sections}
use previewer.Runners.Bundle.Inside.{Inside, fitting_sections-Inside}
use previewer.Runners.Bundle.{
  Disk, Candidate, LoadedFile, header, footer, frame, fitted, section_of, read_workspace_file,
  fitting_sections, collect_workspace_review_context,
}

-- The characters of the sections
abbrev pub total : List Text → ℕ
total [] = 0
total (s ∷ ss) = length s + total ss

length-join_sections : (ss : List Text) → length (join_sections ss) ≤ total ss + 2 * length ss
length-join_sections [] = omega arith
length-join_sections (s ∷ []) = omega arith
length-join_sections (s ∷ t ∷ ss) = omega (
  arith,
  length-join_sections (t ∷ ss),
  length-append s (newline ∷ newline ∷ join_sections (t ∷ ss)),
)

length-take : (n : ℕ) (t : Text) → length (take n t) ≤ n
length-take zero t = omega arith
length-take (suc n) [] = omega arith
length-take (suc n) (c ∷ t) = omega (arith, length-take n t)

le_of_leb : (m n : ℕ) → leb m n ≡ false → n ≤ m
le_of_leb m n h = ground (arith, h)

module _ (disk : Disk) where
  length-section_of :
      (remaining : ℕ) (c : Candidate) (f : LoadedFile)
      → length (section_of disk remaining c f) ≡ frame disk c f + length (fitted disk remaining c f)
  length-section_of remaining c f = omega (
    arith,
    length-append (header disk c) (fitted disk remaining c f ++ footer disk f),
    length-append (fitted disk remaining c f) (footer disk f),
  )

  -- One file, and the bound of what follows it
  total-next :
      (max_chars used : ℕ) (c : Candidate) (f : LoadedFile) (rest : List Text)
      → used ≤ max_chars
      → (used + (frame disk c f + length (fitted disk (max_chars - used) c f)) ≤ max_chars
          → total rest + (used + (frame disk c f + length (fitted disk (max_chars - used) c f)))
            ≤ max_chars)
      → total (
            if leb (max_chars - used) (frame disk c f + 1)
            then []
            else if ltb (length (fitted disk (max_chars - used) c f)) (length f.text)
            then section_of disk (max_chars - used) c f ∷ []
            else section_of disk (max_chars - used) c f ∷ rest)
          + used
        ≤ max_chars
  total-next max_chars used c f rest fits ih =
      let remaining = max_chars - used in
      let text = fitted disk remaining c f in
      let size = length-section_of remaining c f in
      let kept = length-take (remaining - frame disk c f) f.text in
      elim (Bool-cases (leb remaining (frame disk c f + 1))) [
        | inl e ↦ rw e (omega (arith, fits))
        | inr e ↦
            let room : frame disk c f + 1 ≤ remaining =
              le_of_leb remaining (frame disk c f + 1) e in
            let used_fits : used + (frame disk c f + length text) ≤ max_chars =
              omega (arith, fits, room, kept) in
            elim (Bool-cases (ltb (length text) (length f.text))) [
              | inl short ↦ rw (e, short) (omega (arith, size, used_fits))
              | inr whole ↦ rw (e, whole) (omega (arith, size, ih used_fits))
            ]
      ]

  total-fitting_sections :
      (root : Text) (max_chars used : ℕ) (cs : List Candidate)
      → used ≤ max_chars
      → total (fitting_sections disk root max_chars used cs) + used ≤ max_chars
  unfolding fitting_sections
  total-fitting_sections root max_chars used [] fits = omega (arith, fits)
  total-fitting_sections root max_chars used (c ∷ cs) fits =
      elim (Option-cases (read_workspace_file disk root c.path)) [
        | inl e ↦ rw (fitting_sections, e) (total-fitting_sections root max_chars used cs fits)
        | inr (f, e) ↦
            rw (fitting_sections, e)
              (total-next max_chars used c f _ fits (
                total-fitting_sections root max_chars
                  (used + (frame disk c f + length (fitted disk (max_chars - used) c f))) cs))
      ]

  module _ (workspace_dir : Text) (max_chars : ℕ) where
    -- The section holds a file of the checkout.
    abbrev pub OfCheckout : Text → Type 0
    OfCheckout s = (root : Text) × (disk.real_path workspace_dir ≡ some root) × Inside disk root s

    -- A text of sections of the checkout that have at most so many characters together
    abbrev pub IsBundle : Text → Type 0
    IsBundle text =
        (ss : List Text) × (text ≡ join_sections ss)
        × (total ss ≤ max_chars)
        × (length text ≤ max_chars + 2 * length ss)
        × All OfCheckout ss

    join_sections-IsBundle :
        (ss : List Text) → total ss ≤ max_chars → All OfCheckout ss → IsBundle (join_sections ss)
    join_sections-IsBundle ss h inside =
        (ss, refl, h, omega (arith, h, length-join_sections ss), inside)

    sections-IsBundle :
        (root : Text) (cs : List Candidate)
        → disk.real_path workspace_dir ≡ some root
        → IsBundle (join_sections (fitting_sections disk root max_chars 0 cs))
    sections-IsBundle root cs there =
        join_sections-IsBundle (fitting_sections disk root max_chars 0 cs)
          (omega (arith, total-fitting_sections root max_chars 0 cs (omega arith)))
          (All-map (λ s inside. (root, there, inside)) (fitting_sections disk root max_chars 0 cs)
            (fitting_sections-Inside disk root max_chars 0 cs))

    -- What is put in front of a review are files that lie within the checkout once their links are
    -- followed, in sections of at most `max_chars` characters together; the two newlines between two
    -- sections are not counted, so the text can be longer than `max_chars` by those.
    pub collect_workspace_review_context-IsBundle :
        (changed_paths : List Text)
        → IsBundle (collect_workspace_review_context disk workspace_dir changed_paths max_chars)
    unfolding collect_workspace_review_context
    collect_workspace_review_context-IsBundle changed_paths = elim (Bool-cases (max_chars == 0)) [
      | inl e ↦
          rw (collect_workspace_review_context, e) (join_sections-IsBundle [] (omega arith) tt)
      | inr e ↦ elim (Option-cases (disk.real_path workspace_dir)) [
        | inl gone ↦
            rw (collect_workspace_review_context, e, gone)
              (join_sections-IsBundle [] (omega arith) tt)
        | inr (root, there) ↦
            rw (collect_workspace_review_context, e, there) (sections-IsBundle root _ there)
      ]
    ]
