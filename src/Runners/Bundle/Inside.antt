-- ===== src/Runners/Bundle/Inside.antt =====
-- The files in front of a review lie in the checkout, whatever links it holds.
use previewer.Prelude.{
  ℕ, ◌+◌, ◌-◌, ◌≡◌, refl, true, Option, none, some, List, [], ◌∷◌, length, leb, ltb, All,
  if◌then◌else◌, arith, inl, inr, Bool-cases, Option-cases,
}
use previewer.Core.Text.{Text}
use previewer.Runners.Bundle.{
  Disk, Candidate, LoadedFile, frame, fitted, section_of, is_within, loaded_of, load_real,
  read_workspace_file, fitting_sections,
}

module _ (disk : Disk) (root : Text) where
  -- What is loaded of a path is read at a place within the root, where its links are followed.
  abbrev pub ReadInside : Text → LoadedFile → Type 0
  ReadInside path f =
      (actual : Text) × (disk.real_path (disk.resolve root path) ≡ some actual)
      × (is_within disk root actual ≡ true)
      × (loaded_of disk (disk.read actual 128_000) ≡ some f)

  load_real-ReadInside :
      (path : Text) (real : Option Text) (f : LoadedFile)
      → disk.real_path (disk.resolve root path) ≡ real
      → load_real disk root real ≡ some f
      → ReadInside path f
  load_real-ReadInside path none f e h = absurd (ground (arith, h))
  load_real-ReadInside path (some actual) f e h = elim (Bool-cases (is_within disk root actual)) [
    | inl within ↦ (actual, e, within, rw within at h)
    | inr outside ↦ absurd (ground (arith, rw outside at h))
  ]

  read_workspace_file-ReadInside :
      (path : Text) (f : LoadedFile)
      → read_workspace_file disk root path ≡ some f
      → ReadInside path f
  unfolding read_workspace_file
  read_workspace_file-ReadInside path f h =
      elim (Bool-cases (is_within disk root (disk.resolve root path))) [
        | inl within ↦
            load_real-ReadInside path (disk.real_path (disk.resolve root path)) f refl
              (rw (read_workspace_file, within) at h)
        | inr outside ↦ absurd (ground (arith, rw (read_workspace_file, outside) at h))
      ]

  abbrev pub Inside : Text → Type 0
  Inside s =
      (c : Candidate) × (f : LoadedFile) × (n : ℕ) × (s ≡ section_of disk n c f)
      × ReadInside c.path f

  Inside-next :
      (max_chars used : ℕ) (c : Candidate) (f : LoadedFile) (rest : List Text)
      → ReadInside c.path f
      → All Inside rest
      → All Inside (
          if leb (max_chars - used) (frame disk c f + 1)
          then []
          else if ltb (length (fitted disk (max_chars - used) c f)) (length f.text)
          then section_of disk (max_chars - used) c f ∷ []
          else section_of disk (max_chars - used) c f ∷ rest)
  Inside-next max_chars used c f rest here later =
      elim (Bool-cases (leb (max_chars - used) (frame disk c f + 1))) [
        | inl e ↦ rw e tt
        | inr e ↦
            elim (Bool-cases (ltb (length (fitted disk (max_chars - used) c f)) (length f.text))) [
              | inl short ↦ rw (e, short) ((c, f, _, refl, here), tt)
              | inr whole ↦ rw (e, whole) ((c, f, _, refl, here), later)
            ]
      ]

  pub fitting_sections-Inside :
      (max_chars used : ℕ) (cs : List Candidate)
      → All Inside (fitting_sections disk root max_chars used cs)
  unfolding fitting_sections
  fitting_sections-Inside max_chars used [] = tt
  fitting_sections-Inside max_chars used (c ∷ cs) =
      elim (Option-cases (read_workspace_file disk root c.path)) [
        | inl e ↦ rw (fitting_sections, e) (fitting_sections-Inside max_chars used cs)
        | inr (f, e) ↦
            rw (fitting_sections, e)
              (Inside-next max_chars used c f _ (read_workspace_file-ReadInside c.path f e) (
                fitting_sections-Inside max_chars
                  (used + (frame disk c f + length (fitted disk (max_chars - used) c f))) cs))
      ]
