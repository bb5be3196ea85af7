-- ===== src/Worker/DiffBudget/Honesty.antt =====
-- Sections are inlined whole, and one that is not is named.
use previewer.Prelude.{
  ℕ, ◌≤◌, ◌<◌, ◌≡◌, refl, ◌⊎◌, false, List, [], ◌∷◌, ◌++◌, length, leb, arith, inl, inr, All, Has,
  All-tabulate, All-map, ◌==◌, ◌||◌,
}
use previewer.Core.Text.{Text}
use previewer.Core.Lines.{join_lines}
use previewer.Worker.DiffBudget.{
  PatchSection, CappedPatch, Capping, split_patch_by_file, push_path, cap_section, cap_sections,
  nothing_capped, cap_patch,
}
use previewer.Worker.DiffBudget.Sections.{texts}
use previewer.Worker.DiffBudget.Budget.{cap_section-cases}

Has-append : (xs ys : List Text) (x : Text) → Has x xs → Has x (xs ++ ys)
Has-append [] ys x i = elim i [ ]
Has-append (z ∷ xs) ys x (inl same) = inl same
Has-append (z ∷ xs) ys x (inr later) = inr (Has-append xs ys x later)

Has-last : (xs : List Text) (x : Text) → Has x (xs ++ x ∷ [])
Has-last [] x = inl refl
Has-last (z ∷ xs) x = inr (Has-last xs x)

Has-split : (xs ys : List Text) (x : Text) → Has x (xs ++ ys) → Has x xs ⊎ Has x ys
Has-split [] ys x i = inr i
Has-split (z ∷ xs) ys x (inl same) = inl (inl same)
Has-split (z ∷ xs) ys x (inr later) = elim (Has-split xs ys x later) [
  | inl i ↦ inl (inr i)
  | inr i ↦ inr i
]

-- What became of a section: it is inlined, or its path is named, or it has none.
data Fate (k : Capping) (s : PatchSection) : Type 0 where
  inlined : Has s.text k.kept → Fate k s
  named : Has s.path k.omitted_files → Fate k s
  nameless : s.path ≡ [] → Fate k s

push_path-old : (files : List Text) (path x : Text) → Has x files → Has x (push_path files path)
push_path-old files [] x i = i
push_path-old files (c ∷ cs) x i = Has-append files _ x i

push_path-new : (files : List Text) (path : Text) → (path ≡ []) ⊎ Has path (push_path files path)
push_path-new files [] = inl refl
push_path-new files (c ∷ cs) = inr (Has-last files (c ∷ cs))

module _ (max_chars : ℕ) where
  section-Fate : (k : Capping) (s : PatchSection) → Fate (cap_section max_chars k s) s
  section-Fate k s = elim (cap_section-cases max_chars k s) [
    | inl e ↦ rw e (inlined (Has-last k.kept s.text))
    | inr (e, _) ↦ elim (push_path-new k.omitted_files s.path) [
      | inl none_there ↦ nameless none_there
      | inr i ↦ rw e (named i)
    ]
  ]

  cap_section-Fate :
      (k : Capping) (s x : PatchSection) → Fate k x → Fate (cap_section max_chars k s) x
  cap_section-Fate k s x (nameless e) = nameless e
  cap_section-Fate k s x (inlined i) = elim (cap_section-cases max_chars k s) [
    | inl e ↦ inlined (rw e (Has-append k.kept _ _ i))
    | inr (e, _) ↦ inlined (rw e i)
  ]
  cap_section-Fate k s x (named i) = elim (cap_section-cases max_chars k s) [
    | inl e ↦ named (rw e i)
    | inr (e, _) ↦ named (rw e (push_path-old k.omitted_files s.path _ i))
  ]

  cap_sections-Fate :
      (ss : List PatchSection) (k : Capping) (x : PatchSection)
      → Fate k x
      → Fate (cap_sections max_chars k ss) x
  unfolding cap_sections
  cap_sections-Fate [] k x f = f
  cap_sections-Fate (s ∷ ss) k x f = cap_sections-Fate ss _ x (cap_section-Fate k s x f)

  every-Fate :
      (ss : List PatchSection) (k : Capping) → All (λ x. Fate (cap_sections max_chars k ss) x) ss
  unfolding cap_sections
  every-Fate [] k = tt
  every-Fate (s ∷ ss) k =
      (cap_sections-Fate ss _ s (section-Fate k s), every-Fate ss (cap_section max_chars k s))

  kept-sections :
      (ss : List PatchSection) (k : Capping) (t : Text)
      → Has t (cap_sections max_chars k ss).kept
      → Has t k.kept ⊎ Has t (texts ss)
  unfolding cap_sections
  kept-sections [] k t i = inl i
  kept-sections (s ∷ ss) k t i = elim (kept-sections ss (cap_section max_chars k s) t i) [
    | inr later ↦ inr (inr later)
    | inl before ↦ elim (cap_section-cases max_chars k s) [
      | inr (e, _) ↦ inl (rw e at before)
      | inl e ↦ elim (Has-split k.kept (s.text ∷ []) t (rw e at before)) [
        | inl i ↦ inl i
        | inr (inl same) ↦ inr (inl same)
        | inr (inr none_left) ↦ elim none_left [ ]
      ]
    ]
  ]

-- What the capped patch says of the sections that it was cut from.
pub record Honest (ss : List PatchSection) (c : CappedPatch) : Type 0 where
  pub kept : List Text
  pub joined : c.patch ≡ join_lines kept
  pub sections : All (λ t. Has t (texts ss)) kept
  pub told :
      All (λ (s : PatchSection). Has s.text kept ⊎ ((s.path ≡ []) ⊎ Has s.path c.omitted_files)) ss

Fate-told :
    (k : Capping) (s : PatchSection)
    → Fate k s
    → Has s.text k.kept ⊎ ((s.path ≡ []) ⊎ Has s.path k.omitted_files)
Fate-told k s (inlined i) = inl i
Fate-told k s (named i) = inr (inr i)
Fate-told k s (nameless e) = inr (inl e)

drop_empty : (t : Text) (ss : List PatchSection) → Has t [] ⊎ Has t (texts ss) → Has t (texts ss)
drop_empty t ss (inl i) = elim i [ ]
drop_empty t ss (inr i) = i

-- A patch over a budget that is positive is cut by whole sections: what is inlined is some of its
-- sections joined by newlines, and every section that has a path and is not inlined is named among
-- the omitted files.
pub cap_patch-Honest :
    (patch : Text) (max_chars : ℕ)
    → 1 ≤ max_chars
    → max_chars < length patch
    → Honest (split_patch_by_file patch) (cap_patch patch max_chars)
unfolding cap_patch
cap_patch-Honest patch max_chars positive over =
    let past : (max_chars == 0 || leb (length patch) max_chars) ≡ false =
      ground (arith, positive, over) in
    let ss = split_patch_by_file patch in
    let k = cap_sections max_chars nothing_capped ss in
    rw past (record {
      kept = k.kept;
      joined = refl;
      sections =
          All-tabulate _ k.kept
            (λ t i. drop_empty t ss (kept-sections max_chars ss nothing_capped t i));
      told =
          All-map (λ (s : PatchSection) (f : Fate k s). Fate-told k s f) ss
            (every-Fate max_chars ss nothing_capped);
    })
