-- ===== src/Worker/DiffBudget/Budget.antt =====
-- What a capped patch has: at most the budget, whole sections, and a word on every other one.
use mathlib.Core.List.{append_assoc, append-nil}
use native.Mathlib.Decide.{ℕ_discrete}
use previewer.Prelude.{
  ℕ, ◌+◌, ◌≤◌, ◌<◌, ◌≡◌, refl, sym, ap, ◌∙◌, ◌⊎◌, true, false, ◌||◌, List, [], ◌∷◌, ◌++◌, length,
  leb, ltb, ◌==◌, arith, Bool-cases, inl, inr, All,
}
use previewer.Core.Text.{Text}
use previewer.Core.Lines.{join_lines, length-join_lines-append}
use previewer.Worker.DiffBudget.{
  PatchSection, Capping, split_patch_by_file, cost, push_path, cap_section, cap_sections,
  nothing_capped, cap_patch,
}
use previewer.Worker.DiffBudget.Sections.{texts, Whole, whole, split_patch-Whole}

-- The count `used` is the length of the joined sections, and within the budget.
record Fits (max_chars : ℕ) (k : Capping) : Type 0 where
  counted : length (join_lines k.kept) ≡ k.used
  within : k.used ≤ max_chars

cap_section-Fits :
    (max_chars : ℕ) (k : Capping) (s : PatchSection)
    → Fits max_chars k
    → Fits max_chars (cap_section max_chars k s)
unfolding cap_section
cap_section-Fits max_chars k s f = elim (Bool-cases (leb (k.used + cost k s) max_chars)) [
  | inl e ↦ rw e (record {
    counted = omega (arith, f.counted, length-join_lines-append k.kept s.text);
    within = ground (arith, e);
  })
  | inr e ↦ rw e (record { counted = f.counted; within = f.within })
]

cap_sections-Fits :
    (max_chars : ℕ) (ss : List PatchSection) (k : Capping)
    → Fits max_chars k
    → Fits max_chars (cap_sections max_chars k ss)
unfolding cap_sections
cap_sections-Fits max_chars [] k f = f
cap_sections-Fits max_chars (s ∷ ss) k f =
    cap_sections-Fits max_chars ss _ (cap_section-Fits max_chars k s f)

Fits-empty : (max_chars : ℕ) → Fits max_chars nothing_capped
unfolding join_lines
Fits-empty max_chars = record { counted = refl; within = omega arith }

-- The patch that is inlined is never longer than a budget that is positive.
pub cap_patch-bound :
    (patch : Text) (max_chars : ℕ)
    → 1 ≤ max_chars
    → length (cap_patch patch max_chars).patch ≤ max_chars
unfolding cap_patch
cap_patch-bound patch max_chars positive =
    let f =
      cap_sections-Fits max_chars (split_patch_by_file patch) nothing_capped
        (Fits-empty max_chars) in
    elim (Bool-cases (max_chars == 0 || leb (length patch) max_chars)) [
      | inl e ↦ rw e (ground (arith, e, positive))
      | inr e ↦ rw e (omega (arith, f.counted, f.within))
    ]

-- A section is kept whole or left out whole.
abbrev pub keep_section : Capping → PatchSection → Capping
keep_section k s = record k { kept = k.kept ++ s.text ∷ []; used = k.used + cost k s }

abbrev pub omit_section : Capping → PatchSection → Capping
omit_section k s = record k {
  omitted_files = push_path k.omitted_files s.path;
  omitted_chars = k.omitted_chars + length s.text;
}

pub cap_section-cases :
    (max_chars : ℕ) (k : Capping) (s : PatchSection)
    → (cap_section max_chars k s ≡ keep_section k s)
      ⊎ ((cap_section max_chars k s ≡ omit_section k s) × (max_chars < k.used + cost k s))
unfolding cap_section
cap_section-cases max_chars k s = elim (Bool-cases (leb (k.used + cost k s) max_chars)) [
  | inl e ↦ inl (rw e refl)
  | inr e ↦ inr (rw e refl, ground (arith, e))
]

omitted_chars-grows :
    (max_chars : ℕ) (ss : List PatchSection) (k : Capping)
    → k.omitted_chars ≤ (cap_sections max_chars k ss).omitted_chars
unfolding cap_sections
omitted_chars-grows max_chars [] k = omega arith
omitted_chars-grows max_chars (s ∷ ss) k = elim (cap_section-cases max_chars k s) [
  | inl e ↦ rw (e, cap_sections) (omitted_chars-grows max_chars ss (keep_section k s))
  | inr (e, _) ↦
      rw (e, cap_sections) (omega (arith, omitted_chars-grows max_chars ss (omit_section k s)))
]

-- If no character is left out, neither is a section.
kept-All :
    (max_chars : ℕ) (ss : List PatchSection) (k : Capping)
    → All (λ (x : PatchSection). 1 ≤ length x.text) ss
    → (cap_sections max_chars k ss).omitted_chars ≡ k.omitted_chars
    → (cap_sections max_chars k ss).kept ≡ k.kept ++ texts ss
unfolding cap_sections
kept-All max_chars [] k long h = sym (append-nil k.kept)
kept-All max_chars (s ∷ ss) k (one, long) h = elim (cap_section-cases max_chars k s) [
  | inl e ↦
      rw (e, cap_sections)
        (kept-All max_chars ss (keep_section k s) long (rw (e, cap_sections) at h)
          ∙ append_assoc k.kept (s.text ∷ []) (texts ss))
  | inr (e, _) ↦
      let same : (cap_sections max_chars (omit_section k s) ss).omitted_chars ≡ k.omitted_chars =
        rw (e, cap_sections) at h in
      absurd (omega (arith, one, same, omitted_chars-grows max_chars ss (omit_section k s)))
]

Whole-kept :
    (patch : Text) (max_chars : ℕ) (ss : List PatchSection)
    → Whole patch ss
    → (cap_sections max_chars nothing_capped ss).omitted_chars ≡ 0
    → join_lines (cap_sections max_chars nothing_capped ss).kept ≡ patch
unfolding cap_sections
Whole-kept patch max_chars [] w h = elim w [ ]
Whole-kept patch max_chars (t ∷ ts) (whole _ _ same long) h =
    elim (cap_section-cases max_chars nothing_capped t) [
      | inl e ↦
          let all_kept =
            kept-All max_chars ts (keep_section nothing_capped t) long
              (rw (e, cap_sections) at h) in
          rw (e, cap_sections, all_kept) same
      | inr (e, over) ↦
          let none_lost : (cap_sections max_chars (omit_section nothing_capped t) ts).omitted_chars
              ≡ 0 =
            rw (e, cap_sections) at h in
          let grows = omitted_chars-grows max_chars ts (omit_section nothing_capped t) in
          absurd (omega (arith, over, none_lost, grows))
    ]

-- A patch within the budget is inlined as it is.
cap_patch-within :
    (patch : Text) (max_chars : ℕ)
    → length patch ≤ max_chars
    → ((cap_patch patch max_chars).patch ≡ patch) × ((cap_patch patch max_chars).truncated ≡ false)
unfolding cap_patch
cap_patch-within patch max_chars h =
    let fits : (max_chars == 0 || leb (length patch) max_chars) ≡ true = ground (arith, h) in
    rw fits (refl, refl)

over-omits :
    (c : ℕ) (cs : Text) (max_chars : ℕ)
    → max_chars < length (c ∷ cs)
    → 1 ≤ (cap_sections max_chars nothing_capped (split_patch_by_file (c ∷ cs))).omitted_chars
over-omits c cs max_chars over =
    let ss = split_patch_by_file (c ∷ cs) in
    let f = cap_sections-Fits max_chars ss nothing_capped (Fits-empty max_chars) in
    let kept = Whole-kept (c ∷ cs) max_chars ss (split_patch-Whole c cs) in
    elim (ℕ_discrete (cap_sections max_chars nothing_capped ss).omitted_chars 0) [
      | yes e ↦ absurd (omega (arith, over, f.counted, f.within, ap length (kept e)))
      | no ne ↦ omega (arith, ne)
    ]

cap_patch-over :
    (patch : Text) (max_chars : ℕ)
    → 1 ≤ max_chars
    → max_chars < length patch
    → (cap_patch patch max_chars).truncated ≡ true
unfolding cap_patch
cap_patch-over [] max_chars positive over = absurd (omega (arith, over))
cap_patch-over (c ∷ cs) max_chars positive over =
    let past : (max_chars == 0 || leb (length (c ∷ cs)) max_chars) ≡ false =
      ground (arith, positive, over) in
    rw past (ground (arith, over-omits c cs max_chars over))

-- Under a budget that is positive, a patch is marked as truncated exactly if it is longer than the
-- budget.
cap_patch-truncated :
    (patch : Text) (max_chars : ℕ)
    → 1 ≤ max_chars
    → (cap_patch patch max_chars).truncated ≡ ltb max_chars (length patch)
cap_patch-truncated patch max_chars positive = elim (Bool-cases (ltb max_chars (length patch))) [
  | inl e ↦ rw e (cap_patch-over patch max_chars positive (ground (arith, e)))
  | inr e ↦ rw e ((cap_patch-within patch max_chars (ground (arith, e))).1)
]
