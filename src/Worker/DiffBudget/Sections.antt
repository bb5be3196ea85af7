-- ===== src/Worker/DiffBudget/Sections.antt =====
-- The sections of a patch are the patch: joined again they give it back.
use mathlib.Core.Path.{subst}
use previewer.Prelude.{
  get_or, ℕ, ◌≤◌, ◌≡◌, refl, ◌∙◌, none, some, List, [], ◌∷◌, ◌++◌, map, length, length-append,
  arith, Option-cases, inl, inr, All,
}
use previewer.Core.Text.{Text, strip_prefix}
use previewer.Core.Lines.{
  newline, split_lines, join_lines, HasLine, split_lines-HasLine, join_lines-split_lines,
  join_lines-merge,
}
use previewer.Worker.DiffBudget.{PatchSection, header_path, sections_from, split_patch_by_file}

abbrev pub texts : List PatchSection → List Text
texts ss = map (λ (s : PatchSection). s.text) ss

-- The open section and the lines that are still to come make up the rest of the patch.
pub data Rejoins (s : PatchSection) (ls : List Text) : List PatchSection → Type 0 where
  rejoins :
      (t : PatchSection) (ts : List PatchSection)
      → join_lines (texts (t ∷ ts)) ≡ join_lines (s.text ∷ ls)
      → length s.text ≤ length t.text
      → All (λ (x : PatchSection). 1 ≤ length x.text) ts
      → Rejoins s ls (t ∷ ts)

header-long : (l path : Text) → header_path l ≡ some path → 1 ≤ length l
unfolding header_path strip_prefix
header-long [] path h = absurd (ground (arith, h))
header-long (c ∷ cs) path h = omega arith

longer :
    (s : PatchSection) (l : Text) (ls : List Text) (ts : List PatchSection)
    → Rejoins (record s { text = s.text ++ newline ∷ l }) ls ts
    → Rejoins s (l ∷ ls) ts
longer s l ls ts (rejoins t rest same grown long) =
    rejoins t rest (same ∙ join_lines-merge s.text l ls)
      (omega (arith, grown, length-append s.text (newline ∷ l))) long

opened :
    (s : PatchSection) (l : Text) (ls : List Text) (p : Text) (ts : List PatchSection)
    → header_path l ≡ some p
    → Rejoins (record { path = p; text = l }) ls ts
    → Rejoins s (l ∷ ls) (s ∷ ts)
unfolding join_lines
opened s l ls p ts e (rejoins t rest same grown long) =
    rejoins s (t ∷ rest) (rw same refl) (omega arith)
      (omega (arith, grown, header-long l p e), long)

sections_from-Rejoins :
    (s : PatchSection) (ls : List Text) → Rejoins s ls (sections_from (some s) ls)
unfolding sections_from
sections_from-Rejoins s [] = rejoins s [] refl (omega arith) tt
sections_from-Rejoins s (l ∷ ls) = elim (Option-cases (header_path l)) [
  | inl e ↦
      rw (e, sections_from)
        (longer s l ls _ (sections_from-Rejoins (record s { text = s.text ++ newline ∷ l }) ls))
  | inr (p, e) ↦
      rw (e, sections_from)
        (opened s l ls p _ e (sections_from-Rejoins (record { path = p; text = l }) ls))
]

-- The sections of a whole patch; only the first may be empty.
pub data Whole (patch : Text) : List PatchSection → Type 0 where
  whole :
      (t : PatchSection) (ts : List PatchSection)
      → join_lines (texts (t ∷ ts)) ≡ patch
      → All (λ (x : PatchSection). 1 ≤ length x.text) ts
      → Whole patch (t ∷ ts)

Rejoins-Whole :
    (s : PatchSection) (ls : List Text) (ts : List PatchSection)
    → Rejoins s ls ts
    → Whole (join_lines (s.text ∷ ls)) ts
Rejoins-Whole s ls ts (rejoins t rest same grown long) = whole t rest same long

lines-Whole : (ls : List Text) → HasLine ls → Whole (join_lines ls) (sections_from none ls)
unfolding sections_from
lines-Whole [] h = elim h [ ]
lines-Whole (l ∷ ls) h =
    let first : PatchSection = record { path = get_or (header_path l) []; text = l } in
    Rejoins-Whole first ls _ (sections_from-Rejoins first ls)

pub split_patch-Whole : (c : ℕ) (cs : Text) → Whole (c ∷ cs) (split_patch_by_file (c ∷ cs))
unfolding split_patch_by_file
split_patch-Whole c cs =
    subst (λ patch. Whole patch (sections_from none (split_lines (c ∷ cs))))
      (join_lines-split_lines (c ∷ cs))
      (lines-Whole (split_lines (c ∷ cs)) (split_lines-HasLine (c ∷ cs)))

Whole-rejoins :
    (patch : Text) (ts : List PatchSection) → Whole patch ts → join_lines (texts ts) ≡ patch
Whole-rejoins patch ts (whole t rest same long) = same

-- A patch is its sections, in order, joined by newlines: splitting it loses nothing.
pub split_patch-rejoins : (patch : Text) → join_lines (texts (split_patch_by_file patch)) ≡ patch
unfolding split_patch_by_file join_lines
split_patch-rejoins [] = refl
split_patch-rejoins (c ∷ cs) = Whole-rejoins (c ∷ cs) _ (split_patch-Whole c cs)
