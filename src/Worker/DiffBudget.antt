-- ===== src/Worker/DiffBudget.antt =====
-- src/apps/worker/diff-budget.ts: the patch is cut to a budget by whole file sections. A patch is
-- the list of its UTF-16 units, and an empty path is the empty list.
pub mod Sections
pub mod Budget
pub mod Honesty
use previewer.Prelude.{
  ℕ, ◌+◌, Bool, true, false, ◌||◌, ◌&&◌, not, Option, none, some, List, [], ◌∷◌, ◌++◌, map, all,
  length, leb, ltb, ◌==◌, if◌then◌else◌, get_or,
}
use previewer.Core.Text.{Text, codes, strip_prefix}
use previewer.Core.Lines.{newline, split_lines, join_lines, separator}
use previewer.Context.Glob.{is_inline}

pub record PatchSection : Type 0 where
  pub path : Text
  pub text : Text

pub record CappedPatch : Type 0 where
  pub patch : Text
  pub omitted_files : List Text
  pub omitted_chars : ℕ
  pub truncated : Bool

-- `(.+)` behind ` b/`
abbrev path_of : Option Text → Option Text
path_of none = none
path_of (some []) = none
path_of (some (c ∷ cs)) = some (c ∷ cs)

abbrev or_else : {A : Type 0} → Option A → Option A → Option A
or_else none b = b
or_else (some a) b = some a

-- `(.*) b\/(.+)$`: the path behind the last ` b/` that a character follows
last_path : Text → Option Text
unfolding strip_prefix
last_path [] = none
last_path (c ∷ cs) = or_else (last_path cs) (path_of (strip_prefix (codes " b/") (c ∷ cs)))

-- `FILE_HEADER.exec(line)`: the path of the second group
unfoldable pub header_path : Text → Option Text
unfolding strip_prefix last_path
header_path line = elim (strip_prefix (codes "diff --git a/") line) [
  | none ↦ none
  | some rest ↦ if all is_inline rest then last_path rest else none
]

-- The loop of `splitPatchByFile`, with the section that is open.
unfoldable pub sections_from : Option PatchSection → List Text → List PatchSection
unfolding header_path
sections_from none [] = []
sections_from (some s) [] = s ∷ []
sections_from none (l ∷ ls) =
    sections_from (some (record { path = get_or (header_path l) []; text = l })) ls
sections_from (some s) (l ∷ ls) = elim (header_path l) [
  | some p ↦ s ∷ sections_from (some (record { path = p; text = l })) ls
  | none ↦ sections_from (some (record s { text = s.text ++ newline ∷ l })) ls
]

-- `splitPatchByFile`
unfoldable pub split_patch_by_file : Text → List PatchSection
unfolding sections_from split_lines
split_patch_by_file [] = []
split_patch_by_file (c ∷ cs) = sections_from none (split_lines (c ∷ cs))

-- What the loop of `capPatch` has gathered.
pub record Capping : Type 0 where
  pub kept : List Text
  pub omitted_files : List Text
  pub used : ℕ
  pub omitted_chars : ℕ

abbrev pub cost : Capping → PatchSection → ℕ
cost k s = length s.text + separator k.kept

-- `if (s.path) omittedFiles.push(s.path)`
abbrev pub push_path : List Text → Text → List Text
push_path files [] = files
push_path files (c ∷ cs) = files ++ (c ∷ cs) ∷ []

unfoldable pub cap_section : ℕ → Capping → PatchSection → Capping
cap_section max_chars k s =
    if leb (k.used + cost k s) max_chars
    then record k { kept = k.kept ++ s.text ∷ []; used = k.used + cost k s }
    else record k {
      omitted_files = push_path k.omitted_files s.path;
      omitted_chars = k.omitted_chars + length s.text;
    }

unfoldable pub cap_sections : ℕ → Capping → List PatchSection → Capping
unfolding cap_section
cap_sections max_chars k [] = k
cap_sections max_chars k (s ∷ ss) = cap_sections max_chars (cap_section max_chars k s) ss

abbrev pub nothing_capped : Capping
nothing_capped = record { kept = []; omitted_files = []; used = 0; omitted_chars = 0 }

abbrev pub capped_patch : Capping → CappedPatch
capped_patch k = record {
  patch = join_lines k.kept;
  omitted_files = k.omitted_files;
  omitted_chars = k.omitted_chars;
  truncated = ltb 0 k.omitted_chars;
}

-- `capPatch`; a budget that is not positive is 0.
unfoldable pub cap_patch : Text → ℕ → CappedPatch
unfolding split_patch_by_file cap_sections
cap_patch patch max_chars =
    if max_chars == 0 || leb (length patch) max_chars
    then record { patch = patch; omitted_files = []; omitted_chars = 0; truncated = false }
    else capped_patch (cap_sections max_chars nothing_capped (split_patch_by_file patch))
