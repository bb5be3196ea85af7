-- ===== src/Github/Diff/Printed.antt =====
-- What git prints of its files is read back, for the rows that are printed without quotes or renames.
use mathlib.Core.Path.{subst, sym}
use previewer.Prelude.{
  ℕ, ◌+◌, Bool, ◌⊎◌, inl, inr, ◌||◌, ◌&&◌, not, leb, ◌≡◌, refl, ◌∙◌, ap, true, false, List, [], ◌∷◌,
  ◌++◌, map, All, All-map, Nowhere, ◌==◌, ==_iff, arith,
}
use previewer.Core.Text.{Text, same_text}
use previewer.Core.Lines.{newline, split_lines}
use previewer.Core.Regex.{is_space}
use previewer.Core.Split.{
  Lacks, split_on-append, split_on_self, join_on, is_empty, trim, trim_start, trim_end,
}
use previewer.Github.Change.{ChangedFile, size_class_of}
use previewer.Github.Diff.{
  tab, Statuses, status_of, read_status, read_statuses, status_at, count_of, file_of, read_file,
  read_files, changed_files_of,
}

-- A file of a diff: its path, the letter of its status, and its counts as they are printed
pub record Row : Type 0 where
  pub path : Text
  pub letter : ℕ
  pub adds : Text
  pub dels : Text

abbrev pub IsVisible : Text → Type 0
IsVisible [] = Nowhere
IsVisible (c ∷ t) = is_space c ≡ false

abbrev numstat_line : Row → Text
numstat_line r = r.adds ++ tab ∷ (r.dels ++ tab ∷ r.path)

abbrev status_line : Row → Text
status_line r = (r.letter ∷ []) ++ tab ∷ r.path

abbrev printed : (Row → Text) → List Row → Text
printed line [] = []
printed line (r ∷ rs) = line r ++ newline ∷ printed line rs

abbrev pub print_numstat : List Row → Text
print_numstat = printed numstat_line

abbrev pub print_name_status : List Row → Text
print_name_status = printed status_line

-- The letters of files that were added, deleted or modified, or whose type changed
abbrev pub is_letter : ℕ → Bool
is_letter c = c == b'A' || c == b'D' || c == b'M' || c == b'T'

-- The characters of a path that git prints as it is: those of printable ASCII, less `"` and the backslash
abbrev pub is_printed : ℕ → Bool
is_printed c = leb 32 c && leb c 126 && not (c == 34) && not (c == 92)

-- A row that git prints as `numstat_line` and `status_line` do: no rename and no copy, of which git prints
-- two paths, and no path that it quotes.
pub record IsPlain (r : Row) : Type 0 where
  pub path : All (λ c. is_printed c ≡ true) r.path
  pub path_some : is_empty r.path ≡ false
  pub letter : is_letter r.letter ≡ true
  pub adds : Lacks tab r.adds × Lacks newline r.adds × IsVisible r.adds
  pub dels : Lacks tab r.dels × Lacks newline r.dels

printed-Lacks :
    (d : ℕ) (t : Text) → is_printed d ≡ false → All (λ c. is_printed c ≡ true) t → Lacks d t
printed-Lacks d [] h k = tt
printed-Lacks d (c ∷ t) h k = (ground (arith, h, k.0), printed-Lacks d t h k.1)

path_tab : (r : Row) → IsPlain r → Lacks tab r.path
path_tab r h = printed-Lacks tab r.path refl h.path

path_line : (r : Row) → IsPlain r → Lacks newline r.path
path_line r h = printed-Lacks newline r.path refl h.path

letter_cases : (c : ℕ) → is_letter c ≡ true → (c ≡ b'A') ⊎ (c ≡ b'D') ⊎ (c ≡ b'M') ⊎ (c ≡ b'T')
letter_cases c h = ground (arith, h)

letter_visible : (r : Row) → IsPlain r → is_space r.letter ≡ false
letter_visible r h = elim (letter_cases r.letter h.letter) [
  | inl e ↦ ap is_space e
  | inr (inl e) ↦ ap is_space e
  | inr (inr (inl e)) ↦ ap is_space e
  | inr (inr (inr e)) ↦ ap is_space e
]

split_lines-append :
    (l rest : Text) → Lacks newline l → split_lines (l ++ newline ∷ rest) ≡ l ∷ split_lines rest
unfolding split_lines
split_lines-append [] rest h = refl
split_lines-append (c ∷ l) rest h = rw (h.0, split_lines-append l rest h.1) refl

split_lines-printed :
    (line : Row → Text) (rs : List Row)
    → All (λ r. Lacks newline (line r)) rs
    → split_lines (printed line rs) ≡ map line rs ++ [] ∷ []
unfolding split_lines
split_lines-printed line [] h = refl
split_lines-printed line (r ∷ rs) h =
    split_lines-append (line r) (printed line rs) h.0
    ∙ ap (λ ls. line r ∷ ls) (split_lines-printed line rs h.1)

trim_start_visible : (c : ℕ) (t : Text) → is_space c ≡ false → trim_start (c ∷ t) ≡ c ∷ t
unfolding trim_start
trim_start_visible c t h = rw h refl

trim_end_visible : (c : ℕ) (t : Text) → is_space c ≡ false → trim_end (c ∷ t) ≡ c ∷ trim_end t
unfolding trim_end
trim_end_visible c t h = rw h refl

trim-IsVisible : (t : Text) → IsVisible t → is_empty (trim t) ≡ false
unfolding trim
trim-IsVisible [] h = elim h [ ]
trim-IsVisible (c ∷ t) h = rw (trim_start_visible c t h, trim_end_visible c t h) refl

Lacks-append : (c : ℕ) (s t : Text) → Lacks c s → Lacks c t → Lacks c (s ++ t)
Lacks-append c [] t h k = k
Lacks-append c (d ∷ s) t h k = (h.0, Lacks-append c s t h.1 k)

IsVisible-append : (s t : Text) → IsVisible s → IsVisible (s ++ t)
IsVisible-append [] t h = elim h [ ]
IsVisible-append (c ∷ s) t h = h

numstat_line-newline : (r : Row) → IsPlain r → Lacks newline (numstat_line r)
numstat_line-newline r h =
    Lacks-append newline r.adds (tab ∷ (r.dels ++ tab ∷ r.path)) h.adds.1
      (refl, Lacks-append newline r.dels (tab ∷ r.path) h.dels.1 (refl, path_line r h))

status_line-newline : (r : Row) → IsPlain r → Lacks newline (status_line r)
status_line-newline r h = (ground (arith, letter_visible r h), (refl, path_line r h))

read_status_line :
    (seen : Statuses) (r : Row)
    → IsPlain r
    → read_status seen (status_line r) ≡ (r.path, status_of r.letter) ∷ seen
unfolding read_status
read_status_line seen r h =
    let letter_tab : (r.letter == tab) ≡ false = ground (arith, letter_visible r h) in
    rw
      (
        read_status,
        trim-IsVisible (status_line r) (letter_visible r h),
        split_on-append tab (r.letter ∷ []) r.path (letter_tab, tt),
        split_on_self tab r.path (path_tab r h),
      )
      refl

read_file_line :
    (statuses : Statuses) (r : Row)
    → IsPlain r
    → read_file statuses (numstat_line r) ≡ file_of statuses r.adds r.dels r.path ∷ []
unfolding read_file join_on
read_file_line statuses r h =
    rw
      (
        read_file,
        trim-IsVisible (numstat_line r) (IsVisible-append r.adds _ h.adds.2),
        split_on-append tab r.adds (r.dels ++ tab ∷ r.path) h.adds.0,
        split_on-append tab r.dels r.path h.dels.0,
        split_on_self tab r.path (path_tab r h),
        h.path_some,
      )
      refl

-- The paths are pairwise different.
abbrev pub AreDistinct : List Row → Type 0
AreDistinct [] = Unit
AreDistinct (r ∷ rs) =
    All (λ x. same_text r.path x.path ≡ false × (same_text x.path r.path ≡ false)) rs
    × AreDistinct rs

same_text_refl : (t : Text) → same_text t t ≡ true
unfolding same_text
same_text_refl [] = refl
same_text_refl (c ∷ t) = rw ((==_iff c c).1 refl) (same_text_refl t)

-- The lines of the status output, with the empty text behind the last newline
abbrev status_lines : List Row → List Text
status_lines rs = map status_line rs ++ [] ∷ []

read_statuses_step :
    (seen : Statuses) (r : Row) (rs : List Row)
    → IsPlain r
    → read_statuses seen (status_lines (r ∷ rs))
      ≡ read_statuses ((r.path, status_of r.letter) ∷ seen) (status_lines rs)
unfolding read_statuses
read_statuses_step seen r rs h =
    ap (λ s. read_statuses s (status_lines rs)) (read_status_line seen r h)

-- A path that no row has keeps its status.
status_at-others :
    (path : Text) (rs : List Row) (seen : Statuses)
    → All IsPlain rs
    → All (λ x. same_text x.path path ≡ false) rs
    → status_at path (read_statuses seen (status_lines rs)) ≡ status_at path seen
unfolding read_statuses
status_at-others path [] seen plain apart = unfold read_status trim trim_start trim_end in refl
status_at-others path (r ∷ rs) seen plain apart = rw (read_statuses_step seen r rs plain.0) (
    status_at-others path rs ((r.path, status_of r.letter) ∷ seen) plain.1 apart.1
    ∙ rw apart.0 refl)

-- Each row finds its own status.
abbrev Finds : Statuses → Row → Type 0
Finds statuses r = status_at r.path statuses ≡ status_of r.letter

read_statuses-Finds :
    (rs : List Row) (seen : Statuses)
    → All IsPlain rs
    → AreDistinct rs
    → All (Finds (read_statuses seen (status_lines rs))) rs
unfolding read_statuses
read_statuses-Finds [] seen plain distinct = tt
read_statuses-Finds (r ∷ rs) seen plain distinct =
    subst (λ st. All (Finds st) (r ∷ rs)) (sym (read_statuses_step seen r rs plain.0))
      (
        status_at-others r.path rs ((r.path, status_of r.letter) ∷ seen) plain.1
              (All-map (λ x h. h.1) rs distinct.0)
            ∙ rw (same_text_refl r.path) refl,
        read_statuses-Finds rs ((r.path, status_of r.letter) ∷ seen) plain.1 distinct.1,
      )

abbrev pub file : Row → ChangedFile
file r = record {
  path = r.path;
  status = status_of r.letter;
  additions = count_of r.adds;
  deletions = count_of r.dels;
  size_class = size_class_of (count_of r.adds + count_of r.dels);
}

read_files-printed :
    (statuses : Statuses) (rs : List Row)
    → All IsPlain rs
    → All (Finds statuses) rs
    → read_files statuses (map numstat_line rs ++ [] ∷ []) ≡ map file rs
unfolding read_files
read_files-printed statuses [] plain finds = unfold read_file trim trim_start trim_end in refl
read_files-printed statuses (r ∷ rs) plain finds =
    ap (λ fs. fs ++ read_files statuses (map numstat_line rs ++ [] ∷ []))
      (read_file_line statuses r plain.0)
    ∙ rw (finds.0, read_files-printed statuses rs plain.1 finds.1) refl

-- What git prints of files that are added, deleted or modified, or change their type, whose paths differ
-- and are printed as they are (no rename or copy, and no path that git quotes), is read as those files:
-- each once, in the order of `--numstat`, with its status and its counts.
pub changed_files_of-printed :
    (rs : List Row)
    → All IsPlain rs
    → AreDistinct rs
    → changed_files_of (print_numstat rs) (print_name_status rs) ≡ map file rs
unfolding changed_files_of
changed_files_of-printed rs plain distinct =
    rw
      (
        split_lines-printed numstat_line rs (All-map (λ r h. numstat_line-newline r h) rs plain),
        split_lines-printed status_line rs (All-map (λ r h. status_line-newline r h) rs plain),
      )
      (read_files-printed (read_statuses [] (status_lines rs)) rs plain
        (read_statuses-Finds rs [] plain distinct))
