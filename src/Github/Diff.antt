-- ===== src/Github/Diff.antt =====
-- `gitDiff` of src/github/git.ts: what is read from the outputs of `git diff`, but for the language. Git
-- prints a count as its digits, or `-` for a binary file.
pub mod Printed
use Prim.Native.String.{◌++◌ as str_append}
use previewer.Prelude.{
  ℕ, String, ◌+◌, ◌-◌, ◌*◌, Bool, true, false, not, Option, none, some, List, [], ◌∷◌, ◌++◌, map,
  keep, get_or, ◌==◌, if◌then◌else◌,
}
use previewer.Core.Text.{Text, codes, same_text}
use previewer.Core.Lines.{split_lines}
use previewer.Core.Split.{split_on, join_on, trim, is_empty}
use previewer.Github.Git.{Act, Machine, git, pure, ◌>>=◌, ◌>>◌}
use previewer.Github.Change.{
  ChangeStatus, added, modified, removed, renamed, ChangedFile, size_class_of,
}

abbrev pub tab : ℕ
tab = 9

-- `STATUS_MAP[code] ?? "modified"`
unfoldable pub status_of : ℕ → ChangeStatus
status_of c =
    if c == b'A'
    then added
    else if c == b'D'
    then removed
    else if c == b'R'
    then renamed
    else if c == b'C'
    then added
    else modified

-- `parts[0]?.[0] ?? "M"`
abbrev code_of : List Text → ℕ
code_of [] = b'M'
code_of ([] ∷ ps) = b'M'
code_of ((c ∷ p) ∷ ps) = c

abbrev last_part : List Text → Text
last_part [] = []
last_part (p ∷ []) = p
last_part (p ∷ q ∷ ps) = last_part (q ∷ ps)

-- The statuses by path; of two with the same path the later one is read.
abbrev pub Statuses : Type 0
Statuses = List (Text × ChangeStatus)

unfoldable pub read_status : Statuses → Text → Statuses
unfolding trim split_on status_of
read_status seen line =
    let parts = split_on tab line in
    if is_empty (trim line) then seen else (last_part parts, status_of (code_of parts)) ∷ seen

unfoldable pub read_statuses : Statuses → List Text → Statuses
unfolding read_status
read_statuses seen [] = seen
read_statuses seen (l ∷ ls) = read_statuses (read_status seen l) ls

abbrev pub status_at : Text → Statuses → ChangeStatus
status_at path [] = modified
status_at path ((p, s) ∷ seen) =
    let rest = status_at path seen in if same_text p path then s else rest

-- `Number(digits)`
abbrev pub number_from : ℕ → Text → ℕ
number_from acc [] = acc
number_from acc (d ∷ ds) = number_from (acc * 10 + (d - 48)) ds

abbrev pub count_of : Text → ℕ
count_of raw = if same_text raw (codes "-") then 0 else number_from 0 raw

-- `cols[i] ?? "0"`, and `cols.slice(2).join("\t")`
abbrev column : List Text → Text
column [] = codes "0"
column (c ∷ cs) = c

abbrev later : List Text → List Text
later [] = []
later (c ∷ cs) = cs

abbrev pub file_of : Statuses → Text → Text → Text → ChangedFile
file_of statuses adds dels path = record {
  path = path;
  status = status_at path statuses;
  additions = count_of adds;
  deletions = count_of dels;
  size_class = size_class_of (count_of adds + count_of dels);
}

unfoldable pub read_file : Statuses → Text → List ChangedFile
unfolding trim split_on join_on same_text size_class_of
read_file statuses line =
    let cols = split_on tab line in
    let path = join_on tab (later (later cols)) in
    if is_empty (trim line)
    then []
    else if is_empty path
    then []
    else file_of statuses (column cols) (column (later cols)) path ∷ []

unfoldable pub read_files : Statuses → List Text → List ChangedFile
unfolding read_file
read_files statuses [] = []
read_files statuses (l ∷ ls) = read_file statuses l ++ read_files statuses ls

-- The files, from the outputs of `--numstat` and `--name-status`
unfoldable pub changed_files_of : Text → Text → List ChangedFile
unfolding read_statuses read_files split_lines
changed_files_of numstat name_status =
    read_files (read_statuses [] (split_lines name_status)) (split_lines numstat)

pub record GitDiff : Type 0 where
  pub patch : Text
  pub changed_files : List ChangedFile

-- `gitDiff`, whose three calls only read
unfoldable pub git_diff : {W : Type 0} → Machine W → String → String → String → Act W GitDiff
unfolding changed_files_of
git_diff m dir from_sha to_sha = do
  let range = str_append from_sha (str_append ".." to_sha)
  patch ← git m dir ("diff" ∷ "--no-color" ∷ range ∷ [])
  numstat ← git m dir ("diff" ∷ "--numstat" ∷ range ∷ [])
  name_status ← git m dir ("diff" ∷ "--name-status" ∷ range ∷ [])
  pure (record { patch = patch; changed_files = changed_files_of numstat name_status })
