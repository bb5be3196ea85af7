-- ===== src/Tests/Bundle.antt =====
-- The files in front of a review at a concrete disk of two files.
use previewer.Prelude.{◌≡◌, refl, true, Option, none, some, [], ◌∷◌, ◌++◌, length, if◌then◌else◌}
use previewer.Core.Split.{trim_start}
use previewer.Core.Text.{Text, codes, same_text, starts_with, strip_prefix}
use previewer.Runners.Neighbors.{
  reference_at, references_from, strip_suffix, local_references, related_test_paths, related_paths,
}
use previewer.Runners.Bundle.{
  Disk, RawFile, fitting_sections, read_workspace_file, is_within, add, normal, add_changed,
  add_all_changed, add_related, collect_workspace_review_context,
}
use previewer.Runners.Bundle.Bounds.{IsBundle, collect_workspace_review_context-IsBundle}

abbrev root : Text
root = codes "w/"

abbrev relative_to : Option Text → Text
relative_to none = codes "../"
relative_to (some rest) = rest

abbrev of_bytes : Text → Option RawFile
of_bytes bytes = some (record { is_file = true; size = length bytes; bytes = bytes })

-- A file of 40 characters
abbrev long_text : Text
long_text = codes "0123456789012345678901234567890123456789"

abbrev a_disk : Disk
a_disk = record {
  lib = record {
    normalize = λ p. p;
    join = λ dir p. dir ++ p;
    dirname = λ p. [];
    extname = λ p. [];
    basename = λ p ext. p;
  };
  is_absolute = λ p. starts_with (codes "/") p;
  resolve = λ dir p. dir ++ p;
  relative = λ dir p. relative_to (strip_prefix dir p);
  real_path = λ p. some p;
  read = λ p n.
      if same_text p (codes "w/AGENTS.md")
      then of_bytes (codes "hi")
      else if same_text p (codes "w/a")
      then of_bytes long_text
      else none;
  decode = λ bytes. bytes;
  quote = λ p. p;
}

abbrev bundle : Text
bundle = collect_workspace_review_context a_disk root (codes "a" ∷ []) 150

collect_workspace_review_context-IsBundle_example : IsBundle a_disk root 150 bundle
collect_workspace_review_context-IsBundle_example =
    collect_workspace_review_context-IsBundle a_disk root 150 (codes "a" ∷ [])

-- The two sections have 150 characters, and the text has two more.
longer_test : length bundle ≡ 152
unfolding collect_workspace_review_context fitting_sections read_workspace_file is_within add normal
    add_changed add_all_changed add_related same_text starts_with strip_prefix related_paths
    local_references references_from reference_at related_test_paths strip_suffix
longer_test = refl

-- What a source file names, in either way
references_test :
    references_from none 0 (codes "import a from \"./a\"; require('../b'); from 'c'")
    ≡ codes "./a" ∷ codes "../b" ∷ []
unfolding references_from reference_at strip_prefix trim_start
references_test = refl
