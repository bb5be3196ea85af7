-- ===== src/Runners/Neighbors.antt =====
-- `localReferences` and `relatedTestPaths` of src/runners/cli/workspace-context.ts: the paths that a source
-- file names, and those of its tests. The path library is an argument.
use previewer.Prelude.{
  ℕ, zero, suc, ◌-◌, Bool, true, false, not, ◌&&◌, ◌||◌, Option, none, some, List, [], ◌∷◌, ◌++◌,
  length, take, get_or, is_some, ◌==◌, if◌then◌else◌,
}
use previewer.Core.Text.{Text, codes, same_text, strip_prefix}
use previewer.Core.Regex.{is_space, word_at}
use previewer.Core.Split.{is_empty, trim_start}

pub record PathLibrary : Type 0 where
  pub normalize : Text → Text
  pub join : Text → Text → Text
  pub dirname : Text → Text
  pub extname : Text → Text
  pub basename : Text → Text → Text

abbrev is_quote : ℕ → Bool
is_quote c = c == b'"' || c == 39

-- A matched text, and what follows the match
abbrev Match : Type 0
Match = Option (Text × Text)

abbrev before : ℕ → Match → Match
before c none = none
before c (some (t, rest)) = some (c ∷ t, rest)

-- `[^"']*` and the quote behind it
abbrev to_quote : Text → Match
to_quote [] = none
to_quote (c ∷ t) = let rest = before c (to_quote t) in if is_quote c then some ([], t) else rest

-- `[^"']+` and the quote behind it, after `prefix`
abbrev after_dots : Text → Option Text → Match
after_dots dots none = none
after_dots dots (some t) = elim (to_quote t) [
  | none ↦ none
  | some m ↦ if is_empty m.0 then none else some (dots ++ m.0, m.1)
]

abbrev or_match : Match → Match → Match
or_match none m = m
or_match (some m) n = some m

-- `["'](\.{1,2}\/[^"']+)["']`
abbrev quoted : Text → Match
quoted [] = none
quoted (c ∷ t) =
    if is_quote c
    then or_match (after_dots (codes "../") (strip_prefix (codes "../") t))
        (after_dots (codes "./") (strip_prefix (codes "./") t))
    else none

-- `\s+`, which must be there, or `\s*`
abbrev spaced : Bool → Text → Match
spaced needed [] = none
spaced needed (c ∷ t) = if needed && not (is_space c) then none else quoted (trim_start (c ∷ t))

abbrev after_word : Bool → Option Text → Match
after_word needed none = none
after_word needed (some t) = spaced needed t

-- The expression at one place, `prev` standing before it
unfoldable pub reference_at : Option ℕ → Text → Match
unfolding strip_prefix trim_start
reference_at prev t =
    if word_at prev
    then none
    else or_match (after_word true (strip_prefix (codes "from") t)) (
        or_match (after_word false (strip_prefix (codes "require(") t)) (
          or_match (after_word false (strip_prefix (codes "import(") t))
            (after_word true (strip_prefix (codes "import") t))))

-- All matches from left to right, the first `skipped` characters being of the match before
unfoldable pub references_from : Option ℕ → ℕ → Text → List Text
unfolding reference_at
references_from prev skipped [] = []
references_from prev (suc skipped) (c ∷ t) = references_from (some c) skipped t
references_from prev zero (c ∷ t) = elim (reference_at prev (c ∷ t)) [
  | none ↦ references_from (some c) zero t
  | some m ↦ m.0 ∷ references_from (some c) (length t - length m.1) t
]

abbrev pub source_extensions : List Text
source_extensions =
    codes ".ts"
    ∷ codes ".tsx"
    ∷ codes ".js"
    ∷ codes ".jsx"
    ∷ codes ".mjs"
    ∷ codes ".cjs"
    ∷ codes ".json"
    ∷ codes ".py"
    ∷ []

-- What stands in front of the ending, if the text has it
unfoldable pub strip_suffix : Text → Text → Option Text
unfolding same_text
strip_suffix ending [] = if is_empty ending then some [] else none
strip_suffix ending (c ∷ t) = elim (strip_suffix ending t) [
  | some u ↦ some (c ∷ u)
  | none ↦ if same_text (c ∷ t) ending then some [] else none
]

module _ (lib : PathLibrary) where
  abbrev with_extensions : Text → List Text → List Text
  with_extensions base [] = []
  with_extensions base (e ∷ es) =
      (base ++ e) ∷ lib.join base (codes "index" ++ e) ∷ with_extensions base es

  abbrev resolved : Text → List Text → List Text
  resolved dir [] = []
  resolved dir (specifier ∷ rest) =
      let base = lib.normalize (lib.join dir specifier) in
      (if is_empty (lib.extname base) then with_extensions base source_extensions else base ∷ [])
      ++ resolved dir rest

  -- `localReferences`
  unfoldable pub local_references : Text → Text → List Text
  unfolding references_from
  local_references source_path text =
      take 48 (resolved (lib.dirname source_path) (references_from none zero text))

  abbrev test_path : Text → Text → Text → Text
  test_path dir name extension = lib.join dir (name ++ extension)

  -- `name.replace(/\.(?:test|spec)$/, "")`, for a name that ends so
  abbrev tested_name : Text → Option Text
  tested_name name = elim (strip_suffix (codes ".test") name) [
    | some n ↦ some n
    | none ↦ strip_suffix (codes ".spec") name
  ]

  abbrev go_tested : Text → Text → Option Text
  go_tested extension name =
      if same_text extension (codes ".go") then strip_suffix (codes "_test") name else none

  -- `relatedTestPaths`
  unfoldable pub related_test_paths : Text → List Text
  unfolding strip_suffix same_text
  related_test_paths source_path =
      let extension = lib.extname source_path in
      let dir = lib.dirname source_path in
      let name = lib.basename source_path extension in
      if is_empty extension
      then []
      else if is_some (tested_name name)
      then test_path dir (get_or (tested_name name) name) extension ∷ []
      else if is_some (go_tested extension name)
      then test_path dir (get_or (go_tested extension name) name) extension ∷ []
      else test_path dir (name ++ codes ".test") extension
        ∷ test_path dir (name ++ codes ".spec") extension
        ∷ lib.join (lib.join dir (codes "__tests__")) (name ++ extension)
        ∷ []

  -- Both, as the context of a review takes them
  unfoldable pub related_paths : Text → Text → List Text
  unfolding local_references related_test_paths
  related_paths source_path text =
      local_references source_path text ++ related_test_paths source_path
