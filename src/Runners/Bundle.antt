-- ===== src/Runners/Bundle.antt =====
-- src/runners/cli/workspace-context.ts: the files that are put in front of a review. The path library, the
-- disk, the decoding of bytes and `JSON.stringify` are arguments.
pub mod Inside
pub mod Bounds
use previewer.Prelude.{
  ℕ, ◌+◌, ◌-◌, Bool, true, false, not, ◌&&◌, ◌||◌, Option, none, some, List, [], ◌∷◌, ◌++◌, any,
  map, keep, length, take, leb, ltb, ◌==◌, get_or, if◌then◌else◌,
}
use previewer.Core.Text.{Text, codes, same_text, starts_with, strip_prefix}
use previewer.Core.Lines.{newline}
use previewer.Core.Split.{is_empty, split_on, join_on}
use previewer.Runners.Streams.{join_sections}
use previewer.Runners.Neighbors.{PathLibrary, related_paths}

pub data Kind : Type 0 where
  instructions changed related : Kind

pub record Candidate : Type 0 where
  pub path : Text
  pub kind : Kind

pub record LoadedFile : Type 0 where
  pub text : Text
  pub truncated : Bool

-- What `stat` says of a file, and the bytes that are read of it, which the size and the limit bound
pub record RawFile : Type 0 where
  pub is_file : Bool
  pub size : ℕ
  pub bytes : List ℕ

pub record Disk : Type 0 where
  pub lib : PathLibrary
  pub is_absolute : Text → Bool
  pub resolve : Text → Text → Text
  pub relative : Text → Text → Text
  pub real_path : Text → Option Text
  pub read : Text → ℕ → Option RawFile
  pub decode : List ℕ → Text
  pub quote : Text → Text

abbrev pub max_file_chars : ℕ
max_file_chars = 32_000

module _ (disk : Disk) where
  -- `posix.normalize(path.replaceAll("\\", "/")).replace(/^\.\//, "")`
  unfoldable pub normal : Text → Text
  unfolding strip_prefix
  normal path =
      let clean = disk.lib.normalize (map (λ c. if c == 92 then b'/' else c) path) in
      get_or (strip_prefix (codes "./") clean) clean

  -- Does the path leave the checkout?
  abbrev is_outside : Text → Bool
  is_outside p = is_empty p || starts_with (codes "../") p || disk.is_absolute p

  -- `add`, where a path is seen if it is a candidate
  unfoldable pub add : List Candidate → Text → Kind → List Candidate
  unfolding normal same_text starts_with
  add cs path kind =
      let p = normal path in
      if is_outside p || same_text p (codes ".") || any (λ c. same_text c.path p) cs
      then cs
      else cs ++ record { path = p; kind = kind } ∷ []

  -- The `AGENTS.md` of a directory and of those that it is in, from the root on
  abbrev pub add_guides : List Candidate → List Text → List Text → List Candidate
  add_guides cs above [] = cs
  add_guides cs above (part ∷ parts) =
      let here = above ++ part ∷ [] in
      add_guides (add cs (join_on b'/' (here ++ codes "AGENTS.md" ∷ [])) instructions) here parts

  abbrev is_part : Text → Bool
  is_part part = not (is_empty part) && not (same_text part (codes "."))

  unfoldable pub add_changed : List Candidate → Text → List Candidate
  unfolding add split_on join_on
  add_changed cs path =
      let p = normal path in
      if is_outside p
      then cs
      else add (add_guides cs [] (keep is_part (split_on b'/' (disk.lib.dirname p)))) p changed

  unfoldable pub add_all_changed : List Candidate → List Text → List Candidate
  unfolding add_changed
  add_all_changed cs [] = cs
  add_all_changed cs (p ∷ ps) = add_all_changed (add_changed cs p) ps

  -- `isWithin`
  unfoldable pub is_within : Text → Text → Bool
  unfolding starts_with same_text
  is_within root candidate =
      let rel = disk.relative root candidate in
      is_empty rel
      || (not (starts_with (codes "../") rel)
          && not (same_text rel (codes ".."))
          && not (disk.is_absolute rel))

  abbrev pub loaded_of : Option RawFile → Option LoadedFile
  loaded_of none = none
  loaded_of (some f) =
      if not f.is_file || any (λ b. b == 0) f.bytes
      then none
      else some (record {
        text = take max_file_chars (disk.decode f.bytes);
        truncated =
            ltb (length f.bytes) f.size || ltb max_file_chars (length (disk.decode f.bytes));
      })

  abbrev pub load_real : Text → Option Text → Option LoadedFile
  load_real root none = none
  load_real root (some actual) =
      if is_within root actual then loaded_of (disk.read actual 128_000) else none

  -- `readWorkspaceFile`
  unfoldable pub read_workspace_file : Text → Text → Option LoadedFile
  unfolding is_within
  read_workspace_file root repo_path =
      let unresolved = disk.resolve root repo_path in
      if is_within root unresolved then load_real root (disk.real_path unresolved) else none

  -- The related paths of the changed files that can be read
  abbrev pub add_each : List Candidate → List Text → List Candidate
  add_each cs [] = cs
  add_each cs (p ∷ ps) = add_each (add cs p related) ps

  abbrev pub add_of : Option LoadedFile → (Text → List Text) → List Candidate → List Candidate
  add_of none paths cs = cs
  add_of (some f) paths cs = add_each cs (paths f.text)

  abbrev is_changed : Kind → Bool
  is_changed changed = true
  is_changed _ = false

  unfoldable pub add_related :
      Text → (Text → Text → List Text) → List Candidate → List Candidate → List Candidate
  unfolding add read_workspace_file
  add_related root paths [] cs = cs
  add_related root paths (c ∷ rest) cs =
      add_related root paths rest (
        if is_changed c.kind
        then add_of (read_workspace_file root c.path) (paths c.path) cs
        else cs)

  abbrev label : Kind → Text
  label instructions = codes "repository instructions"
  label changed = codes "changed file"
  label related = codes "related file"

  abbrev pub header : Candidate → Text
  header c =
      codes "### "
      ++ c.path
      ++ codes " ("
      ++ label c.kind
      ++ codes ")"
      ++ newline ∷ (codes "<file path=" ++ disk.quote c.path ++ codes ">" ++ newline ∷ [])

  abbrev pub footer : LoadedFile → Text
  footer f =
      (if f.truncated then newline ∷ codes "[truncated by previewer]" else [])
      ++ newline ∷ codes "</file>"

  abbrev pub frame : Candidate → LoadedFile → ℕ
  frame c f = length (header c) + length (footer f)

  abbrev pub fitted : ℕ → Candidate → LoadedFile → Text
  fitted remaining c f = take (remaining - frame c f) f.text

  abbrev pub section_of : ℕ → Candidate → LoadedFile → Text
  section_of remaining c f = header c ++ (fitted remaining c f ++ footer f)

  -- The loop over the candidates, with what is used so far
  unfoldable pub fitting_sections : Text → ℕ → ℕ → List Candidate → List Text
  unfolding read_workspace_file
  fitting_sections root max_chars used [] = []
  fitting_sections root max_chars used (c ∷ cs) = elim (read_workspace_file root c.path) [
    | none ↦ fitting_sections root max_chars used cs
    | some f ↦
        let remaining = max_chars - used in
        let text = fitted remaining c f in
        let rest = fitting_sections root max_chars (used + (frame c f + length text)) cs in
        if leb remaining (frame c f + 1)
        then []
        else if ltb (length text) (length f.text)
        then section_of remaining c f ∷ []
        else section_of remaining c f ∷ rest
  ]

  -- `collectWorkspaceReviewContext`
  unfoldable pub collect_workspace_review_context : Text → List Text → ℕ → Text
  unfolding related_paths fitting_sections add_related add_all_changed add
  collect_workspace_review_context workspace_dir changed_paths max_chars =
      if max_chars == 0 then [] else elim (disk.real_path workspace_dir) [
        | none ↦ []
        | some root ↦
            let primary = add_all_changed (add [] (codes "AGENTS.md") instructions) changed_paths in
            join_sections (
              fitting_sections root max_chars 0
                (add_related root (related_paths disk.lib) primary primary))
      ]
