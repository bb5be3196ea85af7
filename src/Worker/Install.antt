-- ===== src/Worker/Install.antt =====
-- src/apps/worker/install.ts: the installer of a checkout's dependencies, over a machine with a state. What
-- it logs is left out.
pub mod Targets
use previewer.Prelude.{
  ℕ, ◌⊎◌, inl, inr, String, Bool, true, false, not, ◌&&◌, ◌||◌, Option, none, some, List, [], ◌∷◌,
  ◌++◌, ◌==◌, if◌then◌else◌, str_eq, get_or, is_some, keep, map,
}
use previewer.Core.Text.{codes, starts_with}
use previewer.Core.Failure.{Thrown}

-- What is read of the disk, and the run of a command in a directory, which answers its exit code; a
-- directory that cannot be listed has none.
pub record Installing (W : Type 0) : Type 0 where
  pub exists : String → W → Bool
  pub list_dir : String → W → Option (List String)
  pub join : String → String → String
  pub run : List String → String → W → W × (Thrown ⊎ ℕ)

pub record InstallResult : Type 0 where
  pub installed_dirs : List String
  pub skipped : List String
  pub failed : List String

abbrev pub Commands : Type 0
Commands = List (String × List String)

abbrev pub lock_cmd : Commands
lock_cmd =
    ("pnpm-lock.yaml", "pnpm" ∷ "install" ∷ "--frozen-lockfile" ∷ [])
    ∷ ("yarn.lock", "yarn" ∷ "install" ∷ "--frozen-lockfile" ∷ [])
    ∷ ("package-lock.json", "npm" ∷ "ci" ∷ [])
    ∷ ("npm-shrinkwrap.json", "npm" ∷ "ci" ∷ [])
    ∷ []

module _ {W : Type 0} (m : Installing W) where
  -- The first command whose lock file is there
  abbrev pub first_lock : Commands → String → W → Option (List String)
  first_lock [] dir w = none
  first_lock ((lock, cmd) ∷ cmds) dir w =
      let rest = first_lock cmds dir w in if m.exists (m.join dir lock) w then some cmd else rest

  -- `cmdFor`
  unfoldable pub cmd_for : String → W → Option (List String)
  cmd_for dir w = if m.exists (m.join dir "package.json") w then first_lock lock_cmd dir w else none

  abbrev is_hidden : String → Bool
  is_hidden name = str_eq name "node_modules" || starts_with (codes ".") (codes name)

  -- `targetDirs`
  unfoldable pub target_dirs : String → W → List String
  unfolding cmd_for starts_with
  target_dirs root w =
      (if is_some (cmd_for root w) then root ∷ [] else [])
      ++ keep (λ sub. is_some (cmd_for sub w))
          (map (m.join root) (keep (λ name. not (is_hidden name)) (get_or (m.list_dir root w) [])))

  abbrev pub skip : String → InstallResult → InstallResult
  skip dir res = record res { skipped = res.skipped ++ dir ∷ [] }

  -- What a command's end adds
  abbrev pub note : String → InstallResult → W × (Thrown ⊎ ℕ) → W × InstallResult
  note dir res (w, inl err) = (w, record res { failed = res.failed ++ dir ∷ [] })
  note dir res (w, inr exit_code) =
      if exit_code == 0
      then (w, record res { installed_dirs = res.installed_dirs ++ dir ∷ [] })
      else (w, record res { failed = res.failed ++ dir ∷ [] })

  -- One round of the loop
  abbrev pub run_cmd : String → InstallResult → Option (List String) → W → W × InstallResult
  run_cmd dir res none w = (w, skip dir res)
  run_cmd dir res (some cmd) w = note dir res (m.run cmd dir w)

  unfoldable pub install_dir : String → InstallResult → W → W × InstallResult
  unfolding cmd_for
  install_dir dir res w =
      if m.exists (m.join dir "node_modules") w
      then (w, skip dir res)
      else run_cmd dir res (cmd_for dir w) w

  unfoldable pub install_dirs : List String → InstallResult → W → W × InstallResult
  unfolding install_dir
  install_dirs [] res w = (w, res)
  install_dirs (dir ∷ dirs) res w =
      let next = install_dir dir res w in install_dirs dirs next.1 next.0

  -- `install`
  unfoldable pub install : String → W → W × InstallResult
  unfolding install_dirs target_dirs
  install root w =
      install_dirs (target_dirs root w) (record { installed_dirs = []; skipped = []; failed = [] })
        w
