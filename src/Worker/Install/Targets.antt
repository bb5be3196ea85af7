-- ===== src/Worker/Install/Targets.antt =====
-- Each directory that can be installed is reported once.
use previewer.Prelude.{
  ℕ, ◌+◌, ◌≡◌, ◌∙◌, ◌⊎◌, inl, inr, String, Bool, Option, none, some, List, [], ◌∷◌, ◌==◌, arith,
  count_where, count_where-append, Bool-cases,
}
use previewer.Core.Failure.{Thrown}
use previewer.Worker.Install.{
  Installing, InstallResult, skip, note, run_cmd, cmd_for, install_dir, install_dirs, target_dirs,
  install,
}

-- How many of the directories that a result names pass a test
abbrev pub reported : (String → Bool) → InstallResult → ℕ
reported p res =
    count_where p res.installed_dirs + count_where p res.skipped + count_where p res.failed

module _ {W : Type 0} (m : Installing W) (p : String → Bool) where
  reported-skip :
      (dir : String) (res : InstallResult)
      → reported p (skip m dir res) ≡ reported p res + count_where p (dir ∷ [])
  reported-skip dir res = omega (arith, count_where-append p res.skipped (dir ∷ []))

  reported-note :
      (dir : String) (res : InstallResult) (out : W × (Thrown ⊎ ℕ))
      → reported p (note m dir res out).1 ≡ reported p res + count_where p (dir ∷ [])
  reported-note dir res (w, inl err) = omega (arith, count_where-append p res.failed (dir ∷ []))
  reported-note dir res (w, inr exit_code) = elim (Bool-cases (exit_code == 0)) [
    | inl e ↦ rw e (omega (arith, count_where-append p res.installed_dirs (dir ∷ [])))
    | inr e ↦ rw e (omega (arith, count_where-append p res.failed (dir ∷ [])))
  ]

  reported-run_cmd :
      (dir : String) (res : InstallResult) (cmd : Option (List String)) (w : W)
      → reported p (run_cmd m dir res cmd w).1 ≡ reported p res + count_where p (dir ∷ [])
  reported-run_cmd dir res none w = reported-skip dir res
  reported-run_cmd dir res (some cmd) w = reported-note dir res (m.run cmd dir w)

  reported-install_dir :
      (dir : String) (res : InstallResult) (w : W)
      → reported p (install_dir m dir res w).1 ≡ reported p res + count_where p (dir ∷ [])
  unfolding install_dir
  reported-install_dir dir res w = elim (Bool-cases (m.exists (m.join dir "node_modules") w)) [
    | inl e ↦ rw (install_dir, e) (reported-skip dir res)
    | inr e ↦ rw (install_dir, e) (reported-run_cmd dir res (cmd_for m dir w) w)
  ]

  reported-install_dirs :
      (dirs : List String) (res : InstallResult) (w : W)
      → reported p (install_dirs m dirs res w).1 ≡ reported p res + count_where p dirs
  unfolding install_dirs count_where
  reported-install_dirs [] res w = omega arith
  reported-install_dirs (dir ∷ dirs) res w =
      let next = install_dir m dir res w in
      omega (arith, reported-install_dirs dirs next.1 next.0, reported-install_dir dir res w)

  -- Whatever the commands do, each of the directories that can be installed, of which the list is made
  -- before the first command, is reported as installed, skipped or failed, as often as it is in the list.
  pub reported-install :
      (root : String) (w : W)
      → reported p (install m root w).1 ≡ count_where p (target_dirs m root w)
  unfolding install
  reported-install root w =
      reported-install_dirs (target_dirs m root w) _ w ∙ (unfold count_where in omega arith)
