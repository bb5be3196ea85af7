-- ===== src/Worker/Workspace.antt =====
-- src/apps/worker/workspace.ts: the checkout and the diff of a review, over the git of
-- src/github/git.ts.
pub mod Guarded
use previewer.Prelude.{
  ◌⊎◌, inl, inr, String, Bool, true, false, not, ◌&&◌, ◌||◌, Option, List, str_eq, if◌then◌else◌,
}
use previewer.Core.Failure.{Thrown}
use previewer.Github.Diff.{GitDiff, git_diff}
use previewer.Github.Git.{
  Act, Done, Machine, pure, ◌>>=◌, ◌>>◌, catch, ensure_checkout, ensure_sha, commit_exists,
  is_ancestor, merge_base_safe, add_worktree, remove_worktree,
}
use previewer.Worker.Input.{Mode, incremental, full, Diff, PreparedWorkspace}

abbrev pub is_incremental : Mode → Bool
is_incremental incremental = true
is_incremental full = false

-- Where the diff begins, and whether it is incremental
pub record Start : Type 0 where
  pub from_sha : String
  pub mode : Mode

-- The condition under which the start is not looked at
abbrev pub is_settled : String → Mode → String → Bool
is_settled from_sha mode fallback_sha =
    not (is_incremental mode) || str_eq fallback_sha "" || str_eq from_sha fallback_sha

abbrev pub to_diff : GitDiff → Mode → String → String → Diff
to_diff d mode from_sha to_sha = record {
  mode = mode;
  from_sha = from_sha;
  to_sha = to_sha;
  patch = d.patch;
  changed_files = d.changed_files;
}

module _ {W : Type 0} (m : Machine W) where
  -- `(await commitExists(…)) && (await isAncestor(…))`
  unfoldable pub is_usable : String → String → String → Act W Bool
  unfolding commit_exists is_ancestor
  is_usable dir from_sha head_sha = do
    known ← commit_exists m dir from_sha
    if known then is_ancestor m dir from_sha head_sha else pure false

  abbrev pub start_of : String → String → Bool → Start
  start_of from_sha fallback_sha usable =
      if usable
      then record { from_sha = from_sha; mode = incremental }
      else record { from_sha = fallback_sha; mode = full }

  abbrev pub looked_at : String → String → String → String → Act W Start
  looked_at dir from_sha head_sha fallback_sha = do
    usable ← is_usable dir from_sha head_sha
    pure (start_of from_sha fallback_sha usable)

  abbrev pub fetched : String → String → Act W Done
  fetched dir from_sha = catch (ensure_sha m dir from_sha >>= λ out. pure tt) (λ err. pure tt)

  -- `effectiveFrom`; an absent `fallbackSha` is the empty text
  unfoldable pub effective_from : String → String → String → Mode → String → Act W Start
  unfolding is_usable ensure_sha
  effective_from dir from_sha head_sha mode fallback_sha w =
      if is_settled from_sha mode fallback_sha
      then (w, inr (record { from_sha = from_sha; mode = mode }))
      else (fetched dir from_sha >> looked_at dir from_sha head_sha fallback_sha) w

  -- The diff from the start that is found
  abbrev pub cache_diff : String → String → Start → Act W PreparedWorkspace
  cache_diff dir head_sha eff = do
    base ← merge_base_safe m dir eff.from_sha head_sha
    diff ← git_diff m dir base head_sha
    pure (record { dir = dir; diff = to_diff diff eff.mode base head_sha })

  -- `CacheWorkspaceProvider.prepare`, in the directory that is kept for the repository
  unfoldable pub prepare_cache :
      String → String → String → String → String → Mode → String → Act W PreparedWorkspace
  unfolding effective_from ensure_checkout merge_base_safe
  prepare_cache uuid url dir from_sha head_sha mode fallback_sha =
      ensure_checkout m uuid url dir head_sha
      >> (effective_from dir from_sha head_sha mode fallback_sha >>= cache_diff dir head_sha)

  abbrev pub worktree_diff : String → String → Start → Act W (PreparedWorkspace × (String × String))
  worktree_diff local_dir head_sha eff = do
    base ← merge_base_safe m local_dir eff.from_sha head_sha
    wt ← add_worktree m local_dir head_sha
    diff ← git_diff m wt.0 base head_sha
    pure (record { dir = wt.0; diff = to_diff diff eff.mode base head_sha }, wt)

  -- `LocalWorktreeProvider.prepare`, with the worktree for the clean-up
  unfoldable pub prepare_local :
      String → String → String → Mode → String → Act W (PreparedWorkspace × (String × String))
  unfolding effective_from ensure_sha merge_base_safe add_worktree
  prepare_local local_dir from_sha head_sha mode fallback_sha =
      ensure_sha m local_dir head_sha
      >> (effective_from local_dir from_sha head_sha mode fallback_sha
          >>= worktree_diff local_dir head_sha)
