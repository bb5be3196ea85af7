-- ===== src/Github/Git.antt =====
-- src/github/git.ts and src/github/worktree.ts: what is done with git and the file system. The programs
-- and the disk are a machine with a state `W`: a call changes it, and answers or throws.
pub mod Checkout
use previewer.Prelude.{
  ℕ, ◌⊎◌, inl, inr, String, Bool, true, false, not, ◌&&◌, Option, none, some, List, [], ◌∷◌, str_eq,
  get_or, if◌then◌else◌,
}
use Prim.Native.String.{◌++◌ as str_append}
use previewer.Core.Text.{Text, codes, strip_prefix}
use previewer.Core.Split.{is_empty, trim}
use previewer.Core.Failure.{Thrown}

abbrev pub Done : Type 0
Done = Unit {0}

-- What a call does to the state, and what it answers or throws
abbrev pub Act : Type 0 → Type 0 → Type 0
Act W A = W → W × (Thrown ⊎ A)

module _ {W : Type 0} where
  abbrev pub pure : {A : Type 0} → A → Act W A
  pure a w = (w, inr a)

  abbrev pub throw : {A : Type 0} → Thrown → Act W A
  throw err w = (w, inl err)

  abbrev pub then_do : {A B : Type 0} → (A → Act W B) → W × (Thrown ⊎ A) → W × (Thrown ⊎ B)
  then_do f (w, inl err) = (w, inl err)
  then_do f (w, inr a) = f a w

  infixl 5 ◌>>=◌ ◌>>◌
  abbrev pub ◌>>=◌ : {A B : Type 0} → Act W A → (A → Act W B) → Act W B
  m >>= f = λ w. then_do f (m w)

  abbrev pub ◌>>◌ : {A B : Type 0} → Act W A → Act W B → Act W B
  m >> k = m >>= λ _. k

  abbrev pub on_throw : {A : Type 0} → (Thrown → Act W A) → W × (Thrown ⊎ A) → W × (Thrown ⊎ A)
  on_throw f (w, inl err) = f err w
  on_throw f (w, inr a) = (w, inr a)

  -- `try { m } catch (err) { f }`
  abbrev pub catch : {A : Type 0} → Act W A → (Thrown → Act W A) → Act W A
  catch m f w = on_throw f (m w)

-- `git` with its arguments, and the calls of the file system; `dirname` and `join` are those of the path
-- library, and `of_text` is the string of a list of units.
pub record Machine (W : Type 0) : Type 0 where
  pub exec_git : List String → Act W Text
  pub exists : String → W → Bool
  pub real_path : String → Act W String
  pub remove : String → Act W Done
  pub make_dir : String → Act W Done
  pub rename : String → String → Act W Done
  pub make_temp_dir : String → Act W String
  pub dirname : String → String
  pub join : String → String → String
  pub of_text : Text → String

module _ {W : Type 0} (m : Machine W) where
  -- `git(dir, args)`
  abbrev pub git : String → List String → Act W Text
  git dir args = m.exec_git ("-C" ∷ dir ∷ args)

  abbrev trimmed : Text → String
  trimmed out = m.of_text (trim out)

  -- Is what `rev-parse` printed the directory itself?
  abbrev is_top : String → Text → Act W Bool
  is_top dir out = do
    top ← m.real_path (trimmed out)
    here ← m.real_path dir
    pure (str_eq top here)

  abbrev owns_tree : String → Act W Bool
  owns_tree dir = do
    out ← git dir ("rev-parse" ∷ "--show-toplevel" ∷ [])
    if is_empty (trim out) then pure false else is_top dir out

  -- `isGitRepo`
  unfoldable pub is_git_repo : String → Act W Bool
  unfolding trim
  is_git_repo dir w =
      if m.exists dir w then catch (owns_tree dir) (λ err. pure false) w else (w, inr false)

  abbrev pub temp_name : String → String → String
  temp_name uuid dir = str_append dir (str_append ".tmp-" uuid)

  abbrev pub clone_into : String → String → Act W Text
  clone_into url tmp =
      m.exec_git ("clone" ∷ "--no-checkout" ∷ "--filter=blob:none" ∷ url ∷ tmp ∷ [])

  -- `freshClone`, with the UUID that it draws
  unfoldable pub fresh_clone : String → String → String → Act W Done
  fresh_clone uuid url dir = do
    m.remove dir
    m.make_dir (m.dirname dir)
    let tmp = temp_name uuid dir
    catch (do clone_into url tmp; m.rename tmp dir)
        (λ err. do catch (m.remove tmp) (λ ignored. pure tt); throw err)

  -- `ensureCheckout`
  unfoldable pub ensure_checkout : String → String → String → String → Act W String
  unfolding is_git_repo fresh_clone
  ensure_checkout uuid url dir sha = do
    is_repo ← is_git_repo dir
    if is_repo then pure tt else fresh_clone uuid url dir
    catch (git dir ("fetch" ∷ "--quiet" ∷ "origin" ∷ sha ∷ []))
        (λ err. git dir ("fetch" ∷ "--quiet" ∷ "origin" ∷ []))
    git dir ("checkout" ∷ "--force" ∷ "--detach" ∷ sha ∷ [])
    pure dir

  -- `head.replace(/^origin\//, "")`
  abbrev branch_of : Text → Text
  branch_of head = get_or (strip_prefix (codes "origin/") head) head

  -- The head of the remote's default branch
  abbrev default_head : Text → Text
  default_head out = if is_empty (trim out) then codes "origin/HEAD" else trim out

  abbrev update_default : String → Act W Done
  update_default dir = do
    git dir ("fetch" ∷ "--quiet" ∷ "origin" ∷ [])
    out ← git dir ("rev-parse" ∷ "--abbrev-ref" ∷ "origin/HEAD" ∷ [])
    let head = default_head out
    git dir ("checkout" ∷ "--force" ∷ m.of_text (branch_of head) ∷ [])
    git dir ("reset" ∷ "--hard" ∷ m.of_text head ∷ [])
    pure tt

  abbrev clone_default : String → String → Act W Done
  clone_default url dir = do
    m.make_dir dir
    m.exec_git ("clone" ∷ "--filter=blob:none" ∷ url ∷ dir ∷ [])
    pure tt

  -- `ensureDefaultCheckout`: the directory and the commit that is checked out
  unfoldable pub ensure_default_checkout : String → String → Act W (String × String)
  unfolding trim strip_prefix
  ensure_default_checkout url dir = do
    here ← (λ w. pure (m.exists dir w) w)
    if here then update_default dir else clone_default url dir
    out ← git dir ("rev-parse" ∷ "HEAD" ∷ [])
    pure (dir, trimmed out)

  abbrev commit_name : String → String
  commit_name sha = str_append sha "^{commit}"

  -- `ensureSha`
  unfoldable pub ensure_sha : String → String → Act W Text
  ensure_sha dir sha =
      catch (git dir ("cat-file" ∷ "-e" ∷ commit_name sha ∷ []))
        (λ err. git dir ("fetch" ∷ "--quiet" ∷ "origin" ∷ sha ∷ []))

  -- A call that succeeds: what `commitExists` and `isAncestor` ask
  abbrev succeeds : Act W Text → Act W Bool
  succeeds call = catch (call >>= λ out. pure true) (λ err. pure false)

  -- `commitExists`
  unfoldable pub commit_exists : String → String → Act W Bool
  commit_exists dir sha = succeeds (git dir ("cat-file" ∷ "-e" ∷ commit_name sha ∷ []))

  -- `isAncestor`
  unfoldable pub is_ancestor : String → String → String → Act W Bool
  is_ancestor dir ancestor descendant =
      succeeds (git dir ("merge-base" ∷ "--is-ancestor" ∷ ancestor ∷ descendant ∷ []))

  -- `mergeBaseSafe`
  unfoldable pub merge_base_safe : String → String → String → Act W String
  unfolding trim
  merge_base_safe dir a b =
      catch
        (do
          out ← git dir ("merge-base" ∷ a ∷ b ∷ [])
          pure (if is_empty (trim out) then a else trimmed out))
        (λ err. pure a)

  -- `addWorktree`: the directory of the worktree, and its parent, which the clean-up removes
  unfoldable pub add_worktree : String → String → Act W (String × String)
  add_worktree repo_dir sha = do
    parent ← m.make_temp_dir "previewer-wt-"
    let dir = m.join parent "wt"
    git repo_dir ("worktree" ∷ "add" ∷ "--detach" ∷ dir ∷ sha ∷ [])
    pure (dir, parent)

  unfoldable pub remove_worktree : String → String × String → Act W Done
  remove_worktree repo_dir (dir, parent) = do
    catch (git repo_dir ("worktree" ∷ "remove" ∷ "--force" ∷ dir ∷ []) >>= λ out. pure tt)
        (λ err. pure tt)
    m.remove parent
