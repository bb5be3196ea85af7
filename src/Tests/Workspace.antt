-- ===== src/Tests/Workspace.antt =====
-- Checkouts at a concrete machine: one directory, which is there or not, and a git that always succeeds.
use previewer.Prelude.{
  count_where, none, String, ◌≡◌, refl, ◌⊎◌, inr, map, Bool, true, false, ◌&&◌, ◌||◌, [], ◌∷◌,
  str_eq, arith, if◌then◌else◌,
}
use Prim.Native.String.{◌++◌ as str_append}
use previewer.Core.Text.{codes, same_text}
use previewer.Core.Split.{trim}
use previewer.Core.Failure.{Thrown}
use previewer.Github.Git.{Machine, fresh_clone}
use previewer.Github.Git.Checkout.{Spares, AllOrNothing, fresh_clone-AllOrNothing}
use previewer.Worker.Input.{incremental, PreparedWorkspace}
use previewer.Worker.Install.{Installing, target_dirs, install}
use previewer.Worker.Install.Targets.{reported, reported-install}
use previewer.Worker.Workspace.{prepare_cache}
use previewer.Core.Lines.{split_lines}
use previewer.Github.Diff.{
  git_diff, changed_files_of, read_files, read_statuses, read_status, read_file,
}
use previewer.Github.Diff.Printed.{
  Row, IsPlain, print_numstat, print_name_status, file, changed_files_of-printed,
}
use previewer.Worker.Workspace.Guarded.{IsGuarded, prepare_cache-IsGuarded}

-- Its state says whether the directory is there, and whether the temporary one holds a clone.
abbrev a_machine : Machine (Bool × Bool)
a_machine = record {
  exec_git = λ args w. ((w.0, true), inr []);
  exists = λ path w. str_eq path "/w" && w.0;
  real_path = λ path w. (w, inr path);
  remove = λ path w. ((if str_eq path "/w" then false else w.0, w.1), inr tt);
  make_dir = λ path w. (w, inr tt);
  rename = λ from to w. ((str_eq to "/w" || w.0, w.1), inr tt);
  make_temp_dir = λ prefix w. (w, inr prefix);
  dirname = λ path. "/";
  join = str_append;
  of_text = λ t. "text";
}

abbrev holds_clone : String → Bool × Bool → Bool
holds_clone path w = w.1

state_of :
    {A : Type 0} (v w : Bool × Bool) (a b : A)
    → ◌≡◌ {A = (Bool × Bool) × (Thrown ⊎ A)} (v, inr a) (w, inr b)
    → v ≡ w
state_of v w a b h = cc

a_machine-Spares : Spares a_machine holds_clone "1" "url" "/w"
a_machine-Spares = record {
  removes = λ w w' h. rw (← state_of (false, w.1) w' tt tt h) refl;
  parent_only = λ w h. h;
  clones_aside = λ w h. h;
  clones = λ w w' printed h. rw (← state_of (w.0, true) w' [] printed h) refl;
  renames = λ w w' h. rw (← state_of (true, w.1) w' tt tt h) (refl, refl);
  renames_or_keeps = λ w w' err absent h. absurd (ground (arith, h));
  removes_aside = λ w h. h;
}

fresh_clone-AllOrNothing_example :
    AllOrNothing a_machine holds_clone "/w" (fresh_clone a_machine "1" "url" "/w" (true, false))
fresh_clone-AllOrNothing_example =
    fresh_clone-AllOrNothing a_machine holds_clone "1" "url" "/w" a_machine-Spares (true, false)
      (false, false) refl

abbrev prepared : PreparedWorkspace
prepared = record {
  dir = "/w";
  diff = record {
    mode = incremental;
    from_sha = "old";
    to_sha = "head";
    patch = [];
    changed_files = [];
  };
}

prepare_cache-IsGuarded_example :
    IsGuarded a_machine "/w" "old" "head" (true, true) "base" prepared.diff
unfolding prepare_cache git_diff changed_files_of read_files read_statuses read_status read_file
    split_lines trim
prepare_cache-IsGuarded_example =
    prepare_cache-IsGuarded a_machine "/w" "old" "head" "1" "url" incremental "base" (true, false)
      (true, true) prepared refl refl

abbrev a_row : Row
a_row = record { path = codes "a.ts"; letter = b'A'; adds = codes "12"; dels = codes "0" }

a_row-IsPlain : IsPlain a_row
a_row-IsPlain = record {
  path = (refl, (refl, (refl, (refl, tt))));
  path_some = refl;
  letter = refl;
  adds = ((refl, (refl, tt)), (refl, (refl, tt)), refl);
  dels = ((refl, tt), (refl, tt));
}

changed_files_of-printed_example :
    changed_files_of (print_numstat (a_row ∷ [])) (print_name_status (a_row ∷ []))
    ≡ map file (a_row ∷ [])
changed_files_of-printed_example =
    changed_files_of-printed (a_row ∷ []) (a_row-IsPlain, tt) (tt, tt)

-- The count of its added lines is read.
additions_test : (file a_row).additions ≡ 12
unfolding same_text
additions_test = refl

-- One directory with a lock file, in which the command fails.
abbrev an_installer : Installing Bool
an_installer = record {
  exists = λ path w. str_eq path "/w/package.json" || str_eq path "/w/yarn.lock";
  list_dir = λ dir w. none;
  join = λ dir name. str_append dir (str_append "/" name);
  run = λ cmd dir w. (true, inr 1);
}

reported-install_example :
    reported (str_eq "/w") (install an_installer "/w" false).1
    ≡ count_where (str_eq "/w") (target_dirs an_installer "/w" false)
reported-install_example = reported-install an_installer (str_eq "/w") "/w" false
