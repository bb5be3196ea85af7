-- ===== src/Tests/Routing.antt =====
-- The slice of a context pack at a concrete change.
use previewer.Prelude.{
  ◌≤◌, ◌≡◌, refl, true, none, some, List, [], ◌∷◌, ◌||◌, any, str_eq, if◌then◌else◌, count_where,
}
use previewer.Core.Text.{codes}
use previewer.Config.Repo.{SizeClass}
use previewer.Github.Change.{ChangedFile, ChangeStatus}
use previewer.Context.Glob.{glob_match}
use previewer.Context.Pack.{ContextPack}
use previewer.Context.Routing.{resolve_context, holds}
use previewer.Context.Routing.Selected.{activates, resolve_context-active}

abbrev pub a_pack : ContextPack
a_pack = record {
  manifest = record { version = 1; provenance = [] };
  repo_guide = [];
  subsystems = [];
  routing = record {
    mandatory_profiles = "security" ∷ [];
    required_context = "AGENTS.md" ∷ [];
    routes =
        record {
          name = "api";
          paths = codes "src/**" ∷ [];
          activate_profiles = "api" ∷ "security" ∷ [];
        }
        ∷ [];
  };
  profiles = λ n.
      if str_eq n "api"
      then some
          (record { focus = []; docs = "API.md" ∷ []; tests = "npm test" ∷ []; run_tests = true })
      else none;
  invariants = [];
  security_baseline = record { always_check = []; extra = [] };
  comment_template = [];
  risk_map = [];
}

abbrev a_change : List ChangedFile
a_change =
    record {
      path = codes "src/a.ts";
      status = ChangeStatus.modified;
      additions = 3;
      deletions = 1;
      size_class = SizeClass.small;
    }
    ∷ []

resolve_context-active_example :
    (holds (resolve_context a_pack a_change).active_profiles "api"
      ≡ holds a_pack.mandatory_profiles "api"
        || any (activates (codes "src/a.ts" ∷ []) "api") a_pack.routes)
    × (count_where (str_eq "api") (resolve_context a_pack a_change).active_profiles ≤ 1)
resolve_context-active_example = resolve_context-active a_pack a_change "api"

resolve_context_test : (resolve_context a_pack a_change).active_profiles ≡ "security" ∷ "api" ∷ []
unfolding resolve_context glob_match
resolve_context_test = refl
