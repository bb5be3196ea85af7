-- ===== src/Context/Routing.antt =====
-- `resolveContext` of src/context/routing.ts: the slice of the context pack that a change selects. The
-- parts of the pack that it only passes on are left out, and a `Set` is the list of its elements in
-- the order of insertion.
pub mod Selected
use previewer.Prelude.{
  String, Bool, true, ◌&&◌, ◌||◌, Option, none, some, List, [], ◌∷◌, ◌++◌, any, keep, map, str_eq,
  if◌then◌else◌,
}
use previewer.Core.Text.{Text, same_text, starts_with}
use previewer.Github.Change.{ChangedFile}
use previewer.Context.Pack.{Route, PackProfile, Invariant, SubsystemGuide, ContextPack}
use previewer.Context.Glob.{glob_match}

pub record Selection : Type 0 where
  pub subsystems : List SubsystemGuide
  pub invariants : List Invariant
  pub active_profiles : List String
  pub profiles : List PackProfile
  pub tests : List String
  pub required_docs : List String

abbrev pub holds : List String → String → Bool
holds names n = any (str_eq n) names

-- `Set.add`, and `new Set` when it starts from the empty set
unfoldable pub add_name : List String → String → List String
add_name names n = if holds names n then names else names ++ n ∷ []

unfoldable pub add_all : List String → List String → List String
unfolding add_name
add_all names [] = names
add_all names (n ∷ ns) = add_all (add_name names n) ns

unfoldable pub matches_any : List Text → Text → Bool
matches_any paths glob = any (glob_match glob) paths

unfoldable pub is_routed : List Text → Route → Bool
unfolding matches_any
is_routed paths r = any (matches_any paths) r.paths

activate : List Text → List Route → List String → List String
unfolding add_all is_routed
activate paths [] active = active
activate paths (r ∷ rs) active =
    activate paths rs (if is_routed paths r then add_all active r.activate_profiles else active)

abbrev pub found_profiles : (String → Option PackProfile) → List String → List PackProfile
found_profiles look_up [] = []
found_profiles look_up (n ∷ ns) = elim (look_up n) [
  | none ↦ found_profiles look_up ns
  | some p ↦ p ∷ found_profiles look_up ns
]

-- The names that `of` lists for each profile, added in turn.
add_each : (PackProfile → List String) → List PackProfile → List String → List String
unfolding add_all
add_each of [] names = names
add_each of (p ∷ ps) names = add_each of ps (add_all names (of p))

unfoldable pub is_under : Text → Text → Bool
is_under path p = same_text p path || starts_with (path ++ b'/' ∷ []) p

unfoldable pub resolve_context : ContextPack → List ChangedFile → Selection
unfolding add_all activate add_each matches_any is_under
resolve_context pack changed =
    let paths = map (λ c. c.path) changed in
    let active = activate paths pack.routes (add_all [] pack.mandatory_profiles) in
    let profiles = found_profiles pack.profiles active in
    record {
      subsystems = keep (λ s. any (is_under s.path) paths) pack.subsystems;
      invariants = keep (λ inv. any (matches_any paths) inv.applies_to) pack.invariants;
      active_profiles = active;
      profiles = profiles;
      tests = add_each (λ p. p.tests) profiles [];
      required_docs = add_each (λ p. p.docs) profiles (add_all [] pack.required_context);
    }
