-- ===== src/Context/Onboarding/Gate.antt =====
-- `buildInvariants`, the gate of human confirmation.
pub mod Approval
use previewer.Prelude.{
  String, Bool, true, false, not, ◌&&◌, ◌||◌, Option, none, some, List, [], ◌∷◌, ◌++◌, any, map,
  keep, get_or, str_eq, if◌then◌else◌,
}
use previewer.Core.Text.{codes}
use previewer.Context.Pack.{
  Provenance, InvariantStatus, confirmed, needs_confirmation, Invariant, ContextPack,
}
use previewer.Context.Assess.{ArtifactPlan}
use previewer.Context.Onboarding.{
  Checkout, GeneratedArtifacts, RunOptions, Built, prov_for, taken_from, noted, ingested_from,
  doc_paths, unless_empty,
}

abbrev pub is_confirmed : InvariantStatus → Bool
is_confirmed confirmed = true
is_confirmed _ = false

abbrev pub is_open : InvariantStatus → Bool
is_open needs_confirmation = true
is_open _ = false

abbrev pub has_id : String → List Invariant → Bool
has_id id = any (λ i. str_eq i.id id)

approve : Bool → Invariant → Invariant
approve confirm i = if confirm && is_open i.status then record i { status = confirmed } else i

regenerated : Bool → List Invariant → Invariant → Invariant
regenerated confirm before i = record i {
  status = if has_id i.id before || confirm then confirmed else needs_confirmation;
}

-- What was confirmed and is not generated again is kept behind the rest.
merge_invariants : Bool → List Invariant → List Invariant → List Invariant
unfolding regenerated
merge_invariants confirm before [] = before
merge_invariants confirm before (g ∷ gs) =
    map (regenerated confirm before) (g ∷ gs) ++ keep (λ i. not (has_id i.id (g ∷ gs))) before

abbrev pub confirmed_of : Option ContextPack → List Invariant
confirmed_of none = []
confirmed_of (some pack) = keep (λ i. is_confirmed i.status) pack.invariants

abbrev approver : RunOptions → Option String
approver opts = if opts.confirm_invariants then some (get_or opts.approved_by "cli-user") else none

abbrev approved : Option Provenance → Option String → Option Provenance
approved none by = none
approved (some p) by = some (record p { approved_by = by })

abbrev merged_provenance :
    ArtifactPlan → List Invariant → Option (List Invariant) → Option String → Option Provenance
merged_provenance plan merged gen model = elim (get_or gen []) [
  | [] ↦ unless_empty merged (taken_from (codes "previous pack (confirmed)"))
  | g ∷ gs ↦
      noted (prov_for plan.decision)
        (elim plan.sources [ none ↦ none | some docs ↦ some (doc_paths docs) ]) model 4
]

-- `buildInvariants`, the gate of human confirmation
unfoldable pub build_invariants :
    Checkout
    → ArtifactPlan
    → GeneratedArtifacts
    → Option ContextPack
    → RunOptions
    → Option String
    → Built (List Invariant)
unfolding approve merge_invariants
build_invariants checkout plan gen previous opts model =
    elim (ingested_from checkout.read_invariants plan) [
      | some (parsed, path) ↦
          (map (approve opts.confirm_invariants) parsed, approved (taken_from path) (approver opts))
      | none ↦
          let merged =
            merge_invariants opts.confirm_invariants (confirmed_of previous)
              (get_or gen.invariants []) in
          (merged, approved (merged_provenance plan merged gen.invariants model) (approver opts))
    ]
