-- ===== src/Context/Onboarding/Gate/Approval.antt =====
-- What the gate of human confirmation lets through.
use previewer.Prelude.{
  ◌≡◌, refl, String, Bool, true, false, not, ◌&&◌, ◌||◌, Option, none, some, List, [], ◌∷◌, ◌++◌,
  arith, any, map, keep, str_eq, str_eq_iff, get_or, Bool-cases, Option-cases, inl, inr, All,
}
use previewer.Context.Pack.{Invariant, ContextPack}
use previewer.Context.Assess.{ArtifactPlan}
use previewer.Context.Onboarding.{Checkout, GeneratedArtifacts, RunOptions, ingested_from}
use previewer.Context.Onboarding.Gate.{
  is_confirmed, is_open, has_id, approve, regenerated, merge_invariants, confirmed_of,
  build_invariants,
}

-- The invariants confirm the rule with the id.
abbrev pub confirms : String → List Invariant → Bool
confirms id = any (λ i. str_eq i.id id && is_confirmed i.status)

abbrev pub waits : List Invariant → Bool
waits = any (λ i. is_open i.status)

abbrev Confirmed : List Invariant → Type 0
Confirmed = All (λ i. is_confirmed i.status ≡ true)

keep-Confirmed : (is : List Invariant) → Confirmed (keep (λ i. is_confirmed i.status) is)
keep-Confirmed [] = tt
keep-Confirmed (i ∷ is) = elim (Bool-cases (is_confirmed i.status)) [
  | inl e ↦ rw e (e, keep-Confirmed is)
  | inr e ↦ rw e (keep-Confirmed is)
]

confirmed_of-Confirmed : (previous : Option ContextPack) → Confirmed (confirmed_of previous)
confirmed_of-Confirmed none = tt
confirmed_of-Confirmed (some pack) = keep-Confirmed pack.invariants

any-append :
    (p : Invariant → Bool) (xs ys : List Invariant) → any p (xs ++ ys) ≡ any p xs || any p ys
any-append p [] ys = refl
any-append p (x ∷ xs) ys = ground (arith, any-append p xs ys)

confirms-Confirmed :
    (id : String) (is : List Invariant) → Confirmed is → confirms id is ≡ has_id id is
confirms-Confirmed id [] c = refl
confirms-Confirmed id (i ∷ is) c = ground (arith, c.0, confirms-Confirmed id is c.1)

has_id-same :
    (id other : String) (is : List Invariant)
    → str_eq other id ≡ true
    → has_id other is ≡ has_id id is
has_id-same id other is e = rw ((str_eq_iff other id).0 e) refl

-- Without an approval a generated rule is confirmed exactly if one with its id was.
confirms-regenerated :
    (id : String) (before gs : List Invariant)
    → confirms id (map (regenerated false before) gs) ≡ has_id id gs && has_id id before
unfolding regenerated
confirms-regenerated id before [] = refl
confirms-regenerated id before (g ∷ gs) =
    ground (arith, has_id-same id g.id before, confirms-regenerated id before gs)

confirms-kept :
    (id : String) (gs before : List Invariant)
    → Confirmed before
    → confirms id (keep (λ i. not (has_id i.id gs)) before) ≡ has_id id before && not (has_id id gs)
confirms-kept id gs [] c = refl
confirms-kept id gs (i ∷ is) c =
    ground (arith, c.0, has_id-same id i.id gs, confirms-kept id gs is c.1)

confirms-merge_invariants :
    (id : String) (before gs : List Invariant)
    → Confirmed before
    → confirms id (merge_invariants false before gs) ≡ confirms id before
unfolding merge_invariants
confirms-merge_invariants id before [] c = refl
confirms-merge_invariants id before (g ∷ gs) c = ground (
  arith,
  any-append (λ i. str_eq i.id id && is_confirmed i.status)
      (map (regenerated false before) (g ∷ gs)) (keep (λ i. not (has_id i.id (g ∷ gs))) before),
  confirms-regenerated id before (g ∷ gs),
  confirms-kept id (g ∷ gs) before c,
  confirms-Confirmed id before c,
)

-- The gate of human confirmation holds for the ids of rules: without an approval, and where the rules are
-- not taken from a file of the repository, an id is that of a confirmed rule exactly if it was that of one
-- in the pack before, whatever the generator answers. The rule under such an id may be the generated one.
pub build_invariants-unapproved :
    (checkout : Checkout) (plan : ArtifactPlan) (gen : GeneratedArtifacts)
    (previous : Option ContextPack) (opts : RunOptions) (model : Option String) (id : String)
    → opts.confirm_invariants ≡ false
    → ingested_from checkout.read_invariants plan ≡ none
    → confirms id (build_invariants checkout plan gen previous opts model).0
      ≡ confirms id (confirmed_of previous)
unfolding build_invariants
build_invariants-unapproved checkout plan gen previous opts model id closed written =
    rw (written, build_invariants, closed)
      (confirms-merge_invariants id (confirmed_of previous) (get_or gen.invariants [])
        (confirmed_of-Confirmed previous))

waits-approve : (is : List Invariant) → waits (map (approve true) is) ≡ false
unfolding approve
waits-approve [] = refl
waits-approve (i ∷ is) = ground (arith, waits-approve is)

waits-regenerated : (before gs : List Invariant) → waits (map (regenerated true before) gs) ≡ false
unfolding regenerated
waits-regenerated before [] = refl
waits-regenerated before (g ∷ gs) = ground (arith, waits-regenerated before gs)

waits-Confirmed : (is : List Invariant) → Confirmed is → waits is ≡ false
waits-Confirmed [] c = refl
waits-Confirmed (i ∷ is) c = ground (arith, c.0, waits-Confirmed is c.1)

waits-keep : (q : Invariant → Bool) (is : List Invariant) → Confirmed is → waits (keep q is) ≡ false
waits-keep q [] c = refl
waits-keep q (i ∷ is) c = ground (arith, c.0, waits-keep q is c.1)

waits-merge_invariants :
    (before gs : List Invariant)
    → Confirmed before
    → waits (merge_invariants true before gs) ≡ false
unfolding merge_invariants
waits-merge_invariants before [] c = waits-Confirmed before c
waits-merge_invariants before (g ∷ gs) c = ground (
  arith,
  any-append (λ i. is_open i.status) (map (regenerated true before) (g ∷ gs))
      (keep (λ i. not (has_id i.id (g ∷ gs))) before),
  waits-regenerated before (g ∷ gs),
  waits-keep (λ i. not (has_id i.id (g ∷ gs))) before c,
)

-- A run with an approval leaves no rule that waits for one.
build_invariants-approved :
    (checkout : Checkout) (plan : ArtifactPlan) (gen : GeneratedArtifacts)
    (previous : Option ContextPack) (opts : RunOptions) (model : Option String)
    → opts.confirm_invariants ≡ true
    → waits (build_invariants checkout plan gen previous opts model).0 ≡ false
unfolding build_invariants
build_invariants-approved checkout plan gen previous opts model given =
    elim (Option-cases (ingested_from checkout.read_invariants plan)) [
      | inl e ↦
          rw (e, build_invariants, given)
            (waits-merge_invariants (confirmed_of previous) (get_or gen.invariants [])
              (confirmed_of-Confirmed previous))
      | inr ((parsed, path), e) ↦ rw (e, build_invariants, given) (waits-approve parsed)
    ]

-- Without generated rules the confirmed ones are kept.
pub build_invariants-kept :
    (checkout : Checkout) (plan : ArtifactPlan) (gen : GeneratedArtifacts)
    (previous : Option ContextPack) (opts : RunOptions) (model : Option String)
    → gen.invariants ≡ none
    → ingested_from checkout.read_invariants plan ≡ none
    → (build_invariants checkout plan gen previous opts model).0 ≡ confirmed_of previous
unfolding build_invariants merge_invariants
build_invariants-kept checkout plan gen previous opts model nothing written =
    rw (written, build_invariants, nothing) refl
