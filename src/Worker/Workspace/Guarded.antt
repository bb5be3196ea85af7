-- ===== src/Worker/Workspace/Guarded.antt =====
-- An incremental diff begins at a commit that git knows and finds in the history of the head.
use previewer.Prelude.{
  ◌≡◌, refl, sym, ap, ◌∙◌, ◌⊎◌, inl, inr, String, Bool, true, false, Bool-cases, if◌then◌else◌,
  arith,
}
use previewer.Core.Failure.{Thrown}
use previewer.Github.Git.{
  Act, Machine, pure, ◌>>=◌, then_do, ensure_checkout, commit_exists, is_ancestor, merge_base_safe,
}
use previewer.Github.Diff.{git_diff}
use previewer.Worker.Input.{Mode, incremental, full, Diff, PreparedWorkspace}
use previewer.Worker.Workspace.{
  Start, is_settled, is_usable, start_of, fetched, looked_at, effective_from, to_diff, cache_diff,
  prepare_cache,
}

module _ {W : Type 0} where
  then_do-answers :
      {A B : Type 0} (f : A → Act W B) (out : W × (Thrown ⊎ A)) (w' : W) (b : B)
      → then_do f out ≡ (w', inr b)
      → (v : W) × (a : A) × (out ≡ (v, inr a)) × (f a v ≡ (w', inr b))
  then_do-answers f (v, inl err) w' b h = absurd (ground (arith, h))
  then_do-answers f (v, inr a) w' b h = (v, a, refl, h)

  answer_eq :
      {A : Type 0} (v w : W) (a b : A) → ◌≡◌ {A = W × (Thrown ⊎ A)} (v, inr a) (w, inr b) → a ≡ b
  answer_eq v w a b h = cc

  state_eq :
      {A : Type 0} (v w : W) (a b : A) → ◌≡◌ {A = W × (Thrown ⊎ A)} (v, inr a) (w, inr b) → v ≡ w
  state_eq v w a b h = cc

module _ {W : Type 0} (m : Machine W) (dir from_sha head_sha : String) where
  -- What git answers at the state `s`: `usable` says whether the commit is there and the head descends
  -- from it, which is asked only of a commit that is there; `v` is the state after the questions.
  abbrev pub Answers : W → Bool → W → Type 0
  Answers s usable v =
      let known = commit_exists m dir from_sha s in
      let older = is_ancestor m dir from_sha head_sha known.0 in
      ((known.1 ≡ inr true) × (older ≡ (v, inr usable)))
      ⊎ ((known ≡ (v, inr false)) × (usable ≡ false))

  is_usable-Answers :
      (s v : W) (usable : Bool)
      → is_usable m dir from_sha head_sha s ≡ (v, inr usable)
      → Answers s usable v
  unfolding is_usable
  is_usable-Answers s v usable h =
      let (u, known, exists, rest) =
        then_do-answers (λ known. if known then is_ancestor m dir from_sha head_sha else pure false)
          (commit_exists m dir from_sha s) v usable h in
      elim (Bool-cases known) [
        | inl e ↦ rw (exists, e) (inl (refl, rw e at rest))
        | inr e ↦
            let out : ◌≡◌ {A = W × (Thrown ⊎ Bool)} (u, inr false) (v, inr usable) = rw e at rest in
            inr (
              rw (exists, e, state_eq u v false usable out) refl,
              sym (answer_eq u v false usable out),
            )
      ]

  -- Of the diff `d` that is made at the state `s`: it ends at the head, and begins where the history of a
  -- commit parts from the head's, as git says after the questions. If the answers are good, the commit is
  -- the one that was asked for, and the diff is incremental; else it is the fallback, and the diff is full.
  abbrev pub IsGuarded : W → String → Diff → Type 0
  IsGuarded s fallback_sha d =
      (usable : Bool) × (v : W) × Answers s usable v
      × (d.to_sha ≡ head_sha)
      × (d.mode ≡ (if usable then incremental else full))
      × ((merge_base_safe m dir (if usable then from_sha else fallback_sha) head_sha v).1
          ≡ inr d.from_sha)

  -- What follows the start at the state `v`
  abbrev Follows : W → Start → Diff → Type 0
  Follows v eff d =
      (d.to_sha ≡ head_sha)
      × (d.mode ≡ eff.mode)
      × ((merge_base_safe m dir eff.from_sha head_sha v).1 ≡ inr d.from_sha)

  cache_diff-Follows :
      (eff : Start) (w w' : W) (ws : PreparedWorkspace)
      → cache_diff m dir head_sha eff w ≡ (w', inr ws)
      → Follows w eff ws.diff
  cache_diff-Follows eff w w' ws h =
      let (u, base, based, next) =
        then_do-answers
          (λ base. git_diff m dir base head_sha >>= λ diff.
            pure (record { dir = dir; diff = to_diff diff eff.mode base head_sha }))
          (merge_base_safe m dir eff.from_sha head_sha w) w' ws h in
      let (v, diff, read, last) =
        then_do-answers
          (λ diff. pure (record { dir = dir; diff = to_diff diff eff.mode base head_sha }))
          (git_diff m dir base head_sha u) w' ws next in
      let same = answer_eq v w' _ ws last in
      (
        ap (λ x. x.diff.to_sha) (sym same),
        ap (λ x. x.diff.mode) (sym same),
        ap {A = W × (Thrown ⊎ String)} (λ o. o.1) based ∙ ap (λ x. inr x.diff.from_sha) same,
      )

  start-IsGuarded :
      (fallback_sha : String) (s v : W) (usable : Bool) (d : Diff)
      → Answers s usable v
      → Follows v (start_of m from_sha fallback_sha usable) d
      → IsGuarded s fallback_sha d
  start-IsGuarded fallback_sha s v true d answers follows =
      (true, v, answers, follows.0, follows.1, follows.2)
  start-IsGuarded fallback_sha s v false d answers follows =
      (false, v, answers, follows.0, follows.1, follows.2)

  -- From the checkout on
  looked_at-IsGuarded :
      (mode : Mode) (fallback_sha : String) (u w' : W) (ws : PreparedWorkspace)
      → is_settled from_sha mode fallback_sha ≡ false
      → (effective_from m dir from_sha head_sha mode fallback_sha >>= cache_diff m dir head_sha) u
        ≡ (w', inr ws)
      → IsGuarded (fetched m dir from_sha u).0 fallback_sha ws.diff
  unfolding effective_from
  looked_at-IsGuarded mode fallback_sha u w' ws looked h =
      let (v, eff, found, last) =
        then_do-answers (cache_diff m dir head_sha)
          (effective_from m dir from_sha head_sha mode fallback_sha u) w' ws h in
      let opened : then_do (λ done. looked_at m dir from_sha head_sha fallback_sha)
            (fetched m dir from_sha u)
          ≡ (v, inr eff) =
        rw (effective_from, looked) at found in
      let (s, done, first, next) =
        then_do-answers (λ done. looked_at m dir from_sha head_sha fallback_sha)
          (fetched m dir from_sha u) v eff opened in
      let (x, usable, asked, ends) =
        then_do-answers (λ usable. pure (start_of m from_sha fallback_sha usable))
          (is_usable m dir from_sha head_sha s) v eff next in
      let start = answer_eq x v _ eff ends in
      let follows = cache_diff-Follows eff v w' ws last in
      rw first (
        start-IsGuarded fallback_sha s v usable ws.diff
          (rw (state_eq x v _ eff ends) at (is_usable-Answers s x usable asked))
          (rw (← start) at follows))

  -- An incremental review that has another base to fall back to gets, if it is prepared, a diff to the
  -- head. Git is asked once the commit reviewed before is fetched into the checkout: if it knows that
  -- commit and finds it in the head's history, the diff begins there and is marked incremental; if not,
  -- the diff begins at the fallback and is marked full.
  pub prepare_cache-IsGuarded :
      (uuid url : String) (mode : Mode) (fallback_sha : String) (w w' : W) (ws : PreparedWorkspace)
      → is_settled from_sha mode fallback_sha ≡ false
      → prepare_cache m uuid url dir from_sha head_sha mode fallback_sha w ≡ (w', inr ws)
      → IsGuarded
          (fetched m dir from_sha (ensure_checkout m uuid url dir head_sha w).0).0
          fallback_sha
          ws.diff
  unfolding prepare_cache
  prepare_cache-IsGuarded uuid url mode fallback_sha w w' ws looked h =
      let (u, checkout, ensured, next) =
        then_do-answers
          (λ checkout.
            effective_from m dir from_sha head_sha mode fallback_sha >>= cache_diff m dir head_sha)
          (ensure_checkout m uuid url dir head_sha w) w' ws h in
      rw ensured (looked_at-IsGuarded mode fallback_sha u w' ws looked next)
