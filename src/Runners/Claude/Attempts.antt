-- ===== src/Runners/Claude/Attempts.antt =====
-- How the attempts of a review of `claude` end.
use mathlib.Core.Path.{subst}
use previewer.Prelude.{
  ℕ, zero, suc, ◌+◌, ◌-◌, ◌≤◌, ◌<◌, ◌≡◌, refl, sym, get_or, ◌⊎◌, inl, inr, none, some, arith,
  Bool-cases, Option-cases, ◌==◌, ==_iff,
}
use previewer.Core.Text.{Text, codes}
use previewer.Worker.Input.{ReviewInput, ReviewResult}
use previewer.Worker.Review.{RunContext}
use previewer.Runners.Streams.{CliResult, describe_cli_failure}
use previewer.Runners.Executor.{CliCall}
use previewer.Runners.Results.{Envelope, parse_envelope, error_result}
use previewer.Runners.Claude.{
  claude_id, model_of, detail_of, on_envelope, ClaudeOptions, RunnerHost, claude_call,
  settle_attempt, drift_result, attempts, attempts_from, claude_review,
}

some_eq : {A : Type 0} → (a b : A) → some a ≡ some b → a ≡ b
some_eq a b h = cc

module _ {J : Type 0} (host : RunnerHost J) (opts : ClaudeOptions)
    (exec : ℕ → CliCall → Text ⊎ CliResult) (input : ReviewInput) (ctx : RunContext) where
  -- What the run of the program for the attempt `i` throws or prints
  abbrev pub ran : ℕ → Text ⊎ CliResult
  ran i = exec i (claude_call host opts input ctx)

  -- The attempt `i` printed an output that has no envelope.
  abbrev pub Drifts : ℕ → Type 0
  Drifts i =
      (res : CliResult) × (ran i ≡ inr res) × (parse_envelope host.parse_raw res.stdout ≡ none)

  -- The attempt `i` ends the review with `r`: its run throws, and `r` is the error with that message; or
  -- its output has an envelope, and `r` is the error that it reports or the review that it carries.
  abbrev pub Ends : ℕ → ReviewResult → Type 0
  Ends i r =
      ((message : Text) × (ran i ≡ inl message)
        × (r
            ≡ error_result input claude_id (get_or (model_of host opts ctx) "claude")
                (host.of_text message)))
      ⊎ ((res : CliResult) × (env : Envelope) × (ran i ≡ inr res)
          × (parse_envelope host.parse_raw res.stdout ≡ some env)
          × (r ≡ on_envelope host opts input ctx env))

  -- The result of the attempts from `first` to before `last`: that of the first that does not drift, or,
  -- if all drift, the error that says so with the description of the last one.
  abbrev pub Settles : ℕ → ℕ → ReviewResult → Type 0
  Settles first last r =
      ((k : ℕ) × (first ≤ k) × (k < last) × Ends k r × ((i : ℕ) → first ≤ i → i < k → Drifts i))
      ⊎ (((i : ℕ) → first ≤ i → i < last → Drifts i)
          × ((res : CliResult) × (ran (last - 1) ≡ inr res)
              × (r ≡ drift_result host opts input ctx (describe_cli_failure res).detail)))

  -- What `settle_attempt` makes of one attempt
  attempt-Ends :
      (i : ℕ) (out : Text ⊎ CliResult) (r : ReviewResult)
      → ran i ≡ out
      → settle_attempt host opts input ctx out ≡ some r
      → Ends i r
  unfolding settle_attempt
  attempt-Ends i (inl message) r e h = inl (message, e, sym (some_eq _ r h))
  attempt-Ends i (inr res) r e h = elim (Option-cases (parse_envelope host.parse_raw res.stdout)) [
    | inl none_here ↦ absurd (ground (arith, rw (settle_attempt, none_here) at h))
    | inr (env, here) ↦ inr (res, env, e, here, sym (some_eq _ r (rw (settle_attempt, here) at h)))
  ]

  attempt-Drifts :
      (i : ℕ) (out : Text ⊎ CliResult)
      → ran i ≡ out
      → settle_attempt host opts input ctx out ≡ none
      → Drifts i
  unfolding settle_attempt
  attempt-Drifts i (inl message) e h = absurd (ground (arith, h))
  attempt-Drifts i (inr res) e h = elim (Option-cases (parse_envelope host.parse_raw res.stdout)) [
    | inl none_here ↦ (res, e, none_here)
    | inr (env, here) ↦ absurd (ground (arith, rw (settle_attempt, here) at h))
  ]

  all_drift :
      (first last : ℕ)
      → Drifts first
      → ((i : ℕ) → suc first ≤ i → i < last → Drifts i)
      → (i : ℕ) → first ≤ i
      → i < last
      → Drifts i
  all_drift first last none_here later i from before = elim (Bool-cases (first == i)) [
    | inl e ↦ subst Drifts ((==_iff first i).0 e) none_here
    | inr ne ↦ later i (ground (arith, from, ne)) before
  ]

  Settles-earlier :
      (first last : ℕ) (r : ReviewResult)
      → Drifts first
      → Settles (suc first) last r
      → Settles first last r
  Settles-earlier first last r none_here (inl (k, from, before, answer, drifts)) =
      inl (k, omega (arith, from), before, answer, all_drift first k none_here drifts)
  Settles-earlier first last r none_here (inr (drifts, result)) =
      inr (all_drift first last none_here drifts, result)

  -- What the error says of the last attempt, which drifts
  drifted_detail :
      (i : ℕ)
      → Drifts i
      → (res : CliResult) × (ran i ≡ inr res)
        × (attempts_from host opts exec input ctx zero (suc i) (detail_of host opts (ran i))
            ≡ drift_result host opts input ctx (describe_cli_failure res).detail)
  unfolding attempts_from
  drifted_detail i (res, printed, none_here) = (res, printed, rw printed refl)

  answered-Settles :
      (left first last : ℕ) (detail : Text) (r : ReviewResult)
      → first < last
      → settle_attempt host opts input ctx (ran first) ≡ some r
      → Settles first last (attempts_from host opts exec input ctx (suc left) first detail)
  unfolding attempts_from
  answered-Settles left first last detail r h answer =
      rw (attempts_from, answer)
        (inl (
          first,
          omega arith,
          h,
          attempt-Ends first _ r refl answer,
          λ i from before. absurd (omega (arith, from, before)),
        ))

  attempts_from-Settles :
      (left first last : ℕ) (detail : Text)
      → last ≡ first + suc left
      → Settles first last (attempts_from host opts exec input ctx (suc left) first detail)
  unfolding attempts_from
  attempts_from-Settles zero first last detail e =
      elim (Option-cases (settle_attempt host opts input ctx (ran first))) [
        | inr (r, answer) ↦ answered-Settles zero first last detail r (omega (arith, e)) answer
        | inl drift ↦
            let only : first ≡ last - 1 = omega (arith, e) in
            let drifts = attempt-Drifts first _ refl drift in
            let alone : (i : ℕ) → suc first ≤ i → i < last → Drifts i =
              λ i from before. absurd (omega (arith, e, from, before)) in
            rw (attempts_from, drift)
              (inr (all_drift first last drifts alone, rw (← only) (drifted_detail first drifts)))
      ]
  attempts_from-Settles (suc left) first last detail e =
      elim (Option-cases (settle_attempt host opts input ctx (ran first))) [
        | inr (r, answer) ↦
            answered-Settles (suc left) first last detail r (omega (arith, e)) answer
        | inl drift ↦
            rw (attempts_from, drift)
              (Settles-earlier first last _ (attempt-Drifts first _ refl drift) (
                attempts_from-Settles left (suc first) last (detail_of host opts (ran first))
                  (omega (arith, e))))
      ]

  counted-Settles :
      (n : ℕ)
      → 1 ≤ n
      → Settles 1 (1 + n) (attempts_from host opts exec input ctx n 1 (codes "no output"))
  counted-Settles zero h = absurd (omega (arith, h))
  counted-Settles (suc n) h = attempts_from-Settles n 1 _ (codes "no output") refl

  -- The program is run until an attempt throws, which is reported with its message, or prints an envelope,
  -- whose error or review is the result: an attempt without an envelope, and no other, is followed by
  -- another one, of `max_parse_attempts` in all and one at least. If none of them has an envelope, the
  -- result is the error that says so and describes the last one.
  pub claude_review-Settles :
      Settles 1 (1 + attempts host opts) (claude_review host opts exec input ctx)
  unfolding claude_review
  claude_review-Settles = counted-Settles (attempts host opts) (omega arith)
