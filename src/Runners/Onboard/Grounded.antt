-- ===== src/Runners/Onboard/Grounded.antt =====
-- Where the artifacts of a generation come from.
use previewer.Prelude.{
  ℕ, ◌≡◌, refl, ap, ◌⊎◌, inl, inr, String, false, Option, none, some, List, arith, Bool-cases,
}
use previewer.Core.Text.{Text}
use previewer.Core.Failure.{Thrown}
use previewer.Context.Pack.{Artifact}
use previewer.Context.Onboarding.{GeneratedArtifacts}
use previewer.Context.Onboarding.Run.{Generation}
use previewer.Runners.Streams.{CliResult}
use previewer.Runners.Json.{extract_json}
use previewer.Runners.Executor.{CliCall}
use previewer.Runners.Results.{Envelope, parse_envelope}
use previewer.Runners.Onboard.{
  GeneratorHost, GeneratorOptions, artifacts_of, parse_onboarding_artifacts, generation,
  claude_generate_call, on_generated, on_claude, claude_generate,
}

inr_eq : {A B : Type 0} (a b : B) → ◌≡◌ {A = A ⊎ B} (inr a) (inr b) → a ≡ b
inr_eq a b h = cc

module _ {J : Type 0} (host : GeneratorHost J) (opts : GeneratorOptions)
    (workspace_dir : String) where
  -- The artifacts are what the schema makes of the JSON that is found in the text.
  abbrev pub Grounded : Text → Generation → Type 0
  Grounded text g =
      (j : J) × (extract_json host.json_parse text ≡ some j) × (host.artifacts j ≡ inr g.artifacts)

  generation-artifacts :
      (model : String) (tokens : ℕ) (out : Thrown ⊎ GeneratedArtifacts) (g : Generation)
      → generation host opts workspace_dir model tokens out ≡ inr g
      → out ≡ inr g.artifacts
  generation-artifacts model tokens (inl err) g h = absurd (ground (arith, h))
  generation-artifacts model tokens (inr a) g h = ap (λ x. inr x.artifacts) (inr_eq _ g h)

  parsed-Grounded :
      (text : Text) (found : Option J) (g : Generation)
      → extract_json host.json_parse text ≡ found
      → artifacts_of host opts workspace_dir found ≡ inr g.artifacts
      → Grounded text g
  parsed-Grounded text none g e h = absurd (ground (arith, h))
  parsed-Grounded text (some j) g e h = (j, e, h)

  generation-Grounded :
      (text : Text) (model : String) (tokens : ℕ) (g : Generation)
      → generation host opts workspace_dir model tokens
          (parse_onboarding_artifacts host opts workspace_dir text)
        ≡ inr g
      → Grounded text g
  unfolding parse_onboarding_artifacts
  generation-Grounded text model tokens g h =
      parsed-Grounded text (extract_json host.json_parse text) g refl (
        generation-artifacts model tokens
          (artifacts_of host opts workspace_dir (extract_json host.json_parse text)) g h)

  -- The program answered, and its envelope reports no error.
  abbrev pub FromEnvelope : CliResult → Generation → Type 0
  FromEnvelope res g =
      (env : Envelope) × (parse_envelope host.parse_raw res.stdout ≡ some env)
      × (env.is_error ≡ false)
      × Grounded env.result_text g

  on_generated-FromEnvelope :
      (res : CliResult) (found : Option Envelope) (g : Generation)
      → parse_envelope host.parse_raw res.stdout ≡ found
      → on_generated host opts workspace_dir res found ≡ inr g
      → FromEnvelope res g
  on_generated-FromEnvelope res none g e h = absurd (ground (arith, h))
  on_generated-FromEnvelope res (some env) g e h = elim (Bool-cases env.is_error) [
    | inl failed ↦ absurd (ground (arith, rw failed at h))
    | inr fine ↦ (env, e, fine, generation-Grounded env.result_text _ _ g (rw fine at h))
  ]

  on_claude-FromEnvelope :
      (ran : Thrown ⊎ CliResult) (g : Generation)
      → on_claude host opts workspace_dir ran ≡ inr g
      → (res : CliResult) × (ran ≡ inr res) × FromEnvelope res g
  on_claude-FromEnvelope (inl err) g h = absurd (ground (arith, h))
  on_claude-FromEnvelope (inr res) g h = (res, refl, on_generated-FromEnvelope res _ g refl h)

  -- What the generator of `claude` answers is what the schema accepted of the JSON in the text of an
  -- envelope without an error.
  claude_generate-FromEnvelope :
      (allowed_tools : List String) (max_turns : ℕ) (exec : CliCall → Thrown ⊎ CliResult)
      (targets : List Artifact) (g : Generation)
      → claude_generate host opts workspace_dir allowed_tools max_turns exec targets ≡ inr g
      → (res : CliResult) × (exec
            (claude_generate_call host opts workspace_dir allowed_tools max_turns targets)
          ≡ inr res)
        × FromEnvelope res g
  unfolding claude_generate
  claude_generate-FromEnvelope allowed_tools max_turns exec targets g h =
      on_claude-FromEnvelope _ g h
