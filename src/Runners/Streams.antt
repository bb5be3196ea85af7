-- ===== src/Runners/Streams.antt =====
-- What a failed run of a command-line reviewer says: `cleanCliLines`, `tailChars` and
-- `describeCliFailure` of src/runners/shared/output.ts.
pub mod Headline
use previewer.Prelude.{
  ℕ, zero, suc, ◌-◌, Bool, true, false, not, ◌&&◌, List, [], ◌∷◌, ◌++◌, map, keep, length, leb,
  if◌then◌else◌,
}
use previewer.Core.Text.{Text, codes, lower, starts_with}
use previewer.Core.Lines.{newline, split_lines, join_lines}
use previewer.Core.Split.{is_empty, trim, trim_end}

-- `CliResult` of src/runners/cli/executor.ts
pub record CliResult : Type 0 where
  pub stdout : Text
  pub stderr : Text
  pub exit_code : ℕ

pub record CliFailureDetail : Type 0 where
  pub summary : Text
  pub detail : Text

abbrev pub cli_error_detail_max : ℕ
cli_error_detail_max = 1_500

-- `/^reading prompt from stdin/i.test(line)`
unfoldable pub is_noise_line : Text → Bool
unfolding starts_with lower
is_noise_line line = starts_with (codes "reading prompt from stdin") (lower line)

abbrev pub is_meaningful : Text → Bool
is_meaningful line = not (is_empty (trim line)) && not (is_noise_line (trim line))

-- `line.replace(/\s+$/, "")` is `trim_end`.
unfoldable pub clean_cli_lines : Text → List Text
unfolding split_lines trim_end trim is_noise_line
clean_cli_lines stream = keep is_meaningful (map trim_end (split_lines stream))

-- `text.slice(n)`
unfoldable pub drop : ℕ → Text → Text
drop zero t = t
drop (suc n) [] = []
drop (suc n) (c ∷ t) = drop n t

unfoldable pub tail_chars : ℕ → Text → Text
unfolding drop
tail_chars max text =
    let kept = drop (length text - max) text in
    if leb (length text) max then text else codes "..." ++ kept

-- A stream's lines under its label, if it has any.
abbrev pub section : Text → List Text → List Text
section label [] = []
section label (l ∷ ls) = (label ++ newline ∷ join_lines (l ∷ ls)) ∷ []

-- `sections.join("\n\n")`
abbrev pub join_sections : List Text → Text
join_sections [] = []
join_sections (s ∷ []) = s
join_sections (s ∷ t ∷ ss) = s ++ newline ∷ newline ∷ join_sections (t ∷ ss)

-- `lines[lines.length - 1]` of `first` and the rest
abbrev pub last_line : Text → List Text → Text
last_line first [] = first
last_line first (l ∷ ls) = last_line l ls

abbrev pub body : List Text → List Text → Text
body out_lines err_lines =
    join_sections (section (codes "stdout:") out_lines ++ section (codes "stderr:") err_lines)

abbrev pub headline : Text → List Text → Text → CliFailureDetail
headline summary [] text = record { summary = summary; detail = summary }
headline summary (l ∷ ls) text = record {
  summary = summary;
  detail = summary ++ newline ∷ newline ∷ text;
}

-- What is said of all the lines, the body being cut already.
abbrev pub describe_lines : List Text → Text → CliFailureDetail
describe_lines [] text = record { summary = codes "no output"; detail = codes "no output" }
describe_lines (l ∷ ls) text = headline (last_line l ls) ls text

unfoldable pub describe_cli_failure : CliResult → CliFailureDetail
unfolding clean_cli_lines tail_chars join_lines
describe_cli_failure res =
    let out_lines = clean_cli_lines res.stdout in
    let err_lines = clean_cli_lines res.stderr in
    describe_lines (out_lines ++ err_lines)
      (tail_chars cli_error_detail_max (body out_lines err_lines))
