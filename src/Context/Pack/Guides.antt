-- ===== src/Context/Pack/Guides.antt =====
-- `parseSubsystemGuide` of src/context/pack.ts: a guide is read from its markdown.
use previewer.Prelude.{
  String, Bool, true, false, not, ◌&&◌, Option, none, some, [], ◌∷◌, find, map, get_or, ◌==◌,
  if◌then◌else◌,
}
use previewer.Core.Text.{Text, codes, lower, starts_with, strip_prefix}
use previewer.Core.Lines.{split_lines}
use previewer.Core.Split.{trim, trim_start, is_empty}
use previewer.Config.Repo.{RiskLevel}
use previewer.Context.Pack.{SubsystemGuide}

-- The first answer of `try` at a place of the text, as `match` looks for it.
first_match {ℓ} : {A : Type ℓ} → (Text → Option A) → Text → Option A
first_match try [] = try []
first_match try (c ∷ cs) = elim (try (c ∷ cs)) [ some a ↦ some a | none ↦ first_match try cs ]

-- What stands in front of the next back quote, if there is one.
until_quote : Text → Option Text
until_quote [] = none
until_quote (c ∷ cs) = elim (c == 96) [
  | true ↦ some []
  | false ↦ elim (until_quote cs) [ none ↦ none | some t ↦ some (c ∷ t) ]
]

abbrev non_empty : Option Text → Option Text
non_empty (some (c ∷ cs)) = some (c ∷ cs)
non_empty _ = none

-- `[^`]+` between two back quotes
abbrev quoted : Text → Option Text
quoted (c ∷ cs) = if c == 96 then non_empty (until_quote cs) else none
quoted [] = none

-- The text behind a label and the spaces after it.
behind : String → Text → Option Text
behind label text = elim (strip_prefix (codes label) text) [
  | none ↦ none
  | some rest ↦ some (trim_start rest)
]

abbrev path_at : Text → Option Text
path_at text = elim (behind "**Path:**" text) [ none ↦ none | some rest ↦ quoted rest ]

abbrev level : Text → Option RiskLevel
level t =
    if starts_with (codes "low") t
    then some RiskLevel.low
    else if starts_with (codes "medium") t
    then some RiskLevel.medium
    else if starts_with (codes "high") t
    then some RiskLevel.high
    else none

abbrev risk_at : Text → Option RiskLevel
risk_at text = elim (behind "**risk:**" text) [ none ↦ none | some rest ↦ level rest ]

is_summary : Text → Bool
is_summary l =
    not (is_empty l)
    && not (starts_with (codes "#") l)
    && not (starts_with (codes "**Path") l)
    && not (starts_with (codes "**Risk") l)

unfoldable pub parse_subsystem_guide : Text → Text → SubsystemGuide
unfolding first_match until_quote behind is_summary
parse_subsystem_guide name content = record {
  name = name;
  path = get_or (first_match path_at content) name;
  summary = get_or (find is_summary (map trim (split_lines content))) [];
  risk = get_or (first_match risk_at (lower content)) RiskLevel.medium;
  body = content;
}
