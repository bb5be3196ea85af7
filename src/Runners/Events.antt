-- ===== src/Runners/Events.antt =====
-- `parseCodexEvents` of src/runners/shared/output.ts. What `JSON.parse` makes of a line is an argument:
-- nothing where it throws, else the `null` that is no object, or the fields that are read, of which
-- those are none that are absent or, for `item.text`, not a string.
pub mod Answer
use previewer.Prelude.{
  ℕ, ◌+◌, ◌⊎◌, inl, inr, String, Bool, true, false, ◌&&◌, Option, none, some, List, [], ◌∷◌,
  if◌then◌else◌, str_eq, get_or,
}
use previewer.Core.Text.{Text, codes}
use previewer.Core.Lines.{split_lines}
use previewer.Core.Split.{is_empty, trim}

pub record RawUsage : Type 0 where
  pub input_tokens : Option ℕ
  pub cached_input_tokens : Option ℕ
  pub output_tokens : Option ℕ
  pub reasoning_output_tokens : Option ℕ

pub record RawItem : Type 0 where
  pub item_type : Option String
  pub text : Option Text

pub record RawEvent : Type 0 where
  pub event_type : Option String
  pub item : Option RawItem
  pub usage : Option RawUsage

pub data Value : Type 0 where
  null : Value
  fields : RawEvent → Value

pub record CodexResult : Type 0 where
  pub result_text : Text
  pub tokens_in : ℕ
  pub tokens_out : ℕ

-- `o.type === name`
abbrev pub is_named : String → Option String → Bool
is_named name none = false
is_named name (some s) = str_eq s name

abbrev message_text : Option RawItem → Option Text
message_text none = none
message_text (some i) = if is_named "agent_message" i.item_type then i.text else none

abbrev pub tokens : CodexResult → Option RawUsage → CodexResult
tokens acc none = acc
tokens acc (some u) = record acc {
  tokens_in = get_or u.input_tokens 0 + get_or u.cached_input_tokens 0;
  tokens_out = get_or u.output_tokens 0 + get_or u.reasoning_output_tokens 0;
}

-- The text of an `item.completed` that is an agent's message
unfoldable pub answer_of : RawEvent → Option Text
answer_of o = if is_named "item.completed" o.event_type then message_text o.item else none

abbrev pub take_answer : CodexResult → RawEvent → Option Text → CodexResult
take_answer acc o (some t) = record acc { result_text = t }
take_answer acc o none = if is_named "turn.completed" o.event_type then tokens acc o.usage else acc

unfoldable pub read_event : CodexResult → RawEvent → CodexResult
unfolding answer_of
read_event acc o = take_answer acc o (answer_of o)

abbrev pub null_error : String
null_error = "Cannot read properties of null (reading 'type')"

-- One line, which is trimmed and not empty
abbrev pub read_value : CodexResult → Option Value → String ⊎ CodexResult
read_value acc none = inr acc
read_value acc (some null) = inl null_error
read_value acc (some (fields o)) = inr (read_event acc o)

unfoldable pub read_line : (Text → Option Value) → CodexResult → Text → String ⊎ CodexResult
unfolding trim read_event
read_line json_parse acc line =
    if is_empty (trim line) then inr acc else read_value acc (json_parse (trim line))

unfoldable pub read_lines : (Text → Option Value) → CodexResult → List Text → String ⊎ CodexResult
unfolding read_line
read_lines json_parse acc [] = inr acc
read_lines json_parse acc (l ∷ ls) = elim (read_line json_parse acc l) [
  | inl err ↦ inl err
  | inr next ↦ read_lines json_parse next ls
]

abbrev pub no_events : CodexResult
no_events = record { result_text = []; tokens_in = 0; tokens_out = 0 }

-- `if (!resultText) throw …`
abbrev pub with_answer : String ⊎ CodexResult → String ⊎ CodexResult
with_answer (inl err) = inl err
with_answer (inr r) =
    if is_empty r.result_text then inl "codex exec produced no agent_message" else inr r

unfoldable pub parse_codex_events : (Text → Option Value) → Text → String ⊎ CodexResult
unfolding read_lines split_lines
parse_codex_events json_parse stdout =
    with_answer (read_lines json_parse no_events (split_lines stdout))
