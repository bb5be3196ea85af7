-- ===== src/Runners/Events/Answer.antt =====
-- Which answer is read from the events of `codex exec`: the last one, whatever stands between.
use previewer.Prelude.{
  ◌≡◌, ◌≢◌, refl, ap, ◌∙◌, ◌⊎◌, inl, inr, String, Option, none, some, List, [], ◌∷◌, ◌++◌,
  if◌then◌else◌, arith, All, Bool-cases,
}
use previewer.Core.Text.{Text}
use previewer.Core.Lines.{split_lines}
use previewer.Core.Split.{is_empty, trim}
use previewer.Runners.Events.{
  RawEvent, Value, null, fields, CodexResult, answer_of, take_answer, read_event, read_value,
  read_line, read_lines, no_events, with_answer, parse_codex_events, RawUsage, tokens, null_error,
}

-- What a line says: nothing, which noise that is no JSON and an empty line also do, an answer, or that
-- the reading fails.
pub data Says : Type 0 where
  nothing : Says
  answer : Text → Says
  failure : Says

abbrev pub said_by : Option Text → Says
said_by none = nothing
said_by (some t) = answer t

abbrev pub value_says : Option Value → Says
value_says none = nothing
value_says (some null) = failure
value_says (some (fields o)) = said_by (answer_of o)

abbrev pub says : (Text → Option Value) → Text → Says
says json_parse l = if is_empty (trim l) then nothing else value_says (json_parse (trim l))

-- What a line leaves: the text of the answer, or its own in its place.
abbrev Leaves : Says → CodexResult → String ⊎ CodexResult → Type 0
Leaves failure acc out = out ≡ inl null_error
Leaves nothing acc out =
    (next : CodexResult) × (out ≡ inr next) × (next.result_text ≡ acc.result_text)
Leaves (answer t) acc out = (next : CodexResult) × (out ≡ inr next) × (next.result_text ≡ t)

tokens-result_text :
    (acc : CodexResult) (u : Option RawUsage) → (tokens acc u).result_text ≡ acc.result_text
tokens-result_text acc none = refl
tokens-result_text acc (some u) = refl

take_answer-Leaves :
    (acc : CodexResult) (o : RawEvent) (a : Option Text)
    → Leaves (said_by a) acc (inr (take_answer acc o a))
take_answer-Leaves acc o (some t) = (record acc { result_text = t }, refl, refl)
take_answer-Leaves acc o none =
    (take_answer acc o none, refl, ground (arith, tokens-result_text acc o.usage))

read_value-Leaves :
    (acc : CodexResult) (v : Option Value) → Leaves (value_says v) acc (read_value acc v)
unfolding read_event
read_value-Leaves acc none = (acc, refl, refl)
read_value-Leaves acc (some null) = refl
read_value-Leaves acc (some (fields o)) = take_answer-Leaves acc o (answer_of o)

read_line-Leaves :
    (json_parse : Text → Option Value) (acc : CodexResult) (l : Text)
    → Leaves (says json_parse l) acc (read_line json_parse acc l)
unfolding read_line
read_line-Leaves json_parse acc l = elim (Bool-cases (is_empty (trim l))) [
  | inl e ↦ rw e (acc, refl, refl)
  | inr e ↦ rw e (read_value-Leaves acc (json_parse (trim l)))
]

-- The last of the lines that answer is `line`, and none reads `null`; or none answers.
abbrev pub Silent : (Text → Option Value) → List Text → Type 0
Silent json_parse = All (λ l. says json_parse l ≡ nothing)

abbrev pub Answered : (Text → Option Value) → List Text → Text → Type 0
Answered json_parse lines t =
    (before : List Text) × (line : Text) × (after : List Text) × (lines ≡ before ++ line ∷ after)
    × (says json_parse line ≡ answer t)
    × Silent json_parse after

behind :
    (json_parse : Text → Option Value) (l : Text) (ls : List Text) (t : Text)
    → Answered json_parse ls t
    → Answered json_parse (l ∷ ls) t
behind json_parse l ls t (before, line, after, parts, says_so, silent) =
    (l ∷ before, line, after, ap (λ xs. l ∷ xs) parts, says_so, silent)

-- The result of all lines, after `acc`.
abbrev Completes : (Text → Option Value) → CodexResult → List Text → Type 0
Completes json_parse acc lines =
    (r : CodexResult) × (read_lines json_parse acc lines ≡ inr r)
    × ((Silent json_parse lines × (r.result_text ≡ acc.result_text))
        ⊎ Answered json_parse lines r.result_text)

Completes-behind :
    (json_parse : Text → Option Value) (acc : CodexResult) (l : Text) (ls : List Text) (s : Says)
    → says json_parse l ≡ s
    → s ≢ failure
    → Leaves s acc (read_line json_parse acc l)
    → ((next : CodexResult) → Completes json_parse next ls)
    → Completes json_parse acc (l ∷ ls)
unfolding read_lines
Completes-behind json_parse acc l ls failure e fine leaves ih = absurd (fine refl)
Completes-behind json_parse acc l ls nothing e fine (next, out, same) ih =
    let rest = ih next in
    (
      rest.0,
      rw (out, read_lines) rest.1,
      elim rest.2 [
        | inl (silent, kept) ↦ inl ((e, silent), kept ∙ same)
        | inr found ↦ inr (behind json_parse l ls rest.0.result_text found)
      ],
    )
Completes-behind json_parse acc l ls (answer t) e fine (next, out, same) ih =
    let rest = ih next in
    (
      rest.0,
      rw (out, read_lines) rest.1,
      elim rest.2 [
        | inl (silent, kept) ↦ inr ([], l, ls, refl, rw (kept, same) e, silent)
        | inr found ↦ inr (behind json_parse l ls rest.0.result_text found)
      ],
    )

read_lines-Completes :
    (json_parse : Text → Option Value) (acc : CodexResult) (lines : List Text)
    → All (λ l. says json_parse l ≢ failure) lines
    → Completes json_parse acc lines
unfolding read_lines
read_lines-Completes json_parse acc [] h = (acc, refl, inl (tt, refl))
read_lines-Completes json_parse acc (l ∷ ls) h =
    Completes-behind json_parse acc l ls (says json_parse l) refl h.0
      (read_line-Leaves json_parse acc l) (λ next. read_lines-Completes json_parse next ls h.1)

abbrev pub Result : (Text → Option Value) → List Text → String ⊎ CodexResult → Type 0
Result json_parse lines out =
    ((out ≡ inl "codex exec produced no agent_message")
      × (Silent json_parse lines ⊎ Answered json_parse lines []))
    ⊎ ((r : CodexResult) × (out ≡ inr r) × Answered json_parse lines r.result_text)

with_answer-Result :
    (json_parse : Text → Option Value) (lines : List Text) (r : CodexResult) (t : Text)
    → r.result_text ≡ t
    → Answered json_parse lines t
    → Result json_parse lines (with_answer (inr r))
with_answer-Result json_parse lines r [] same found = inl (rw same refl, inr found)
with_answer-Result json_parse lines r (c ∷ t) same found = inr (r, rw same refl, rw same found)

-- An output without the line `null`: the result has the answer of the last line that gives one, past
-- all noise, or nothing of the output does, or what does is empty, and the reading throws.
pub parse_codex_events-Result :
    (json_parse : Text → Option Value) (stdout : Text)
    → All (λ l. says json_parse l ≢ failure) (split_lines stdout)
    → Result json_parse (split_lines stdout) (parse_codex_events json_parse stdout)
unfolding parse_codex_events
parse_codex_events-Result json_parse stdout h =
    let whole = read_lines-Completes json_parse no_events (split_lines stdout) h in
    rw whole.1 (elim whole.2 [
      | inl (silent, same) ↦ inl (rw same refl, inl silent)
      | inr found ↦
          with_answer-Result json_parse (split_lines stdout) whole.0 whole.0.result_text refl found
    ])
