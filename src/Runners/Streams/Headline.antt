-- ===== src/Runners/Streams/Headline.antt =====
-- What the description of a failed run says, and how long it can be.
use previewer.Prelude.{
  ℕ, zero, suc, ◌-◌, ◌≤◌, ◌<◌, ◌≡◌, refl, ap, ◌⊎◌, inl, inr, List, [], ◌∷◌, ◌++◌, length, leb,
  arith, Bool-cases,
}
use previewer.Core.Text.{Text, codes}
use previewer.Core.Lines.{newline, join_lines}
use previewer.Runners.Streams.{
  CliResult, CliFailureDetail, clean_cli_lines, drop, tail_chars, body, last_line, describe_lines,
  describe_cli_failure,
}

-- The end of a text: the text itself if it has `max` characters at most, and else its last `max` ones
-- after three dots.
abbrev pub IsEnd : ℕ → Text → Text → Type 0
IsEnd max text kept =
    ((length text ≤ max) × (kept ≡ text))
    ⊎ ((max < length text)
        × ((front : Text) × (rest : Text) × (text ≡ front ++ rest)
            × (length rest ≡ max)
            × (kept ≡ codes "..." ++ rest)))

-- Dropping parts a text.
drop-parts :
    (n : ℕ) (t : Text)
    → n ≤ length t
    → (front : Text) × (t ≡ front ++ drop n t) × (length (drop n t) ≡ length t - n)
unfolding drop
drop-parts zero t h = ([], refl, omega arith)
drop-parts (suc n) [] h = absurd (omega (arith, h))
drop-parts (suc n) (c ∷ t) h =
    let (front, parts, rest) = drop-parts n t (omega (arith, h)) in
    (c ∷ front, ap (λ u. c ∷ u) parts, omega (arith, rest))

tail_chars-IsEnd : (max : ℕ) (t : Text) → IsEnd max t (tail_chars max t)
unfolding tail_chars
tail_chars-IsEnd max t = elim (Bool-cases (leb (length t) max)) [
  | inl e ↦ rw e (inl (ground (arith, e), refl))
  | inr e ↦
      let (front, parts, rest) = drop-parts (length t - max) t (omega arith) in
      rw e (
        inr (
          ground (arith, e),
          (front, drop (length t - max) t, parts, ground (arith, e, rest), refl),
        ))
]

-- The lines of both streams that say something.
abbrev pub said : CliResult → List Text
said res = clean_cli_lines res.stdout ++ clean_cli_lines res.stderr

-- The body of the description of two lists of lines: each under the name of its stream, the two apart by
-- an empty line; a stream without lines is left out.
abbrev pub IsBody : List Text → List Text → Text → Type 0
IsBody [] [] text = text ≡ []
IsBody (o ∷ out) [] text = text ≡ codes "stdout:" ++ newline ∷ join_lines (o ∷ out)
IsBody [] (e ∷ err) text = text ≡ codes "stderr:" ++ newline ∷ join_lines (e ∷ err)
IsBody (o ∷ out) (e ∷ err) text =
    text
    ≡ (codes "stdout:" ++ newline ∷ join_lines (o ∷ out))
      ++ newline ∷ newline ∷ (codes "stderr:" ++ newline ∷ join_lines (e ∷ err))

body-IsBody : (out err : List Text) → IsBody out err (body out err)
unfolding join_lines
body-IsBody [] [] = refl
body-IsBody (o ∷ out) [] = refl
body-IsBody [] (e ∷ err) = refl
body-IsBody (o ∷ out) (e ∷ err) = refl

-- How a run is described whose lines are `lines`, in a body `text`: the summary is the last line, which is
-- also the whole detail if it is the only one; else the detail is that line, an empty one, and the end of
-- the body. Without a line, both are "no output".
abbrev pub Describes : List Text → Text → CliFailureDetail → Type 0
Describes lines text d =
    ((lines ≡ []) × (d.summary ≡ codes "no output") × (d.detail ≡ codes "no output"))
    ⊎ ((lines ≡ d.summary ∷ []) × (d.detail ≡ d.summary))
    ⊎ ((first : Text) × (before : List Text) × (kept : Text) × (lines
          ≡ (first ∷ before) ++ d.summary ∷ [])
        × IsEnd 1_500 text kept
        × (d.detail ≡ d.summary ++ newline ∷ newline ∷ kept))

-- All the lines but the last one
last_line-parts :
    (l : Text) (ls : List Text) → (before : List Text) × (l ∷ ls ≡ before ++ last_line l ls ∷ [])
last_line-parts l [] = ([], refl)
last_line-parts l (m ∷ ls) =
    let (before, parts) = last_line-parts m ls in (l ∷ before, ap (λ u. l ∷ u) parts)

describe_lines-Describes :
    (lines : List Text) (text kept : Text)
    → IsEnd 1_500 text kept
    → Describes lines text (describe_lines lines kept)
describe_lines-Describes [] text kept h = inl (refl, refl, refl)
describe_lines-Describes (l ∷ []) text kept h = inr (inl (refl, refl))
describe_lines-Describes (l ∷ m ∷ ls) text kept h =
    let (before, parts) = last_line-parts m ls in
    inr (inr (l, before, kept, ap (λ u. l ∷ u) parts, h, refl))

-- The summary of a failed run is the last of the lines that say something, those of the second stream
-- after those of the first, and the detail of a run with two such lines or more is the summary, an empty
-- line and the end of the body, which names both streams: all of it, or its last 1500 characters behind
-- three dots. A run with one such line is described by it alone, and one without by "no output".
pub describe_cli_failure-Describes :
    (res : CliResult)
    → (text : Text) × IsBody (clean_cli_lines res.stdout) (clean_cli_lines res.stderr) text
      × Describes (said res) text (describe_cli_failure res)
unfolding describe_cli_failure
describe_cli_failure-Describes res =
    let out = clean_cli_lines res.stdout in
    let err = clean_cli_lines res.stderr in
    let text = body out err in
    (
      text,
      body-IsBody out err,
      describe_lines-Describes (said res) text (tail_chars 1_500 text)
          (tail_chars-IsEnd 1_500 text),
    )
