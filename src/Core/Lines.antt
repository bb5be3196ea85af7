-- ===== src/Core/Lines.antt =====
-- `text.split("\n")` and `lines.join("\n")`.
use previewer.Prelude.{
  ℕ, ◌+◌, ◌≡◌, refl, List, [], ◌∷◌, ◌++◌, length, length-append, if◌then◌else◌, ◌==◌, ==_iff, arith,
  Bool-cases, inl, inr,
}
use mathlib.Core.List.{append_assoc}
use previewer.Core.Text.{Text}

abbrev pub newline : ℕ
newline = 10

-- A character in front of the first line
abbrev pub lengthen : ℕ → List Text → List Text
lengthen c [] = (c ∷ []) ∷ []
lengthen c (l ∷ ls) = (c ∷ l) ∷ ls

unfoldable pub split_lines : Text → List Text
split_lines [] = [] ∷ []
split_lines (c ∷ cs) =
    let rest = split_lines cs in if c == newline then [] ∷ rest else lengthen c rest

unfoldable pub join_lines : List Text → Text
join_lines [] = []
join_lines (l ∷ []) = l
join_lines (l ∷ m ∷ ls) = l ++ newline ∷ join_lines (m ∷ ls)

-- A split text has a line.
pub data HasLine : List Text → Type 0 where
  line : (l : Text) (ls : List Text) → HasLine (l ∷ ls)

lengthen-HasLine : (c : ℕ) (ls : List Text) → HasLine (lengthen c ls)
lengthen-HasLine c [] = line _ _
lengthen-HasLine c (l ∷ ls) = line _ _

pub split_lines-HasLine : (t : Text) → HasLine (split_lines t)
unfolding split_lines
split_lines-HasLine [] = line _ _
split_lines-HasLine (c ∷ cs) = elim (Bool-cases (c == newline)) [
  | inl e ↦ rw e (line [] (split_lines cs))
  | inr e ↦ rw e (lengthen-HasLine c (split_lines cs))
]

join_lines-newline : (ls : List Text) → HasLine ls → join_lines ([] ∷ ls) ≡ newline ∷ join_lines ls
unfolding join_lines
join_lines-newline [] h = elim h [ ]
join_lines-newline (l ∷ ls) h = refl

join_lines-lengthen :
    (c : ℕ) (ls : List Text) → HasLine ls → join_lines (lengthen c ls) ≡ c ∷ join_lines ls
unfolding join_lines
join_lines-lengthen c [] h = elim h [ ]
join_lines-lengthen c (l ∷ []) h = refl
join_lines-lengthen c (l ∷ m ∷ ls) h = refl

pub join_lines-split_lines : (t : Text) → join_lines (split_lines t) ≡ t
unfolding split_lines join_lines
join_lines-split_lines [] = refl
join_lines-split_lines (c ∷ cs) =
    let some_line = split_lines-HasLine cs in
    let rest = join_lines-split_lines cs in
    elim (Bool-cases (c == newline)) [
      | inl e ↦
          rw (e, (==_iff c newline).0 e, join_lines-newline (split_lines cs) some_line, rest) refl
      | inr e ↦ rw (e, join_lines-lengthen c (split_lines cs) some_line, rest) refl
    ]

-- Two lines that are joined first
pub join_lines-merge :
    (l m : Text) (ls : List Text) → join_lines ((l ++ newline ∷ m) ∷ ls) ≡ join_lines (l ∷ m ∷ ls)
unfolding join_lines
join_lines-merge l m [] = refl
join_lines-merge l m (n ∷ ls) = append_assoc l (newline ∷ m) (newline ∷ join_lines (n ∷ ls))

-- The cost of a line behind others: itself and the newline, and itself alone behind none
abbrev pub separator : List Text → ℕ
separator [] = 0
separator (l ∷ ls) = 1

pub length-join_lines-append :
    (ls : List Text) (t : Text)
    → length (join_lines (ls ++ t ∷ [])) ≡ length (join_lines ls) + (length t + separator ls)
unfolding join_lines
length-join_lines-append [] t = omega arith
length-join_lines-append (l ∷ []) t = omega (arith, length-append l (newline ∷ t))
length-join_lines-append (l ∷ m ∷ ls) t = omega (
  arith,
  length-append l (newline ∷ join_lines (m ∷ ls)),
  length-append l (newline ∷ join_lines ((m ∷ ls) ++ (t ∷ []))),
  length-join_lines-append (m ∷ ls) t,
)
