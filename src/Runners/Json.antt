-- ===== src/Runners/Json.antt =====
-- `extractJson` of src/runners/shared/output.ts, over what `JSON.parse` makes of a text: nothing where it
-- throws.
pub mod Wrapped
use previewer.Prelude.{ℕ, Bool, true, false, Option, none, some, List, [], ◌∷◌, ◌==◌, if◌then◌else◌}
use previewer.Core.Text.{Text, codes, lower_char, strip_prefix, starts_with}
use previewer.Core.Split.{is_empty, trim, trim_start}

abbrev pub fence : Text
fence = codes "```"

-- What follows the first fence
unfoldable pub after_fence : Text → Option Text
unfolding strip_prefix
after_fence [] = none
after_fence (c ∷ t) =
    let rest = after_fence t in elim (strip_prefix fence (c ∷ t)) [ some u ↦ some u | none ↦ rest ]

-- What stands in front of the first fence, if there is one
unfoldable pub before_fence : Text → Option Text
unfolding starts_with
before_fence [] = none
before_fence (c ∷ t) =
    let rest = before_fence t in
    if starts_with fence (c ∷ t) then some [] else elim rest [ none ↦ none | some u ↦ some (c ∷ u) ]

-- `(?:json)?`, in any case
abbrev skip_json : Text → Text
skip_json (j ∷ s ∷ o ∷ n ∷ t) =
    if starts_with (codes "json") (lower_char j ∷ lower_char s ∷ lower_char o ∷ lower_char n ∷ [])
    then t
    else j ∷ s ∷ o ∷ n ∷ t
skip_json t = t

-- The group of the first match of the fenced block
unfoldable pub fenced : Text → Option Text
unfolding after_fence before_fence trim_start starts_with lower_char
fenced text = elim (after_fence text) [
  | none ↦ none
  | some t ↦ before_fence (trim_start (skip_json t))
]

-- `text.slice(text.indexOf("{"))`, if there is one
unfoldable pub from_brace : Text → Option Text
from_brace [] = none
from_brace (c ∷ t) = let rest = from_brace t in if c == b'{' then some (c ∷ t) else rest

-- The text to the last `}`, if there is one
unfoldable pub to_brace : Text → Option Text
to_brace [] = none
to_brace (c ∷ t) = elim (to_brace t) [
  | some u ↦ some (c ∷ u)
  | none ↦ if c == b'}' then some (c ∷ []) else none
]

unfoldable pub braced : Text → Option Text
unfolding from_brace to_brace
braced text = elim (from_brace text) [ none ↦ none | some t ↦ to_brace t ]

module _ {J : Type 0} (json_parse : Text → Option J) where
  abbrev pub or_parse : Option J → Option J → Option J
  or_parse (some j) next = some j
  or_parse none next = next

  abbrev pub parse_fenced : Option Text → Option J
  parse_fenced none = none
  parse_fenced (some t) = if is_empty t then none else json_parse (trim t)

  abbrev pub parse_braced : Option Text → Option J
  parse_braced none = none
  parse_braced (some t) = json_parse t

  -- Nothing where it throws
  unfoldable pub extract_json : Text → Option J
  unfolding trim fenced braced
  extract_json text =
      let t = trim text in
      or_parse (json_parse t) (or_parse (parse_fenced (fenced t)) (parse_braced (braced t)))
