-- ===== src/Core/Split.antt =====
-- `text.split(c)` for one character, `text.trim()` and what the source says with them.
use previewer.Prelude.{
  ℕ, ◌≡◌, refl, Bool, true, false, ◌&&◌, List, [], ◌∷◌, ◌++◌, ◌==◌, if◌then◌else◌, arith, All,
}
use previewer.Core.Text.{Text}
use previewer.Core.Lines.{lengthen}
use previewer.Core.Regex.{is_space}

unfoldable pub split_on : ℕ → Text → List Text
split_on sep [] = [] ∷ []
split_on sep (c ∷ cs) =
    let rest = split_on sep cs in if c == sep then [] ∷ rest else lengthen c rest

-- `parts.join(c)`
unfoldable pub join_on : ℕ → List Text → Text
join_on sep [] = []
join_on sep (p ∷ []) = p
join_on sep (p ∷ q ∷ ps) = p ++ sep ∷ join_on sep (q ∷ ps)

unfoldable pub trim_start : Text → Text
trim_start [] = []
trim_start (c ∷ cs) = let rest = trim_start cs in if is_space c then rest else c ∷ cs

abbrev pub is_empty : Text → Bool
is_empty [] = true
is_empty (c ∷ cs) = false

unfoldable pub trim_end : Text → Text
trim_end [] = []
trim_end (c ∷ cs) = let rest = trim_end cs in if is_space c && is_empty rest then [] else c ∷ rest

unfoldable pub trim : Text → Text
unfolding trim_start trim_end
trim t = trim_end (trim_start t)

-- A character is not in the text.
abbrev pub Lacks : ℕ → Text → Type 0
Lacks sep t = All (λ c. (c == sep) ≡ false) t

lengthen-append : (c : ℕ) (p : Text) (ls : List Text) → lengthen c (p ∷ ls) ≡ (c ∷ p) ∷ ls
lengthen-append c p ls = refl

-- The part in front of a separator, and the rest.
pub split_on-append :
    (sep : ℕ) (p rest : Text) → Lacks sep p → split_on sep (p ++ sep ∷ rest) ≡ p ∷ split_on sep rest
unfolding split_on
split_on-append sep [] rest h = ground arith
split_on-append sep (c ∷ p) rest h = rw (h.0, split_on-append sep p rest h.1) refl

pub split_on_self : (sep : ℕ) (p : Text) → Lacks sep p → split_on sep p ≡ p ∷ []
unfolding split_on
split_on_self sep [] h = refl
split_on_self sep (c ∷ p) h = rw (h.0, split_on_self sep p h.1) refl
