-- ===== src/Core/Text.antt =====
-- Texts as the lists of their character codes, and the searches in them that the source writes as
-- regular expressions. `lower` folds ASCII letters, which is all that the flag `i` folds onto an
-- ASCII pattern.
use Prim.Native.Char.{code}
use Prim.Native.String.append
use Prim.Native.String.{◌++◌ as str_append}
use previewer.Prelude.{
  ◌≡◌, refl, ap, ◌∙◌, ◌++◌, ==_iff, ℕ, ◌+◌, String, Bool, true, false, ◌&&◌, ◌||◌, Option, none,
  some, List, [], ◌∷◌, map, leb, ◌==◌, if◌then◌else◌,
}

abbrev pub Text : Type 0
Text = List ℕ

abbrev pub codes : String → Text
codes String.[] = []
codes (String.◌∷◌ c s) = code c ∷ codes s

unfoldable pub lower_char : ℕ → ℕ
lower_char c = if leb b'A' c && leb c b'Z' then c + 32 else c

unfoldable pub lower : Text → Text
unfolding lower_char
lower = map lower_char

unfoldable pub same_text : Text → Text → Bool
same_text [] [] = true
same_text (x ∷ xs) (y ∷ ys) = x == y && same_text xs ys
same_text _ _ = false

-- `text.startsWith(prefix)`
unfoldable pub starts_with : Text → Text → Bool
starts_with [] text = true
starts_with (p ∷ ps) [] = false
starts_with (p ∷ ps) (c ∷ cs) = p == c && starts_with ps cs

-- `text.includes(part)`
unfoldable pub includes : Text → Text → Bool
unfolding starts_with
includes part [] = starts_with part []
includes part (c ∷ cs) = starts_with part (c ∷ cs) || includes part cs

-- `/a|b|…/i.test(text)`, for phrases in lower case
unfoldable pub mentions : List String → Text → Bool
unfolding includes
mentions [] text = false
mentions (p ∷ ps) text = includes (codes p) text || mentions ps text

-- What follows a prefix of the text, if it is one.
unfoldable pub strip_prefix : Text → Text → Option Text
strip_prefix [] text = some text
strip_prefix (p ∷ ps) [] = none
strip_prefix (p ∷ ps) (c ∷ cs) = let rest = strip_prefix ps cs in if p == c then rest else none

pub codes-append : (s t : String) → codes (str_append s t) ≡ codes s ++ codes t
codes-append String.[] t = ap codes (append.nil t)
codes-append (String.◌∷◌ c s) t =
    ap codes (append.cons c s t) ∙ ap (λ l. code c ∷ l) (codes-append s t)

-- A text starts with each of its beginnings.
pub starts_with-append : (s t : Text) → starts_with s (s ++ t) ≡ true
unfolding starts_with
starts_with-append [] t = refl
starts_with-append (c ∷ s) t = rw ((==_iff c c).1 refl) (starts_with-append s t)

pub starts_with_refl : (m : Text) → starts_with m m ≡ true
unfolding starts_with
starts_with_refl [] = refl
starts_with_refl (c ∷ m) = rw ((==_iff c c).1 refl) (starts_with_refl m)
