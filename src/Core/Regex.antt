-- ===== src/Core/Regex.antt =====
-- The regular expressions that the source uses: sets of characters, sequences, alternatives, runs
-- of a set, and the word boundary. `matches` tries the ways to match in order, as the engine does;
-- `rest` is what stands behind the part that is matched, and `prev` the character before it.
use previewer.Prelude.{
  ℕ, String, Bool, true, false, not, ◌&&◌, ◌||◌, Option, none, some, List, [], ◌∷◌, leb, ◌==◌,
}
use previewer.Core.Text.{Text, codes, lower}

pub data Re : Type 0 where
  empty : Re
  set : (ℕ → Bool) → Re
  run : (ℕ → Bool) → Re
  then_ : Re → Re → Re
  either : Re → Re → Re
  boundary : Re

abbrev pub Rest : Type 0
Rest = Option ℕ → Text → Bool

-- `\w`
abbrev pub is_word : ℕ → Bool
is_word c =
    leb b'a' c && leb c b'z' || leb b'A' c && leb c b'Z' || leb b'0' c && leb c b'9' || c == b'_'

abbrev pub word_at : Option ℕ → Bool
word_at none = false
word_at (some c) = is_word c

abbrev first : Text → Option ℕ
first [] = none
first (c ∷ cs) = some c

abbrev differ : Bool → Bool → Bool
differ true b = not b
differ false b = b

-- `[…]*`
unfoldable pub match_run : (ℕ → Bool) → Rest → Rest
match_run p rest prev [] = rest prev []
match_run p rest prev (c ∷ cs) = rest prev (c ∷ cs) || (p c && match_run p rest (some c) cs)

unfoldable pub match_set : (ℕ → Bool) → Rest → Rest
match_set p rest prev [] = false
match_set p rest prev (c ∷ cs) = p c && rest (some c) cs

unfoldable pub matches : Re → Rest → Rest
unfolding match_run match_set
matches empty rest = rest
matches (set p) rest = match_set p rest
matches (run p) rest = match_run p rest
matches (then_ a b) rest = matches a (matches b rest)
matches (either a b) rest = λ prev text. matches a rest prev text || matches b rest prev text
matches boundary rest = λ prev text. differ (word_at prev) (word_at (first text)) && rest prev text

-- `re.test(text)`: a match that begins anywhere
unfoldable pub test_from : Re → Option ℕ → Text → Bool
unfolding matches
test_from re prev [] = matches re (λ _ _. true) prev []
test_from re prev (c ∷ cs) = matches re (λ _ _. true) prev (c ∷ cs) || test_from re (some c) cs

abbrev pub at_end : Rest
at_end prev [] = true
at_end prev (c ∷ cs) = false

-- `^re$`: a match of the whole text
unfoldable pub test_whole : Re → Text → Bool
unfolding matches
test_whole re text = matches re at_end none text

abbrev pub char : ℕ → Re
char c = set (λ d. d == c)

abbrev pub chars : Text → Re
chars [] = empty
chars (c ∷ cs) = then_ (char c) (chars cs)

-- A phrase, in lower case.
abbrev pub phrase : String → Re
phrase s = chars (codes s)

-- `a|b|…`
abbrev pub any_of : List Re → Re
any_of [] = set (λ _. false)
any_of (r ∷ []) = r
any_of (r ∷ s ∷ rs) = either r (any_of (s ∷ rs))

abbrev pub seq : List Re → Re
seq [] = empty
seq (r ∷ rs) = then_ r (seq rs)

-- `re?`
abbrev pub optional : Re → Re
optional r = either r empty

abbrev pub is_digit : ℕ → Bool
is_digit c = leb b'0' c && leb c b'9'

-- `\s`, of which the ASCII part is written out, with the no-break space and the line separators
abbrev pub is_space : ℕ → Bool
is_space c =
    leb 9 c && leb c 13
    || c == 32
    || c == 160
    || leb 8192 c && leb c 8202
    || c == 8232
    || c == 8233
    || c == 8239
    || c == 8287
    || c == 5760
    || c == 12288
    || c == 65279

abbrev pub space : Re
space = set is_space

abbrev pub digit : Re
digit = set is_digit

-- `/re/i.test(text)`, for an expression in lower case
unfoldable pub test_i : Re → Text → Bool
unfolding test_from lower
test_i re text = test_from re none (lower text)
