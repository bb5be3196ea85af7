-- ===== src/Context/Glob.antt =====
-- `globMatch` and `globToRegExp` of src/context/routing.ts: a glob is compiled to an expression,
-- piece by piece, and a path is tested as a whole.
pub mod Meaning
use previewer.Prelude.{ℕ, Bool, true, false, not, ◌&&◌, ◌||◌, List, [], ◌∷◌, map, ◌==◌}
use previewer.Core.Text.{Text}
use previewer.Core.Regex.{Re, run, char, then_, seq, optional, test_whole}

-- The pieces: `**/`, `**`, `*` and a character that stands for itself.
pub data Piece : Type 0 where
  any_dirs anything segment : Piece
  literal : ℕ → Piece

-- The stars that the loop has looked at without having written their piece.
pub data Stars : Type 0 where
  no_star one_star two_stars : Stars

-- The loop over the glob; at each place the longest piece is read first.
unfoldable pub pieces : Stars → Text → List Piece
pieces no_star [] = []
pieces no_star (c ∷ cs) = elim (c == b'*') [
  | true ↦ pieces one_star cs
  | false ↦ literal c ∷ pieces no_star cs
]
pieces one_star [] = segment ∷ []
pieces one_star (c ∷ cs) = elim (c == b'*') [
  | true ↦ pieces two_stars cs
  | false ↦ segment ∷ literal c ∷ pieces no_star cs
]
pieces two_stars [] = anything ∷ []
pieces two_stars (c ∷ cs) = elim (c == b'/') [
  | true ↦ any_dirs ∷ pieces no_star cs
  | false ↦ elim (c == b'*') [
    | true ↦ anything ∷ pieces one_star cs
    | false ↦ anything ∷ literal c ∷ pieces no_star cs
  ]
]

-- `.`: no line terminator
abbrev pub is_inline : ℕ → Bool
is_inline c = not (c == 10 || c == 13 || c == 8232 || c == 8233)

abbrev pub in_segment : ℕ → Bool
in_segment c = not (c == b'/')

abbrev pub compile : Piece → Re
compile any_dirs = optional (then_ (run is_inline) (char b'/'))
compile anything = run is_inline
compile segment = run in_segment
compile (literal c) = char c

-- `globToRegExp`
abbrev pub glob_to_regexp : Text → Re
glob_to_regexp glob = seq (map compile (pieces no_star glob))

-- `globMatch`
unfoldable pub glob_match : Text → Text → Bool
unfolding test_whole pieces
glob_match glob path = test_whole (glob_to_regexp glob) path
