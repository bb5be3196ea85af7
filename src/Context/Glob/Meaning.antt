-- ===== src/Context/Glob/Meaning.antt =====
-- What a glob means, apart from the expression that it is compiled to.
use previewer.Prelude.{
  ℕ, ◌≡◌, refl, ◌↔◌, ◌⊎◌, inl, inr, Bool, true, false, ◌||◌, Option, none, some, List, [], ◌∷◌, map,
  ◌==◌, ==_iff, arith, and-left, and-right,
}
use previewer.Core.Text.{Text}
use previewer.Core.Regex.{seq, test_whole, matches, match_run, match_set, at_end, Rest}
use previewer.Context.Glob.{
  Piece, any_dirs, anything, segment, literal, no_star, pieces, is_inline, in_segment, compile,
  glob_match,
}

-- Which paths the pieces stand for.
pub data Matches : List Piece → Text → Type 0 where
  stop : Matches [] []
  same :
      {ps : List Piece} {c : ℕ} {path : Text}
      → Matches ps path
      → Matches (literal c ∷ ps) (c ∷ path)
  end_of_segment : {ps : List Piece} {path : Text} → Matches ps path → Matches (segment ∷ ps) path
  more_of_segment :
      {ps : List Piece} {c : ℕ} {path : Text}
      → in_segment c ≡ true
      → Matches (segment ∷ ps) path
      → Matches (segment ∷ ps) (c ∷ path)
  end_of_anything : {ps : List Piece} {path : Text} → Matches ps path → Matches (anything ∷ ps) path
  more_of_anything :
      {ps : List Piece} {c : ℕ} {path : Text}
      → is_inline c ≡ true
      → Matches (anything ∷ ps) path
      → Matches (anything ∷ ps) (c ∷ path)
  no_dirs : {ps : List Piece} {path : Text} → Matches ps path → Matches (any_dirs ∷ ps) path
  some_dirs :
      {ps : List Piece} {path : Text}
      → Matches (anything ∷ literal b'/' ∷ ps) path
      → Matches (any_dirs ∷ ps) path

abbrev rest_of : List Piece → Rest
rest_of ps = matches (seq (map compile ps)) at_end

or_cases : (a b : Bool) → (a || b) ≡ true → (a ≡ true) ⊎ (b ≡ true)
or_cases true b h = inl refl
or_cases false b h = inr h

or-right : (a b : Bool) → b ≡ true → (a || b) ≡ true
or-right a b h = ground arith

-- The runs `[…]*`, for the pieces `*` and `**`: every way to match one is a path of the piece.
module _ (p : ℕ → Bool) (rest : Rest) (Rests Runs : Text → Type 0)
    (finish : (path : Text) → Rests path → Runs path)
    (more : (c : ℕ) (path : Text) → p c ≡ true → Runs path → Runs (c ∷ path)) where
  match_run_sound :
      ((prev : Option ℕ) (path : Text) → rest prev path ≡ true → Rests path)
      → (prev : Option ℕ) (path : Text) → match_run p rest prev path ≡ true
      → Runs path
  unfolding match_run
  match_run_sound sound prev [] h = finish [] (sound prev [] h)
  match_run_sound sound prev (c ∷ path) h = elim (or_cases (rest prev (c ∷ path)) _ h) [
    | inl ended ↦ finish (c ∷ path) (sound prev (c ∷ path) ended)
    | inr goes ↦
        more c path (and-left (p c) _ goes)
          (match_run_sound sound (some c) path (and-right (p c) _ goes))
  ]

module _ (p : ℕ → Bool) (rest : Rest) where
  match_run-end :
      (prev : Option ℕ) (path : Text) → rest prev path ≡ true → match_run p rest prev path ≡ true
  unfolding match_run
  match_run-end prev [] h = h
  match_run-end prev (c ∷ path) h = rw h refl

  match_run-more :
      (prev : Option ℕ) (c : ℕ) (path : Text)
      → p c ≡ true
      → match_run p rest (some c) path ≡ true
      → match_run p rest prev (c ∷ path) ≡ true
  unfolding match_run
  match_run-more prev c path h k = or-right (rest prev (c ∷ path)) _ (rw (h, k) refl)

literal_sound :
    (ps : List Piece) (c : ℕ) (prev : Option ℕ) (path : Text)
    → ((before : Option ℕ) (after : Text) → rest_of ps before after ≡ true → Matches ps after)
    → rest_of (literal c ∷ ps) prev path ≡ true
    → Matches (literal c ∷ ps) path
unfolding matches match_set
literal_sound ps c prev [] sound h = absurd (ground (arith, h))
literal_sound ps c prev (d ∷ path) sound h =
    let same_char = (==_iff d c).0 (and-left (d == c) _ h) in
    rw same_char (same (sound (some d) path (and-right (d == c) _ h)))

rest_of_sound :
    (ps : List Piece) (prev : Option ℕ) (path : Text)
    → rest_of ps prev path ≡ true
    → Matches ps path
unfolding matches
rest_of_sound [] prev [] h = stop
rest_of_sound [] prev (c ∷ path) h = absurd (ground (arith, h))
rest_of_sound (literal c ∷ ps) prev path h = literal_sound ps c prev path (rest_of_sound ps) h
rest_of_sound (segment ∷ ps) prev path h =
    match_run_sound in_segment (rest_of ps) (Matches ps) (Matches (segment ∷ ps))
      (λ after m. end_of_segment m) (λ c after h m. more_of_segment h m) (rest_of_sound ps) prev
      path h
rest_of_sound (anything ∷ ps) prev path h =
    match_run_sound is_inline (rest_of ps) (Matches ps) (Matches (anything ∷ ps))
      (λ after m. end_of_anything m) (λ c after h m. more_of_anything h m) (rest_of_sound ps) prev
      path h
rest_of_sound (any_dirs ∷ ps) prev path h = elim (or_cases _ (rest_of ps prev path) h) [
  | inl dirs ↦ some_dirs (
      match_run_sound is_inline (rest_of (literal b'/' ∷ ps)) (Matches (literal b'/' ∷ ps))
        (Matches (anything ∷ literal b'/' ∷ ps)) (λ after m. end_of_anything m)
        (λ c after h m. more_of_anything h m)
        (λ before after. literal_sound ps b'/' before after (rest_of_sound ps)) prev path dirs)
  | inr none_there ↦ no_dirs (rest_of_sound ps prev path none_there)
]

rest_of_complete :
    {ps : List Piece} {path : Text}
    → Matches ps path
    → (prev : Option ℕ) → rest_of ps prev path ≡ true
unfolding matches match_set
rest_of_complete stop prev = refl
rest_of_complete (same {ps} {c} {path} m) prev =
    rw ((==_iff c c).1 refl, rest_of_complete m (some c)) refl
rest_of_complete (end_of_segment {ps} {path} m) prev =
    match_run-end in_segment (rest_of ps) prev path (rest_of_complete m prev)
rest_of_complete (more_of_segment {ps} {c} {path} h m) prev =
    match_run-more in_segment (rest_of ps) prev c path h (rest_of_complete m (some c))
rest_of_complete (end_of_anything {ps} {path} m) prev =
    match_run-end is_inline (rest_of ps) prev path (rest_of_complete m prev)
rest_of_complete (more_of_anything {ps} {c} {path} h m) prev =
    match_run-more is_inline (rest_of ps) prev c path h (rest_of_complete m (some c))
rest_of_complete (no_dirs {ps} {path} m) prev =
    or-right _ (rest_of ps prev path) (rest_of_complete m prev)
rest_of_complete (some_dirs {ps} {path} m) prev = rw (rest_of_complete m prev) refl

-- A glob matches a path exactly if the path is one that the glob's pieces stand for: `*` any
-- characters of one segment, `**` any characters of a line, `**/` nothing or anything that ends in
-- a `/`, and every other character itself.
pub glob_match-Matches :
    (glob path : Text) → (glob_match glob path ≡ true) ↔ Matches (pieces no_star glob) path
unfolding glob_match test_whole
glob_match-Matches glob path =
    (rest_of_sound (pieces no_star glob) none path, λ m. rest_of_complete m none)
