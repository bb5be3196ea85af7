-- ===== src/Runners/Json/Wrapped.antt =====
-- An object of JSON is found within prose.
use mathlib.Core.List.{append_assoc}
use previewer.Prelude.{
  ℕ, ◌≡◌, refl, sym, ◌∙◌, ap, Bool, true, false, Option, none, some, [], ◌∷◌, ◌++◌, ◌==◌, ◌&&◌,
  arith, All, inl, inr, Bool-cases,
}
use previewer.Core.Text.{Text}
use previewer.Core.Split.{Lacks, is_empty, trim, trim_start, trim_end}
use previewer.Core.Regex.{is_space}
use previewer.Runners.Json.{after_fence, fenced, from_brace, to_brace, braced, extract_json}

not_empty-append : (s : Text) (c : ℕ) (t : Text) → is_empty (s ++ c ∷ t) ≡ false
not_empty-append [] c t = refl
not_empty-append (d ∷ s) c t = refl

and_false : (b : Bool) → (b && false) ≡ false
and_false true = refl
and_false false = refl

-- A text behind which no `}` stands, and in front of which no `{` does
from_brace-append : (p t : Text) → Lacks b'{' p → from_brace (p ++ b'{' ∷ t) ≡ some (b'{' ∷ t)
unfolding from_brace
from_brace-append [] t h = refl
from_brace-append (c ∷ p) t h = rw h.0 (from_brace-append p t h.1)

to_brace-none : (t : Text) → Lacks b'}' t → to_brace t ≡ none
unfolding to_brace
to_brace-none [] h = refl
to_brace-none (c ∷ t) h = rw (to_brace-none t h.1, h.0) refl

to_brace-append : (s t : Text) → Lacks b'}' t → to_brace (s ++ b'}' ∷ t) ≡ some (s ++ b'}' ∷ [])
unfolding to_brace
to_brace-append [] t h = rw (to_brace-none t h) refl
to_brace-append (c ∷ s) t h = rw (to_brace-append s t h) refl

after_fence-none : (t : Text) → Lacks b'`' t → after_fence t ≡ none
unfolding after_fence
after_fence-none [] h = refl
after_fence-none (c ∷ t) h =
    let apart : (b'`' == c) ≡ false = ground (arith, h.0) in
    rw (after_fence, apart, after_fence-none t h.1) refl

All-trim_start {ℓ} : (P : ℕ → Type ℓ) (t : Text) → All P t → All P (trim_start t)
unfolding trim_start
All-trim_start P [] h = tt
All-trim_start P (c ∷ t) h = elim (Bool-cases (is_space c)) [
  | inl e ↦ rw e (All-trim_start P t h.1)
  | inr e ↦ rw e h
]

All-trim_end {ℓ} : (P : ℕ → Type ℓ) (t : Text) → All P t → All P (trim_end t)
unfolding trim_end
All-trim_end P [] h = tt
All-trim_end P (c ∷ t) h = elim (Bool-cases (is_space c && is_empty (trim_end t))) [
  | inl e ↦ rw e tt
  | inr e ↦ rw e (h.0, All-trim_end P t h.1)
]

-- What is trimmed stands outside of a text between braces.
trim_start-append :
    (p t : Text) (c : ℕ) → is_space c ≡ false → trim_start (p ++ c ∷ t) ≡ trim_start p ++ c ∷ t
unfolding trim_start
trim_start-append [] t c h = rw h refl
trim_start-append (d ∷ p) t c h = elim (Bool-cases (is_space d)) [
  | inl e ↦ rw e (trim_start-append p t c h)
  | inr e ↦ rw e refl
]

trim_end-append :
    (s t : Text) (c : ℕ) → is_space c ≡ false → trim_end (s ++ c ∷ t) ≡ s ++ c ∷ trim_end t
unfolding trim_end
trim_end-append [] t c h = rw h refl
trim_end-append (d ∷ s) t c h =
    rw (trim_end-append s t c h, not_empty-append s c (trim_end t), and_false (is_space d)) refl

abbrev pub object : Text → Text → Text
object inner trailer = b'{' ∷ (inner ++ b'}' ∷ trailer)

trim-object :
    (prose inner trailer : Text)
    → trim (prose ++ object inner trailer) ≡ trim_start prose ++ object inner (trim_end trailer)
unfolding trim
trim-object prose inner trailer =
    let front = trim_start prose in
    let opens = trim_start-append prose (inner ++ b'}' ∷ trailer) b'{' refl in
    let closes = trim_end-append (front ++ b'{' ∷ inner) trailer b'}' refl in
    ap trim_end (opens ∙ sym (append_assoc front (b'{' ∷ inner) (b'}' ∷ trailer)))
    ∙ closes
    ∙ append_assoc front (b'{' ∷ inner) (b'}' ∷ trim_end trailer)

fenced-none : (t : Text) → Lacks b'`' t → fenced t ≡ none
unfolding fenced
fenced-none t h = rw (fenced, after_fence-none t h) refl

braced-object :
    (prose inner trailer : Text)
    → Lacks b'{' prose
    → Lacks b'}' trailer
    → braced (prose ++ object inner trailer) ≡ some (object inner [])
unfolding braced
braced-object prose inner trailer no_open no_close =
    rw
      (
        braced,
        from_brace-append prose (inner ++ b'}' ∷ trailer) no_open,
        to_brace-append (b'{' ∷ inner) trailer no_close,
      )
      refl

-- `{…}` in prose that has no brace of its own on its side, and no code: unless the text is JSON as
-- a whole, what is read is the object.
pub extract_json-wrapped :
    {J : Type 0} (json_parse : Text → Option J) (prose inner trailer : Text)
    → Lacks b'{' prose
    → Lacks b'}' trailer
    → Lacks b'`' (prose ++ object inner trailer)
    → json_parse (trim (prose ++ object inner trailer)) ≡ none
    → extract_json json_parse (prose ++ object inner trailer) ≡ json_parse (object inner [])
unfolding extract_json
extract_json-wrapped json_parse prose inner trailer no_open no_close no_code whole =
    let t = prose ++ object inner trailer in
    let no_code_inside : Lacks b'`' (trim t) =
      unfold trim in
      All-trim_end (λ c. (c == b'`') ≡ false) (trim_start t)
        (All-trim_start (λ c. (c == b'`') ≡ false) t no_code) in
    let found : braced (trim t) ≡ some (object inner []) =
      ap braced (trim-object prose inner trailer)
      ∙ braced-object (trim_start prose) inner (trim_end trailer)
          (All-trim_start (λ c. (c == b'{') ≡ false) prose no_open)
          (All-trim_end (λ c. (c == b'}') ≡ false) trailer no_close) in
    rw (whole, fenced-none (trim t) no_code_inside, found) refl
