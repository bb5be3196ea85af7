-- ===== src/Worker/Gate.antt =====
-- src/apps/worker/gate.ts: the gate before a runner is spent.
use previewer.Prelude.{
  String, ℕ, ◌≡◌, refl, ◌↔◌, Bool, true, false, not, List, [], ◌∷◌, any, keep, keep_sound, keep-Has,
  length, Has, inl, arith,
}
use previewer.Core.Text.{Text}
use previewer.Github.Change.{ChangedFile}
use previewer.Context.Glob.{glob_match}

-- The reason to review is the number of the files that are not ignored.
pub data GatingDecision : Type 0 where
  skip : String → GatingDecision
  review : ℕ → GatingDecision

-- `ignorePaths.some((g) => globMatch(g, f.path))`
unfoldable pub is_ignored : List Text → ChangedFile → Bool
is_ignored ignore_paths f = any (λ g. glob_match g f.path) ignore_paths

-- The decision on the files that are not ignored.
abbrev decide : List ChangedFile → GatingDecision
decide [] = skip "only ignored paths changed"
decide (r ∷ rs) = review (length (r ∷ rs))

-- `gate`
unfoldable pub gate : List ChangedFile → List Text → GatingDecision
unfolding is_ignored
gate [] ignore_paths = skip "no changed files"
gate (f ∷ fs) ignore_paths = decide (keep (λ x. not (is_ignored ignore_paths x)) (f ∷ fs))

decide-Has :
    (kept : List ChangedFile) (n : ℕ) → decide kept ≡ review n → (f : ChangedFile) × Has f kept
decide-Has [] n h = absurd (ground (arith, h))
decide-Has (f ∷ fs) n h = (f, inl refl)

Has-decide :
    (kept : List ChangedFile) (f : ChangedFile) → Has f kept → (n : ℕ) × (decide kept ≡ review n)
Has-decide [] f i = elim i [ ]
Has-decide (r ∷ rs) f i = (_, refl)

not-false : (b : Bool) → not b ≡ true → b ≡ false
not-false b h = ground arith

-- A change is reviewed exactly if it has a file that no path to ignore matches.
gate_reviews :
    (changed : List ChangedFile) (ignore_paths : List Text)
    → ((n : ℕ) × (gate changed ignore_paths ≡ review n))
      ↔ ((f : ChangedFile) × Has f changed × (is_ignored ignore_paths f ≡ false))
unfolding gate is_ignored
gate_reviews [] ignore_paths = (λ h. absurd (ground (arith, h.1)), λ h. elim h.1 [ ])
gate_reviews (x ∷ xs) ignore_paths =
    let passes : ChangedFile → Bool = λ y. not (is_ignored ignore_paths y) in
    (
      λ h.
          let some_kept = decide-Has (keep passes (x ∷ xs)) h.0 h.1 in
          let found = keep_sound passes (x ∷ xs) some_kept.1 in
          (some_kept.0, found.0, not-false (is_ignored ignore_paths some_kept.0) found.1),
      λ h. Has-decide (keep passes (x ∷ xs)) h.0 (keep-Has passes (x ∷ xs) h.1 (rw h.2 refl)),
    )
