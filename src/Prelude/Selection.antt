-- ===== src/Prelude/Selection.antt =====
-- The row that `SELECT … WHERE … ORDER BY … LIMIT 1` returns.
use Prim.Native.Nat.{◌<◌}
use mathlib.Core.Path.{◌≡◌, refl}
use mathlib.Core.Bool.{Bool, true, false, not, ◌&&◌}
use mathlib.Core.List.{List, [], ◌∷◌}
use mathlib.Core.Logic.{inl, inr}
use mathlib.Core.Option.{none, some}
use native.Mathlib.Omega.{arith}
use previewer.Prelude.Tests.{Option-cases, Bool-cases}
use previewer.Prelude.Lists.{All, All-map, Has}
use previewer.Prelude.Table.{count_where, select_first}

module _ {ℓ} {A : Type ℓ} (p : A → Bool) (better : A → A → Bool) where
  -- The row that is selected passes the test.
  pub select_first_sound : (t : List A) (r : A) → select_first p better t ≡ some r → p r ≡ true
  unfolding select_first
  select_first_sound [] r h = ground arith
  select_first_sound (x ∷ t) r h = elim (Option-cases (select_first p better t)) [
    | inl e ↦ ground (arith, e)
    | inr (b, e) ↦ ground (arith, e, select_first_sound t b)
  ]

  -- It is a row of the table: each test that it passes counts at least one.
  pub count-pos_of_select :
      (s : A → Bool) (t : List A) (r : A)
      → select_first p better t ≡ some r
      → s r ≡ true
      → 0 < count_where s t
  unfolding select_first count_where
  count-pos_of_select s [] r h k = ground arith
  count-pos_of_select s (x ∷ t) r h k = elim (Option-cases (select_first p better t)) [
    | inl e ↦ ground (arith, e)
    | inr (b, e) ↦ ground (arith, e, count-pos_of_select s t b)
  ]

  -- Nothing is selected exactly when no row passes.
  pub select_first-none : (t : List A) → count_where p t ≡ 0 → select_first p better t ≡ none
  unfolding select_first count_where
  select_first-none [] h = refl
  select_first-none (x ∷ t) h = ground (arith, select_first-none t)

  pub count-zero_of_select : (t : List A) → select_first p better t ≡ none → count_where p t ≡ 0
  unfolding select_first count_where
  count-zero_of_select [] h = refl
  count-zero_of_select (x ∷ t) h = elim (Option-cases (select_first p better t)) [
    | inl e ↦ ground (arith, e, count-zero_of_select t)
    | inr (b, e) ↦ ground (arith, e)
  ]

  unselected :
      (Q : A → Bool) (t : List A)
      → select_first p better t ≡ none
      → All (λ x. p x ≡ true → Q x ≡ false) t
  unfolding select_first
  unselected Q [] h = tt
  unselected Q (x ∷ t) h = elim (Option-cases (select_first p better t)) [
    | inl e ↦ (λ k. ground (arith, e), unselected Q t e)
    | inr (b, e) ↦ absurd (ground (arith, e))
  ]

  -- Under a strict weak order no row that passes comes before the one that is selected.
  pub select_first-least :
      ((a b : A) → better a b ≡ true → better b a ≡ false)
      → ((a b c : A) → better a b ≡ false → better b c ≡ false → better a c ≡ false)
      → (t : List A) (r : A) → select_first p better t ≡ some r
      → All (λ x. p x ≡ true → better x r ≡ false) t
  unfolding select_first
  select_first-least asym cotrans [] r h = tt
  select_first-least asym cotrans (x ∷ t) r h = elim (Option-cases (select_first p better t)) [
    | inl e ↦ (λ k. ground (arith, e, asym x x), unselected (λ y. better y r) t e)
    | inr (b, e) ↦
        let ih = select_first-least asym cotrans t b e in
        elim (Bool-cases (p x && not (better b x))) [
          | inl first ↦ (
            λ k. ground (arith, e, asym x x),
            All-map (λ y g k. ground (arith, e, g k, cotrans y b x)) t ih,
          )
          | inr rest ↦
              (λ k. ground (arith, e, asym b x), All-map (λ y g k. ground (arith, e, g k)) t ih)
        ]
  ]

  pub select_first-Has : (t : List A) (r : A) → select_first p better t ≡ some r → Has r t
  unfolding select_first
  select_first-Has [] r h = absurd (ground arith)
  select_first-Has (x ∷ t) r h = elim (Option-cases (select_first p better t)) [
    | inl e ↦ inl (ground (arith, e))
    | inr (b, e) ↦ elim (Bool-cases (p x && not (better b x))) [
      | inl first ↦ inl (ground (arith, e))
      | inr rest ↦ let same : b ≡ r = ground (arith, e) in inr (rw same at (select_first-Has t b e))
    ]
  ]
