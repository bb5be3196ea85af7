-- ===== src/Dashboard/Order.antt =====
-- The order of the columns `repo`, `pr_number` and the time, by which the queries sort.
use previewer.Prelude.{◌≡◌, refl, Bool, true, false, ◌&&◌, ◌||◌, [], ◌∷◌, ltb, ◌==◌, arith}
use previewer.Core.Text.{Text}

-- The order of texts, unit by unit, with a shorter one before those that it begins.
unfoldable pub text_before : Text → Text → Bool
text_before s [] = false
text_before [] (d ∷ t) = true
text_before (c ∷ s) (d ∷ t) = ltb c d || (c == d && text_before s t)

pub text_before_asym : (s t : Text) → text_before s t ≡ true → text_before t s ≡ false
unfolding text_before
text_before_asym [] [] h = refl
text_before_asym (c ∷ s) [] h = absurd (ground (arith, h))
text_before_asym [] (d ∷ t) h = refl
text_before_asym (c ∷ s) (d ∷ t) h = ground (arith, h, text_before_asym s t)

pub text_before_cotrans :
    (s t u : Text) → text_before s t ≡ false → text_before t u ≡ false → text_before s u ≡ false
unfolding text_before
text_before_cotrans s t [] h k = ground arith
text_before_cotrans s [] (e ∷ u) h k = absurd (ground (arith, k))
text_before_cotrans [] (d ∷ t) (e ∷ u) h k = absurd (ground (arith, h))
text_before_cotrans (c ∷ s) (d ∷ t) (e ∷ u) h k = ground (arith, h, k, text_before_cotrans s t u)
