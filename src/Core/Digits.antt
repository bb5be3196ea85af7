-- ===== src/Core/Digits.antt =====
-- `String(n)` for a whole number, and the texts that the source joins.
use Prim.Native.String.{◌++◌ as str_append}
use previewer.Prelude.{ℕ, zero, suc, ◌+◌, ◌-◌, ◌*◌, ◌/◌, String, List, [], ◌∷◌, ltb, if◌then◌else◌}
use previewer.Core.Text.{Text}

-- The digits in front of `rest`, for which `n + 1` rounds are enough.
digits_before : ℕ → ℕ → Text → Text
digits_before zero n rest = rest
digits_before (suc fuel) n rest =
    let last = n - n / 10 * 10 + 48 in
    let more = digits_before fuel (n / 10) (last ∷ rest) in if ltb n 10 then last ∷ rest else more

unfoldable pub digits : ℕ → Text
unfolding digits_before
digits n = digits_before (suc n) n []

-- `names.join(sep)`
unfoldable pub join_strings : String → List String → String
join_strings sep [] = ""
join_strings sep (s ∷ []) = s
join_strings sep (s ∷ t ∷ ss) = str_append s (str_append sep (join_strings sep (t ∷ ss)))
