-- ===== src/Prelude/Table.antt =====
-- A table of the database as a list of rows, and the statements that the program runs on it:
-- `UPDATE … WHERE`, `DELETE … WHERE`, `SELECT … LIMIT 1` and `COUNT(*) … WHERE`.
use Prim.Native.Nat.{ℕ, ◌+◌}
use mathlib.Core.Bool.{Bool}
use mathlib.Core.List.{List, [], ◌∷◌}
use mathlib.Core.Option.{Option, none, some}
use previewer.Prelude.Tests.{if◌then◌else◌}

module _ {ℓ} {A : Type ℓ} where
  unfoldable pub update_where : (A → Bool) → (A → A) → List A → List A
  update_where q g [] = []
  update_where q g (r ∷ t) = (if q r then g r else r) ∷ update_where q g t

  unfoldable pub delete_where : (A → Bool) → List A → List A
  delete_where q [] = []
  delete_where q (r ∷ t) = let rest = delete_where q t in if q r then rest else r ∷ rest

  unfoldable pub count_where : (A → Bool) → List A → ℕ
  count_where p [] = 0
  count_where p (r ∷ t) = (if p r then 1 else 0) + count_where p t

  abbrev pub prefer : (A → A → Bool) → A → Option A → A
  prefer better r none = r
  prefer better r (some b) = if better b r then b else r

  -- `SELECT … WHERE p ORDER BY … LIMIT 1`: the first row of the least rank, `better a b` meaning
  -- that `a` comes before `b`.
  unfoldable pub select_first : (A → Bool) → (A → A → Bool) → List A → Option A
  select_first p better [] = none
  select_first p better (r ∷ t) =
      let rest = select_first p better t in if p r then some (prefer better r rest) else rest
