-- ===== src/Prelude/Counts.antt =====
-- How many rows of a table pass a test, after a statement.
use Prim.Native.Nat.{suc, ◌+◌, ◌≤◌, ◌<◌}
use mathlib.Core.Path.{◌≡◌, refl, ap}
use mathlib.Core.Bool.{Bool, true, false}
use mathlib.Core.List.{List, [], ◌∷◌, ◌++◌}
use mathlib.Core.Logic.{inl, inr}
use native.Mathlib.Omega.{arith}
use previewer.Prelude.Lists.{length, All, Has}
use previewer.Prelude.Table.{update_where, delete_where, count_where}

module _ {ℓ} {A : Type ℓ} (p q : A → Bool) (g : A → A) where
  -- An update that keeps a test keeps the count.
  pub count_where-update_where :
      ((r : A) → p (g r) ≡ p r)
      → (t : List A) → count_where p (update_where q g t) ≡ count_where p t
  unfolding count_where update_where
  count_where-update_where keeps [] = refl
  count_where-update_where keeps (r ∷ t) = ground (arith, keeps r, count_where-update_where keeps t)

  -- An update that makes no row pass makes no count grow.
  pub count_where-update_where-le :
      ((r : A) → p (g r) ≡ true → p r ≡ true)
      → (t : List A) → count_where p (update_where q g t) ≤ count_where p t
  unfolding count_where update_where
  count_where-update_where-le shrinks [] = omega arith
  count_where-update_where-le shrinks (r ∷ t) =
      ground (arith, shrinks r, count_where-update_where-le shrinks t)

  -- Where no row passes, only the rows that are updated can come to pass.
  pub count_where-update_where_fresh :
      (t : List A) → count_where p t ≡ 0 → count_where p (update_where q g t) ≤ count_where q t
  unfolding count_where update_where
  count_where-update_where_fresh [] h = omega arith
  count_where-update_where_fresh (r ∷ t) h = ground (arith, count_where-update_where_fresh t)

  pub length-update_where : (t : List A) → length (update_where q g t) ≡ length t
  unfolding update_where
  length-update_where [] = refl
  length-update_where (r ∷ t) = ap suc (length-update_where t)

module _ {ℓ} {A : Type ℓ} (p : A → Bool) where
  pub count_where-append :
      (s t : List A) → count_where p (s ++ t) ≡ count_where p s + count_where p t
  unfolding count_where
  count_where-append [] t = omega arith
  count_where-append (r ∷ s) t = omega (arith, count_where-append s t)

module _ {ℓ} {A : Type ℓ} (p q : A → Bool) where
  pub count_where-delete_where-le :
      (t : List A) → count_where p (delete_where q t) ≤ count_where p t
  unfolding count_where delete_where
  count_where-delete_where-le [] = omega arith
  count_where-delete_where-le (r ∷ t) = ground (arith, count_where-delete_where-le t)

  -- A row that passes both tests is counted by each; a stronger test counts no more.
  pub count_where_mono :
      ((r : A) → p r ≡ true → q r ≡ true) → (t : List A) → count_where p t ≤ count_where q t
  unfolding count_where
  count_where_mono h [] = omega arith
  count_where_mono h (r ∷ t) = ground (arith, h r, count_where_mono h t)

module _ {ℓ} {A : Type ℓ} (p q : A → Bool) (g : A → A) where
  -- An update that makes every row that passes fail leaves none that passes.
  pub count_where-update_where-All :
      ((r : A) → p (g r) ≡ false)
      → (t : List A) → All (λ r. p r ≡ true → q r ≡ true) t
      → count_where p (update_where q g t) ≡ 0
  unfolding count_where update_where
  count_where-update_where-All fails [] h = refl
  count_where-update_where-All fails (r ∷ t) h =
      ground (arith, fails r, h.0, count_where-update_where-All fails t h.1)

  -- An update that makes a row fail, which passes, leaves fewer that pass.
  pub count_where-update_where-lt :
      ((r : A) → p (g r) ≡ false)
      → (t : List A) (a : A) → Has a t
      → p a ≡ true
      → q a ≡ true
      → count_where p (update_where q g t) < count_where p t
  unfolding count_where update_where
  count_where-update_where-lt fails [] a i h k = elim i [ ]
  count_where-update_where-lt fails (r ∷ t) a (inl e) h k = ground (
    arith,
    fails r,
    count_where-update_where-le p q g (λ x m. absurd (ground (arith, fails x))) t,
  )
  count_where-update_where-lt fails (r ∷ t) a (inr i) h k =
      ground (arith, fails r, count_where-update_where-lt fails t a i h k)
