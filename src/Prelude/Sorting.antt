-- ===== src/Prelude/Sorting.antt =====
-- `ORDER BY` and `sort`: a stable insertion sort, `before a b` meaning that `a` comes first.
use Prim.Native.Nat.{◌≤◌}
use mathlib.Core.Path.{◌≡◌, refl, ◌∙◌}
use mathlib.Core.Bool.{Bool, true, false, ◌&&◌}
use mathlib.Core.List.{List, [], ◌∷◌}
use mathlib.Core.Logic.{inl, inr}
use native.Mathlib.Omega.{arith}
use previewer.Prelude.Tests.{if◌then◌else◌, Bool-cases, Option-cases}
use previewer.Prelude.Lists.{
  All, All-Has, All-map, All-tabulate, Has, find, find-Has, find_sound, keep,
}
use previewer.Prelude.Searches.{find-none_of_count, count-zero_of_find, find_unique}
use previewer.Prelude.Table.{count_where}

module _ {ℓ} {A : Type ℓ} (before : A → A → Bool) where
  unfoldable pub insert_by : A → List A → List A
  insert_by x [] = x ∷ []
  insert_by x (y ∷ ys) = let rest = insert_by x ys in if before y x then y ∷ rest else x ∷ y ∷ ys

  unfoldable pub sort_by : List A → List A
  unfolding insert_by
  sort_by [] = []
  sort_by (x ∷ xs) = insert_by x (sort_by xs)

  -- No element comes before one that stands in front of it.
  abbrev pub IsOrdered : List A → Type ℓ
  IsOrdered [] = Unit
  IsOrdered (x ∷ xs) = All (λ y. before y x ≡ false) xs × IsOrdered xs

  count_where-insert_by :
      (p : A → Bool) (x : A) (ys : List A) → count_where p (insert_by x ys) ≡ count_where p (x ∷ ys)
  unfolding count_where insert_by
  count_where-insert_by p x [] = refl
  count_where-insert_by p x (y ∷ ys) = ground (arith, count_where-insert_by p x ys)

  pub count_where-sort_by :
      (p : A → Bool) (xs : List A) → count_where p (sort_by xs) ≡ count_where p xs
  unfolding count_where sort_by
  count_where-sort_by p [] = refl
  count_where-sort_by p (x ∷ xs) =
      ground (arith, count_where-insert_by p x (sort_by xs), count_where-sort_by p xs)

  All-insert_by {κ} :
      (P : A → Type κ) (x : A) (ys : List A) → P x → All P ys → All P (insert_by x ys)
  unfolding insert_by
  All-insert_by P x [] h k = (h, tt)
  All-insert_by P x (y ∷ ys) h k = elim (Bool-cases (before y x)) [
    | inl e ↦ rw e (k.0, All-insert_by P x ys h k.1)
    | inr e ↦ rw e (h, k)
  ]

  pub All-sort_by {κ} : (P : A → Type κ) (xs : List A) → All P xs → All P (sort_by xs)
  unfolding sort_by
  All-sort_by P [] h = tt
  All-sort_by P (x ∷ xs) h = All-insert_by P x (sort_by xs) h.0 (All-sort_by P xs h.1)

  Has-insert_by : (a x : A) (ys : List A) → Has a (x ∷ ys) → Has a (insert_by x ys)
  unfolding insert_by
  Has-insert_by a x [] h = h
  Has-insert_by a x (y ∷ ys) h = elim (Bool-cases (before y x)) [
    | inr e ↦ rw e h
    | inl e ↦ rw e (elim h [
      | inl here ↦ inr (Has-insert_by a x ys (inl here))
      | inr later ↦ elim later [
        | inl here ↦ inl here
        | inr rest ↦ inr (Has-insert_by a x ys (inr rest))
      ]
    ])
  ]

  pub Has-sort_by : (a : A) (xs : List A) → Has a xs → Has a (sort_by xs)
  unfolding sort_by
  Has-sort_by a [] h = elim h [ ]
  Has-sort_by a (x ∷ xs) (inl e) = Has-insert_by a x (sort_by xs) (inl e)
  Has-sort_by a (x ∷ xs) (inr i) = Has-insert_by a x (sort_by xs) (inr (Has-sort_by a xs i))

  pub sort_by-Has : (a : A) (xs : List A) → Has a (sort_by xs) → Has a xs
  sort_by-Has a xs i =
      All-Has (λ y. Has y xs) (sort_by xs)
        (All-sort_by (λ y. Has y xs) xs (All-tabulate (λ y. Has y xs) xs (λ y j. j))) i

  module _ (asym : (a b : A) → before a b ≡ true → before b a ≡ false)
      (cotrans : (a b c : A) → before a b ≡ false → before b c ≡ false → before a c ≡ false) where
    insert_by-IsOrdered : (x : A) (ys : List A) → IsOrdered ys → IsOrdered (insert_by x ys)
    unfolding insert_by
    insert_by-IsOrdered x [] h = (tt, tt)
    insert_by-IsOrdered x (y ∷ ys) h = elim (Bool-cases (before y x)) [
      | inl e ↦ rw e (
        All-insert_by (λ z. before z y ≡ false) x ys (asym y x e) h.0,
        insert_by-IsOrdered x ys h.1,
      )
      | inr e ↦ rw e ((e, All-map (λ z g. cotrans z y x g e) ys h.0), h)
    ]

    pub sort_by-IsOrdered : (xs : List A) → IsOrdered (sort_by xs)
    unfolding sort_by
    sort_by-IsOrdered [] = tt
    sort_by-IsOrdered (x ∷ xs) = insert_by-IsOrdered x (sort_by xs) (sort_by-IsOrdered xs)

module _ {ℓ} {A : Type ℓ} (before : A → A → Bool) (p : A → Bool) where
  -- Where one element at most passes, the order does not matter to a search.
  pub find-sort_by : (xs : List A) → count_where p xs ≤ 1 → find p (sort_by before xs) ≡ find p xs
  find-sort_by xs one = elim (Option-cases (find p xs)) [
    | inl e ↦ rw e (
        find-none_of_count p (sort_by before xs)
          (count_where-sort_by before p xs ∙ count-zero_of_find p xs e))
    | inr (a, e) ↦ rw e (
        find_unique p (sort_by before xs) a (omega (arith, one, count_where-sort_by before p xs))
          (Has-sort_by before a xs (find-Has p xs e)) (find_sound p xs a e))
  ]

-- What passes the test `q` is counted by the test that is kept and `p`.
pub count_where-keep {ℓ} :
    {A : Type ℓ} (p q : A → Bool) (xs : List A)
    → count_where p (keep q xs) ≡ count_where (λ x. q x && p x) xs
unfolding count_where
count_where-keep p q [] = refl
count_where-keep p q (x ∷ xs) = ground (arith, count_where-keep p q xs)
