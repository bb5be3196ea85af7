-- ===== src/Prelude/Searches.antt =====
-- What a search in a table finds, after a statement.
use Prim.Native.Nat.{◌≤◌, ◌<◌}
use mathlib.Core.Path.{◌≡◌, refl, ap, sym, ◌∙◌}
use mathlib.Core.Bool.{Bool, true, false}
use mathlib.Core.List.{List, [], ◌∷◌, ◌++◌}
use mathlib.Core.Logic.{inl, inr}
use mathlib.Core.Option.{none, some}
use native.Mathlib.Omega.{arith}
use previewer.Prelude.Tests.{if◌then◌else◌, Option-cases, Bool-cases}
use previewer.Prelude.Lists.{find, All, Has, find_sound, find-Has}
use previewer.Prelude.Table.{update_where, delete_where, count_where}

module _ {ℓ} {A : Type ℓ} (p : A → Bool) where
  -- `find` misses exactly when nothing is counted.
  pub find-none_of_count : (t : List A) → count_where p t ≡ 0 → find p t ≡ none
  unfolding count_where
  find-none_of_count [] h = refl
  find-none_of_count (r ∷ t) h = ground (arith, find-none_of_count t)

  pub count-zero_of_find : (t : List A) → find p t ≡ none → count_where p t ≡ 0
  unfolding count_where
  count-zero_of_find [] h = refl
  count-zero_of_find (r ∷ t) h = ground (arith, count-zero_of_find t)

  pub count-pos_of_find : (t : List A) {r : A} → find p t ≡ some r → 0 < count_where p t
  unfolding count_where
  count-pos_of_find [] h = ground arith
  count-pos_of_find (x ∷ t) {r} h = ground (arith, count-pos_of_find t {r = r})

module _ {ℓ} {A : Type ℓ} (p q : A → Bool) (g : A → A) where
  -- An update of rows that the search does not ask for leaves what it finds.
  pub find-update_where_other :
      ((r : A) → q r ≡ true → p r ≡ false)
      → ((r : A) → q r ≡ true → p (g r) ≡ false)
      → (t : List A) → find p (update_where q g t) ≡ find p t
  unfolding update_where
  find-update_where_other before after [] = refl
  find-update_where_other before after (r ∷ t) =
      ground (arith, before r, after r, find-update_where_other before after t)

  -- An update of the rows that are asked for shows in what is found.
  pub find-update_where_self :
      ((r : A) → p r ≡ true → q r ≡ true)
      → ((r : A) → p (g r) ≡ p r)
      → (t : List A) {r : A} → find p t ≡ some r
      → find p (update_where q g t) ≡ some (g r)
  unfolding update_where
  find-update_where_self hits keeps [] h = ground arith
  find-update_where_self hits keeps (x ∷ t) {r} h =
      ground (arith, hits x, keeps x, find-update_where_self hits keeps t {r = r})

  pub find-update_where_miss :
      ((r : A) → p (g r) ≡ p r)
      → (t : List A) → find p t ≡ none
      → find p (update_where q g t) ≡ none
  unfolding update_where
  find-update_where_miss keeps [] h = refl
  find-update_where_miss keeps (x ∷ t) h = ground (arith, keeps x, find-update_where_miss keeps t)

  -- If the test does not see the update, the row that is found is the old one or its update.
  pub find-update_where :
      ((r : A) → p (g r) ≡ p r)
      → (t : List A) {r : A} → find p t ≡ some r
      → find p (update_where q g t) ≡ some (if q r then g r else r)
  unfolding update_where
  find-update_where keeps [] h = ground arith
  find-update_where keeps (x ∷ t) {r} h = ground (arith, keeps x, find-update_where keeps t {r = r})

module _ {ℓ} {A : Type ℓ} (q : A → Bool) (g : A → A) where
  -- An update that no row asks for changes nothing.
  pub update_where-none : (t : List A) → count_where q t ≡ 0 → update_where q g t ≡ t
  unfolding update_where count_where
  update_where-none [] h = refl
  update_where-none (x ∷ t) h = ground (arith, update_where-none t)

  pub update_where-All {κ} :
      (P : A → Type κ)
      → ((r : A) → q r ≡ true → P (g r))
      → (t : List A) → All (λ r. q r ≡ false → P r) t
      → All P (update_where q g t)
  unfolding update_where
  update_where-All P new [] h = tt
  update_where-All P new (x ∷ t) h = elim (Bool-cases (q x)) [
    | inl e ↦ (rw e (new x e), update_where-All P new t h.1)
    | inr e ↦ (rw e (h.0 e), update_where-All P new t h.1)
  ]

module _ {ℓ} {A : Type ℓ} (p : A → Bool) where
  pub All-of_count_zero : (t : List A) → count_where p t ≡ 0 → All (λ x. p x ≡ false) t
  unfolding count_where
  All-of_count_zero [] h = tt
  All-of_count_zero (x ∷ t) h = (ground arith, All-of_count_zero t (ground arith))

  pub count_zero_of_All : (t : List A) → All (λ x. p x ≡ false) t → count_where p t ≡ 0
  unfolding count_where
  count_zero_of_All [] h = refl
  count_zero_of_All (x ∷ t) h = ground (arith, count_zero_of_All t h.1)

  count-pos_of_Has : (t : List A) (a : A) → Has a t → p a ≡ true → 0 < count_where p t
  unfolding count_where
  count-pos_of_Has [] a i k = elim i [ ]
  count-pos_of_Has (x ∷ t) a (inl e) k = ground arith
  count-pos_of_Has (x ∷ t) a (inr i) k = ground (arith, count-pos_of_Has t a i k)

  -- Where one row at most passes, two rows that pass are the same.
  pub same_row :
      (t : List A) (a b : A)
      → count_where p t ≤ 1
      → Has a t
      → Has b t
      → p a ≡ true
      → p b ≡ true
      → a ≡ b
  unfolding count_where
  same_row [] a b one i j ka kb = elim i [ ]
  same_row (x ∷ t) a b one (inl e) (inl f) ka kb = sym e ∙ f
  same_row (x ∷ t) a b one (inl e) (inr j) ka kb =
      absurd (ground (arith, count-pos_of_Has t b j kb))
  same_row (x ∷ t) a b one (inr i) (inl f) ka kb =
      absurd (ground (arith, count-pos_of_Has t a i ka))
  same_row (x ∷ t) a b one (inr i) (inr j) ka kb = same_row t a b (ground arith) i j ka kb

  -- Where one row at most passes, a row that passes is the one that is found.
  pub find_unique :
      (t : List A) (a : A) → count_where p t ≤ 1 → Has a t → p a ≡ true → find p t ≡ some a
  find_unique t a one i k = elim (Option-cases (find p t)) [
    | inl e ↦ absurd (omega (arith, count-pos_of_Has t a i k, count-zero_of_find p t e))
    | inr (x, e) ↦ e ∙ ap some (same_row t x a one (find-Has p t e) i (find_sound p t x e) k)
  ]

  pub find-append_miss : (s t : List A) → find p s ≡ none → find p (s ++ t) ≡ find p t
  find-append_miss [] t h = refl
  find-append_miss (x ∷ s) t h = ground (arith, find-append_miss s t)

  pub find-append_other : (t : List A) (r : A) → p r ≡ false → find p (t ++ r ∷ []) ≡ find p t
  find-append_other [] r h = rw h refl
  find-append_other (x ∷ t) r h = ground (arith, find-append_other t r h)

  pub find-append_hit : (s t : List A) (r : A) → find p s ≡ some r → find p (s ++ t) ≡ some r
  find-append_hit [] t r h = ground arith
  find-append_hit (x ∷ s) t r h = ground (arith, find-append_hit s t r)

module _ {ℓ} {A : Type ℓ} (p q : A → Bool) where
  pub count_where_mono-All :
      (t : List A) → All (λ r. p r ≡ true → q r ≡ true) t → count_where p t ≤ count_where q t
  unfolding count_where
  count_where_mono-All [] h = omega arith
  count_where_mono-All (r ∷ t) h = ground (arith, h.0, count_where_mono-All t h.1)

module _ {ℓ} {A : Type ℓ} (p q : A → Bool) where
  -- Deleting rows that the search does not ask for leaves what it finds.
  pub find-delete_where_other :
      (t : List A) → All (λ r. q r ≡ true → p r ≡ false) t → find p (delete_where q t) ≡ find p t
  unfolding delete_where
  find-delete_where_other [] h = refl
  find-delete_where_other (r ∷ t) h = ground (arith, h.0, find-delete_where_other t h.1)

  -- Deleting all the rows that it asks for leaves nothing to find.
  pub find-delete_where-All :
      (t : List A) → All (λ r. p r ≡ true → q r ≡ true) t → find p (delete_where q t) ≡ none
  unfolding delete_where
  find-delete_where-All [] h = refl
  find-delete_where-All (r ∷ t) h = ground (arith, h.0, find-delete_where-All t h.1)

-- A table searched by a key: `hit k r` means that the row has the key `k`.
module _ {ℓ κ} {K : Type κ} {A : Type ℓ} (hit : K → A → Bool) (same : K → K → Bool)
    (same_eq : (k o : K) → same k o ≡ true → k ≡ o)
    (apart : (k o : K) (r : A) → same k o ≡ false → hit k r ≡ true → hit o r ≡ false)
    (k o : K) where
  pub find-update_where_key :
      (g : A → A) (t : List A) (r : A)
      → ((j : K) (x : A) → hit j (g x) ≡ hit j x)
      → find (hit k) t ≡ some r
      → find (hit o) (update_where (hit k) g t) ≡ (if same k o then some (g r) else find (hit o) t)
  find-update_where_key g t r keeps h = elim (Bool-cases (same k o)) [
    | inl e ↦
        rw (e, ← same_eq k o e) (find-update_where_self (hit k) (hit k) g (λ x i. i) (keeps k) t h)
    | inr e ↦ rw e (
        find-update_where_other (hit o) (hit k) g (λ x i. apart k o x e i)
          (λ x i. keeps o x ∙ apart k o x e i) t)
  ]

  pub find-append_key :
      (t : List A) (r : A)
      → find (hit k) t ≡ none
      → hit k r ≡ true
      → find (hit o) (t ++ r ∷ []) ≡ (if same k o then some r else find (hit o) t)
  find-append_key t r h i = elim (Bool-cases (same k o)) [
    | inl e ↦ rw (e, ← same_eq k o e, find-append_miss (hit k) t (r ∷ []) h, i) refl
    | inr e ↦ rw e (find-append_other (hit o) t r (apart k o r e i))
  ]
