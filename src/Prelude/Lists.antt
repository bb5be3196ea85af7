-- ===== src/Prelude/Lists.antt =====
-- Lists measured by native numbers, and Boolean searches that run in a test.
use Prim.Native.Nat.{ℕ, zero, suc, ◌+◌, ◌≤◌}
use mathlib.Core.Path.{◌≡◌, refl, subst}
use mathlib.Core.Bool.{Bool, true, false, ◌&&◌, ◌||◌}
use mathlib.Core.List.{List, [], ◌∷◌, ◌++◌}
use mathlib.Core.Logic.{◌⊎◌, inl, inr}
use mathlib.Core.Option.{Option, none, some}
use native.Mathlib.Omega.{arith}
use previewer.Prelude.Tests.{if◌then◌else◌, Bool-cases}

module _ {ℓ} {A : Type ℓ} where
  abbrev pub length : List A → ℕ
  length [] = 0
  length (x ∷ xs) = suc (length xs)

  -- `xs.some(p)`
  abbrev pub any : (A → Bool) → List A → Bool
  any p [] = false
  any p (x ∷ xs) = p x || any p xs

  -- `xs.every(p)`
  abbrev pub all : (A → Bool) → List A → Bool
  all p [] = true
  all p (x ∷ xs) = p x && all p xs

  -- `xs.find(p)`
  abbrev pub find : (A → Bool) → List A → Option A
  find p [] = none
  find p (x ∷ xs) = if p x then some x else find p xs

  -- `xs.filter(p)`
  abbrev pub keep : (A → Bool) → List A → List A
  keep p [] = []
  keep p (x ∷ xs) = let rest = keep p xs in if p x then x ∷ rest else rest

  -- `LIMIT n`
  abbrev pub take : ℕ → List A → List A
  take zero xs = []
  take (suc n) [] = []
  take (suc n) (x ∷ xs) = x ∷ take n xs

  pub length-append : (xs ys : List A) → length (xs ++ ys) ≡ length xs + length ys
  length-append [] ys = omega arith
  length-append (x ∷ xs) ys = omega (arith, length-append xs ys)

  pub length-keep-le : (p : A → Bool) (xs : List A) → length (keep p xs) ≤ length xs
  length-keep-le p [] = omega arith
  length-keep-le p (x ∷ xs) = ground (arith, length-keep-le p xs)

  -- What a search finds passes the test.
  pub find_sound : (p : A → Bool) (xs : List A) (a : A) → find p xs ≡ some a → p a ≡ true
  find_sound p [] a h = ground arith
  find_sound p (x ∷ xs) a h = ground (arith, find_sound p xs a)

module _ {ℓ κ} {A : Type ℓ} (P : A → Type κ) where
  abbrev pub All : List A → Type κ
  All [] = Unit
  All (x ∷ xs) = P x × All xs

module _ {ℓ κ μ} {A : Type ℓ} {P : A → Type κ} {Q : A → Type μ} where
  pub All-map : ((a : A) → P a → Q a) → (xs : List A) → All P xs → All Q xs
  All-map f [] h = tt
  All-map f (x ∷ xs) h = (f x h.0, All-map f xs h.1)

-- The type without an element, at any level.
pub data Nowhere {ℓ} : Type ℓ where

-- `a` is an element of the list.
abbrev pub Has {ℓ} : {A : Type ℓ} → A → List A → Type ℓ
Has a [] = Nowhere
Has a (x ∷ xs) = (x ≡ a) ⊎ Has a xs

pub All-Has {ℓ κ} : {A : Type ℓ} (P : A → Type κ) (xs : List A) {a : A} → All P xs → Has a xs → P a
All-Has P [] h i = elim i [ ]
All-Has P (x ∷ xs) h (inl e) = subst P e h.0
All-Has P (x ∷ xs) h (inr i) = All-Has P xs h.1 i

pub find-Has {ℓ} : {A : Type ℓ} (p : A → Bool) (xs : List A) {a : A} → find p xs ≡ some a → Has a xs
find-Has p [] h = absurd (ground arith)
find-Has p (x ∷ xs) h = elim (Bool-cases (p x)) [
  | inl e ↦ inl (ground arith)
  | inr e ↦ inr (find-Has p xs (ground arith))
]

pub All-tabulate {ℓ κ} :
    {A : Type ℓ} (P : A → Type κ) (xs : List A) → ((a : A) → Has a xs → P a) → All P xs
All-tabulate P [] f = tt
All-tabulate P (x ∷ xs) f = (f x (inl refl), All-tabulate P xs (λ a i. f a (inr i)))

-- `keep` keeps the elements that pass, and no others.
pub keep_sound {ℓ} :
    {A : Type ℓ} (p : A → Bool) (xs : List A) {y : A} → Has y (keep p xs) → Has y xs × (p y ≡ true)
keep_sound p [] i = elim i [ ]
keep_sound p (x ∷ xs) {y} i = elim (Bool-cases (p x)) [
  | inl e ↦ elim (rw e at i) [
    | inl same ↦ (inl same, subst (λ z. p z ≡ true) same e)
    | inr later ↦ let found = keep_sound p xs later in (inr found.0, found.1)
  ]
  | inr e ↦ let found = keep_sound p xs (rw e at i) in (inr found.0, found.1)
]

pub keep-Has {ℓ} :
    {A : Type ℓ} (p : A → Bool) (xs : List A) {y : A} → Has y xs → p y ≡ true → Has y (keep p xs)
keep-Has p [] i h = elim i [ ]
keep-Has p (x ∷ xs) {y} (inl same) h = rw (same, h) (inl refl)
keep-Has p (x ∷ xs) {y} (inr later) h = elim (Bool-cases (p x)) [
  | inl e ↦ rw e (inr (keep-Has p xs later h))
  | inr e ↦ rw e (keep-Has p xs later h)
]
