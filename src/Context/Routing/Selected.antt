-- ===== src/Context/Routing/Selected.antt =====
-- What a change selects.
use previewer.Prelude.{
  ◌≤◌, ◌≡◌, refl, inl, inr, String, Bool, true, false, ◌&&◌, ◌||◌, List, [], ◌∷◌, ◌++◌, arith, any,
  map, str_eq, str_eq_iff, Bool-cases, Option, none, some, Option-cases, count_where,
  count_where-append,
}
use previewer.Core.Text.{Text}
use previewer.Github.Change.{ChangedFile}
use previewer.Context.Pack.{Route, PackProfile, ContextPack}
use previewer.Context.Routing.{
  holds, add_name, add_all, is_routed, activate, add_each, found_profiles, resolve_context,
}

holds-append : (ns ms : List String) (m : String) → holds (ns ++ ms) m ≡ holds ns m || holds ms m
holds-append [] ms m = refl
holds-append (n ∷ ns) ms m = ground (arith, holds-append ns ms m)

-- A name counts as held if an equal one is.
holds-same :
    (ns : List String) (n m : String) → str_eq m n ≡ true → holds ns n ≡ true → holds ns m ≡ true
holds-same ns n m same h = rw ((str_eq_iff m n).0 same) h

holds-add_name :
    (ns : List String) (n m : String) → holds (add_name ns n) m ≡ holds ns m || str_eq m n
unfolding add_name
holds-add_name ns n m = elim (Bool-cases (holds ns n)) [
  | inl e ↦ ground (arith, e, holds-same ns n m)
  | inr e ↦ ground (arith, e, holds-append ns (n ∷ []) m)
]

holds-add_all :
    (ns ms : List String) (m : String) → holds (add_all ns ms) m ≡ holds ns m || holds ms m
unfolding add_all
holds-add_all ns [] m = ground arith
holds-add_all ns (n ∷ ms) m =
    ground (arith, holds-add_all (add_name ns n) ms m, holds-add_name ns n m)

-- A route of the list activates the name.
abbrev pub activates : List Text → String → Route → Bool
activates paths n r = is_routed paths r && holds r.activate_profiles n

holds-activate :
    (paths : List Text) (rs : List Route) (ns : List String) (n : String)
    → holds (activate paths rs ns) n ≡ holds ns n || any (activates paths n) rs
unfolding activate
holds-activate paths [] ns n = ground arith
holds-activate paths (r ∷ rs) ns n = elim (Bool-cases (is_routed paths r)) [
  | inl e ↦ rw e (
      ground (
        arith,
        holds-activate paths rs (add_all ns r.activate_profiles) n,
        holds-add_all ns r.activate_profiles n,
      ))
  | inr e ↦ rw e (ground (arith, holds-activate paths rs ns n))
]

abbrev IsDistinct : List String → Type 0
IsDistinct ns = (n : String) → count_where (str_eq n) ns ≤ 1

count-zero_of_holds :
    (ns : List String) (n : String) → holds ns n ≡ false → count_where (str_eq n) ns ≡ 0
unfolding count_where
count-zero_of_holds [] n h = refl
count-zero_of_holds (m ∷ ns) n h = ground (arith, h, count-zero_of_holds ns n)

add_name-IsDistinct : (ns : List String) (n : String) → IsDistinct ns → IsDistinct (add_name ns n)
unfolding add_name count_where
add_name-IsDistinct ns n d m = elim (Bool-cases (holds ns n)) [
  | inl e ↦ rw e (d m)
  | inr e ↦
      let append = count_where-append (str_eq m) ns (n ∷ []) in
      elim (Bool-cases (str_eq m n)) [
        | inl same ↦
            let fresh : count_where (str_eq m) ns ≡ 0 =
              rw ((str_eq_iff m n).0 same) (count-zero_of_holds ns n e) in
            rw e (ground (arith, append, fresh))
        | inr other ↦ rw e (ground (arith, append, other, d m))
      ]
]

add_all-IsDistinct : (ns ms : List String) → IsDistinct ns → IsDistinct (add_all ns ms)
unfolding add_all
add_all-IsDistinct ns [] d = d
add_all-IsDistinct ns (n ∷ ms) d =
    add_all-IsDistinct (add_name ns n) ms (add_name-IsDistinct ns n d)

activate-IsDistinct :
    (paths : List Text) (rs : List Route) (ns : List String)
    → IsDistinct ns
    → IsDistinct (activate paths rs ns)
unfolding activate
activate-IsDistinct paths [] ns d = d
activate-IsDistinct paths (r ∷ rs) ns d = elim (Bool-cases (is_routed paths r)) [
  | inl e ↦ rw e (
      activate-IsDistinct paths rs (add_all ns r.activate_profiles)
        (add_all-IsDistinct ns r.activate_profiles d))
  | inr e ↦ rw e (activate-IsDistinct paths rs ns d)
]

none-IsDistinct : IsDistinct []
unfolding count_where
none-IsDistinct n = omega arith

active-IsDistinct :
    (paths : List Text) (pack : ContextPack)
    → IsDistinct (activate paths pack.routes (add_all [] pack.mandatory_profiles))
active-IsDistinct paths pack =
    activate-IsDistinct paths pack.routes (add_all [] pack.mandatory_profiles)
      (add_all-IsDistinct [] pack.mandatory_profiles none-IsDistinct)

-- The active profiles are the union, without repetition: a name is active exactly when it is mandatory
-- or a route of which a glob matches a changed file activates it, and then it is active once.
pub resolve_context-active :
    (pack : ContextPack) (changed : List ChangedFile) (n : String)
    → (holds (resolve_context pack changed).active_profiles n
        ≡ holds pack.mandatory_profiles n
          || any (activates (map (λ c. c.path) changed) n) pack.routes)
      × (count_where (str_eq n) (resolve_context pack changed).active_profiles ≤ 1)
unfolding resolve_context
resolve_context-active pack changed n =
    let paths = map (λ c. c.path) changed in
    (
      ground (
        arith,
        holds-activate paths pack.routes (add_all [] pack.mandatory_profiles) n,
        holds-add_all [] pack.mandatory_profiles n,
      ),
      active-IsDistinct paths pack n,
    )

holds-add_each :
    (of : PackProfile → List String) (ps : List PackProfile) (ns : List String) (n : String)
    → holds (add_each of ps ns) n ≡ holds ns n || any (λ p. holds (of p) n) ps
unfolding add_each
holds-add_each of [] ns n = ground arith
holds-add_each of (p ∷ ps) ns n =
    ground (arith, holds-add_each of ps (add_all ns (of p)) n, holds-add_all ns (of p) n)

-- The name is in the list that the profile has, if there is one.
abbrev pub lists : (PackProfile → List String) → String → Option PackProfile → Bool
lists of n none = false
lists of n (some p) = holds (of p) n

any-found_profiles :
    (of : PackProfile → List String) (look_up : String → Option PackProfile) (ns : List String)
    (n : String)
    → any (λ p. holds (of p) n) (found_profiles look_up ns) ≡ any (λ m. lists of n (look_up m)) ns
any-found_profiles of look_up [] n = refl
any-found_profiles of look_up (m ∷ ns) n = elim (Option-cases (look_up m)) [
  | inl e ↦ rw (e, found_profiles) (any-found_profiles of look_up ns n)
  | inr (p, e) ↦ rw (e, found_profiles) (ground (arith, any-found_profiles of look_up ns n))
]

-- The documents that are loaded are those that every review requires and those of the active profiles
-- that the pack defines; the tests are those of the same profiles.
resolve_context-loads :
    (pack : ContextPack) (changed : List ChangedFile) (n : String)
    → let out = resolve_context pack changed in
      (holds out.required_docs n
        ≡ holds pack.required_context n
          || any (λ m. lists (λ p. p.docs) n (pack.profiles m)) out.active_profiles)
      × (holds out.tests n
          ≡ any (λ m. lists (λ p. p.tests) n (pack.profiles m)) out.active_profiles)
unfolding resolve_context
resolve_context-loads pack changed n =
    let profiles = (resolve_context pack changed).profiles in
    let active = (resolve_context pack changed).active_profiles in
    (
      ground (
        arith,
        holds-add_each (λ p. p.docs) profiles (add_all [] pack.required_context) n,
        holds-add_all [] pack.required_context n,
        any-found_profiles (λ p. p.docs) pack.profiles active n,
      ),
      ground (
        arith,
        holds-add_each (λ p. p.tests) profiles [] n,
        any-found_profiles (λ p. p.tests) pack.profiles active n,
      ),
    )
