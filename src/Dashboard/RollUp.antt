-- ===== src/Dashboard/RollUp.antt =====
-- The pull requests of the status page against the table of the runs.
use previewer.Prelude.{
  ℕ, ◌+◌, ◌≤◌, ◌≡◌, refl, ◌∙◌, ap, String, Bool, true, false, ◌&&◌, Option, none, some, List, [],
  ◌∷◌, arith, inl, inr, find, str_eq, str_eq_iff, ◌==◌, if◌then◌else◌, count_where,
  find-update_where_key, find-append_key, count_where-update_where, count_where-append,
  count-zero_of_find, Option-cases, Bool-cases,
}
use previewer.Store.Reviews.{RunRow}
use previewer.Dashboard.Queries.{
  PrRow, of_pr, is_pr, is_posted, first_row, count_run, add_run, roll_up,
}

abbrev pub Key : Type 0
Key = String × ℕ

abbrev pub hit : Key → PrRow → Bool
hit k = is_pr k.0 k.1

abbrev same : Key → Key → Bool
same k o = str_eq k.0 o.0 && k.1 == o.1

same_eq : (k o : Key) → same k o ≡ true → k ≡ o
same_eq (a, m) (b, n) h = ground (arith, h, str_eq_iff a b)

hit_apart : (k o : Key) (p : PrRow) → same k o ≡ false → hit k p ≡ true → hit o p ≡ false
hit_apart k o p h e =
    ground (arith, h, e, str_eq_iff p.repo k.0, str_eq_iff p.repo o.0, str_eq_iff k.0 o.0)

abbrev pub key_of : RunRow → Key
key_of r = (r.repo, r.pr_number)

first_row-hit : (r : RunRow) → hit (key_of r) (first_row r) ≡ true
unfolding first_row
first_row-hit r = ground (arith, str_eq_iff r.repo r.repo)

-- What one more run does to a pull request.
abbrev grown : RunRow → Option PrRow → PrRow
grown r none = first_row r
grown r (some p) = count_run r p

find-add_run :
    (k : Key) (prs : List PrRow) (r : RunRow)
    → find (hit k) (add_run prs r)
      ≡ (if same (key_of r) k then some (grown r (find (hit (key_of r)) prs)) else find (hit k) prs)
unfolding add_run
find-add_run k prs r = elim (Option-cases (find (hit (key_of r)) prs)) [
  | inl e ↦
      rw (e, add_run)
        (find-append_key hit same same_eq hit_apart (key_of r) k prs (first_row r) e
          (first_row-hit r))
  | inr (p, e) ↦
      rw (e, add_run)
        (find-update_where_key hit same same_eq hit_apart (key_of r) k (count_run r) prs p
          (λ j x. unfold count_run in refl) e)
]

-- The runs of the pull request, and those of them with a comment.
abbrev pub runs_of : Key → List RunRow → ℕ
runs_of k = count_where (of_pr k.0 k.1)

abbrev pub posts_of : Key → List RunRow → ℕ
posts_of k = count_where (λ r. is_posted r && of_pr k.0 k.1 r)

abbrev pub plus : Key → List RunRow → PrRow → PrRow
plus k rows p = record p { rounds = p.rounds + runs_of k rows; posted = p.posted + posts_of k rows }

-- A pull request as its rows say it, the first of them in front.
unfoldable pub summary : Key → List RunRow → Option PrRow
summary k [] = none
summary k (r ∷ rs) =
    let rest = summary k rs in if of_pr k.0 k.1 r then some (plus k rs (first_row r)) else rest

abbrev pub grown_by : Key → List RunRow → Option PrRow → Option PrRow
grown_by k rows none = summary k rows
grown_by k rows (some p) = some (plus k rows p)

grown_by-step :
    (k : Key) (r : RunRow) (rs : List RunRow) (prs : List PrRow)
    → grown_by k rs (find (hit k) (add_run prs r)) ≡ grown_by k (r ∷ rs) (find (hit k) prs)
unfolding summary count_where count_run
grown_by-step k r rs prs = elim (Bool-cases (same (key_of r) k)) [
  | inl e ↦
      let found_same : find (hit (key_of r)) prs ≡ find (hit k) prs =
        ap (λ o. find (hit o) prs) (same_eq (key_of r) k e) in
      elim (Option-cases (find (hit k) prs)) [
        | inl miss ↦ rw (find-add_run k prs r, e, found_same, miss) (ground (arith, e))
        | inr (p, found) ↦ rw (find-add_run k prs r, e, found_same, found) (ground (arith, e))
      ]
  | inr e ↦ elim (Option-cases (find (hit k) prs)) [
    | inl miss ↦ rw (find-add_run k prs r, e, miss) (ground (arith, e))
    | inr (p, found) ↦ rw (find-add_run k prs r, e, found) (ground (arith, e))
  ]
]

pub find-roll_up :
    (k : Key) (rows : List RunRow) (prs : List PrRow)
    → find (hit k) (roll_up prs rows) ≡ grown_by k rows (find (hit k) prs)
unfolding roll_up count_where summary
find-roll_up k [] prs = elim (Option-cases (find (hit k) prs)) [
  | inl e ↦ rw e refl
  | inr (p, e) ↦ rw e (ground arith)
]
find-roll_up k (r ∷ rs) prs = find-roll_up k rs (add_run prs r) ∙ grown_by-step k r rs prs

-- Each pull request is in one row at most.
add_run-once :
    (k : Key) (prs : List PrRow) (r : RunRow)
    → count_where (hit k) prs ≤ 1
    → count_where (hit k) (add_run prs r) ≤ 1
unfolding add_run
add_run-once k prs r one = elim (Option-cases (find (hit (key_of r)) prs)) [
  | inr (p, e) ↦
      rw
        (
          e,
          add_run,
          count_where-update_where (hit k) (hit (key_of r)) (count_run r)
              (λ x. unfold count_run in refl),
        )
        one
  | inl e ↦
      let append = count_where-append (hit k) prs (first_row r ∷ []) in
      let zero_here = count-zero_of_find (hit (key_of r)) prs e in
      elim (Bool-cases (same (key_of r) k)) [
        | inl eq ↦
            let fresh : count_where (hit k) prs ≡ 0 = rw (← same_eq (key_of r) k eq) zero_here in
            rw (e, add_run) (unfold count_where in ground (arith, append, fresh))
        | inr ne ↦
            let other = hit_apart (key_of r) k (first_row r) ne (first_row-hit r) in
            rw (e, add_run) (unfold count_where in ground (arith, append, other))
      ]
]

pub roll_up-once :
    (k : Key) (rows : List RunRow) (prs : List PrRow)
    → count_where (hit k) prs ≤ 1
    → count_where (hit k) (roll_up prs rows) ≤ 1
unfolding roll_up
roll_up-once k [] prs one = one
roll_up-once k (r ∷ rs) prs one = roll_up-once k rs (add_run prs r) (add_run-once k prs r one)
