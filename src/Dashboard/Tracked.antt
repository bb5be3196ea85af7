-- ===== src/Dashboard/Tracked.antt =====
-- The pull requests of the status page: how many runs each has, and which of them is the last.
use previewer.Prelude.{
  ℕ, ◌≤◌, ◌≡◌, refl, ◌∙◌, ap, String, Bool, true, false, ◌&&◌, Option, none, some, List, [], ◌∷◌,
  arith, inl, inr, keep, find, str_eq_iff, count_where, sort_by, IsOrdered, All, All-map, All-Has,
  All-tabulate, Has, keep-Has, keep_sound, Has-sort_by, sort_by-Has, find-sort_by, count_where-keep,
  count_where-sort_by, sort_by-IsOrdered, Bool-cases,
}
use previewer.Core.Text.{codes}
use previewer.Store.Reviews.{RunRow, Runs}
use previewer.Dashboard.Order.{text_before, text_before_asym, text_before_cotrans}
use previewer.Dashboard.Queries.{
  PrRow, ended_at, is_final, comes_before, of_pr, is_pr, is_posted, first_row, seen_later, roll_up,
  tracked_prs,
}
use previewer.Dashboard.RollUp.{Key, runs_of, posts_of, summary, find-roll_up, roll_up-once}

text_before_irrefl : (a b : String) → a ≡ b → text_before (codes a) (codes b) ≡ false
text_before_irrefl a b e = rw e (elim (Bool-cases (text_before (codes b) (codes b))) [
  | inl y ↦ text_before_asym (codes b) (codes b) y
  | inr n ↦ n
])

comes_before_asym : (a b : RunRow) → comes_before a b ≡ true → comes_before b a ≡ false
unfolding comes_before
comes_before_asym a b h = ground (arith, h, text_before_asym (codes a.repo) (codes b.repo))

comes_before_cotrans :
    (a b c : RunRow)
    → comes_before a b ≡ false
    → comes_before b c ≡ false
    → comes_before a c ≡ false
unfolding comes_before
comes_before_cotrans a b c h k = ground (
  arith,
  h,
  k,
  text_before_cotrans (codes a.repo) (codes b.repo) (codes c.repo),
  text_before_cotrans (codes b.repo) (codes c.repo) (codes a.repo),
  text_before_cotrans (codes c.repo) (codes a.repo) (codes b.repo),
)

-- Of two runs of a pull request, one that does not come first did not end later.
not_later :
    (k : Key) (r x : RunRow)
    → of_pr k.0 k.1 r ≡ true
    → comes_before x r ≡ false
    → of_pr k.0 k.1 x ≡ true
    → ended_at x ≤ ended_at r
unfolding comes_before
not_later k r x mine after theirs =
    let a : r.repo ≡ k.0 = (str_eq_iff r.repo k.0).0 (ground (arith, mine)) in
    let b : x.repo ≡ k.0 = (str_eq_iff x.repo k.0).0 (ground (arith, theirs)) in
    ground (
      arith,
      mine,
      after,
      theirs,
      text_before_irrefl x.repo r.repo (rw (a, b) refl),
      text_before_irrefl r.repo x.repo (rw (a, b) refl),
    )

-- The pull request as one of its runs says it, with the numbers of the rows.
abbrev Described : Key → List RunRow → Option PrRow → Type 0
Described k rows none = runs_of k rows ≡ 0
Described k rows (some p) =
    (r : RunRow) × Has r rows
    × (of_pr k.0 k.1 r ≡ true)
    × (p ≡ record (first_row r) { rounds = runs_of k rows; posted = posts_of k rows })
    × All (λ x. of_pr k.0 k.1 x ≡ true → ended_at x ≤ ended_at r) rows

skip_run :
    (k : Key) (r : RunRow) (rs : List RunRow) (o : Option PrRow)
    → of_pr k.0 k.1 r ≡ false
    → Described k rs o
    → Described k (r ∷ rs) o
skip_run k r rs none e d = unfold count_where in ground (arith, e, d)
skip_run k r rs (some p) e (x, i, mine, same, last) =
    let runs_same : runs_of k (r ∷ rs) ≡ runs_of k rs = unfold count_where in ground (arith, e) in
    let posts_same : posts_of k (r ∷ rs) ≡ posts_of k rs =
      unfold count_where in ground (arith, e) in
    (x, inr i, mine, rw (runs_same, posts_same) same, ((λ h. absurd (ground (arith, e, h))), last))

summary-Described :
    (k : Key) (rows : List RunRow) → IsOrdered comes_before rows → Described k rows (summary k rows)
unfolding summary count_where first_row
summary-Described k [] h = refl
summary-Described k (r ∷ rs) h = elim (Bool-cases (of_pr k.0 k.1 r)) [
  | inl e ↦ rw e (
    r,
    inl refl,
    e,
    ground (arith, e),
    ((λ _. omega arith), All-map (λ x after. not_later k r x e after) rs h.0),
  )
  | inr e ↦ rw e (skip_run k r rs (summary k rs) e (summary-Described k rs h.1))
]

-- What the page says of a pull request against the table of the runs.
abbrev pub Tracked : String → ℕ → Runs → Option PrRow → Type 0
Tracked repo pr runs none = count_where (λ r. is_final r && of_pr repo pr r) runs ≡ 0
Tracked repo pr runs (some p) =
    (r : RunRow) × Has r runs
    × (is_final r && of_pr repo pr r ≡ true)
    × (p ≡ record (first_row r) {
      rounds = count_where (λ x. is_final x && of_pr repo pr x) runs;
      posted = count_where (λ x. is_final x && (is_posted x && of_pr repo pr x)) runs;
    })
    × All (λ x. is_final x && of_pr repo pr x ≡ true → ended_at x ≤ p.last_at) runs

abbrev final_runs : Runs → List RunRow
final_runs runs = sort_by comes_before (keep is_final runs)

find-tracked_prs :
    (repo : String) (pr : ℕ) (runs : Runs)
    → find (is_pr repo pr) (tracked_prs runs) ≡ summary (repo, pr) (final_runs runs)
unfolding tracked_prs
find-tracked_prs repo pr runs =
    let once = roll_up-once (repo, pr) (final_runs runs) [] (unfold count_where in omega arith) in
    find-sort_by seen_later (is_pr repo pr) (roll_up [] (final_runs runs)) once
    ∙ find-roll_up (repo, pr) (final_runs runs) []

counted :
    (p : RunRow → Bool) (runs : Runs)
    → count_where p (final_runs runs) ≡ count_where (λ r. is_final r && p r) runs
counted p runs =
    count_where-sort_by comes_before p (keep is_final runs) ∙ count_where-keep p is_final runs

Described-Tracked :
    (repo : String) (pr : ℕ) (runs : Runs) (o : Option PrRow)
    → Described (repo, pr) (final_runs runs) o
    → Tracked repo pr runs o
Described-Tracked repo pr runs none d = rw (← counted (of_pr repo pr) runs) d
Described-Tracked repo pr runs (some p) (r, i, mine, same, last) =
    let kept = keep_sound is_final runs (sort_by-Has comes_before r (keep is_final runs) i) in
    (
      r,
      kept.0,
      ground (arith, mine, kept.1),
      rw (← counted (of_pr repo pr) runs, ← counted (λ x. is_posted x && of_pr repo pr x) runs)
          same,
      All-tabulate (λ x. is_final x && of_pr repo pr x ≡ true → ended_at x ≤ p.last_at) runs
          (λ x j h.
            let there =
              Has-sort_by comes_before x (keep is_final runs)
                (keep-Has is_final runs j (ground (arith, h))) in
            let latest =
              All-Has (λ y. of_pr repo pr y ≡ true → ended_at y ≤ ended_at r) (final_runs runs) last
                there (ground (arith, h)) in
            rw (ap (λ o. o.last_at) same) (unfold first_row in latest)),
    )

-- For each pull request: with no final run the page has no row of it; else its row counts the final
-- runs and those of them with a comment, and all else it says is of a final run after which none
-- of the others ended.
pub tracked_prs-Tracked :
    (repo : String) (pr : ℕ) (runs : Runs)
    → Tracked repo pr runs (find (is_pr repo pr) (tracked_prs runs))
tracked_prs-Tracked repo pr runs = rw (find-tracked_prs repo pr runs) (
    Described-Tracked repo pr runs (summary (repo, pr) (final_runs runs)) (
      summary-Described (repo, pr) (final_runs runs)
        (sort_by-IsOrdered comes_before comes_before_asym comes_before_cotrans
          (keep is_final runs))))
