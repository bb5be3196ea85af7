-- ===== src/Store/Reviews/Records.antt =====
-- What a finished run leaves in the table.
use previewer.Prelude.{
  ◌≤◌, ◌≡◌, refl, inl, inr, Bool, false, Option, none, some, [], ◌∷◌, arith, if◌then◌else◌, find,
  Option-cases, Bool-cases, count_where, find-append_key, find-update_where_key,
}
use previewer.Core.Keys.{ReviewKey, same_key, same_key_refl}
use previewer.Core.State.{ReviewRun}
use previewer.Store.Reviews.{
  RunRow, Runs, row_status, for_key, is_covered, record_row, finish_row, record_run, is_reviewed,
}
use previewer.Store.Reviews.Unique.{IsUnique, record_run-IsUnique}
use previewer.Store.Reviews.Claims.{apart, same_eq}

-- The row of a run: a row that was there keeps its id and the time of its claim.
abbrev pub recorded_row : ReviewRun → Option RunRow → RunRow
recorded_row run none = record_row run
recorded_row run (some r) = record (record_row run) {
  id = r.id;
  key = r.key;
  started_at = r.started_at;
}

-- Recording a run writes its row, whether a claim was there or not, and no other head's.
pub find-record_run :
    (run : ReviewRun) (runs : Runs) (other : ReviewKey)
    → find (for_key other) (record_run run runs) ≡ (
        if same_key run.key other
        then some (recorded_row run (find (for_key run.key) runs))
        else find (for_key other) runs)
unfolding record_run finish_row
find-record_run run runs other = elim (Option-cases (find (for_key run.key) runs)) [
  | inl e ↦
      rw (e, record_run)
        (find-append_key for_key same_key same_eq apart run.key other runs (record_row run) e
          (same_key_refl run.key))
  | inr (r, e) ↦
      rw (e, record_run)
        (find-update_where_key for_key same_key same_eq apart run.key other (finish_row run) runs r
          (λ j x. refl) e)
]

-- Does the row of a head cover it?
abbrev pub row_covers : Option RunRow → Bool
row_covers none = false
row_covers (some r) = is_covered r.status

not_reviewed :
    (k : ReviewKey) (runs : Runs) → count_where (for_key k) runs ≡ 0 → is_reviewed k runs ≡ false
unfolding is_reviewed count_where
not_reviewed k [] h = refl
not_reviewed k (x ∷ runs) h = ground (arith, not_reviewed k runs)

-- With one row at most for each head, the search for a covering row looks at the row of the head.
pub is_reviewed-find :
    (k : ReviewKey) (runs : Runs)
    → count_where (for_key k) runs ≤ 1
    → is_reviewed k runs ≡ row_covers (find (for_key k) runs)
unfolding is_reviewed count_where
is_reviewed-find k [] u = refl
is_reviewed-find k (x ∷ runs) u = ground (arith, not_reviewed k runs, is_reviewed-find k runs)

recorded_covers :
    (run : ReviewRun) (o : Option RunRow)
    → is_covered (recorded_row run o).status ≡ is_covered (row_status run.status)
recorded_covers run none = refl
recorded_covers run (some r) = refl

-- In a table with one row at most for each head: once a run is recorded its head is reviewed
-- exactly if the run was reviewed or skipped, whatever was recorded before; a failed run does not
-- cover its head. Every other head is as it was.
pub is_reviewed-record_run :
    (run : ReviewRun) (runs : Runs) (other : ReviewKey)
    → IsUnique runs
    → is_reviewed other (record_run run runs) ≡ (
        if same_key run.key other
        then is_covered (row_status run.status)
        else is_reviewed other runs)
is_reviewed-record_run run runs other u =
    let after = record_run run runs in
    let here = is_reviewed-find other after ((record_run-IsUnique run runs u).keys other) in
    let before = is_reviewed-find other runs (u.keys other) in
    let old = find (for_key run.key) runs in
    elim (Bool-cases (same_key run.key other)) [
      | inl e ↦ rw (here, find-record_run run runs other, e) (recorded_covers run old)
      | inr e ↦ rw (here, find-record_run run runs other, e, before) refl
    ]
