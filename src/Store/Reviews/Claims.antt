-- ===== src/Store/Reviews/Claims.antt =====
-- Who may review a head: the claims.
use previewer.Prelude.{
  ℕ, ◌+◌, ◌≤◌, ◌≡◌, refl, ◌⊎◌, inl, inr, Bool, true, false, ◌&&◌, Option, none, some, arith, ◌==◌,
  ==_iff, if◌then◌else◌, find, Option-cases, Bool-cases, find_sound, find-delete_where_other,
  find-delete_where-All, find-append_key, find-update_where_key, Has, All-tabulate, find-Has,
  same_row,
}
use previewer.Core.Keys.{ReviewKey, same_key, same_key_iff, same_key_refl}
use previewer.Store.Reviews.{
  RowStatus, RunRow, Runs, for_key, is_running, Claim, claimed, duplicate, is_reclaimable,
  placeholder, reclaim_row, claim_review, owned_claim, release_claim,
}
use previewer.Store.Reviews.Unique.{IsUnique, claim_review-IsUnique}

pub apart :
    (k o : ReviewKey) (r : RunRow) → same_key k o ≡ false → for_key k r ≡ true → for_key o r ≡ false
apart k o r e h = let here : r.key ≡ k = (same_key_iff r.key k).0 h in rw (← here) at e

pub same_eq : (k o : ReviewKey) → same_key k o ≡ true → k ≡ o
same_eq k o = (same_key_iff k o).0

-- The row of a head under a new claim: an old row keeps what the last run recorded.
abbrev pub claimed_row : ℕ → ReviewKey → ℕ → Option RunRow → RunRow
claimed_row now key claim_id none = placeholder now key claim_id
claimed_row now key claim_id (some r) = record r {
  id = claim_id;
  status = RowStatus.running;
  started_at = now;
  finished_at = none;
  error = none;
}

-- May the head with this row, or with none, be claimed?
abbrev pub is_free : ℕ → Bool → ℕ → Option RunRow → Bool
is_free now force stale_ms none = true
is_free now force stale_ms (some r) = is_reclaimable now force stale_ms r

module _ (now : ℕ) (key : ReviewKey) (force : Bool) (stale_ms claim_id : ℕ) (runs : Runs) where
  abbrev after_claim : Runs × Claim
  after_claim = claim_review now key force stale_ms claim_id runs

  -- The table with the head claimed: its row is new, and every other head's is the old one.
  abbrev Granted : Type 0
  Granted =
      (after_claim.1 ≡ claimed)
      × ((other : ReviewKey)
          → find (for_key other) after_claim.0 ≡ (
              if same_key key other
              then some (claimed_row now key claim_id (find (for_key key) runs))
              else find (for_key other) runs))

  claim_missing : find (for_key key) runs ≡ none → Granted
  unfolding claim_review
  claim_missing e =
      rw (e, claim_review)
        (
          refl,
          λ other.
              find-append_key for_key same_key same_eq apart key other runs
                (placeholder now key claim_id) e (same_key_refl key),
        )

  claim_again :
      (r : RunRow)
      → find (for_key key) runs ≡ some r
      → is_reclaimable now force stale_ms r ≡ true
      → Granted
  unfolding claim_review reclaim_row
  claim_again r e free =
      rw (e, claim_review, free)
        (
          refl,
          λ other.
              find-update_where_key for_key same_key same_eq apart key other
                (reclaim_row now claim_id) runs r (λ j x. refl) e,
        )

  -- A claim succeeds exactly when the head has no row, or the claim is forced, or the row records
  -- an error, or it is a claim that has been running for longer than `stale_ms`. Then the head is
  -- claimed under `claim_id` from `now` on, and no other head's row has changed; a refused claim
  -- changes nothing.
  pub claim_review_exact :
      ((is_free now force stale_ms (find (for_key key) runs) ≡ true) × Granted)
      ⊎ ((is_free now force stale_ms (find (for_key key) runs) ≡ false)
          × (after_claim ≡ (runs, duplicate)))
  unfolding claim_review
  claim_review_exact = elim (Option-cases (find (for_key key) runs)) [
    | inl e ↦ inl (rw e refl, claim_missing e)
    | inr (r, e) ↦ elim (Bool-cases (is_reclaimable now force stale_ms r)) [
      | inl free ↦ inl (rw e free, claim_again r e free)
      | inr busy ↦ inr (rw e busy, rw (e, claim_review, busy) refl)
    ]
  ]

fresh_claim_busy :
    (now later : ℕ) (key : ReviewKey) (mine stale_ms : ℕ) (o : Option RunRow)
    → later ≤ now + stale_ms
    → is_reclaimable later false stale_ms (claimed_row now key mine o) ≡ true
    → ⊥
unfolding is_reclaimable
fresh_claim_busy now later key mine stale_ms none h k = ground arith
fresh_claim_busy now later key mine stale_ms (some r) h k = ground arith

-- While a claim is held and not older than `stale_ms`, no other worker that does not force gets the
-- head: the second claim is refused and leaves the first one as it is.
pub claim_review_exclusive :
    (now later : ℕ) (key : ReviewKey) (force : Bool) (stale_ms mine theirs : ℕ) (runs : Runs)
    → (claim_review now key force stale_ms mine runs).1 ≡ claimed
    → later ≤ now + stale_ms
    → claim_review later key false stale_ms theirs (claim_review now key force stale_ms mine runs).0
      ≡ ((claim_review now key force stale_ms mine runs).0, duplicate)
claim_review_exclusive now later key force stale_ms mine theirs runs won fresh =
    elim (claim_review_exact now key force stale_ms mine runs) [
      | inr (_, lost) ↦ absurd (ground (arith, lost))
      | inl (_, granted) ↦
          let after = (claim_review now key force stale_ms mine runs).0 in
          let row = claimed_row now key mine (find (for_key key) runs) in
          let here : find (for_key key) after ≡ some row = rw (granted.1 key, same_key_refl key) in
          elim (claim_review_exact later key false stale_ms theirs after) [
            | inr (_, same) ↦ same
            | inl (free, _) ↦ absurd (
                fresh_claim_busy now later key mine stale_ms (find (for_key key) runs) fresh
                  (rw here at free))
          ]
    ]

pub claimed_row_running :
    (now : ℕ) (key : ReviewKey) (mine : ℕ) (o : Option RunRow)
    → (is_running (claimed_row now key mine o).status ≡ true)
      × ((claimed_row now key mine o).id ≡ mine)
claimed_row_running now key mine none = (refl, refl)
claimed_row_running now key mine (some r) = (refl, refl)

module _ (key other : ReviewKey) (claim_id : ℕ) (runs : Runs) (r : RunRow) (u : IsUnique runs)
    (h : find (for_key key) runs ≡ some r) where
  the_row : (x : RunRow) → Has x runs → for_key key x ≡ true → x ≡ r
  the_row x i k =
      same_row (for_key key) runs x r (u.keys key) i (find-Has (for_key key) runs h) k
        (find_sound (for_key key) runs r h)

  -- A release drops the row of the head exactly if it is the owner's claim: it is no record of a
  -- finished run, and its id is the token of the release. The rows of other heads stay.
  pub release_claim_owner : find (for_key other) (release_claim key claim_id runs) ≡ (
      if same_key key other && (is_running r.status && r.id == claim_id)
      then none
      else find (for_key other) runs)
  unfolding release_claim owned_claim
  release_claim_owner = elim (Bool-cases (same_key key other)) [
    | inr ne ↦ rw ne (
        find-delete_where_other (for_key other) (owned_claim key claim_id) runs
          (All-tabulate _ runs (λ x i k. apart key other x ne (ground arith))))
    | inl eq ↦ elim (Bool-cases (is_running r.status && r.id == claim_id)) [
      | inl mine ↦
          rw (eq, mine, ← same_eq key other eq)
            (find-delete_where-All (for_key key) (owned_claim key claim_id) runs (
              All-tabulate _ runs (λ x i k.
                let e : x ≡ r = the_row x i k in
                ground (arith, find_sound (for_key key) runs r h))))
      | inr foreign ↦
          rw (eq, foreign)
            (find-delete_where_other (for_key other) (owned_claim key claim_id) runs (
              All-tabulate _ runs
                (λ x i k. let e : x ≡ r = the_row x i (ground arith) in absurd (ground arith))))
    ]
  ]

-- A claim that its owner releases leaves no row of the head, and the rows of the other heads; so
-- the next claim of the head succeeds, and the failed run is not mistaken for one in flight.
release_claim_frees :
    (now later : ℕ) (key : ReviewKey) (force : Bool) (stale_ms mine theirs : ℕ) (runs : Runs)
    → IsUnique runs
    → (claim_review now key force stale_ms mine runs).1 ≡ claimed
    → (claim_review later key false stale_ms theirs
        (release_claim key mine (claim_review now key force stale_ms mine runs).0)).1
      ≡ claimed
release_claim_frees now later key force stale_ms mine theirs runs u won =
    elim (claim_review_exact now key force stale_ms mine runs) [
      | inr (_, lost) ↦ absurd (ground (arith, lost))
      | inl (_, granted) ↦
          let after = (claim_review now key force stale_ms mine runs).0 in
          let row = claimed_row now key mine (find (for_key key) runs) in
          let here : find (for_key key) after ≡ some row = rw (granted.1 key, same_key_refl key) in
          let (active, mine_too) = claimed_row_running now key mine (find (for_key key) runs) in
          let gone : find (for_key key) (release_claim key mine after) ≡ none =
            rw
              (
                release_claim_owner key key mine after row
                    (claim_review-IsUnique now key force stale_ms mine runs u) here,
                same_key_refl key,
                active,
                mine_too,
                (==_iff mine mine).1 refl,
              )
              refl in
          elim (claim_review_exact later key false stale_ms theirs (release_claim key mine after)) [
            | inl (_, again) ↦ again.0
            | inr (busy, _) ↦ absurd (ground (arith, gone, busy))
          ]
    ]
