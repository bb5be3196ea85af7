-- ===== src/Store/Reviews/Coverage.antt =====
-- What counts as covered: the baseline of an incremental review, and the sweep's test.
use previewer.Prelude.{
  Bool, ◌&&◌, All-map, ℕ, String, str_eq_iff, ◌≡◌, refl, ◌⊎◌, inl, inr, true, false, none, some, [],
  ◌∷◌, arith, find, All, Option-cases, Bool-cases, count_where, select_first, select_first_sound,
  count-zero_of_select, select_first-least, select_first-Has, Has,
}
use previewer.Core.Keys.{ReviewKey, same_key}
use previewer.Store.Reviews.{
  RunRow, Runs, for_key, claimed, duplicate, is_reclaimable, claim_review, covers, newer,
  last_reviewed_sha, is_reviewed, row_in_flight, is_reviewed_or_in_flight,
}
use previewer.Core.Keys.{review_key}
use previewer.Store.Reviews.Claims.{claim_review_exact}

none_before : (b c : Bool) → (b ≡ true → c ≡ false) → (b && c) ≡ false
none_before b c h = ground (arith, h)

newer_asym : (a b : RunRow) → newer a b ≡ true → newer b a ≡ false
unfolding newer
newer_asym a b h = ground arith

newer_cotrans : (a b c : RunRow) → newer a b ≡ false → newer b c ≡ false → newer a c ≡ false
unfolding newer
newer_cotrans a b c h k = ground arith

covers-reviewed :
    (repo : String) (pr : ℕ) (r : RunRow) (runs : Runs)
    → covers repo pr r ≡ true
    → Has r runs
    → is_reviewed (review_key repo pr r.head_sha) runs ≡ true
unfolding is_reviewed covers review_key same_key
covers-reviewed repo pr r [] h i = elim i [ ]
covers-reviewed repo pr r (x ∷ runs) h (inl e) = ground (arith, str_eq_iff r.head_sha r.head_sha)
covers-reviewed repo pr r (x ∷ runs) h (inr i) = ground (arith, covers-reviewed repo pr r runs h i)

-- The head that an incremental review starts from was reviewed or skipped, never one whose run
-- failed, and no covered head of the pull request ended later. There is none only if no head of the
-- pull request is covered.
pub last_reviewed_sha-covered :
    (repo : String) (pr : ℕ) (runs : Runs)
    → ((last_reviewed_sha repo pr runs ≡ none) × (count_where (covers repo pr) runs ≡ 0))
      ⊎ ((r : RunRow) × (last_reviewed_sha repo pr runs ≡ some r.head_sha)
          × Has r runs
          × (is_reviewed (review_key repo pr r.head_sha) runs ≡ true)
          × All (λ x. (covers repo pr x && newer x r) ≡ false) runs)
unfolding last_reviewed_sha
last_reviewed_sha-covered repo pr runs =
    elim (Option-cases (select_first (covers repo pr) newer runs)) [
      | inl e ↦
          inl (rw (e, last_reviewed_sha) refl, count-zero_of_select (covers repo pr) newer runs e)
      | inr (r, e) ↦
          let i = select_first-Has (covers repo pr) newer runs r e in
          inr (
            r,
            rw (e, last_reviewed_sha) refl,
            i,
            covers-reviewed repo pr r runs (select_first_sound (covers repo pr) newer runs r e) i,
            All-map
                (λ (x : RunRow) (least : covers repo pr x ≡ true → newer x r ≡ false).
                  none_before _ _ least)
                runs (select_first-least (covers repo pr) newer newer_asym newer_cotrans runs r e),
          )
    ]

row_in_flight-free :
    (now stale_ms cooldown_ms : ℕ) (r : RunRow)
    → row_in_flight now stale_ms cooldown_ms r ≡ false
    → is_reclaimable now false stale_ms r ≡ true
unfolding row_in_flight is_reclaimable
row_in_flight-free now stale_ms cooldown_ms r h = ground arith

-- The sweep and the claim agree: a head that the sweep finds uncovered can be claimed at that
-- moment without force, so that its job is not dropped as a duplicate.
pub uncovered_claimable :
    (now : ℕ) (key : ReviewKey) (stale_ms cooldown_ms claim_id : ℕ) (runs : Runs)
    → is_reviewed_or_in_flight now key stale_ms cooldown_ms runs ≡ false
    → (claim_review now key false stale_ms claim_id runs).1 ≡ claimed
unfolding is_reviewed_or_in_flight
uncovered_claimable now key stale_ms cooldown_ms claim_id runs h =
    elim (claim_review_exact now key false stale_ms claim_id runs) [
      | inl (_, granted) ↦ granted.0
      | inr (busy, _) ↦ elim (Option-cases (find (for_key key) runs)) [
        | inl e ↦ absurd (ground (arith, e, busy))
        | inr (r, e) ↦
            absurd (ground (arith, e, busy, row_in_flight-free now stale_ms cooldown_ms r))
      ]
    ]

-- The other way round, a head whose claim is refused counts as covered or in flight, so that the
-- sweep does not queue it.
pub refused_in_flight :
    (now : ℕ) (key : ReviewKey) (stale_ms cooldown_ms claim_id : ℕ) (runs : Runs)
    → (claim_review now key false stale_ms claim_id runs).1 ≡ duplicate
    → is_reviewed_or_in_flight now key stale_ms cooldown_ms runs ≡ true
refused_in_flight now key stale_ms cooldown_ms claim_id runs h =
    elim (Bool-cases (is_reviewed_or_in_flight now key stale_ms cooldown_ms runs)) [
      | inl e ↦ e
      | inr e ↦
          absurd (ground (arith, uncovered_claimable now key stale_ms cooldown_ms claim_id runs e))
    ]
