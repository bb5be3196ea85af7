-- ===== src/Core/Keys.antt =====
-- `ReviewKey` of src/config/schema/state.ts and src/core/keys.ts: the identity of a review.
use previewer.Prelude.{ℕ, String, ◌≡◌, refl, ◌↔◌, Bool, true, ◌&&◌, arith, str_eq, str_eq_iff, ◌==◌}

pub record ReviewKey : Type 0 where
  pub repo : String
  pub pr_number : ℕ
  pub head_sha : String

unfoldable pub review_key : String → ℕ → String → ReviewKey
review_key repo pr sha = record { repo = repo; pr_number = pr; head_sha = sha }

-- `repo=? AND pr_number=? AND head_sha=?`
unfoldable pub same_key : ReviewKey → ReviewKey → Bool
same_key a b = str_eq a.repo b.repo && a.pr_number == b.pr_number && str_eq a.head_sha b.head_sha

pub same_key_iff : (a b : ReviewKey) → (same_key a b ≡ true) ↔ (a ≡ b)
unfolding same_key
same_key_iff a b = ground (arith, str_eq_iff a.repo b.repo, str_eq_iff a.head_sha b.head_sha)

pub same_key_refl : (a : ReviewKey) → same_key a a ≡ true
same_key_refl a = (same_key_iff a a).1 refl
