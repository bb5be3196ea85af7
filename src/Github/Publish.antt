-- ===== src/Github/Publish.antt =====
-- `SingleCommentPublisher` of src/github/publish.ts: one comment for each head, found by its hidden
-- marker. The comments of a pull request are GitHub's: `IssueCommentsApi` is an interface, with what
-- its documentation says of the three calls as its laws. The marker is an argument.
use previewer.Prelude.{
  ℕ, suc, ◌≤◌, ◌≡◌, Bool, none, some, List, [], ◌∷◌, ◌++◌, find, length, ◌==◌, update_where,
  if◌then◌else◌,
}
use previewer.Core.Text.{Text, includes}
use previewer.Core.Lines.{newline}

pub record Comment : Type 0 where
  pub id : ℕ
  pub body : Text

abbrev pub has_id : ℕ → Comment → Bool
has_id i c = c.id == i

-- The comments of one pull request, for a state `S` of GitHub: `create` answers the new id.
pub record IssueCommentsApi (S : Type 0) : Type 0 where
  pub list : S → List Comment
  pub update : S → ℕ → Text → S
  pub create : S → Text → S × ℕ
  pub list-update :
      (s : S) (i : ℕ) (body : Text)
      → list (update s i body) ≡ update_where (has_id i) (λ c. record c { body = body }) (list s)
  pub list-create :
      (s : S) (body : Text)
      → list (create s body).0 ≡ list s ++ record { id = (create s body).1; body = body } ∷ []

abbrev pub is_marked : Text → Comment → Bool
is_marked marker c = includes marker c.body

-- `body.includes(marker) ? body : body + "\n\n" + marker`
unfoldable pub final_body : Text → Text → Text
unfolding includes
final_body marker body = if includes marker body then body else body ++ newline ∷ newline ∷ marker

module _ {S : Type 0} (api : IssueCommentsApi S) where
  -- `upsertReviewComment`, which answers the id of the comment
  unfoldable pub upsert_review_comment : Text → Text → S → S × ℕ
  unfolding final_body
  upsert_review_comment marker body s = elim (find (is_marked marker) (api.list s)) [
    | some mine ↦ (api.update s mine.id (final_body marker body), mine.id)
    | none ↦ api.create s (final_body marker body)
  ]

-- The comment that a search for the marker finds has the id and the body.
abbrev pub Marked : Text → ℕ → Text → List Comment → Type 0
Marked marker i body cs =
    (c : Comment) × (find (is_marked marker) cs ≡ some c) × (c.id ≡ i) × (c.body ≡ body)

module _ {S : Type 0} (api : IssueCommentsApi S) (marker : Text) where
  -- What one publication leaves: at most one comment more, and the one that it answers is found.
  record Published (s : S) (body : Text) (out : S × ℕ) : Type 0 where
    few : length (api.list out.0) ≤ suc (length (api.list s))
    marked : Marked marker out.1 (final_body marker body) (api.list out.0)
