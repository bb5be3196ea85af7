-- ===== src/Github/Commands.antt =====
-- The commands of src/github/webhook.ts that a comment may hold, and who may give them, with the
-- events that are read from a payload. `lower` folds ASCII letters, and no other letter folds onto
-- one of a trigger or of an association.
use previewer.Prelude.{
  ℕ, String, Bool, not, ◌&&◌, ◌||◌, List, [], ◌∷◌, ◌++◌, any, str_eq, if◌then◌else◌,
}
use previewer.Core.Text.{Text, codes, lower, same_text, starts_with}
use previewer.Core.Lines.{split_lines}
use previewer.Core.Regex.{is_space}

pub record PullRequestEvent : Type 0 where
  pub action : String
  pub repo : String
  pub pr_number : ℕ
  pub head_sha : String
  pub base_sha : String
  pub is_draft : Bool

pub record IssueCommentEvent : Type 0 where
  pub action : String
  pub repo : String
  pub issue_number : ℕ
  pub is_pull_request : Bool
  pub comment_body : String
  pub comment_author : String
  pub author_association : String

abbrev relevant_actions : List String
relevant_actions = "opened" ∷ "reopened" ∷ "synchronize" ∷ "ready_for_review" ∷ []

-- `isRelevant`
unfoldable pub is_relevant : PullRequestEvent → Bool → Bool
is_relevant ev ignore_draft =
    any (str_eq ev.action) relevant_actions && not (ignore_draft && ev.is_draft)

-- `text.trim()`
trim_start : Text → Text
trim_start [] = []
trim_start (c ∷ cs) = let rest = trim_start cs in if is_space c then rest else c ∷ cs

trim_end : Text → Text
trim_end [] = []
trim_end (c ∷ cs) = elim (trim_end cs) [
  | [] ↦ if is_space c then [] else c ∷ []
  | d ∷ ds ↦ c ∷ d ∷ ds
]

abbrev review_command_triggers : List String
review_command_triggers = "/rereview" ∷ "@previewer rereview" ∷ []

-- Is the line a trigger, or one that a space follows?
is_command : Text → Bool
unfolding same_text starts_with
is_command t =
    any (λ trigger. same_text t (codes trigger) || starts_with (codes trigger ++ b' ' ∷ []) t)
      review_command_triggers

-- `matchesReviewCommand`; the carriage return that the source splits away is trimmed with the line.
unfoldable pub matches_review_command : String → Bool
unfolding is_command trim_start trim_end split_lines lower
matches_review_command body =
    any (λ line. is_command (lower (trim_end (trim_start line)))) (split_lines (codes body))

abbrev write_associations : List String
write_associations = "owner" ∷ "member" ∷ "collaborator" ∷ []

-- `commentAuthorCanCommand`; the source folds to upper case.
unfoldable pub comment_author_can_command : String → Bool
unfolding same_text lower
comment_author_can_command association =
    any (λ w. same_text (lower (codes association)) (codes w)) write_associations
