-- ===== src/Core/LimitError.antt =====
-- src/core/limit-error.ts
use previewer.Prelude.{String, Bool, false, Option, none, some, List, [], ◌∷◌}
use previewer.Core.Text.{Text, codes, lower, mentions}

-- `LIMIT_ERROR_RE`
abbrev limit_phrases : List String
limit_phrases =
    "usage limit" ∷ "rate limit" ∷ "too many requests" ∷ "429" ∷ "quota" ∷ "try again at" ∷ []

unfoldable pub is_limit_text : Text → Bool
unfolding lower mentions
is_limit_text t = mentions limit_phrases (lower t)

-- `isLimitError`
unfoldable pub is_limit_error : Option String → Bool
unfolding is_limit_text
is_limit_error none = false
is_limit_error (some message) = is_limit_text (codes message)
