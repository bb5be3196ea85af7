-- ===== src/Dashboard/ErrorKind.antt =====
-- src/apps/dashboard/error-kind.ts
use previewer.Prelude.{String, Bool, true, false, not, ◌&&◌, [], ◌∷◌, ◌==◌, if◌then◌else◌}
use previewer.Core.Text.{codes}
use previewer.Core.Regex.{Re, set, boundary, phrase, any_of, seq, optional, test_i}

pub data ErrorKind : Type 0 where
  usage_limit rate_limit error : ErrorKind

-- `.`
abbrev any_char : Re
any_char = set (λ c. not (c == 10) && not (c == 13) && not (c == 8232) && not (c == 8233))

abbrev usage_limit_re : Re
usage_limit_re = any_of (
    seq (phrase "usage" ∷ optional any_char ∷ phrase "limit" ∷ [])
    ∷ phrase "quota"
    ∷ phrase "try again at"
    ∷ seq (boundary ∷ phrase "plan limit" ∷ boundary ∷ [])
    ∷ [])

abbrev rate_limit_re : Re
rate_limit_re = any_of (
    seq (phrase "rate" ∷ optional any_char ∷ phrase "limit" ∷ [])
    ∷ phrase "too many requests"
    ∷ seq (boundary ∷ phrase "429" ∷ boundary ∷ [])
    ∷ phrase "overloaded"
    ∷ phrase "subscription_rate_limits"
    ∷ [])

unfoldable pub classify_error_kind : String → ErrorKind
classify_error_kind message =
    if test_i usage_limit_re (codes message)
    then usage_limit
    else if test_i rate_limit_re (codes message)
    then rate_limit
    else error

-- `isLimitError` of the dashboard
unfoldable pub is_limit_error : String → Bool
unfolding classify_error_kind
is_limit_error message = elim (classify_error_kind message) [ error ↦ false | _ ↦ true ]
