-- ===== src/Core/Failure.antt =====
-- src/core/retry-classification.ts: what a thrown value says about a retry.
use previewer.Prelude.{
  ℕ, String, Bool, false, ◌&&◌, ◌||◌, Option, none, some, List, [], ◌∷◌, ◌++◌, leb, ◌==◌, str_eq,
  if◌then◌else◌, any, get_or,
}
use previewer.Core.Text.{Text, codes, starts_with}
use previewer.Core.Regex.{test_i}
use previewer.Core.LimitError.{is_limit_text}
use previewer.Core.FailurePatterns.{
  network_codes, transient_text_re, html_json_re, git_transport_re, timeout_re, auth_re,
  rate_limit_403_re,
}

pub data FailureClass : Type 0 where
  transient permanent unknown : FailureClass

-- A property of a thrown object.
pub data Field : Type 0 where
  absent : Field
  number : ℕ → Field
  text : String → Field
  other : Field

-- The properties that the classification reads; `response_status` and `cause_code` are those of the
-- objects `response` and `cause`.
pub record Fields : Type 0 where
  pub status : Field
  pub status_code : Field
  pub response_status : Field
  pub code : Field
  pub cause_code : Field
  pub message : Field
  pub stderr : Field

-- `thrown_error message name fields` is an instance of `Error`; `thrown_object` and `thrown_other`
-- hold the text that `String(err ?? "")` makes of any other object or value, and `thrown_other` the
-- name of its type.
pub data Thrown : Type 0 where
  thrown_error : String → String → Fields → Thrown
  thrown_object : String → Fields → Thrown
  thrown_text : String → Thrown
  thrown_other : String → String → Thrown

no_fields : Fields
no_fields = record {
  status = absent;
  status_code = absent;
  response_status = absent;
  code = absent;
  cause_code = absent;
  message = absent;
  stderr = absent;
}

-- `asRecord`, with no properties where the value is no object
fields_of : Thrown → Fields
unfolding no_fields
fields_of (thrown_error _ _ fs) = fs
fields_of (thrown_object _ fs) = fs
fields_of _ = no_fields

abbrev first_number : List Field → Option ℕ
first_number [] = none
first_number (number n ∷ fs) = some n
first_number (_ ∷ fs) = first_number fs

abbrev first_text : List Field → Option String
first_text [] = none
first_text (text s ∷ fs) = some s
first_text (_ ∷ fs) = first_text fs

extract_status : Thrown → Option ℕ
unfolding fields_of
extract_status err =
    let fs = fields_of err in first_number (fs.status ∷ fs.status_code ∷ fs.response_status ∷ [])

extract_code : Thrown → Option String
unfolding fields_of
extract_code err = let fs = fields_of err in first_text (fs.code ∷ fs.cause_code ∷ [])

extract_message : Thrown → String
extract_message (thrown_error m _ _) = m
extract_message (thrown_text s) = s
extract_message (thrown_object printed fs) = get_or (first_text (fs.message ∷ [])) printed
extract_message (thrown_other _ printed) = printed

-- An empty `stderr` counts as none.
abbrev non_empty : Field → Option String
non_empty (text s) = if str_eq s "" then none else some s
non_empty _ = none

extract_stderr : Thrown → Option String
unfolding fields_of
extract_stderr err = non_empty (fields_of err).stderr

extract_name : Thrown → String
extract_name (thrown_error _ name _) = name
extract_name (thrown_object _ _) = "object"
extract_name (thrown_text _) = "string"
extract_name (thrown_other type _) = type

-- `FailureDetails`, but for `stack`, which only the journal prints
pub record FailureDetails : Type 0 where
  pub message : String
  pub status : Option ℕ
  pub code : Option String
  pub name : String
  pub stderr : Option String

unfoldable pub describe_failure : Thrown → FailureDetails
unfolding extract_message extract_status extract_code extract_name extract_stderr
describe_failure err = record {
  message = extract_message err;
  status = extract_status err;
  code = extract_code err;
  name = extract_name err;
  stderr = extract_stderr err;
}

abbrev pub config_error_prefix : String
config_error_prefix = "previewer config error:"

abbrev in_range : ℕ → ℕ → Option ℕ → Bool
in_range lo hi none = false
in_range lo hi (some s) = leb lo s && leb s hi

abbrev is_status : ℕ → Option ℕ → Bool
is_status n none = false
is_status n (some s) = s == n

is_network_code : Option String → Bool
is_network_code none = false
is_network_code (some c) = any (λ n. str_eq n c) network_codes

-- The text that the expressions are tried on.
failure_text : FailureDetails → Text
failure_text d = elim d.stderr [ none ↦ codes d.message | some e ↦ codes d.message ++ 10 ∷ codes e ]

-- The heuristics for a failure with no authoritative signal.
classify_text : Text → FailureClass
classify_text t =
    if is_limit_text t
    then transient
    else if test_i transient_text_re t
    then transient
    else if test_i git_transport_re t
    then transient
    else if test_i html_json_re t
    then transient
    else if test_i timeout_re t
    then transient
    else unknown

unfoldable pub is_config_error : String → Bool
unfolding starts_with
is_config_error message = starts_with (codes config_error_prefix) (codes message)

classify_details : FailureDetails → FailureClass
unfolding is_network_code failure_text classify_text
classify_details d =
    let t = failure_text d in
    if is_config_error d.message
    then transient
    else if is_network_code d.code
    then transient
    else if str_eq d.name "AbortError" || str_eq d.name "TimeoutError"
    then transient
    else if is_status 429 d.status
    then transient
    else if is_status 408 d.status
    then transient
    else if in_range 500 599 d.status
    then transient
    else if is_status 403 d.status && test_i rate_limit_403_re t
    then transient
    else if in_range 400 499 d.status
    then permanent
    else if test_i auth_re t
    then permanent
    else classify_text t

-- `classifyFailure`
unfoldable pub classify_failure : Thrown → FailureClass
unfolding classify_details describe_failure
classify_failure err = classify_details (describe_failure err)
