-- ===== src/Core/FailurePatterns.antt =====
-- The codes and the regular expressions of src/core/retry-classification.ts.
use previewer.Prelude.{String, not, List, [], ◌∷◌}
use previewer.Core.Regex.{
  Re, set, run, boundary, phrase, any_of, seq, optional, is_space, space, digit, char,
}

abbrev pub network_codes : List String
network_codes =
    "ECONNRESET" ∷ "ETIMEDOUT" ∷ "ENOTFOUND" ∷ "EAI_AGAIN" ∷ "ECONNREFUSED" ∷ "ECONNABORTED"
    ∷ "EPIPE" ∷ "EHOSTUNREACH" ∷ "ENETUNREACH" ∷ "ESOCKETTIMEDOUT" ∷ []

abbrev pub transient_text_re : Re
transient_text_re = any_of (
    phrase "overloaded"
    ∷ phrase "service unavailable"
    ∷ phrase "temporarily unavailable"
    ∷ phrase "bad gateway"
    ∷ seq (phrase "gateway time" ∷ optional (char b'-') ∷ phrase "out" ∷ [])
    ∷ phrase "abuse detection"
    ∷ phrase "try again later"
    ∷ [])

abbrev pub html_json_re : Re
html_json_re = any_of (
    seq (phrase "unexpected token " ∷ optional (char 39) ∷ char b'<' ∷ [])
    ∷ seq (phrase "invalid character " ∷ optional (char 39) ∷ char b'<' ∷ [])
    ∷ phrase "is not valid json"
    ∷ phrase "unexpected end of json"
    ∷ phrase "<!doctype"
    ∷ phrase "<html"
    ∷ phrase "unicorn"
    ∷ [])

abbrev not_space : Re
not_space = set (λ c. not (is_space c))

abbrev pub git_transport_re : Re
git_transport_re = any_of (
    seq (any_of (phrase "could not" ∷ phrase "couldn't" ∷ []) ∷ phrase " resolve host" ∷ [])
    ∷ phrase "temporary failure in name resolution"
    ∷ phrase "the remote end hung up"
    ∷ seq (
        phrase "the requested url returned error: "
        ∷ any_of (seq (char b'5' ∷ digit ∷ digit ∷ []) ∷ phrase "429" ∷ phrase "408" ∷ [])
        ∷ [])
    ∷ seq (
        phrase "could not fetch "
        ∷ not_space
        ∷ run (λ c. not (is_space c))
        ∷ phrase " from promisor remote"
        ∷ [])
    ∷ seq (phrase "connection " ∷ any_of (phrase "timed out" ∷ phrase "reset" ∷ []) ∷ [])
    ∷ phrase "reset by peer"
    ∷ phrase "failed to connect"
    ∷ phrase "early eof"
    ∷ phrase "rpc failed"
    ∷ phrase "ssl connect error"
    ∷ phrase "gnutls_handshake"
    ∷ phrase "network is unreachable"
    ∷ [])

abbrev pub timeout_re : Re
timeout_re = any_of (
    seq (phrase "time" ∷ optional (char b'd') ∷ optional space ∷ phrase "out" ∷ [])
    ∷ phrase "timeout"
    ∷ seq (boundary ∷ phrase "aborted" ∷ boundary ∷ [])
    ∷ phrase "esockettimedout"
    ∷ [])

abbrev pub auth_re : Re
auth_re = any_of (
    phrase "bad credentials"
    ∷ phrase "unauthorized"
    ∷ seq (boundary ∷ phrase "401" ∷ boundary ∷ [])
    ∷ phrase "authentication failed"
    ∷ phrase "not accessible by integration"
    ∷ phrase "requires authentication"
    ∷ phrase "permission denied (publickey)"
    ∷ phrase "permission denied (password)"
    ∷ [])

abbrev pub rate_limit_403_re : Re
rate_limit_403_re = any_of (
    phrase "secondary rate limit"
    ∷ phrase "abuse detection"
    ∷ phrase "api rate limit exceeded"
    ∷ phrase "exceeded a rate limit"
    ∷ [])
