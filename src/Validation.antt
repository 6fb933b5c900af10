-- ===== src/Validation.antt =====
-- rate-limiter/internal/handler/validation.go: the checks of the common parameters. The regular
-- expressions are one class of characters each, so they are tests of each byte.
pub mod Passing
pub mod Keys
mod Tests
use rate_limiter.Base.{
  ℕ, Bool, true, false, ◌&&◌, ◌||◌, not, Option, none, some, List, [], ◌∷◌, ◌++◌, ltb, leb, ◌==◌,
  length, if◌then◌else◌,
}
use rate_limiter.Base.Dict.{Dict, lookup}
use rate_limiter.Base.Exec.{Result, ok, err}
use rate_limiter.Base.Int.{ℤ, pos, ltb_ℤ}
use rate_limiter.Base.Text.{Text, codes, text_eq}
use rate_limiter.Gin.{Request, GinCall, set, abort_json, next}

pub data ValidationError : Type 0 where
  invalid_identifier invalid_rate_limit invalid_time_window : ValidationError

abbrev pub message : ValidationError → Text
message invalid_identifier =
    codes
      "identifier must be between 1 and 100 characters and contain only alphanumeric, dash, and underscore characters"
message invalid_rate_limit = codes "rate limit must be between 1 and 1,000,000"
message invalid_time_window = codes "window must be one of: second, minute, hour, day"

abbrev pub valid_time_windows : Dict Bool
valid_time_windows =
    (codes "second", true)
    ∷ (codes "minute", true)
    ∷ (codes "hour", true)
    ∷ (codes "day", true)
    ∷ []

abbrev pub in_range : ℕ → ℕ → ℕ → Bool
in_range lo hi c = leb lo c && leb c hi

-- [a-zA-Z0-9_-]
abbrev pub is_identifier_byte : ℕ → Bool
is_identifier_byte c =
    in_range 97 122 c || (in_range 65 90 c || (in_range 48 57 c || (c == 95 || c == 45)))

abbrev pub all_identifier_bytes : Text → Bool
all_identifier_bytes [] = true
all_identifier_bytes (c ∷ cs) = is_identifier_byte c && all_identifier_bytes cs

-- `^[a-zA-Z0-9_-]+$`
abbrev pub matches_identifier : Text → Bool
matches_identifier [] = false
matches_identifier (c ∷ cs) = all_identifier_bytes (c ∷ cs)

unfoldable pub validate_identifier : Text → Option ValidationError
validate_identifier identifier =
    if ltb (length identifier) 1 || ltb 100 (length identifier)
    then some invalid_identifier
    else if not (matches_identifier identifier)
    then some invalid_identifier
    else none

unfoldable pub validate_rate_limit : ℤ → Option ValidationError
validate_rate_limit limit =
    if ltb_ℤ limit (pos 1) || ltb_ℤ (pos 1000000) limit then some invalid_rate_limit else none

-- A missing key reads as false.
abbrev pub flag : Option Bool → Bool
flag none = false
flag (some b) = b

unfoldable pub validate_time_window : Text → Option ValidationError
validate_time_window window =
    if not (flag (lookup window valid_time_windows)) then some invalid_time_window else none

-- [[:cntrl:]]
abbrev pub is_control : ℕ → Bool
is_control c = ltb c 32 || c == 127

unfoldable pub sanitize_input : Text → Text
sanitize_input [] = []
sanitize_input (c ∷ cs) = let rest = sanitize_input cs in if is_control c then rest else c ∷ rest

-- The end of the middleware, after the identifier.
check_window : Text → List GinCall → List GinCall
check_window window done_before =
    if text_eq window [] then done_before ++ next ∷ [] else elim (validate_time_window window) [
      | some e ↦ done_before ++ abort_json 400 (message e) ∷ []
      | none ↦ done_before ++ next ∷ []
    ]

unfoldable pub validation_middleware : Request → List GinCall
unfolding check_window
validation_middleware r =
    let identifier = r.query (codes "identifier") in
    let sanitized = sanitize_input identifier in
    let window = r.query (codes "window") in
    if text_eq identifier [] then check_window window [] else elim (validate_identifier sanitized) [
      | some e ↦ abort_json 400 (message e) ∷ []
      | none ↦ check_window window (set (codes "sanitized_identifier") sanitized ∷ [])
    ]

-- The bodies of requests. The rules in their tags are read by gin, not by this code.
pub record RateLimitRequest : Type 0 where
  pub key : Text
  pub identifier : Text
  pub window : Text
  pub limit : ℤ

pub record WhitelistRequest : Type 0 where
  pub key : Text
  pub identifier : Text
  pub whitelisted : Bool

-- `bound` is what `ShouldBindJSON` makes of the body. The reply, a status with an error's text, comes
-- with the result.
unfoldable pub validate_request_body {ℓ} : {A : Type ℓ} → Result Text A → Option (ℕ × Text) × Bool
validate_request_body (ok body) = (none, true)
validate_request_body (err e) = (some (400, codes "Invalid request body: " ++ e), false)
