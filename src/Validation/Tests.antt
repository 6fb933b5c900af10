-- ===== src/Validation/Tests.antt =====
-- rate-limiter/internal/handler/validation.go: the theorems at concrete requests.
use rate_limiter.Base.{◌≡◌, refl, none, [], ◌∷◌, if◌then◌else◌}
use rate_limiter.Base.Dict.{lookup}
use rate_limiter.Base.Text.{codes, text_eq}
use rate_limiter.Gin.{Request, set, next}
use rate_limiter.Validation.{
  sanitize_input, validation_middleware, validate_identifier, validate_time_window,
}

-- identifier=u<tab>1 and window=minute
abbrev request : Request
request = record {
  get_header = λ k. [];
  query = λ k.
      if text_eq k (codes "identifier")
      then 117 ∷ 9 ∷ 49 ∷ []
      else if text_eq k (codes "window")
      then codes "minute"
      else [];
  get = λ k. none;
  client_ip = codes "10.0.0.1";
  method = codes "GET";
}

sanitised_is_passed_on :
    validation_middleware request ≡ set (codes "sanitized_identifier") (codes "u1") ∷ next ∷ []
unfolding validation_middleware sanitize_input text_eq validate_identifier validate_time_window
    lookup
sanitised_is_passed_on = refl
