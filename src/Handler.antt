-- ===== src/Handler.antt =====
-- rate-limiter/internal/handler/http.go and grpc.go: the two front ends of the service. A handler is
-- given the context with its timeout, and what gin or gRPC has decoded of the request.
pub mod Http
pub mod Grpc
pub mod Agreement
pub mod Updates
pub mod Headers
pub mod Routes
mod Tests
use rate_limiter.Base.{List, [], ◌∷◌, ◌++◌, Bool, if◌then◌else◌}
use rate_limiter.Base.Text.{Text, codes, text_eq}
use rate_limiter.Service.{
  ServiceError, whitelist_check_failed, custom_limit_failed, increment_failed,
  update_whitelist_failed, set_limit_failed, invalid_window, service_unavailable,
}

-- `err.Error()` of the service's errors, over that of the storage's.
unfoldable pub error_text : {E : Type 0} → (E → Text) → ServiceError E → Text
error_text describe (whitelist_check_failed e) = codes "failed to check whitelist: " ++ describe e
error_text describe (custom_limit_failed e) = codes "failed to get custom limit: " ++ describe e
error_text describe (increment_failed e) = codes "failed to increment counter: " ++ describe e
error_text describe (update_whitelist_failed e) = codes "failed to update whitelist: " ++ describe e
error_text describe (set_limit_failed e) = codes "failed to set limit: " ++ describe e
error_text describe (invalid_window w) = codes "invalid window name: " ++ w
error_text describe service_unavailable = codes "service unavailable: circuit breaker open"

-- A parameter, or what stands for an empty one.
abbrev pub or_default : Text → Text → Text
or_default value fallback = if text_eq value [] then fallback else value
