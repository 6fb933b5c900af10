-- ===== src/Metrics.antt =====
-- rate-limiter/internal/metrics/metrics.go: what each recording method asks of the Prometheus
-- instruments. The instruments are a library's: a method is the list of the calls that it makes
-- of them, in order.
pub mod Data
pub mod Families
pub mod Registration
pub mod Labels
mod Tests
pub use Data.*
use rate_limiter.Base.{ℕ, Bool, List, [], ◌∷◌, if◌then◌else◌, Option, none, some, ◌++◌, ◌==◌}
use rate_limiter.Base.Http.{status_text}
use rate_limiter.Base.Int.{ℤ, pos}
use rate_limiter.Base.Sync.{Time, Duration, since}
use rate_limiter.Base.Text.{Text, codes, text_eq}

unfoldable pub record_http_request : Metrics → Text → Text → ℕ → Duration → ℤ → List Call
unfolding status_text
record_http_request disabled method path status duration size = []
record_http_request enabled method path status duration size =
    let known = status_text status in
    let status_str = if text_eq known [] then codes "unknown" else known in
    let labels : List Text = method ∷ path ∷ status_str ∷ [] in
    inc requests_total labels
    ∷ observe request_duration labels (seconds duration)
    ∷ observe response_size labels (number size)
    ∷ []

unfoldable pub record_rate_limit_check : Metrics → Text → Text → Bool → ℤ → Duration → List Call
record_rate_limit_check disabled key window limited current duration = []
record_rate_limit_check enabled key window limited current duration =
    let labels : List Text = key ∷ window ∷ [] in
    inc rate_limit_checks labels
    ∷ observe rate_limit_duration labels (seconds duration)
    ∷ gauge rate_limit_current_value labels (number current)
    ∷ (if limited then inc rate_limit_hits labels ∷ [] else [])

-- `failure` is the error's text.
unfoldable pub record_storage_operation : Metrics → Text → Text → Duration → Option Text → List Call
record_storage_operation disabled operation storage_type duration failure = []
record_storage_operation enabled operation storage_type duration none =
    inc storage_operations (operation ∷ storage_type ∷ [])
    ∷ observe storage_duration (operation ∷ storage_type ∷ []) (seconds duration)
    ∷ []
record_storage_operation enabled operation storage_type duration (some e) =
    inc storage_operations (operation ∷ storage_type ∷ [])
    ∷ observe storage_duration (operation ∷ storage_type ∷ []) (seconds duration)
    ∷ inc storage_errors (operation ∷ storage_type ∷ e ∷ [])
    ∷ []

unfoldable pub record_cache_operation : Metrics → Text → Text → Duration → Bool → List Call
record_cache_operation disabled operation cache_type duration hit = []
record_cache_operation enabled operation cache_type duration hit =
    inc cache_operations (operation ∷ cache_type ∷ [])
    ∷ observe cache_duration (operation ∷ cache_type ∷ []) (seconds duration)
    ∷ (if hit then inc cache_hits (cache_type ∷ []) else inc cache_misses (cache_type ∷ []))
    ∷ []

unfoldable pub record_cache_size : Metrics → Text → ℤ → List Call
record_cache_size disabled cache_type size = []
record_cache_size enabled cache_type size = gauge cache_size (cache_type ∷ []) (number size) ∷ []

unfoldable pub record_circuit_breaker_state : Metrics → Text → Bool → List Call
record_circuit_breaker_state disabled service opened = []
record_circuit_breaker_state enabled service opened =
    if opened
    then inc circuit_breaker_trips (service ∷ [])
      ∷ gauge circuit_breaker_open (service ∷ []) (number (pos 1))
      ∷ []
    else gauge circuit_breaker_open (service ∷ []) (number (pos 0)) ∷ []

-- What gin knows of a request that the rest of the chain has served: its method, the path of its
-- route (empty where there is none) and of its URL, the status and the size of the response.
pub record Served : Type 0 where
  pub method : Text
  pub full_path : Text
  pub url_path : Text
  pub status : ℕ
  pub size : ℤ

-- After the rest of the chain; a panic in it is `none` and skips to the deferred `Dec`.
unfoldable pub finished_calls : Metrics → Time → Time → Option Served → List Call
unfolding record_http_request since
finished_calls m start now none = []
finished_calls m start now (some r) =
    let path = if text_eq r.full_path [] then r.url_path else r.full_path in
    record_http_request m r.method path r.status (since now start) r.size
    ++ (if r.status == 429 then inc requests_limited (r.method ∷ path ∷ []) ∷ [] else [])

unfoldable pub metrics_middleware : Metrics → Time → Time → Option Served → List Call
unfolding finished_calls
metrics_middleware disabled start now served = []
metrics_middleware enabled start now served =
    inc requests_in_flight [] ∷ finished_calls enabled start now served
    ++ dec requests_in_flight [] ∷ []
