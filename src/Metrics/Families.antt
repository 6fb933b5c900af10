-- ===== src/Metrics/Families.antt =====
-- rate-limiter/internal/metrics/metrics.go: the families that NewMetrics registers, and their
-- registration. The registerer is a library's, and a parameter.
use rate_limiter.Base.{ℕ, List, [], ◌∷◌, ◌++◌, map, if◌then◌else◌}
use rate_limiter.Base.Sync.{Outcome, done, fatal}
use rate_limiter.Base.Text.{Text, codes}
use rate_limiter.Config.Data.{Ratio, MetricsConfig}
use rate_limiter.Metrics.Data.{
  Instrument, Metrics, disabled, enabled, requests_total, requests_limited, request_duration,
  requests_in_flight, response_size, request_errors, rate_limit_checks, rate_limit_hits,
  rate_limit_current_value, rate_limit_duration, storage_operations, storage_errors,
  storage_duration, cache_hits, cache_misses, cache_size, cache_operations, cache_duration,
  circuit_breaker_open, circuit_breaker_trips, go_routines, gc_duration, memory_usage,
}

infix 60 ◌//◌
abbrev pub ◌//◌ : ℕ → ℕ → Ratio
a // b = record { over = a; under = b }

-- The buckets of a histogram, as listed or as `ExponentialBuckets(start, factor, count)` makes them.
pub data Buckets : Type 0 where
  listed : List Ratio → Buckets
  exponential : Ratio → ℕ → ℕ → Buckets

pub data Kind : Type 0 where
  counter gauge_value : Kind
  histogram : Buckets → Kind

-- The options of a family and the names of its labels, without the help text.
pub record Family : Type 0 where
  pub name : Text
  pub kind : Kind
  pub labels : List Text

abbrev pub family_of : Text → Kind → List Text → Family
family_of name kind labels = record { name = name; kind = kind; labels = labels }

unfoldable pub family : Instrument → Family
family requests_total =
    family_of (codes "ratelimiter_http_requests_total") counter
      (codes "method" ∷ codes "path" ∷ codes "status" ∷ [])
family requests_limited =
    family_of (codes "ratelimiter_http_requests_limited_total") counter
      (codes "method" ∷ codes "path" ∷ [])
family request_duration =
    family_of (codes "ratelimiter_http_request_duration_seconds")
      (histogram (
        listed (
          (1 // 10000)
          ∷ (1 // 2000)
          ∷ (1 // 1000)
          ∷ (1 // 200)
          ∷ (1 // 100)
          ∷ (1 // 20)
          ∷ (1 // 10)
          ∷ (1 // 2)
          ∷ (1 // 1)
          ∷ (5 // 1)
          ∷ (10 // 1)
          ∷ [])))
      (codes "method" ∷ codes "path" ∷ codes "status" ∷ [])
family requests_in_flight = family_of (codes "ratelimiter_http_requests_in_flight") gauge_value []
family response_size =
    family_of (codes "ratelimiter_http_response_size_bytes")
      (histogram (exponential (100 // 1) 10 8))
      (codes "method" ∷ codes "path" ∷ codes "status" ∷ [])
family request_errors =
    family_of (codes "ratelimiter_http_request_errors_total") counter
      (codes "method" ∷ codes "path" ∷ codes "error_type" ∷ [])
family rate_limit_checks =
    family_of (codes "ratelimiter_checks_total") counter (codes "key" ∷ codes "window" ∷ [])
family rate_limit_hits =
    family_of (codes "ratelimiter_hits_total") counter (codes "key" ∷ codes "window" ∷ [])
family rate_limit_current_value =
    family_of (codes "ratelimiter_current_value") gauge_value (codes "key" ∷ codes "window" ∷ [])
family rate_limit_duration =
    family_of (codes "ratelimiter_check_duration_seconds")
      (histogram (
        listed (
          (1 // 10000)
          ∷ (1 // 2000)
          ∷ (1 // 1000)
          ∷ (1 // 200)
          ∷ (1 // 100)
          ∷ (1 // 20)
          ∷ (1 // 10)
          ∷ [])))
      (codes "key" ∷ codes "window" ∷ [])
family storage_operations =
    family_of (codes "ratelimiter_storage_operations_total") counter
      (codes "operation" ∷ codes "storage_type" ∷ [])
family storage_errors =
    family_of (codes "ratelimiter_storage_errors_total") counter
      (codes "operation" ∷ codes "storage_type" ∷ codes "error_type" ∷ [])
family storage_duration =
    family_of (codes "ratelimiter_storage_operation_duration_seconds")
      (histogram (
        listed (
          (1 // 10000)
          ∷ (1 // 2000)
          ∷ (1 // 1000)
          ∷ (1 // 200)
          ∷ (1 // 100)
          ∷ (1 // 20)
          ∷ (1 // 10)
          ∷ [])))
      (codes "operation" ∷ codes "storage_type" ∷ [])
family cache_hits =
    family_of (codes "ratelimiter_cache_hits_total") counter (codes "cache_type" ∷ [])
family cache_misses =
    family_of (codes "ratelimiter_cache_misses_total") counter (codes "cache_type" ∷ [])
family cache_size = family_of (codes "ratelimiter_cache_size") gauge_value (codes "cache_type" ∷ [])
family cache_operations =
    family_of (codes "ratelimiter_cache_operations_total") counter
      (codes "operation" ∷ codes "cache_type" ∷ [])
family cache_duration =
    family_of (codes "ratelimiter_cache_operation_duration_seconds")
      (histogram (listed ((1 // 10000) ∷ (1 // 2000) ∷ (1 // 1000) ∷ (1 // 200) ∷ (1 // 100) ∷ [])))
      (codes "operation" ∷ codes "cache_type" ∷ [])
family circuit_breaker_open =
    family_of (codes "ratelimiter_circuit_breaker_open") gauge_value (codes "service" ∷ [])
family circuit_breaker_trips =
    family_of (codes "ratelimiter_circuit_breaker_trips_total") counter (codes "service" ∷ [])
family go_routines = family_of (codes "ratelimiter_goroutines") gauge_value []
family gc_duration =
    family_of (codes "ratelimiter_gc_duration_seconds") (histogram (exponential (1 // 10000) 2 10))
      []
family memory_usage =
    family_of (codes "ratelimiter_memory_usage_bytes") gauge_value (codes "type" ∷ [])

-- The fields in the order in which the composite literal makes them.
unfoldable pub instruments : List Instrument
instruments =
    requests_total ∷ requests_limited ∷ request_duration ∷ requests_in_flight ∷ response_size
    ∷ request_errors ∷ rate_limit_checks ∷ rate_limit_hits ∷ rate_limit_current_value
    ∷ rate_limit_duration ∷ storage_operations ∷ storage_errors ∷ storage_duration ∷ cache_hits
    ∷ cache_misses ∷ cache_size ∷ cache_operations ∷ cache_duration ∷ circuit_breaker_open
    ∷ circuit_breaker_trips ∷ go_routines ∷ gc_duration ∷ memory_usage ∷ []

-- What is registered: a family, by its name, or the collector of Go's statistics.
pub data Collector : Type 0 where
  named : Text → Collector
  go_collector : Collector

-- Prometheus' registerer; `must_register` panics where the registry already holds the collector.
pub record Registerer : Type 1 where
  pub Registry : Type 0
  pub must_register : Collector → Registry → Outcome Registry

unfoldable pub register_all : (R : Registerer) → List Collector → R.Registry → Outcome R.Registry
register_all R [] g = done g
register_all R (c ∷ cs) g = elim (R.must_register c g) [
  | done g' ↦ register_all R cs g'
  | fatal e ↦ fatal e
]

abbrev pub collectors : MetricsConfig → List Collector
collectors cfg =
    map (λ i. named (family i).name) instruments
    ++ (if cfg.enable_go_stats then go_collector ∷ [] else [])

unfoldable pub new_metrics :
    (R : Registerer) → MetricsConfig → R.Registry → Outcome (Metrics × R.Registry)
unfolding family instruments register_all
new_metrics R cfg g =
    if cfg.enabled
    then elim (register_all R (collectors cfg) g) [
      | done g' ↦ done (enabled, g')
      | fatal e ↦ fatal e
    ]
    else done (disabled, g)

-- The histogram of `InstrumentHandler` with the value of its one label. It is made by
-- `NewHistogramVec` and registered nowhere.
unfoldable pub instrument_handler : Text → Family × Text
instrument_handler name = (
  family_of (codes "ratelimiter_handler_duration_seconds")
      (histogram (
        listed
          ((1 // 1000) ∷ (1 // 100) ∷ (1 // 10) ∷ (1 // 2) ∷ (1 // 1) ∷ (5 // 1) ∷ (10 // 1) ∷ [])))
      (codes "handler" ∷ []),
  name,
)
