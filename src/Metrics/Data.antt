-- ===== src/Metrics/Data.antt =====
-- rate-limiter/internal/metrics/metrics.go: the instruments, and the calls of them.
use rate_limiter.Base.{List}
use rate_limiter.Base.Int.{ℤ}
use rate_limiter.Base.Sync.{Duration}
use rate_limiter.Base.Text.{Text}

-- The fields of the struct.
pub data Instrument : Type 0 where
  requests_total requests_limited request_duration requests_in_flight response_size : Instrument
  request_errors : Instrument
  rate_limit_checks rate_limit_hits rate_limit_current_value rate_limit_duration : Instrument
  storage_operations storage_errors storage_duration : Instrument
  cache_hits cache_misses cache_size cache_operations cache_duration : Instrument
  circuit_breaker_open circuit_breaker_trips : Instrument
  go_routines gc_duration memory_usage : Instrument

-- A float64 that a method hands over: an integer converted, or a duration's `Seconds()`.
pub data Value : Type 0 where
  number : ℤ → Value
  seconds : Duration → Value

pub data Call : Type 0 where
  inc : Instrument → List Text → Call
  dec : Instrument → List Text → Call
  gauge : Instrument → List Text → Value → Call
  observe : Instrument → List Text → Value → Call

-- A `*Metrics`: nil, or the collector.
pub data Metrics : Type 0 where
  disabled enabled : Metrics
