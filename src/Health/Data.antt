-- ===== src/Health/Data.antt =====
-- rate-limiter/internal/health/health.go: the reports and the state of the checker.
use rate_limiter.Base.{ℕ, Option, List}
use rate_limiter.Base.Dict.{Dict}
use rate_limiter.Base.Int.{ℤ}
use rate_limiter.Base.Sync.{Time, Duration, Context}
use rate_limiter.Base.Text.{Text, codes}
use rate_limiter.Config.Data.{RedisConfig}
use rate_limiter.Metrics.{Metrics}

abbrev pub healthy : Text
healthy = codes "healthy"

abbrev pub degraded : Text
degraded = codes "degraded"

abbrev pub unhealthy : Text
unhealthy = codes "unhealthy"

-- One of the details.
pub data Detail : Type 0 where
  latency : Duration → Detail
  info : Text → Detail
  addresses : List Text → Detail
  db : ℤ → Detail

pub record ServiceHealth : Type 0 where
  pub status : Text
  pub details : List Detail
  pub error : Text
  pub timestamp : Time

-- `runtime.MemStats`, as far as it is used. `pause_ns` has 256 slots.
pub record MemStats : Type 0 where
  pub alloc : ℕ
  pub total_alloc : ℕ
  pub sys : ℕ
  pub heap_alloc : ℕ
  pub heap_sys : ℕ
  pub heap_inuse : ℕ
  pub stack_inuse : ℕ
  pub num_gc : ℕ
  pub pause_total_ns : ℕ
  pub pause_ns : ℕ → ℕ

-- The pauses stay in nanoseconds; the code divides them by a million.
pub record MemoryStats : Type 0 where
  pub alloc : ℕ
  pub total_alloc : ℕ
  pub sys : ℕ
  pub heap_alloc : ℕ
  pub heap_sys : ℕ
  pub heap_inuse : ℕ
  pub stack_inuse : ℕ
  pub num_gc : ℕ
  pub gc_pause_total : ℕ
  pub gc_pause_mean : ℕ

pub record CpuStats : Type 0 where
  pub num_cpu : ℕ
  pub num_goroutine : ℕ
  pub cgo_calls : ℕ

pub record SystemHealth : Type 0 where
  pub status : Text
  pub timestamp : Time
  pub version : Text
  pub services : Dict ServiceHealth
  pub memory : MemoryStats
  pub cpu : CpuStats
  pub uptime : Duration
  pub environment : Text
  pub host : Text

abbrev pub ServiceChecker : Type 0
ServiceChecker = Context → ServiceHealth

pub record HealthChecker : Type 0 where
  pub config : Option RedisConfig  -- none is nil
  pub metrics : Metrics
  pub service_checkers : Dict ServiceChecker
  pub start_time : Time
  pub version : Text
  pub environment : Text
  pub host : Text
