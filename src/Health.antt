-- ===== src/Health.antt =====
-- rate-limiter/internal/health/health.go: the checks of the parts of the system and the status of the
-- whole. A checker is a function of the context; the clock, the client's answers and the runtime's
-- statistics are arguments. Latencies are kept in nanoseconds, and the JSON layout is left out.
pub mod Data
pub mod Status
mod Tests
pub use Data.*
use rate_limiter.Base.{
  ℕ, Bool, true, false, ◌&&◌, not, Option, none, some, List, [], ◌∷◌, ◌++◌, if◌then◌else◌, ◌+◌, ◌%◌,
}
use rate_limiter.Base.Dict.{Dict, insert, lookup}
use rate_limiter.Base.Exec.{Result, ok, err}
use rate_limiter.Base.Int.{ℤ, pos}
use rate_limiter.Base.Sync.{Time, Duration, Context, since}
use rate_limiter.Base.Text.{Text, codes, text_eq}
use rate_limiter.Config.Data.{RedisConfig}
use rate_limiter.Metrics.{
  Metrics, disabled, enabled, Call, gauge, number, memory_usage, go_routines,
}

unfoldable pub new_health_checker :
    Option RedisConfig → Metrics → Text → Text → Text → Time → HealthChecker
new_health_checker cfg m version environment host now = record {
  config = cfg;
  metrics = m;
  service_checkers = [];
  start_time = now;
  version = version;
  environment = environment;
  host = host;
}

unfoldable pub register_service_checker : Text → ServiceChecker → HealthChecker → HealthChecker
register_service_checker name checker h = record h {
  service_checkers = insert name checker h.service_checkers;
}

-- What Redis answers to `Ping` and to `Info`: an error is its text.
pub record RedisAnswers : Type 0 where
  pub ping : Result Text (Unit {0})
  pub info : Result Text Text
  pub started : Time
  pub pinged : Time

config_details : Option RedisConfig → List Detail
config_details none = []
config_details (some c) = addresses c.addresses ∷ db c.db ∷ []

info_details : Result Text Text → List Detail
info_details (ok text) = info text ∷ []
info_details (err e) = []

redis_health : Result Text (Unit {0}) → RedisAnswers → Time → HealthChecker → ServiceHealth
unfolding config_details info_details since
redis_health (err e) a now h = record {
  status = unhealthy;
  details = latency (since a.pinged a.started) ∷ [];
  error = codes "failed to connect to Redis: " ++ e;
  timestamp = now;
}
redis_health (ok _) a now h = record {
  status = healthy;
  details = latency (since a.pinged a.started) ∷ info_details a.info ++ config_details h.config;
  error = [];
  timestamp = now;
}

unfoldable pub check_redis_health : RedisAnswers → Time → HealthChecker → ServiceHealth
unfolding redis_health
check_redis_health a now h = redis_health a.ping a now h

-- The status after one service.
unfoldable pub combine : Text → Text → Text
combine overall service =
    if not (text_eq service healthy) && not (text_eq overall unhealthy)
    then if text_eq service unhealthy then unhealthy else degraded
    else overall

-- The loop over the checkers, in the order in which the map gives them.
unfoldable pub check_services :
    Context → Dict ServiceChecker → Text × Dict ServiceHealth → Text × Dict ServiceHealth
check_services ctx [] (overall, services) = (overall, services)
check_services ctx ((name, checker) ∷ cs) (overall, services) =
    let s = checker ctx in check_services ctx cs (combine overall s.status, insert name s services)

memory_of : MemStats → MemoryStats
memory_of m = record {
  alloc = m.alloc;
  total_alloc = m.total_alloc;
  sys = m.sys;
  heap_alloc = m.heap_alloc;
  heap_sys = m.heap_sys;
  heap_inuse = m.heap_inuse;
  stack_inuse = m.stack_inuse;
  num_gc = m.num_gc;
  gc_pause_total = m.pause_total_ns;
  gc_pause_mean = m.pause_ns ((m.num_gc + 255) % 256);
}

-- The second reading of the number of goroutines goes to the metrics.
health_calls : Metrics → MemStats → ℕ → List Call
health_calls disabled m goroutines = []
health_calls enabled m goroutines =
    gauge memory_usage (codes "heap_alloc" ∷ []) (number (pos m.heap_alloc))
    ∷ gauge memory_usage (codes "heap_sys" ∷ []) (number (pos m.heap_sys))
    ∷ gauge memory_usage (codes "stack_inuse" ∷ []) (number (pos m.stack_inuse))
    ∷ gauge go_routines [] (number (pos goroutines))
    ∷ []

-- What the runtime says when `Check` asks.
pub record RuntimeStats : Type 0 where
  pub memory : MemStats
  pub cpu : CpuStats
  pub goroutines_later : ℕ

unfoldable pub check :
    Time → Time → RedisAnswers → RuntimeStats → Context → HealthChecker → SystemHealth × List Call
unfolding memory_of health_calls since
check now checked a r ctx h =
    let redis = check_redis_health a checked h in
    let start = if not (text_eq redis.status healthy) then degraded else healthy in
    let (overall, services) =
      check_services ctx h.service_checkers (start, (codes "redis", redis) ∷ []) in
    (
      record {
        status = overall;
        timestamp = now;
        version = h.version;
        services = services;
        memory = memory_of r.memory;
        cpu = r.cpu;
        uptime = since now h.start_time;
        environment = h.environment;
        host = h.host;
      },
      health_calls h.metrics r.memory r.goroutines_later,
    )

unfoldable pub liveness : HealthChecker → Bool
liveness h = true

unfoldable pub all_ready : Context → Dict ServiceChecker → Bool
all_ready ctx [] = true
all_ready ctx ((name, checker) ∷ cs) =
    let rest = all_ready ctx cs in if text_eq (checker ctx).status unhealthy then false else rest

-- `ctx` is the context with its timeout of a second.
unfoldable pub readiness : Result Text (Unit {0}) → Context → HealthChecker → Bool
readiness (err e) ctx h = false
readiness (ok _) ctx h = all_ready ctx h.service_checkers

-- `started` and `returned` are read around the check.
unfoldable pub default_service_health_check :
    (Context → Option Text) → Time → Time → Time → ServiceChecker
unfolding since
default_service_health_check check_fn started returned now ctx = elim (check_fn ctx) [
  | none ↦ record {
    status = healthy;
    details = latency (since returned started) ∷ [];
    error = [];
    timestamp = now;
  }
  | some e ↦ record {
    status = unhealthy;
    details = latency (since returned started) ∷ [];
    error = e;
    timestamp = now;
  }
]
