-- ===== src/Health/Tests.antt =====
-- rate-limiter/internal/health/health.go: the theorems at a concrete system.
use rate_limiter.Base.{◌≡◌, none, [], ◌∷◌}
use rate_limiter.Base.Exec.{ok, err}
use rate_limiter.Base.Int.{pos}
use rate_limiter.Base.Text.{Text, codes, text_eq}
use rate_limiter.Metrics.{enabled}
use rate_limiter.Health.{ServiceChecker, HealthChecker, RedisAnswers, RuntimeStats, check, degraded}
use rate_limiter.Health.Status.{check-overall}

abbrev says : Text → ServiceChecker
says s ctx = record { status = s; details = []; error = []; timestamp = pos 0 }

abbrev checker : HealthChecker
checker = record {
  config = none;
  metrics = enabled;
  service_checkers =
      (codes "cache", says (codes "slow")) ∷ (codes "api", says (codes "healthy")) ∷ [];
  start_time = pos 0;
  version = codes "1";
  environment = codes "test";
  host = codes "h";
}

abbrev answers : RedisAnswers
answers = record { ping = ok tt; info = err (codes "no"); started = pos 1; pinged = pos 2 }

abbrev runtime : RuntimeStats
runtime = record {
  memory = record {
    alloc = 1;
    total_alloc = 1;
    sys = 1;
    heap_alloc = 1;
    heap_sys = 1;
    heap_inuse = 1;
    stack_inuse = 1;
    num_gc = 1;
    pause_total_ns = 1;
    pause_ns = λ n. n;
  };
  cpu = record { num_cpu = 1; num_goroutine = 1; cgo_calls = 0 };
  goroutines_later = 1;
}

check-overall_example : (check (pos 5) (pos 6) answers runtime none checker).0.status ≡ degraded
unfolding text_eq
check-overall_example = check-overall (pos 5) (pos 6) answers runtime none checker
