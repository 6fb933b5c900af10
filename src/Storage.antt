-- ===== src/Storage.antt =====
-- rate-limiter/internal/storage/storage.go: the interface that the service calls. A call takes the
-- time at which it is made and the context, and returns the store that it leaves and its result.
pub mod Redis
use rate_limiter.Base.{Bool}
use rate_limiter.Base.Exec.{Result}
use rate_limiter.Base.Int.{ℤ}
use rate_limiter.Base.Sync.{Time, Duration, Context}
use rate_limiter.Base.Text.{Text}

pub record Storage : Type 1 where
  pub Store : Type 0
  pub Err : Type 0
  pub increment_and_count : Time → Context → Text → Duration → Store → Store × Result Err ℤ
  pub is_whitelisted : Time → Context → Text → Store → Store × Result Err Bool
  pub update_whitelist : Time → Context → Text → Bool → Store → Store × Result Err (Unit {0})
  pub set_limit : Time → Context → Text → Text → ℤ → Store → Store × Result Err (Unit {0})
  pub get_limit : Time → Context → Text → Text → Store → Store × Result Err ℤ
