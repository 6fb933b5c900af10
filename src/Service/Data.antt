-- ===== src/Service/Data.antt =====
-- rate-limiter/internal/service/ratelimiter.go: the results, the errors and the state of the service,
-- and what is made of them without it.
use rate_limiter.Base.{Bool, false, ◌++◌, if◌then◌else◌}
use rate_limiter.Base.Dict.{Dict}
use rate_limiter.Base.Int.{ℤ, pos, ltb_ℤ, ◌-ℤ◌, int64}
use rate_limiter.Base.Sync.{Time, Duration, zero_time, RwMutex, unlocked}
use rate_limiter.Base.Text.{Text, codes}
use rate_limiter.Config.Data.{Limit}

-- `LimitResult`
pub record LimitResult : Type 0 where
  pub limited : Bool
  pub current_count : ℤ
  pub limit : ℤ
  pub remaining : ℤ
  pub reset_after : Duration
  pub window : Text

-- The messages of the errors that the methods return; `E` is the storage's error.
pub data ServiceError (E : Type 0) : Type 0 where
  whitelist_check_failed custom_limit_failed increment_failed : E → ServiceError E
  update_whitelist_failed set_limit_failed : E → ServiceError E
  invalid_window : Text → ServiceError E
  service_unavailable : ServiceError E

pub record Service (Store : Type 0) : Type 0 where
  pub store : Store
  pub default_limits : Dict Limit
  pub circuit_breaker : Bool
  pub failure_count : ℤ
  pub failure_threshold : ℤ
  pub last_failure : Time
  pub reset_timeout : Duration
  pub mutex : RwMutex

unfoldable pub new_service : {Store : Type 0} → Store → Dict Limit → Service Store
new_service store limits = record {
  store = store;
  default_limits = limits;
  circuit_breaker = false;
  failure_count = pos 0;
  failure_threshold = pos 5;
  last_failure = zero_time;
  reset_timeout = pos 10000000000;
  mutex = unlocked;
}

-- The clock as one method reads it: at the first and the second test of the breaker's timeout, by
-- the storage, and when a failure is noted.
pub record Readings : Type 0 where
  pub checked : Time
  pub rechecked : Time
  pub called : Time
  pub noted : Time

-- fmt.Sprintf("%s:%s", key, identifier)
unfoldable pub full_key : Text → Text → Text
full_key key identifier = key ++ codes ":" ++ identifier

-- The result while the breaker is open, and for a whitelisted key.
abbrev pub unlimited : Text → LimitResult
unlimited window_name = record {
  limited = false;
  current_count = pos 0;
  limit = pos 0;
  remaining = pos 0;
  reset_after = pos 0;
  window = window_name;
}

unfoldable pub counted : ℤ → Duration → Text → ℤ → LimitResult
counted limit window window_name count =
    let remaining = int64 (limit -ℤ count) in
    record {
      limited = ltb_ℤ limit count;
      current_count = count;
      limit = limit;
      remaining = if ltb_ℤ remaining (pos 0) then pos 0 else remaining;
      reset_after = window;
      window = window_name;
    }
