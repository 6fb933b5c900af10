-- ===== src/Service/Breaker.antt =====
-- rate-limiter/internal/service/ratelimiter.go: the mutex and the breaker of the service.
use rate_limiter.Base.{Bool, true, false, ◌≡◌, refl, arith, if◌then◌else◌}
use rate_limiter.Base.Exec.{ok, err, ◌>>=◌}
use rate_limiter.Base.Int.{ℤ, pos, leb_ℤ, ◌+ℤ◌, int64}
use rate_limiter.Base.Sync.{Time, Context, zero_time, unlocked, done, fatal, runlock_of_unlocked}
use rate_limiter.Base.Text.{Text}
use rate_limiter.Storage.{Storage}
use rate_limiter.Service.{
  Service, recheck, service_unavailable, Readings, is_expired, is_circuit_breaker_open,
  increment_failure, reset_failure, unlimited, check_rate_limit, update_whitelist, set_limit,
}

recheck_fatal :
    {Store : Type 0} (now : Time) (s : Service Store)
    → s.mutex ≡ record { readers = 1; writing = false }
    → recheck now s ≡ fatal runlock_of_unlocked
unfolding recheck
recheck_fatal now s held = ground arith

module _ {Store : Type 0} (t : Readings) (s : Service Store) (free : s.mutex ≡ unlocked) where
  pub is_open-steady :
      is_expired t.checked s ≡ false → is_circuit_breaker_open t s ≡ done (s.circuit_breaker, s)
  unfolding is_circuit_breaker_open
  is_open-steady h = ground arith

  pub is_open-expired :
      is_expired t.checked s ≡ true → is_circuit_breaker_open t s ≡ fatal runlock_of_unlocked
  unfolding is_circuit_breaker_open
  is_open-expired h = ground (
    arith,
    h,
    recheck_fatal t.rechecked (record s { mutex = record { readers = 1; writing = false } }) refl,
  )

module _ {Store : Type 0} (s : Service Store) (free : s.mutex ≡ unlocked) where
  -- The service after a noted failure, and after a success.
  abbrev pub after_failure : Time → Service Store
  after_failure now = record s {
    failure_count = int64 (s.failure_count +ℤ pos 1);
    last_failure = now;
    circuit_breaker =
        if leb_ℤ s.failure_threshold (int64 (s.failure_count +ℤ pos 1))
        then true
        else s.circuit_breaker;
  }

  abbrev pub after_success : Service Store
  after_success = record s {
    failure_count = pos 0;
    last_failure = if s.circuit_breaker then s.last_failure else zero_time;
  }

  pub increment_failure_lem : (now : Time) → increment_failure now s ≡ done (tt, after_failure now)
  unfolding increment_failure
  increment_failure_lem now = ground arith

  pub reset_failure_lem : reset_failure s ≡ done (tt, after_success)
  unfolding reset_failure
  reset_failure_lem = ground arith

module _ (S : Storage) (t : Readings) (ctx : Context) (key identifier window_name : Text) where
  open S use {Store}

  -- The bug: with the mutex free, the first call after the breaker's timeout does not come back.
  -- Whichever method it is, the runtime ends the process, since the deferred `RUnlock` finds the
  -- mutex unlocked.
  pub expired_is_fatal :
      (whitelisted : Bool) (limit : ℤ) (s : Service Store)
      → s.mutex ≡ unlocked
      → is_expired t.checked s ≡ true
      → (check_rate_limit S t ctx key identifier window_name s ≡ fatal runlock_of_unlocked)
        × (update_whitelist S t ctx key identifier whitelisted s ≡ fatal runlock_of_unlocked)
        × (set_limit S t ctx key identifier window_name limit s ≡ fatal runlock_of_unlocked)
  unfolding check_rate_limit update_whitelist set_limit
  expired_is_fatal whitelisted limit s free h =
      let e = is_open-expired t s free h in (rw (e, ◌>>=◌), rw (e, ◌>>=◌), rw (e, ◌>>=◌))

  -- While the mutex is free, the breaker open and its timeout not passed, every request is allowed
  -- and every update is turned away, and neither the storage nor the service changes.
  pub open_bypasses :
      (whitelisted : Bool) (limit : ℤ) (s : Service Store)
      → s.mutex ≡ unlocked
      → s.circuit_breaker ≡ true
      → is_expired t.checked s ≡ false
      → (check_rate_limit S t ctx key identifier window_name s
          ≡ done (ok (unlimited window_name), s))
        × (update_whitelist S t ctx key identifier whitelisted s
            ≡ done (err service_unavailable, s))
        × (set_limit S t ctx key identifier window_name limit s ≡ done (err service_unavailable, s))
  unfolding check_rate_limit update_whitelist set_limit
  open_bypasses whitelisted limit s free o h =
      let e = is_open-steady t s free h in
      (rw (e, ◌>>=◌) (rw o), rw (e, ◌>>=◌) (rw o), rw (e, ◌>>=◌) (rw o))
