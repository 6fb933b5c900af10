-- ===== src/Service.antt =====
-- rate-limiter/internal/service/ratelimiter.go: the rate limiting service over a storage, with its
-- own circuit breaker. The mutex is modelled for one goroutine: a `Lock` that would wait for ever
-- and an unlock that the runtime refuses are outcomes. Each reading of the clock is an argument.
pub mod Data
pub mod Breaker
pub mod Decision
pub mod Outage
pub mod OverRedis
pub mod Enforcement
pub mod Updates
pub mod Termination
pub mod Effects
mod Tests
unfoldable pub use Data.*
pub use rate_limiter.Config.Data.{Limit}
use rate_limiter.Base.{
  ℕ, Bool, true, false, ◌&&◌, Option, none, some, List, [], ◌∷◌, ◌++◌, if◌then◌else◌,
}
use rate_limiter.Base.Dict.{Dict, lookup}
use rate_limiter.Base.Exec.{Result, ok, err, Exec, ◌>>=◌, ◌>>◌, pure, get}
use rate_limiter.Base.Int.{ℤ, pos, ltb_ℤ, leb_ℤ, ◌+ℤ◌, ◌-ℤ◌, int64}
use rate_limiter.Base.Sync.{
  Time, Duration, Context, zero_time, since, RwMutex, unlocked, r_lock, r_unlock, lock, unlock,
  Outcome, done, fatal,
}
use rate_limiter.Base.Text.{Text, codes}
use rate_limiter.Storage.{Storage}

module _ {Store : Type 0} where
  on_mutex : (RwMutex → Outcome RwMutex) → Exec (Service Store) (Unit {0})
  on_mutex f s = elim (f s.mutex) [ done m ↦ done (tt, record s { mutex = m }) | fatal e ↦ fatal e ]

  -- The breaker is open and its timeout has passed.
  abbrev pub is_expired : Time → Service Store → Bool
  is_expired now s = s.circuit_breaker && ltb_ℤ s.reset_timeout (since now s.last_failure)

  closed_when : Bool → Service Store → Service Store
  closed_when late s =
      if late then record s { circuit_breaker = false; failure_count = pos 0 } else s

  close_breaker : Time → Exec (Service Store) (Unit {0})
  unfolding closed_when
  close_breaker now s = done (tt, closed_when (is_expired now s) s)

  -- The branch that takes the write lock. The deferred calls run last in, first out, after the
  -- result is read: `Unlock`, then the `RUnlock` that was deferred at the start.
  recheck : Time → Exec (Service Store) Bool
  unfolding on_mutex close_breaker r_unlock lock unlock
  recheck now = do
    on_mutex r_unlock
    on_mutex lock
    close_breaker now
    s ← get
    on_mutex unlock
    on_mutex r_unlock
    pure s.circuit_breaker

  answer : Time → Bool → Exec (Service Store) Bool
  unfolding on_mutex r_unlock recheck
  answer now true = recheck now
  answer now false = do s ← get; on_mutex r_unlock; pure s.circuit_breaker

  unfoldable pub is_circuit_breaker_open : Readings → Exec (Service Store) Bool
  unfolding on_mutex r_lock answer
  is_circuit_breaker_open t = do
    on_mutex r_lock
    s ← get
    answer t.rechecked (is_expired t.checked s)

  note_failure : Time → Exec (Service Store) (Unit {0})
  note_failure now s =
      let n = int64 (s.failure_count +ℤ pos 1) in
      done (
        tt,
        record s {
          failure_count = n;
          last_failure = now;
          circuit_breaker = if leb_ℤ s.failure_threshold n then true else s.circuit_breaker;
        },
      )

  unfoldable pub increment_failure : Time → Exec (Service Store) (Unit {0})
  unfolding on_mutex note_failure lock unlock
  increment_failure now = do on_mutex lock; note_failure now; on_mutex unlock

  clear_failures : Exec (Service Store) (Unit {0})
  clear_failures s = done (
    tt,
    record s {
      failure_count = pos 0;
      last_failure = if s.circuit_breaker then s.last_failure else zero_time;
    },
  )

  unfoldable pub reset_failure : Exec (Service Store) (Unit {0})
  unfolding on_mutex clear_failures lock unlock
  reset_failure = do on_mutex lock; clear_failures; on_mutex unlock

  -- A call of the storage.
  call : {A : Type 0} → (Store → Store × A) → Exec (Service Store) A
  call f s = let (st, a) = f s.store in done (a, record s { store = st })

  -- A failed call of the storage, noted.
  fail_with :
      {E A : Type 0} → Time → ServiceError E → Exec (Service Store) (Result (ServiceError E) A)
  fail_with now e = do increment_failure now; pure (err e)

module _ (S : Storage) where
  open S use {Store, Err}

  abbrev pub Reply : Type 0 → Type 0
  Reply A = Exec (Service Store) (Result (ServiceError Err) A)

  -- What follows the count.
  report : Readings → Text → ℤ → Duration → Result Err ℤ → Reply LimitResult
  unfolding fail_with
  report t window_name limit window (err e) = fail_with t.noted (increment_failed e)
  report t window_name limit window (ok count) = do
    reset_failure
    pure (ok (counted limit window window_name count))

  -- What follows the answer about a custom limit.
  count_against : Readings → Context → Text → Text → Limit → Result Err ℤ → Reply LimitResult
  unfolding call fail_with report
  count_against t ctx full window_name d (err e) = fail_with t.noted (custom_limit_failed e)
  count_against t ctx full window_name d (ok custom) = do
    let limit = if ltb_ℤ (pos 0) custom then custom else d.requests
    reply ← call (S.increment_and_count t.called ctx full d.window)
    report t window_name limit d.window reply

  unfoldable pub apply_limit : Readings → Context → Text → Text → Option Limit → Reply LimitResult
  unfolding call count_against
  apply_limit t ctx full window_name none = pure (err (invalid_window window_name))
  apply_limit t ctx full window_name (some d) = do
    reply ← call (S.get_limit t.called ctx full window_name)
    count_against t ctx full window_name d reply

  -- What follows the answer about the whitelist.
  admit_listed : Readings → Context → Text → Text → Result Err Bool → Reply LimitResult
  unfolding fail_with
  admit_listed t ctx full window_name (err e) = fail_with t.noted (whitelist_check_failed e)
  admit_listed t ctx full window_name (ok true) = pure (ok (unlimited window_name))
  admit_listed t ctx full window_name (ok false) = do
    s ← get
    apply_limit t ctx full window_name (lookup window_name s.default_limits)

  -- What follows the test of the breaker.
  pub check_past : Readings → Context → Text → Text → Bool → Reply LimitResult
  unfolding call admit_listed
  check_past t ctx full window_name true = pure (ok (unlimited window_name))
  check_past t ctx full window_name false = do
    reply ← call (S.is_whitelisted t.called ctx full)
    admit_listed t ctx full window_name reply

  unfoldable pub check_rate_limit : Readings → Context → Text → Text → Text → Reply LimitResult
  unfolding check_past
  check_rate_limit t ctx key identifier window_name = do
    let full = full_key key identifier
    tripped ← is_circuit_breaker_open t
    check_past t ctx full window_name tripped

  -- The end of `UpdateWhitelist` and of `SetLimit`.
  settle : Readings → (Err → ServiceError Err) → Result Err (Unit {0}) → Reply (Unit {0})
  unfolding fail_with
  settle t wrap (err e) = fail_with t.noted (wrap e)
  settle t wrap (ok _) = do reset_failure; pure (ok tt)

  update_past : Readings → Context → Text → Bool → Bool → Reply (Unit {0})
  unfolding call settle
  update_past t ctx full whitelisted true = pure (err service_unavailable)
  update_past t ctx full whitelisted false = do
    reply ← call (S.update_whitelist t.called ctx full whitelisted)
    settle t update_whitelist_failed reply

  unfoldable pub update_whitelist : Readings → Context → Text → Text → Bool → Reply (Unit {0})
  unfolding update_past
  update_whitelist t ctx key identifier whitelisted = do
    tripped ← is_circuit_breaker_open t
    update_past t ctx (full_key key identifier) whitelisted tripped

  set_past : Readings → Context → Text → Text → ℤ → Bool → Reply (Unit {0})
  unfolding call settle
  set_past t ctx full window_name limit true = pure (err service_unavailable)
  set_past t ctx full window_name limit false = do
    reply ← call (S.set_limit t.called ctx full window_name limit)
    settle t set_limit_failed reply

  unfoldable pub set_limit : Readings → Context → Text → Text → Text → ℤ → Reply (Unit {0})
  unfolding set_past
  set_limit t ctx key identifier window_name limit = do
    tripped ← is_circuit_breaker_open t
    set_past t ctx (full_key key identifier) window_name limit tripped
