-- ===== src/CircuitBreaker/Invariant.antt =====
-- rate-limiter/internal/circuitbreaker/circuitbreaker.go: what holds of a breaker between two
-- calls, in whatever order goroutines make them.
use rate_limiter.Base.{ℕ, ◌^◌, ◌+◌, ◌≤◌, ◌<◌, ◌≡◌, ◌⊎◌, List, [], ◌∷◌, arith, if◌then◌else◌}
use rate_limiter.Base.Sync.{Time, add_time}
use rate_limiter.Metrics.{Metrics}
use rate_limiter.CircuitBreaker.{
  open_state, half_open, CircuitBreaker, set_state, current_state, before_request, on_success,
  on_failure, after_request, reset, force_open, force_close, state_of, Ticket, admitted, refused,
  is_state, Event, begins, ends, looks, resets, forces_open, forces_closed, step, run,
}

pub record Inv (cb : CircuitBreaker) : Type 0 where
  -- `maxRequests` is a `uint32`
  pub quota_fits : cb.max_requests < 2 ^ 32
  -- half-open counts at most `maxRequests` requests
  pub quota : cb.state ≡ half_open → cb.counts.requests ≤ cb.max_requests
  -- half-open ends with the success that reaches the quota, and with the first failure
  pub successes :
      cb.state ≡ half_open → 0 < cb.max_requests → cb.counts.consecutive_successes < cb.max_requests
  pub no_failures : cb.state ≡ half_open → cb.counts.consecutive_failures ≡ 0
  -- an open breaker waits for `timeout` from the moment at which it opened
  pub waits : cb.state ≡ open_state → cb.expiry ≡ add_time cb.last_state_change cb.timeout
  -- one of the two runs is always at its start
  pub runs : (cb.counts.consecutive_successes ≡ 0) ⊎ (cb.counts.consecutive_failures ≡ 0)

current_state-Inv : (now : Time) (cb : CircuitBreaker) → Inv cb → Inv (current_state now cb)
unfolding current_state set_state
current_state-Inv now cb h = ground arith

begins-Inv : (now : Time) (cb : CircuitBreaker) → Inv cb → Inv (before_request now cb).0
unfolding before_request
begins-Inv now cb h = ground (arith, current_state-Inv now cb h)

on_success-Inv : (now : Time) (cb : CircuitBreaker) → Inv cb → Inv (on_success now cb)
unfolding on_success set_state
on_success-Inv now cb h = ground arith

on_failure-Inv : (now : Time) (cb : CircuitBreaker) → Inv cb → Inv (on_failure now cb)
unfolding on_failure set_state
on_failure-Inv now cb h = ground arith

-- Every call keeps the invariant.
step-Inv : (e : Event) (cb : CircuitBreaker) → Inv cb → Inv (step e cb)
unfolding step
step-Inv (begins now) cb h = begins-Inv now cb h
step-Inv (looks now) cb h = unfold state_of in current_state-Inv now cb h
step-Inv (ends now g success) cb h =
    let h' = current_state-Inv now cb h in
    unfold after_request in
    ground (
      arith,
      h',
      on_success-Inv now (current_state now cb) h',
      on_failure-Inv now (current_state now cb) h',
    )
step-Inv (resets now) cb h = unfold reset set_state in ground arith
step-Inv (forces_open now) cb h = unfold force_open set_state in ground arith
step-Inv (forces_closed now) cb h = unfold force_close set_state in ground arith

pub run_of-Inv : (es : List Event) (cb : CircuitBreaker) → Inv cb → Inv (run es cb)
unfolding run
run_of-Inv [] cb h = h
run_of-Inv (e ∷ es) cb h = run_of-Inv es (step e cb) (step-Inv e cb h)

-- A request that is admitted counts one.
abbrev pub granted : Ticket → ℕ
granted (admitted g) = 1
granted (refused g r) = 0

-- The requests that a call admits.
abbrev pub admissions : Event → CircuitBreaker → ℕ
admissions (begins now) cb = granted (before_request now cb).1
admissions (ends now g success) cb = 0
admissions (looks now) cb = 0
admissions (resets now) cb = 0
admissions (forces_open now) cb = 0
admissions (forces_closed now) cb = 0

-- The requests that a run of calls admits since the breaker was last in another state than
-- half-open, after `n` of them before the run.
unfoldable pub admitted_half_open : List Event → ℕ → CircuitBreaker → ℕ
admitted_half_open [] n cb = n
admitted_half_open (e ∷ es) n cb =
    admitted_half_open es ((if is_state cb.state half_open then n else 0) + admissions e cb)
      (step e cb)

-- The count of requests is at least those admitted.
abbrev Tallies : ℕ → CircuitBreaker → Type 0
Tallies n cb = cb.state ≡ half_open → n ≤ cb.counts.requests
