-- ===== src/CircuitBreaker/Transitions.antt =====
-- rate-limiter/internal/circuitbreaker/circuitbreaker.go: which state changes each call can make,
-- and how the generation follows them.
use rate_limiter.Base.{◌≡◌, ◌≢◌, ◌⊎◌, true, false, arith}
use rate_limiter.CircuitBreaker.{
  State, closed, open_state, half_open, CircuitBreaker, set_state, current_state, before_request,
  on_success, on_failure, after_request, reset, force_open, force_close, state_of, Event, begins,
  ends, looks, resets, forces_open, forces_closed, step,
}

-- The state changes that a call may make.
abbrev pub Allowed : Event → State → State → Type 0
Allowed (begins _) s t = (t ≡ s) ⊎ ((s ≡ open_state) × (t ≡ half_open))
Allowed (looks _) s t = (t ≡ s) ⊎ ((s ≡ open_state) × (t ≡ half_open))
Allowed (ends _ _ true) s t =
    (t ≡ s) ⊎ ((s ≡ open_state) × (t ≡ half_open)) ⊎ ((s ≢ closed) × (t ≡ closed))
Allowed (ends _ _ false) s t =
    (t ≡ s) ⊎ ((s ≡ open_state) × (t ≡ half_open)) ⊎ ((s ≢ open_state) × (t ≡ open_state))
Allowed (resets _) s t = t ≡ closed
Allowed (forces_closed _) s t = t ≡ closed
Allowed (forces_open _) s t = t ≡ open_state

-- Looking at the breaker or starting a request moves it from open to half-open at most; a reported
-- success moves it besides to closed only, a reported failure to open only; `Reset` and
-- `ForceClose` leave it closed and `ForceOpen` open. So a closed breaker opens by a reported
-- failure or by `ForceOpen` alone.
pub step-Allowed : (e : Event) (cb : CircuitBreaker) → Allowed e cb.state (step e cb).state
unfolding step before_request state_of current_state set_state
step-Allowed (begins now) cb = ground arith
step-Allowed (looks now) cb = ground arith
step-Allowed (ends now g true) cb = unfold after_request on_success in ground arith
step-Allowed (ends now g false) cb = unfold after_request on_failure in ground arith
step-Allowed (resets now) cb = unfold reset in ground arith
step-Allowed (forces_open now) cb = unfold force_open in ground arith
step-Allowed (forces_closed now) cb = unfold force_close in ground arith
