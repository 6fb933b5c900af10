-- ===== src/CircuitBreaker.antt =====
-- rate-limiter/internal/circuitbreaker/circuitbreaker.go. Each method runs under the breaker's
-- mutex, so it is one function from a breaker to a breaker; the reading of the clock that it takes
-- is its argument. `uint64` counters wrap.
pub mod Data
pub mod Transitions
pub mod Generations
pub mod Invariant
pub mod Admission
pub mod Tripping
mod Tests
unfoldable pub use Data.*
use rate_limiter.Base.{
  ℕ, ◌+◌, ◌%◌, ◌^◌, ◌<◌, Bool, true, false, ◌&&◌, Option, none, some, List, [], ◌∷◌, ◌++◌, ltb, leb,
  ◌==◌, if◌then◌else◌,
}
use rate_limiter.Base.Int.{inc64, ℤ, pos, ltb_ℤ}
use rate_limiter.Base.Sync.{Time, Duration, zero_time, after, add_time, since, second}
use rate_limiter.Base.Text.{Text, codes}
use rate_limiter.Metrics.{Metrics, Call, record_circuit_breaker_state}

unfoldable pub set_state : State → Time → CircuitBreaker → CircuitBreaker
unfolding record_circuit_breaker_state add_time
set_state s now cb = if is_state cb.state s then cb else record cb {
  state = s;
  last_state_change = now;
  counts = record (cb.counts) { requests = 0; consecutive_successes = 0; consecutive_failures = 0 };
  expiry = if is_state s open_state then add_time now cb.timeout else cb.expiry;
  generation = inc64 cb.generation;
  trace =
      cb.trace
      ++ metrics_effects (record_circuit_breaker_state cb.metrics cb.name (is_state s open_state))
      ++ state_change cb.name cb.state s ∷ [];
}

-- The state and the generation that `currentState` returns are those of the resulting breaker.
current_of : State → Time → CircuitBreaker → CircuitBreaker
unfolding set_state
current_of closed now cb =
    if ltb_ℤ (pos 0) cb.interval && after now cb.expiry
    then record cb { counts = no_counts; expiry = add_time now cb.interval }
    else cb
current_of open_state now cb = if after now cb.expiry then set_state half_open now cb else cb
current_of half_open now cb = cb

unfoldable pub current_state : Time → CircuitBreaker → CircuitBreaker
unfolding current_of
current_state now cb = current_of cb.state now cb

admit : CircuitBreaker → CircuitBreaker × Ticket
admit cb =
    if is_state cb.state open_state
    then (cb, refused cb.generation breaker_open)
    else if is_state cb.state half_open && leb cb.max_requests cb.counts.requests
    then (cb, refused cb.generation too_many_requests)
    else (
      record cb { counts = record (cb.counts) { requests = inc64 cb.counts.requests } },
      admitted cb.generation,
    )

unfoldable pub before_request : Time → CircuitBreaker → CircuitBreaker × Ticket
unfolding admit
before_request now cb = admit (current_state now cb)

succeeded : Counts → Counts
succeeded c = record c {
  total_successes = inc64 c.total_successes;
  consecutive_successes = inc64 c.consecutive_successes;
  consecutive_failures = 0;
}

failed : Counts → Counts
failed c = record c {
  total_failures = inc64 c.total_failures;
  consecutive_failures = inc64 c.consecutive_failures;
  consecutive_successes = 0;
}

on_success_in : State → Time → CircuitBreaker → CircuitBreaker
unfolding succeeded add_time
on_success_in closed now cb =
    let cb' = record cb { counts = succeeded cb.counts } in
    if ltb_ℤ (pos 0) cb.interval then record cb' { expiry = add_time now cb.interval } else cb'
on_success_in half_open now cb =
    let cb' = record cb { counts = succeeded cb.counts } in
    if leb cb.max_requests cb'.counts.consecutive_successes then set_state closed now cb' else cb'
on_success_in open_state now cb = cb

unfoldable pub on_success : Time → CircuitBreaker → CircuitBreaker
unfolding on_success_in
on_success now cb = on_success_in cb.state now cb

on_failure_in : State → Time → CircuitBreaker → CircuitBreaker
unfolding failed
on_failure_in closed now cb =
    let cb' = record cb { counts = failed cb.counts } in
    if cb.ready_to_trip cb'.counts then set_state open_state now cb' else cb'
on_failure_in half_open now cb = set_state open_state now (record cb { counts = failed cb.counts })
on_failure_in open_state now cb = cb

unfoldable pub on_failure : Time → CircuitBreaker → CircuitBreaker
unfolding on_failure_in
on_failure now cb = on_failure_in cb.state now cb

unfoldable pub after_request : Time → ℕ → Bool → CircuitBreaker → CircuitBreaker
after_request now generation success cb =
    let current = current_state now cb in
    if generation == current.generation
    then if success then on_success now current else on_failure now current
    else current

-- What the guarded function does: it returns, returns an error, or panics.
pub data Req {ℓ} (A E : Type ℓ) : Type ℓ where
  returns : A → Req A E
  fails : E → Req A E
  panics : Req A E

pub data Executed {ℓ} (A E : Type ℓ) : Type ℓ where
  result : A → Executed A E
  request_error : E → Executed A E
  not_executed : Refusal → Executed A E
  panicked : Executed A E

-- A panic unwinds past the call of `afterRequest`, which is not deferred.
finish {ℓ} : {A E : Type ℓ} → Time → ℕ → Req A E → CircuitBreaker → CircuitBreaker × Executed A E
finish now g (returns a) cb = (after_request now g true cb, result a)
finish now g (fails e) cb = (after_request now g false cb, request_error e)
finish now g panics cb = (cb, panicked)

execute_with {ℓ} :
    {A E : Type ℓ} → Time → Req A E → CircuitBreaker × Ticket → CircuitBreaker × Executed A E
unfolding finish
execute_with later req (cb, admitted g) = finish later g req cb
execute_with later req (cb, refused g r) = (cb, not_executed r)

-- `now` is read before the request and `later` after it; nothing else happens in between.
unfoldable pub execute {ℓ} :
    {A E : Type ℓ} → Time → Time → Req A E → CircuitBreaker → CircuitBreaker × Executed A E
unfolding execute_with
execute now later req cb = execute_with later req (before_request now cb)

-- `Reset`
unfoldable pub reset : Time → CircuitBreaker → CircuitBreaker
unfolding set_state add_time
reset now cb =
    let cb' = if is_state cb.state closed then cb else set_state closed now cb in
    record cb' { counts = no_counts; expiry = add_time now cb'.interval }

unfoldable pub force_open : Time → CircuitBreaker → CircuitBreaker
force_open now cb = if is_state cb.state open_state then cb else set_state open_state now cb

unfoldable pub force_close : Time → CircuitBreaker → CircuitBreaker
force_close now cb = if is_state cb.state closed then cb else set_state closed now cb

-- `State`, `IsOpen`, `IsClosed` and `IsHalfOpen` move the breaker too, as `currentState` does.
unfoldable pub state_of : Time → CircuitBreaker → CircuitBreaker × State
state_of now cb = let cb' = current_state now cb in (cb', cb'.state)

unfoldable pub is_open : Time → CircuitBreaker → CircuitBreaker × Bool
is_open now cb = let (cb', s) = state_of now cb in (cb', is_state s open_state)

unfoldable pub is_closed : Time → CircuitBreaker → CircuitBreaker × Bool
is_closed now cb = let (cb', s) = state_of now cb in (cb', is_state s closed)

unfoldable pub is_half_open : Time → CircuitBreaker → CircuitBreaker × Bool
is_half_open now cb = let (cb', s) = state_of now cb in (cb', is_state s half_open)

unfoldable pub time_since_state_change : Time → CircuitBreaker → Duration
time_since_state_change now cb = since now cb.last_state_change

-- The calls that any goroutine may make, in the order in which they take the mutex.
pub data Event : Type 0 where
  begins : Time → Event
  ends : Time → ℕ → Bool → Event
  looks resets forces_open forces_closed : Time → Event

unfoldable pub step : Event → CircuitBreaker → CircuitBreaker
step (begins now) cb = (before_request now cb).0
step (ends now g success) cb = after_request now g success cb
step (looks now) cb = (state_of now cb).0
step (resets now) cb = reset now cb
step (forces_open now) cb = force_open now cb
step (forces_closed now) cb = force_close now cb

unfoldable pub run : List Event → CircuitBreaker → CircuitBreaker
run [] cb = cb
run (e ∷ es) cb = run es (step e cb)
