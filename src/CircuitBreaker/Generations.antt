-- ===== src/CircuitBreaker/Generations.antt =====
-- rate-limiter/internal/circuitbreaker/circuitbreaker.go: the generation numbers the state
-- changes, and a result of an older generation is dropped.
use rate_limiter.Base.{
  ℕ, ◌+◌, ◌%◌, ◌^◌, ◌≤◌, ◌<◌, ◌≡◌, refl, inl, inr, Bool, false, List, [], ◌∷◌, ◌++◌, arith,
  Bool-cases, if◌then◌else◌,
}
use rate_limiter.Base.Int.{inc64}
use rate_limiter.Base.Sync.{Time}
use rate_limiter.Base.Text.{Text}
use rate_limiter.Metrics.{Metrics, Call, record_circuit_breaker_state}
use rate_limiter.CircuitBreaker.{
  State, closed, open_state, half_open, Settings, Effect, metric, state_change, metrics_effects,
  CircuitBreaker, new_circuit_breaker, set_state, current_state, before_request, on_success,
  on_failure, after_request, reset, force_open, force_close, state_of, Event, begins, ends, looks,
  resets, forces_open, forces_closed, step, run, is_state,
}

-- How often `onStateChange` was called.
abbrev pub notified : List Effect → ℕ
notified [] = 0
notified (metric c ∷ es) = notified es
notified (state_change n s t ∷ es) = notified es + 1

notified-append : (xs ys : List Effect) → notified (xs ++ ys) ≡ notified xs + notified ys
notified-append [] ys = omega arith
notified-append (metric c ∷ xs) ys = notified-append xs ys
notified-append (state_change n s t ∷ xs) ys = omega (arith, notified-append xs ys)

notified-metrics : (cs : List Call) → notified (metrics_effects cs) ≡ 0
notified-metrics [] = refl
notified-metrics (c ∷ cs) = notified-metrics cs

-- The generation is the number of state changes so far, as a `uint64`.
abbrev pub IsNumbered : CircuitBreaker → Type 0
IsNumbered cb = cb.generation ≡ notified cb.trace % 2 ^ 64

notified-announce :
    (xs : List Effect) (cs : List Call) (n : Text) (s t : State)
    → notified (xs ++ metrics_effects cs ++ state_change n s t ∷ []) ≡ notified xs + 1
notified-announce xs cs n s t = omega (
  arith,
  notified-append (xs ++ metrics_effects cs) (state_change n s t ∷ []),
  notified-append xs (metrics_effects cs),
  notified-metrics cs,
)

set_state_changed :
    (s : State) (now : Time) (cb : CircuitBreaker)
    → is_state cb.state s ≡ false
    → (notified (set_state s now cb).trace ≡ notified cb.trace + 1)
      × ((set_state s now cb).generation ≡ inc64 cb.generation)
unfolding set_state
set_state_changed s now cb h = (rw h (notified-announce cb.trace _ cb.name cb.state s), rw h)

set_state-IsNumbered :
    (s : State) (now : Time) (cb : CircuitBreaker) → IsNumbered cb → IsNumbered (set_state s now cb)
set_state-IsNumbered s now cb h = elim (Bool-cases (is_state cb.state s)) [
  | inl same ↦ unfold set_state in rw same h
  | inr other ↦ omega (arith, set_state_changed s now cb other)
]

current_state-IsNumbered :
    (now : Time) (cb : CircuitBreaker) → IsNumbered cb → IsNumbered (current_state now cb)
unfolding current_state
current_state-IsNumbered now cb h = ground (arith, set_state-IsNumbered half_open now cb h)

settle-IsNumbered :
    (later : Time) (success : Bool) (cb : CircuitBreaker)
    → IsNumbered cb
    → IsNumbered (if success then on_success later cb else on_failure later cb)
unfolding on_success on_failure
settle-IsNumbered later success cb h = grind (arith, set_state-IsNumbered)

step-IsNumbered : (e : Event) (cb : CircuitBreaker) → IsNumbered cb → IsNumbered (step e cb)
unfolding step
step-IsNumbered (begins now) cb h =
    unfold before_request in ground (arith, current_state-IsNumbered now cb h)
step-IsNumbered (looks now) cb h = unfold state_of in current_state-IsNumbered now cb h
step-IsNumbered (ends now g success) cb h =
    unfold after_request in
    ground (
      arith,
      current_state-IsNumbered now cb h,
      settle-IsNumbered now success (current_state now cb),
    )
step-IsNumbered (resets now) cb h =
    unfold reset in ground (arith, set_state-IsNumbered closed now cb h)
step-IsNumbered (forces_open now) cb h =
    unfold force_open in ground (arith, set_state-IsNumbered open_state now cb h)
step-IsNumbered (forces_closed now) cb h =
    unfold force_close in ground (arith, set_state-IsNumbered closed now cb h)

run-IsNumbered : (es : List Event) (cb : CircuitBreaker) → IsNumbered cb → IsNumbered (run es cb)
unfolding run
run-IsNumbered [] cb h = h
run-IsNumbered (e ∷ es) cb h = run-IsNumbered es (step e cb) (step-IsNumbered e cb h)

new-IsNumbered :
    (s : Settings) (m : Metrics) (now : Time) → IsNumbered (new_circuit_breaker s m now)
unfolding new_circuit_breaker
new-IsNumbered s m now =
    ground (arith, notified-metrics (record_circuit_breaker_state m s.name false))

-- Whatever calls are made on a new breaker, its generation is the number of state changes that
-- were notified, as a `uint64`.
pub generation-run :
    (s : Settings) (m : Metrics) (now : Time) (es : List Event)
    → let cb = run es (new_circuit_breaker s m now) in cb.generation ≡ notified cb.trace % 2 ^ 64
generation-run s m now es = run-IsNumbered es _ (new-IsNumbered s m now)

current_state-notified :
    (now : Time) (cb : CircuitBreaker) → (notified cb.trace ≤ notified (current_state now cb).trace)
unfolding current_state
current_state-notified now cb = elim (Bool-cases (is_state cb.state half_open)) [
  | inl same ↦ ground arith
  | inr other ↦ ground (arith, set_state_changed half_open now cb other)
]

-- A result is dropped when the breaker changed state since its request began, even once, and
-- however many times up to 2^64: the counts and the state stay what the clock alone makes them.
pub outdated_dropped :
    (s : Settings) (m : Metrics) (now later : Time) (es es' : List Event) (success : Bool)
    → let cb = run es (new_circuit_breaker s m now) in
      let cb' = run es' cb in
      notified cb.trace < notified cb'.trace
      → notified (current_state later cb').trace < 2 ^ 64
      → after_request later cb.generation success cb' ≡ current_state later cb'
unfolding after_request
outdated_dropped s m now later es es' success changed bounded =
    let cb = run es (new_circuit_breaker s m now) in
    let cb' = run es' cb in
    let numbered = generation-run s m now es in
    let numbered' = current_state-IsNumbered later cb' (run-IsNumbered es' cb numbered) in
    ground (arith, numbered, numbered', current_state-notified later cb')
