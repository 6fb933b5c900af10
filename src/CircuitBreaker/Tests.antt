-- ===== src/CircuitBreaker/Tests.antt =====
-- rate-limiter/internal/circuitbreaker/circuitbreaker.go: the theorems at concrete breakers.
use rate_limiter.Base.{ℕ, ◌+◌, ◌≡◌, refl, ◌↔◌, Bool, true, false, List, [], ◌∷◌, arith}
use rate_limiter.Base.Int.{pos, ◌+ℤ◌}
use rate_limiter.Base.Sync.{Time}
use rate_limiter.Metrics.{enabled}
use rate_limiter.CircuitBreaker.{
  closed, open_state, CircuitBreaker, panics, refused, too_many_requests, begins, forces_open,
  default_settings, new_circuit_breaker, set_state, current_state, before_request, on_success,
  on_failure, after_request, execute, reset, force_open, step, run,
}
use rate_limiter.CircuitBreaker.Generations.{outdated_dropped}
use rate_limiter.CircuitBreaker.Admission.{
  Admits, is_admitted, admitted_iff, all_succeed, recovers, begin_all, panic_locks,
}
use rate_limiter.CircuitBreaker.Tripping.{HasRun, Served, serve, serve_opens_iff}

program : Unit {0}
unfolding new_circuit_breaker set_state current_state before_request on_success on_failure
    after_request execute reset force_open step run serve all_succeed begin_all ◌+ℤ◌
program = tt

abbrev fresh : CircuitBreaker
fresh = new_circuit_breaker default_settings enabled (pos 0)

-- Opened at the time 10, so its timeout ends at 60000000010.
abbrev opened : CircuitBreaker
opened = force_open (pos 10) fresh

abbrev much_later : Time
much_later = pos 70000000000

-- A call that takes a second at most.
abbrev call : ℕ → Bool → Served
call n b = record { begun = pos n; ended = pos (n + 1000000000); success = b }

abbrev six_failures : List Served
six_failures =
    call 1 true
    ∷ call 2 false
    ∷ call 3 false
    ∷ call 4 false
    ∷ call 5 false
    ∷ call 6 false
    ∷ call 7 false
    ∷ []

six_failures_open : (serve six_failures fresh).state ≡ open_state
unfolding program
six_failures_open = refl

five_failures_and_a_success :
    (serve
      (call 2 false
        ∷ call 3 false
        ∷ call 4 false
        ∷ call 5 false
        ∷ call 6 false
        ∷ call 7 true
        ∷ call 8 false
        ∷ [])
      fresh).state
    ≡ closed
unfolding program
five_failures_and_a_success = refl

outdated_dropped_example :
    let cb = run (begins (pos 1) ∷ []) fresh in
    let cb' = run (forces_open (pos 10) ∷ []) cb in
    after_request (pos 20) cb.generation true cb' ≡ current_state (pos 20) cb'
unfolding program
outdated_dropped_example =
    outdated_dropped default_settings enabled (pos 0) (pos 20) (begins (pos 1) ∷ [])
      (forces_open (pos 10) ∷ []) true (omega arith) (omega arith)

admitted_iff_example :
    (is_admitted (before_request much_later opened).1 ≡ true) ↔ Admits much_later opened
admitted_iff_example = admitted_iff much_later opened

recovers_example : (all_succeed ((much_later, much_later) ∷ []) opened).state ≡ closed
unfolding program
recovers_example = recovers much_later much_later [] opened refl refl refl (omega arith)

panic_locks_example :
    let cb' = (execute {A = Unit {0}} {E = Unit {0}} much_later much_later panics opened).0 in
    (before_request (pos 900000000000) (run (begin_all (pos 800000000000 ∷ [])) cb')).1
    ≡ refused cb'.generation too_many_requests
unfolding program
panic_locks_example =
    panic_locks much_later much_later opened (pos 800000000000 ∷ []) (pos 900000000000)
      (omega arith) refl refl

serve_opens_iff_example : ((serve six_failures fresh).state ≡ open_state) ↔ HasRun 6 six_failures
unfolding program
serve_opens_iff_example =
    serve_opens_iff (pos 0) six_failures fresh refl (λ c. refl) (omega arith) refl (omega arith)
