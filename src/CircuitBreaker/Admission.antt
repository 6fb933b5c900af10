-- ===== src/CircuitBreaker/Admission.antt =====
-- rate-limiter/internal/circuitbreaker/circuitbreaker.go: which requests are let through, how a
-- breaker recovers, and when it never does.
use rate_limiter.Base.{
  ℕ, suc, ◌+◌, ◌^◌, ◌≤◌, ◌<◌, ◌≡◌, refl, ◌⊎◌, ◌↔◌, inl, inr, Bool, true, false, List, [], ◌∷◌,
  arith, length, ◌∙◌, ap,
}
use rate_limiter.Base.Sync.{Time, after}
use rate_limiter.CircuitBreaker.{
  closed, open_state, half_open, CircuitBreaker, Ticket, admitted, refused, too_many_requests,
  returns, panics, Event, begins, set_state, current_state, before_request, on_success,
  after_request, execute, step, run,
}

-- The breaker can let a request through at the time `now`.
pub data Admits (now : Time) (cb : CircuitBreaker) : Type 0 where
  while_closed : cb.state ≡ closed → Admits now cb
  on_probe : cb.state ≡ half_open → cb.counts.requests < cb.max_requests → Admits now cb
  on_timeout :
      cb.state ≡ open_state → after now cb.expiry ≡ true → 0 < cb.max_requests → Admits now cb

abbrev pub is_admitted : Ticket → Bool
is_admitted (admitted g) = true
is_admitted (refused g r) = false

admits :
    (now : Time) (cb : CircuitBreaker)
    → is_admitted (before_request now cb).1 ≡ true
    → (cb.state ≡ closed)
      ⊎ ((cb.state ≡ half_open) × (cb.counts.requests < cb.max_requests))
      ⊎ ((cb.state ≡ open_state) × (after now cb.expiry ≡ true) × (0 < cb.max_requests))
unfolding before_request current_state set_state
admits now cb h = ground arith

Admits-of :
    {now : Time} {cb : CircuitBreaker}
    → (cb.state ≡ closed)
      ⊎ ((cb.state ≡ half_open) × (cb.counts.requests < cb.max_requests))
      ⊎ ((cb.state ≡ open_state) × (after now cb.expiry ≡ true) × (0 < cb.max_requests))
    → Admits now cb
Admits-of (inl h) = while_closed h
Admits-of (inr (inl (h, k))) = on_probe h k
Admits-of (inr (inr (h, k, q))) = on_timeout h k q

admitted-of :
    (now : Time) (cb : CircuitBreaker)
    → Admits now cb
    → is_admitted (before_request now cb).1 ≡ true
unfolding before_request current_state set_state
admitted-of now cb (while_closed h) = ground arith
admitted-of now cb (on_probe h q) = ground arith
admitted-of now cb (on_timeout h t q) = ground arith

-- A request is let through exactly when the breaker is closed, or half-open with part of its quota
-- left, or open with its timeout passed and a positive quota.
pub admitted_iff :
    (now : Time) (cb : CircuitBreaker)
    → (is_admitted (before_request now cb).1 ≡ true) ↔ Admits now cb
admitted_iff now cb = (λ h. Admits-of (admits now cb h), admitted-of now cb)

-- Consecutive calls of `Execute` that succeed, each with its two readings of the clock.
unfoldable pub all_succeed : List (Time × Time) → CircuitBreaker → CircuitBreaker
all_succeed [] cb = cb
all_succeed ((now, later) ∷ ts) cb =
    all_succeed ts (execute {A = Unit {0}} {E = Unit {0}} now later (returns tt) cb).0

-- Half-open with `k` successes behind it and no request under way.
record Probing (k : ℕ) (cb : CircuitBreaker) : Type 0 where
  probing : cb.state ≡ half_open
  begun : cb.counts.requests ≡ k
  won : cb.counts.consecutive_successes ≡ k

succeed_more :
    (k : ℕ) (now later : Time) (cb : CircuitBreaker)
    → Probing k cb
    → k + 1 < cb.max_requests
    → cb.max_requests < 2 ^ 32
    → let cb' = (execute {A = Unit {0}} {E = Unit {0}} now later (returns tt) cb).0 in
      Probing (k + 1) cb' × (cb'.max_requests ≡ cb.max_requests)
unfolding execute before_request after_request on_success current_state set_state
succeed_more k now later cb p h q = ground arith

succeed_last :
    (k : ℕ) (now later : Time) (cb : CircuitBreaker)
    → Probing k cb
    → k + 1 ≡ cb.max_requests
    → cb.max_requests < 2 ^ 32
    → (execute {A = Unit {0}} {E = Unit {0}} now later (returns tt) cb).0.state ≡ closed
unfolding execute before_request after_request on_success current_state set_state
succeed_last k now later cb p h q = ground arith

probes_close :
    (k : ℕ) (t : Time × Time) (ts : List (Time × Time)) (cb : CircuitBreaker)
    → Probing k cb
    → k + suc (length ts) ≡ cb.max_requests
    → cb.max_requests < 2 ^ 32
    → (all_succeed (t ∷ ts) cb).state ≡ closed
unfolding all_succeed
probes_close k (now, later) [] cb p h q = succeed_last k now later cb p (omega arith) q
probes_close k (now, later) (t ∷ ts) cb p h q =
    let (p', same) = succeed_more k now later cb p (omega arith) q in
    probes_close (k + 1) t ts _ p' (omega arith) (omega arith)

first_more :
    (now later : Time) (cb : CircuitBreaker)
    → cb.state ≡ open_state
    → after now cb.expiry ≡ true
    → 1 < cb.max_requests
    → let cb' = (execute {A = Unit {0}} {E = Unit {0}} now later (returns tt) cb).0 in
      Probing 1 cb' × (cb'.max_requests ≡ cb.max_requests)
unfolding execute before_request after_request on_success current_state set_state
first_more now later cb o t h = ground arith

first_last :
    (now later : Time) (cb : CircuitBreaker)
    → cb.state ≡ open_state
    → after now cb.expiry ≡ true
    → 1 ≡ cb.max_requests
    → (execute {A = Unit {0}} {E = Unit {0}} now later (returns tt) cb).0.state ≡ closed
unfolding execute before_request after_request on_success current_state set_state
first_last now later cb o t h = ground arith

-- Recovery: an open breaker whose timeout has passed closes with `maxRequests` calls of `Execute`
-- that succeed one after the other, at whatever later times, if `maxRequests` is a positive
-- `uint32`.
pub recovers :
    (now later : Time) (ts : List (Time × Time)) (cb : CircuitBreaker)
    → cb.state ≡ open_state
    → after now cb.expiry ≡ true
    → suc (length ts) ≡ cb.max_requests
    → cb.max_requests < 2 ^ 32
    → (all_succeed ((now, later) ∷ ts) cb).state ≡ closed
unfolding all_succeed
recovers now later [] cb o t h q = first_last now later cb o t h
recovers now later (u ∷ ts) cb o t h q =
    let (p, same) = first_more now later cb o t (omega arith) in
    probes_close 1 u ts _ p (omega arith) (omega arith)

unfoldable pub begin_all : List Time → List Event
begin_all [] = []
begin_all (t ∷ ts) = begins t ∷ begin_all ts

-- Half-open with the quota used up.
abbrev IsUsedUp : CircuitBreaker → Type 0
IsUsedUp cb = (cb.state ≡ half_open) × (cb.max_requests ≤ cb.counts.requests)

used_up_same :
    (t : Time) (cb : CircuitBreaker)
    → IsUsedUp cb
    → before_request t cb ≡ (cb, refused cb.generation too_many_requests)
unfolding before_request current_state
used_up_same t cb h = ground arith

used_up_run : (ts : List Time) (cb : CircuitBreaker) → IsUsedUp cb → run (begin_all ts) cb ≡ cb
unfolding run begin_all step
used_up_run [] cb h = refl
used_up_run (t ∷ ts) cb h =
    ap (λ r. run (begin_all ts) r.0) (used_up_same t cb h) ∙ used_up_run ts cb h

panicked-IsUsedUp :
    (now later : Time) (cb : CircuitBreaker)
    → cb.max_requests ≤ 1
    → cb.state ≡ open_state
    → after now cb.expiry ≡ true
    → IsUsedUp (execute {A = Unit {0}} {E = Unit {0}} now later panics cb).0
unfolding execute before_request current_state set_state
panicked-IsUsedUp now later cb m o t = ground arith

-- The bug: with a quota of at most one (one is the default, 0 is what a zero `Settings` has), a
-- panic in the first request after the timeout leaves the breaker half-open with its quota used
-- up, and then every request is refused, however many come and however late.
pub panic_locks :
    (now later : Time) (cb : CircuitBreaker) (ts : List Time) (t : Time)
    → cb.max_requests ≤ 1
    → cb.state ≡ open_state
    → after now cb.expiry ≡ true
    → let cb' = (execute {A = Unit {0}} {E = Unit {0}} now later panics cb).0 in
      (before_request t (run (begin_all ts) cb')).1 ≡ refused cb'.generation too_many_requests
panic_locks now later cb ts t m o h =
    let cb' = (execute {A = Unit {0}} {E = Unit {0}} now later panics cb).0 in
    let used = panicked-IsUsedUp now later cb m o h in
    ap (λ c. (before_request t c).1) (used_up_run ts cb' used)
    ∙ ap (λ r. r.1) (used_up_same t cb' used)
