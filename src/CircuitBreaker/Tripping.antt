-- ===== src/CircuitBreaker/Tripping.antt =====
-- rate-limiter/internal/circuitbreaker/circuitbreaker.go: when the default rule opens a breaker.
use rate_limiter.Base.{
  ℕ, zero, suc, ◌+◌, ◌≤◌, ◌≡◌, refl, ◌⊎◌, ◌↔◌, inl, inr, Bool, true, false, List, [], ◌∷◌, arith,
  All, ap, sym, subst, ◌∙◌, Bool-cases,
}
use rate_limiter.Base.Int.{inc64, pos, ◌≤ℤ◌, ◌+ℤ◌, +ℤ_parts}
use rate_limiter.Base.Sync.{Time, Duration}
use rate_limiter.CircuitBreaker.{
  closed, open_state, CircuitBreaker, Counts, Req, returns, fails, default_ready_to_trip, set_state,
  current_state, before_request, on_success, on_failure, after_request, execute,
}

abbrev pub outcome : Bool → Req (Unit {0}) (Unit {0})
outcome true = returns tt
outcome false = fails tt

-- A call of `Execute`: the clock as it is read before the request and after it, and what the
-- request comes to.
pub record Served : Type 0 where
  pub begun : Time
  pub ended : Time
  pub success : Bool

-- Calls of `Execute` one after the other.
unfoldable pub serve : List Served → CircuitBreaker → CircuitBreaker
serve [] cb = cb
serve (r ∷ rs) cb = serve rs (execute r.begun r.ended (outcome r.success) cb).0

-- The list starts with `n` failures.
pub data FailsFirst : ℕ → List Served → Type 0 where
  enough : {rs : List Served} → FailsFirst zero rs
  fail :
      {n : ℕ} {r : Served} {rs : List Served}
      → r.success ≡ false
      → FailsFirst n rs
      → FailsFirst (suc n) (r ∷ rs)

-- `n` failures in a row, somewhere in the list.
pub data HasRun (n : ℕ) : List Served → Type 0 where
  here : {rs : List Served} → FailsFirst n rs → HasRun n rs
  later : {r : Served} {rs : List Served} → HasRun n rs → HasRun n (r ∷ rs)

-- Every call ends at `lo` or later and begins at `lo + timeout` or earlier.
abbrev pub Within : Time → Duration → List Served → Type 0
Within lo timeout = All (λ r. (lo ≤ℤ r.ended) × (r.begun ≤ℤ lo +ℤ timeout))

-- Closed, with the default rule and no interval, and `suc k` more failures to go.
record Waiting (timeout : Duration) (k : ℕ) (cb : CircuitBreaker) : Type 0 where
  waiting : cb.state ≡ closed
  rule : (c : Counts) → cb.ready_to_trip c ≡ default_ready_to_trip c
  no_interval : cb.interval ≤ℤ pos 0
  to_go : cb.counts.consecutive_failures + suc k ≡ 6
  term : cb.timeout ≡ timeout

-- The counts after a failed call.
abbrev failed_counts : CircuitBreaker → Counts
failed_counts cb = record {
  requests = inc64 cb.counts.requests;
  total_successes = cb.counts.total_successes;
  total_failures = inc64 cb.counts.total_failures;
  consecutive_successes = 0;
  consecutive_failures = inc64 cb.counts.consecutive_failures;
}

no_run : (k : ℕ) → FailsFirst (suc k) [] ⊎ HasRun 6 [] → ⊥
no_run k (inl f) = elim f [ ]
no_run k (inr (here f)) = elim f [ ]

FailsFirst-le : (n k : ℕ) {rs : List Served} → k ≤ n → FailsFirst n rs → FailsFirst k rs
FailsFirst-le n zero h f = enough
FailsFirst-le (suc n) (suc k) h (fail q f) = fail q (FailsFirst-le n k (omega arith) f)
FailsFirst-le zero (suc k) h f = absurd (omega arith)

-- Runs that reach over a failure, and over a success.
past_failure :
    (k : ℕ) {r : Served} {rs : List Served}
    → k ≤ 4
    → FailsFirst (suc (suc k)) (r ∷ rs) ⊎ HasRun 6 (r ∷ rs)
    → FailsFirst (suc k) rs ⊎ HasRun 6 rs
past_failure k h (inl (fail q f)) = inl f
past_failure k h (inr (here (fail q f))) = inl (FailsFirst-le 5 (suc k) (omega arith) f)
past_failure k h (inr (later r)) = inr r

past_success :
    (k : ℕ) {r : Served} {rs : List Served}
    → r.success ≡ true
    → FailsFirst (suc k) (r ∷ rs) ⊎ HasRun 6 (r ∷ rs)
    → HasRun 6 rs
past_success k h (inl (fail q f)) = cc
past_success k h (inr (here (fail q f))) = cc
past_success k h (inr (later r)) = r

module _ (lo : Time) (timeout : Duration) where
  record Tripped (cb : CircuitBreaker) : Type 0 where
    tripped : cb.state ≡ open_state
    stays : lo +ℤ timeout ≤ℤ cb.expiry

  success_waits :
      (k : ℕ) (begun ended : Time) (cb : CircuitBreaker)
      → Waiting timeout k cb
      → Waiting timeout 5 (execute begun ended (outcome true) cb).0
  unfolding execute before_request after_request on_success current_state
  success_waits k begun ended cb w = ground arith

  failure_waits :
      (k : ℕ) (begun ended : Time) (cb : CircuitBreaker)
      → Waiting timeout (suc k) cb
      → Waiting timeout k (execute begun ended (outcome false) cb).0
  unfolding execute before_request after_request on_failure current_state
  failure_waits k begun ended cb w = ground (arith, w.rule (failed_counts cb))

  failure_trips :
      (begun ended : Time) (cb : CircuitBreaker)
      → Waiting timeout 0 cb
      → lo ≤ℤ ended
      → Tripped (execute begun ended (outcome false) cb).0
  unfolding execute before_request after_request on_failure current_state set_state
  failure_trips begun ended cb w h =
      ground (arith, w.rule (failed_counts cb), +ℤ_parts ended timeout, +ℤ_parts lo timeout)

  Tripped-refuses :
      (begun ended : Time) (b : Bool) (cb : CircuitBreaker)
      → Tripped cb
      → begun ≤ℤ lo +ℤ timeout
      → (execute begun ended (outcome b) cb).0 ≡ cb
  unfolding execute before_request current_state
  Tripped-refuses begun ended b cb w h = ground arith

  Tripped-stays :
      (rs : List Served) (cb : CircuitBreaker)
      → Tripped cb
      → Within lo timeout rs
      → (serve rs cb).state ≡ open_state
  unfolding serve
  Tripped-stays [] cb w h = w.tripped
  Tripped-stays (r ∷ rs) cb w h =
      ap (λ c. (serve rs c).state) (Tripped-refuses r.begun r.ended r.success cb w h.0.1)
      ∙ Tripped-stays rs cb w h.1

  -- What a call leaves of a breaker that waits.
  after_call :
      (r : Served) (k : ℕ) (cb : CircuitBreaker)
      → Waiting timeout k cb
      → lo ≤ℤ r.ended
      → let cb' = (execute r.begun r.ended (outcome r.success) cb).0 in
        ((r.success ≡ true) × Waiting timeout 5 cb')
        ⊎ (((r.success ≡ false) × (k ≡ 0) × Tripped cb')
            ⊎ ((j : ℕ) × (r.success ≡ false) × (k ≡ suc j) × Waiting timeout j cb'))
  after_call r k cb w h = elim (Bool-cases r.success) [
    | inl good ↦ inl (
      good,
      subst (λ b. Waiting timeout 5 (execute r.begun r.ended (outcome b) cb).0) (sym good)
          (success_waits k r.begun r.ended cb w),
    )
    | inr bad ↦ inr (after_failure k bad w)
  ]
    where
      after_failure :
          (k : ℕ)
          → r.success ≡ false
          → Waiting timeout k cb
          → let cb' = (execute r.begun r.ended (outcome r.success) cb).0 in
            ((r.success ≡ false) × (k ≡ 0) × Tripped cb')
            ⊎ ((j : ℕ) × (r.success ≡ false) × (k ≡ suc j) × Waiting timeout j cb')
      after_failure zero bad w = inl (
        bad,
        refl,
        subst (λ b. Tripped (execute r.begun r.ended (outcome b) cb).0) (sym bad)
            (failure_trips r.begun r.ended cb w h),
      )
      after_failure (suc j) bad w = inr (
        j,
        bad,
        refl,
        subst (λ b. Waiting timeout j (execute r.begun r.ended (outcome b) cb).0) (sym bad)
            (failure_waits j r.begun r.ended cb w),
      )

  to_go-le : (k : ℕ) (cb : CircuitBreaker) → Waiting timeout k cb → k ≤ 5
  to_go-le k cb w = omega (arith, w.to_go)

  serve_opens :
      (k : ℕ) (rs : List Served) (cb : CircuitBreaker)
      → Waiting timeout k cb
      → Within lo timeout rs
      → FailsFirst (suc k) rs ⊎ HasRun 6 rs
      → (serve rs cb).state ≡ open_state
  unfolding serve
  serve_opens k [] cb w h f = absurd (no_run k f)
  serve_opens k (r ∷ rs) cb w h f =
      let cb' = (execute r.begun r.ended (outcome r.success) cb).0 in
      elim (after_call r k cb w h.0.0) [
        | inl (good, w') ↦ serve_opens 5 rs cb' w' h.1 (inr (past_success k good f))
        | inr (inl (bad, z, t)) ↦ Tripped-stays rs cb' t h.1
        | inr (inr (j, bad, z, w')) ↦ serve_opens j rs cb' w' h.1 (
            past_failure j (omega (arith, to_go-le k cb w, z))
              (subst (λ n. FailsFirst (suc n) (r ∷ rs) ⊎ HasRun 6 (r ∷ rs)) z f))
      ]

  opens_serve :
      (k : ℕ) (rs : List Served) (cb : CircuitBreaker)
      → Waiting timeout k cb
      → Within lo timeout rs
      → (serve rs cb).state ≡ open_state
      → FailsFirst (suc k) rs ⊎ HasRun 6 rs
  unfolding serve
  opens_serve k [] cb w h o = absurd (ground (arith, w.waiting))
  opens_serve k (r ∷ rs) cb w h o =
      let cb' = (execute r.begun r.ended (outcome r.success) cb).0 in
      elim (after_call r k cb w h.0.0) [
        | inl (good, w') ↦ elim (opens_serve 5 rs cb' w' h.1 o) [
          | inl f ↦ inr (later (here f))
          | inr q ↦ inr (later q)
        ]
        | inr (inl (bad, z, t)) ↦
            inl (subst (λ n. FailsFirst (suc n) (r ∷ rs)) (sym z) (fail bad enough))
        | inr (inr (j, bad, z, w')) ↦ elim (opens_serve j rs cb' w' h.1 o) [
          | inl f ↦ inl (subst (λ n. FailsFirst (suc n) (r ∷ rs)) (sym z) (fail bad f))
          | inr q ↦ inr (later q)
        ]
      ]

-- With the default rule and no interval, a closed breaker with no failure behind it opens exactly
-- when six calls in a row fail, if the calls come one after the other, each of any length, and for
-- some time `lo` every one ends at `lo` or later and begins by `lo` and the `timeout`.
pub serve_opens_iff :
    (lo : Time) (rs : List Served) (cb : CircuitBreaker)
    → cb.state ≡ closed
    → ((c : Counts) → cb.ready_to_trip c ≡ default_ready_to_trip c)
    → cb.interval ≤ℤ pos 0
    → cb.counts.consecutive_failures ≡ 0
    → Within lo cb.timeout rs
    → ((serve rs cb).state ≡ open_state) ↔ HasRun 6 rs
serve_opens_iff lo rs cb c rule i f h =
    let w : Waiting cb.timeout 5 cb = record {
      waiting = c;
      rule = rule;
      no_interval = i;
      to_go = omega arith;
      term = refl;
    } in
    (
      λ o. elim (opens_serve lo cb.timeout 5 rs cb w h o) [ inl s ↦ here s | inr r ↦ r ],
      λ r. serve_opens lo cb.timeout 5 rs cb w h (inr r),
    )
