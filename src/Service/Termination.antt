-- ===== src/Service/Termination.antt =====
-- rate-limiter/internal/service/ratelimiter.go: when the entry points of the service come back.
use rate_limiter.Base.{
  Bool, Bool-cases, inl, inr, true, false, Option, none, some, ◌≡◌, ◌↔◌, refl, if◌then◌else◌,
}
use rate_limiter.Base.Dict.{lookup}
use rate_limiter.Base.Exec.{Exec, Result, ok, err, ◌>>=◌, pure}
use rate_limiter.Base.Int.{ℤ, pos, ltb_ℤ}
use rate_limiter.Base.Sync.{Context, Duration, unlocked, done, fatal, runlock_of_unlocked}
use rate_limiter.Base.Text.{Text}
use rate_limiter.Storage.{Storage}
use rate_limiter.Service.{
  Service, ServiceError, Readings, Limit, LimitResult, is_expired, is_circuit_breaker_open, report,
  fail_with, call, counted, unlimited, increment_failure, reset_failure, increment_failed,
  custom_limit_failed, invalid_window, whitelist_check_failed, service_unavailable,
  update_whitelist_failed, set_limit_failed, count_against, apply_limit, admit_listed, check_past,
  settle, update_past, set_past, full_key, check_rate_limit, update_whitelist, set_limit,
}
use rate_limiter.Service.Breaker.{
  expired_is_fatal, is_open-steady, after_failure, after_success, increment_failure_lem,
  reset_failure_lem,
}

module _ (S : Storage) (t : Readings) (ctx : Context) where
  open S use {Store, Err}

  -- A run from this state comes back, and the mutex is free after it.
  pub record Returns {A : Type 0} (m : Exec (Service Store) A) (s : Service Store) : Type 0 where
    pub result : A
    pub state : Service Store
    pub runs : m s ≡ done (result, state)
    pub free : state.mutex ≡ unlocked

  pure-Returns : (A : Type 0) (a : A) (s : Service Store) → s.mutex ≡ unlocked → Returns (pure a) s
  pure-Returns A a s free = record { result = a; state = s; runs = refl; free = free }

  -- An action that comes back, and the rest of the run.
  bind-Returns :
      (A B : Type 0) (m : Exec (Service Store) A) (k : A → Exec (Service Store) B) (a : A)
      (s s₁ : Service Store)
      → m s ≡ done (a, s₁)
      → Returns (k a) s₁
      → Returns (m >>= k) s
  bind-Returns A B m k a s s₁ e r = record {
    result = r.result;
    state = r.state;
    runs = rw (e, ◌>>=◌) r.runs;
    free = r.free;
  }

  -- A call of the storage, whatever it answers.
  call-Returns :
      (A B : Type 0) (f : Store → Store × A) (k : A → Exec (Service Store) B) (s : Service Store)
      → s.mutex ≡ unlocked
      → ((a : A) (s₁ : Service Store) → s₁.mutex ≡ unlocked → Returns (k a) s₁)
      → Returns (call f >>= k) s
  unfolding call
  call-Returns A B f k s free h =
      bind-Returns A B (call f) k (f s.store).1 s (record s { store = (f s.store).0 }) refl
        (h (f s.store).1 (record s { store = (f s.store).0 }) free)

  fail_with-Returns :
      (A : Type 0) (e : ServiceError Err) (s : Service Store)
      → s.mutex ≡ unlocked
      → Returns (fail_with {A = A} t.noted e) s
  unfolding fail_with
  fail_with-Returns A e s free =
      bind-Returns (Unit {0}) (Result (ServiceError Err) A) (increment_failure t.noted)
        (λ _. pure (err e)) tt s (after_failure s free t.noted)
        (increment_failure_lem s free t.noted)
        (pure-Returns (Result (ServiceError Err) A) (err e) (after_failure s free t.noted) free)

  success-Returns :
      (A : Type 0) (a : A) (s : Service Store)
      → s.mutex ≡ unlocked
      → Returns (reset_failure >>= λ _. pure a) s
  success-Returns A a s free =
      bind-Returns (Unit {0}) A reset_failure (λ _. pure a) tt s (after_success s free)
        (reset_failure_lem s free) (pure-Returns A a (after_success s free) free)

  report-Returns :
      (w : Text) (limit : ℤ) (d : Duration) (o : Result Err ℤ) (s : Service Store)
      → s.mutex ≡ unlocked
      → Returns (report S t w limit d o) s
  unfolding report
  report-Returns w limit d (err e) s free =
      fail_with-Returns LimitResult (increment_failed e) s free
  report-Returns w limit d (ok count) s free =
      success-Returns (Result (ServiceError Err) LimitResult) (ok (counted limit d w count)) s free

  count_against-Returns :
      (full w : Text) (d : Limit) (o : Result Err ℤ) (s : Service Store)
      → s.mutex ≡ unlocked
      → Returns (count_against S t ctx full w d o) s
  unfolding count_against
  count_against-Returns full w d (err e) s free =
      fail_with-Returns LimitResult (custom_limit_failed e) s free
  count_against-Returns full w d (ok custom) s free =
      call-Returns _ _ (S.increment_and_count t.called ctx full d.window) _ s free (λ o s₁ f.
        report-Returns w (if ltb_ℤ (pos 0) custom then custom else d.requests) d.window o s₁ f)

  apply_limit-Returns :
      (full w : Text) (d : Option Limit) (s : Service Store)
      → s.mutex ≡ unlocked
      → Returns (apply_limit S t ctx full w d) s
  unfolding apply_limit
  apply_limit-Returns full w none s free =
      pure-Returns (Result (ServiceError Err) LimitResult) (err (invalid_window w)) s free
  apply_limit-Returns full w (some d) s free =
      call-Returns _ _ (S.get_limit t.called ctx full w) _ s free
        (λ o s₁ f. count_against-Returns full w d o s₁ f)

  admit_listed-Returns :
      (full w : Text) (o : Result Err Bool) (s : Service Store)
      → s.mutex ≡ unlocked
      → Returns (admit_listed S t ctx full w o) s
  unfolding admit_listed
  admit_listed-Returns full w (err e) s free =
      fail_with-Returns LimitResult (whitelist_check_failed e) s free
  admit_listed-Returns full w (ok true) s free =
      pure-Returns (Result (ServiceError Err) LimitResult) (ok (unlimited w)) s free
  admit_listed-Returns full w (ok false) s free =
      let r = apply_limit-Returns full w (lookup w s.default_limits) s free in
      record { result = r.result; state = r.state; runs = r.runs; free = r.free }

  check_past-Returns :
      (full w : Text) (b : Bool) (s : Service Store)
      → s.mutex ≡ unlocked
      → Returns (check_past S t ctx full w b) s
  unfolding check_past
  check_past-Returns full w true s free =
      pure-Returns (Result (ServiceError Err) LimitResult) (ok (unlimited w)) s free
  check_past-Returns full w false s free =
      call-Returns _ _ (S.is_whitelisted t.called ctx full) _ s free
        (λ o s₁ f. admit_listed-Returns full w o s₁ f)

  settle-Returns :
      (wrap : Err → ServiceError Err) (o : Result Err (Unit {0})) (s : Service Store)
      → s.mutex ≡ unlocked
      → Returns (settle S t wrap o) s
  unfolding settle
  settle-Returns wrap (err e) s free = fail_with-Returns (Unit {0}) (wrap e) s free
  settle-Returns wrap (ok u) s free =
      success-Returns (Result (ServiceError Err) (Unit {0})) (ok tt) s free

  update_past-Returns :
      (full : Text) (whitelisted b : Bool) (s : Service Store)
      → s.mutex ≡ unlocked
      → Returns (update_past S t ctx full whitelisted b) s
  unfolding update_past
  update_past-Returns full whitelisted true s free =
      pure-Returns (Result (ServiceError Err) (Unit {0})) (err service_unavailable) s free
  update_past-Returns full whitelisted false s free =
      call-Returns _ _ (S.update_whitelist t.called ctx full whitelisted) _ s free
        (λ o s₁ f. settle-Returns update_whitelist_failed o s₁ f)

  set_past-Returns :
      (full w : Text) (limit : ℤ) (b : Bool) (s : Service Store)
      → s.mutex ≡ unlocked
      → Returns (set_past S t ctx full w limit b) s
  unfolding set_past
  set_past-Returns full w limit true s free =
      pure-Returns (Result (ServiceError Err) (Unit {0})) (err service_unavailable) s free
  set_past-Returns full w limit false s free =
      call-Returns _ _ (S.set_limit t.called ctx full w limit) _ s free
        (λ o s₁ f. settle-Returns set_limit_failed o s₁ f)

  not_expired :
      (A : Type 0) (m : Exec (Service Store) A) (s : Service Store)
      → (is_expired t.checked s ≡ true → m s ≡ fatal runlock_of_unlocked)
      → Returns m s
      → is_expired t.checked s ≡ false
  not_expired A m s h r = elim (Bool-cases (is_expired t.checked s)) [
    | inl old ↦ cc (h old, r.runs)
    | inr new ↦ new
  ]

  -- A call of CheckRateLimit, UpdateWhitelist or SetLimit on a free mutex comes back, with the mutex
  -- free, exactly when the breaker is not open with its timeout passed: whatever the storage is and
  -- answers, and whatever the arguments are.
  pub Returns-iff :
      (key identifier window_name : Text) (whitelisted : Bool) (limit : ℤ) (s : Service Store)
      → s.mutex ≡ unlocked
      → (Returns (check_rate_limit S t ctx key identifier window_name) s
          ↔ (is_expired t.checked s ≡ false))
        × (Returns (update_whitelist S t ctx key identifier whitelisted) s
            ↔ (is_expired t.checked s ≡ false))
        × (Returns (set_limit S t ctx key identifier window_name limit) s
            ↔ (is_expired t.checked s ≡ false))
  unfolding check_rate_limit update_whitelist set_limit
  Returns-iff key identifier window_name whitelisted limit s free =
      let full = full_key key identifier in
      let stuck = expired_is_fatal S t ctx key identifier window_name whitelisted limit s free in
      (
        (
          not_expired _ (check_rate_limit S t ctx key identifier window_name) s (λ h. (stuck h).0),
          λ h.
              bind-Returns Bool (Result (ServiceError Err) LimitResult) (is_circuit_breaker_open t)
                (check_past S t ctx full window_name) s.circuit_breaker s s
                (is_open-steady t s free h)
                (check_past-Returns full window_name s.circuit_breaker s free),
        ),
        (
          not_expired _ (update_whitelist S t ctx key identifier whitelisted) s (λ h. (stuck h).1),
          λ h.
              bind-Returns Bool (Result (ServiceError Err) (Unit {0})) (is_circuit_breaker_open t)
                (update_past S t ctx full whitelisted) s.circuit_breaker s s
                (is_open-steady t s free h)
                (update_past-Returns full whitelisted s.circuit_breaker s free),
        ),
        (
          not_expired _ (set_limit S t ctx key identifier window_name limit) s (λ h. (stuck h).2),
          λ h.
              bind-Returns Bool (Result (ServiceError Err) (Unit {0})) (is_circuit_breaker_open t)
                (set_past S t ctx full window_name limit) s.circuit_breaker s s
                (is_open-steady t s free h)
                (set_past-Returns full window_name limit s.circuit_breaker s free),
        ),
      )
