-- ===== src/Service/Decision.antt =====
-- rate-limiter/internal/service/ratelimiter.go: what `CheckRateLimit` decides while the breaker is
-- closed, on every answer of the storage.
use rate_limiter.Base.{Bool, true, false, ◌≡◌, ◌↔◌, ◌⊎◌, refl, none, some, arith, if◌then◌else◌}
use rate_limiter.Base.Dict.{lookup}
use rate_limiter.Base.Exec.{ok, err}
use rate_limiter.Base.Int.{
  ℤ, pos, ltb_ℤ, leb_ℤ, ◌≤ℤ◌, ◌<ℤ◌, ◌-ℤ◌, ◌+ℤ◌, int64, IsInt64, int64_of_IsInt64,
}
use rate_limiter.Base.Sync.{Context, unlocked, done}
use rate_limiter.Base.Text.{Text}
use rate_limiter.Storage.{Storage}
use rate_limiter.Service.{
  Service, ServiceError, whitelist_check_failed, custom_limit_failed, increment_failed,
  invalid_window, Readings, Limit, LimitResult, unlimited, counted, full_key, increment_failure,
  apply_limit, is_circuit_breaker_open, check_rate_limit,
}
use rate_limiter.Service.Breaker.{
  is_open-steady, after_failure, after_success, increment_failure_lem, reset_failure_lem,
}

int64_diff :
    (limit count : ℤ)
    → IsInt64 limit
    → IsInt64 count
    → pos 0 ≤ℤ limit
    → pos 0 ≤ℤ count
    → int64 (limit -ℤ count) ≡ limit -ℤ count
int64_diff limit count l c lp cp = int64_of_IsInt64 (limit -ℤ count) (unfold ◌-ℤ◌ in ground arith)

-- What a decision has to say of a limit and a count.
pub record IsFair (limit count : ℤ) (r : LimitResult) : Type 0 where
  pub denies : (r.limited ≡ true) ↔ (limit <ℤ count)
  pub reports : (r.limit ≡ limit) × (r.current_count ≡ count)
  pub leaves : count ≤ℤ limit → r.remaining +ℤ count ≡ limit
  pub exhausts : limit ≤ℤ count → r.remaining ≡ pos 0

-- The decision on a limit and a count that are non-negative `int64`s: the request is denied exactly
-- when the count is above the limit, and the remaining requests are the difference, or 0.
pub counted-IsFair :
    (limit count window : ℤ) (name : Text)
    → IsInt64 limit
    → IsInt64 count
    → pos 0 ≤ℤ limit
    → pos 0 ≤ℤ count
    → IsFair limit count (counted limit window name count)
unfolding counted
counted-IsFair limit count window name l c lp cp =
    let exact = int64_diff limit count l c lp cp in
    record {
      denies = ground arith;
      reports = (refl, refl);
      leaves = λ h. rw exact (unfold ◌-ℤ◌ ◌+ℤ◌ in ground arith);
      exhausts = λ h. rw exact (unfold ◌-ℤ◌ in ground arith);
    }

module _ (S : Storage) (t : Readings) (ctx : Context) (key identifier window_name : Text) where
  open S use {Store, Err}

  -- A call while the mutex is free and the breaker closed goes to the storage.
  pub record Ready (s : Service Store) : Type 0 where
    pub free : s.mutex ≡ unlocked
    pub shut : s.circuit_breaker ≡ false

  -- The answers of the storage along the way to a count.
  pub record Counts (s : Service Store) (d : Limit) (custom count : ℤ) (st : Store) : Type 0 where
    pub known : lookup window_name s.default_limits ≡ some d
    pub after_whitelist : Store
    pub after_limit : Store
    pub not_listed :
        S.is_whitelisted t.called ctx (full_key key identifier) s.store
        ≡ (after_whitelist, ok false)
    pub custom_limit :
        S.get_limit t.called ctx (full_key key identifier) window_name after_whitelist
        ≡ (after_limit, ok custom)
    pub counts :
        S.increment_and_count t.called ctx (full_key key identifier) d.window after_limit
        ≡ (st, ok count)

  -- The limit that holds: a custom one if it is positive, else the window's.
  abbrev pub effective : Limit → ℤ → ℤ
  effective d custom = if ltb_ℤ (pos 0) custom then custom else d.requests

  pub check-counted :
      (s : Service Store) (d : Limit) (custom count : ℤ) (st : Store) (r : Ready s)
      → Counts s d custom count st
      → check_rate_limit S t ctx key identifier window_name s
        ≡ done (
          ok (counted (effective d custom) d.window window_name count),
          after_success (record s { store = st }) r.free,
        )
  unfolding check_rate_limit apply_limit
  check-counted s d custom count st r c = ground (
    arith,
    is_open-steady t s r.free (ground arith),
    reset_failure_lem (record s { store = st }) r.free,
  )

  -- A request that is counted: with the mutex free, the breaker closed, the key not whitelisted
  -- and the window configured, and where the limits and the count are `int64`s and the window's
  -- limit and the count are not negative, the call comes back with a fair decision on the limit
  -- that holds, with the storage as the three calls leave it, the failures forgotten and the mutex
  -- free.
  pub check-IsFair :
      (s : Service Store) (d : Limit) (custom count : ℤ) (st : Store)
      → Ready s
      → Counts s d custom count st
      → IsInt64 custom
      → IsInt64 d.requests
      → IsInt64 count
      → pos 0 ≤ℤ d.requests
      → pos 0 ≤ℤ count
      → (r : LimitResult) × (s' : Service Store) × (check_rate_limit S t ctx key identifier
            window_name s
          ≡ done (ok r, s'))
        × IsFair (effective d custom) count r
        × (s'.store ≡ st)
        × (s'.failure_count ≡ pos 0)
        × (s'.mutex ≡ unlocked)
  check-IsFair s d custom count st r c ic id in_ dp cp =
      let l : IsInt64 (effective d custom) = (ground arith, ground arith) in
      let lp : pos 0 ≤ℤ effective d custom = ground arith in
      (
        counted (effective d custom) d.window window_name count,
        after_success (record s { store = st }) r.free,
        check-counted s d custom count st r c,
        counted-IsFair (effective d custom) count d.window window_name l in_ lp cp,
        refl,
        refl,
        r.free,
      )

  -- The storage call at which a check fails, with its error and the storage that it leaves.
  pub data Fails (s : Service Store) : ServiceError Err → Store → Type 0 where
    at_whitelist :
        (e : Err) (st : Store)
        → S.is_whitelisted t.called ctx (full_key key identifier) s.store ≡ (st, err e)
        → Fails s (whitelist_check_failed e) st
    at_limit :
        (e : Err) (d : Limit) (st₁ st : Store)
        → lookup window_name s.default_limits ≡ some d
        → S.is_whitelisted t.called ctx (full_key key identifier) s.store ≡ (st₁, ok false)
        → S.get_limit t.called ctx (full_key key identifier) window_name st₁ ≡ (st, err e)
        → Fails s (custom_limit_failed e) st
    at_count :
        (e : Err) (d : Limit) (custom : ℤ) (st₁ st₂ st : Store)
        → lookup window_name s.default_limits ≡ some d
        → S.is_whitelisted t.called ctx (full_key key identifier) s.store ≡ (st₁, ok false)
        → S.get_limit t.called ctx (full_key key identifier) window_name st₁ ≡ (st₂, ok custom)
        → S.increment_and_count t.called ctx (full_key key identifier) d.window st₂ ≡ (st, err e)
        → Fails s (increment_failed e) st

  steady : (s : Service Store) → Ready s → is_circuit_breaker_open t s ≡ done (s.circuit_breaker, s)
  steady s r = is_open-steady t s r.free (ground (arith, r.shut))

  noted_lem :
      (s : Service Store) (st : Store) (r : Ready s)
      → increment_failure t.noted (record s { store = st })
        ≡ done (tt, after_failure (record s { store = st }) r.free t.noted)
  noted_lem s st r = increment_failure_lem (record s { store = st }) r.free t.noted

  failed_call :
      (s : Service Store) {e : ServiceError Err} {st : Store} (r : Ready s)
      → Fails s e st
      → check_rate_limit S t ctx key identifier window_name s
        ≡ done (err e, after_failure (record s { store = st }) r.free t.noted)
  unfolding check_rate_limit apply_limit
  failed_call s r (at_whitelist e st a) = ground (arith, steady s r, noted_lem s st r)
  failed_call s r (at_limit e d st₁ st k a b) = ground (arith, steady s r, noted_lem s st r)
  failed_call s r (at_count e d custom st₁ st₂ st k a b c) =
      ground (arith, steady s r, noted_lem s st r)

  -- With the mutex free and the breaker closed: whichever call of the storage fails, the check
  -- returns its error, wrapped, the storage is as that call leaves it, and the failure is noted:
  -- counted, timed, and the breaker opens if the count has reached the threshold. The mutex is
  -- free again.
  pub check-Fails :
      (s : Service Store) {e : ServiceError Err} {st : Store}
      → Ready s
      → Fails s e st
      → (s' : Service Store) × (check_rate_limit S t ctx key identifier window_name s
          ≡ done (err e, s'))
        × (s'.store ≡ st)
        × (s'.failure_count ≡ int64 (s.failure_count +ℤ pos 1))
        × (s'.failure_threshold ≡ s.failure_threshold)
        × (s'.last_failure ≡ t.noted)
        × (s'.circuit_breaker ≡ leb_ℤ s.failure_threshold s'.failure_count)
        × (s'.mutex ≡ unlocked)
  check-Fails s {st = st} r f = (
    after_failure (record s { store = st }) r.free t.noted,
    failed_call s r f,
    refl,
    refl,
    refl,
    refl,
    ground (arith, r.shut),
    r.free,
  )

  -- With the breaker closed a whitelisted key is allowed without a limit and without being
  -- counted, and a key that is not is turned away if the window is not configured; only the
  -- storage may have changed, and no failure is noted.
  pub check_uncounted :
      (s : Service Store) (st : Store) (listed : Bool)
      → Ready s
      → S.is_whitelisted t.called ctx (full_key key identifier) s.store ≡ (st, ok listed)
      → (listed ≡ true) ⊎ (lookup window_name s.default_limits ≡ none)
      → check_rate_limit S t ctx key identifier window_name s
        ≡ done (
          if listed then ok (unlimited window_name) else err (invalid_window window_name),
          record s { store = st },
        )
  unfolding check_rate_limit apply_limit
  check_uncounted s st listed r a h = ground (arith, is_open-steady t s r.free (ground arith))
