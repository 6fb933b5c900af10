-- ===== src/Auth/Limiting.antt =====
-- rate-limiter/internal/auth/auth.go: the rate limiting middleware over the service.
use rate_limiter.Base.{◌≡◌, refl, ◌↔◌, true, false, List, arith}
use rate_limiter.Base.Exec.{ok, err, ◌>>=◌}
use rate_limiter.Base.Int.{ℤ, pos, ◌≤ℤ◌, IsInt64}
use rate_limiter.Base.Sync.{Time, Context, done, unlocked}
use rate_limiter.Base.Text.{codes}
use rate_limiter.Storage.{Storage}
use rate_limiter.Gin.{Request, GinCall, passes}
use rate_limiter.Service.{Service, ServiceError, Readings, LimitResult, Limit}
use rate_limiter.Service.Decision.{Ready, Counts, Fails, effective, check-IsFair, check-Fails}
use rate_limiter.Auth.{rate_limit_middleware, limited_calls, limit_calls, identifier_of}

limited_iff :
    (E : Type 0) (epoch now : Time) (r : LimitResult)
    → (passes (limited_calls {E = E} epoch now (ok r)) ≡ true) ↔ (r.limited ≡ false)
unfolding passes limited_calls limit_calls
limited_iff E epoch now r = ground arith

module _ (S : Storage) (epoch : Time) (t : Readings) (now : Time) (ctx : Context)
    (q : Request) where
  open S use {Store, Err}

  -- A request whose check is counted (the conditions are those of a counted check: a free mutex, a
  -- closed breaker, a client that is not whitelisted, numbers in range) comes back from the
  -- middleware with the mutex free, and passes exactly when its count is within the limit that
  -- holds for its client.
  pub middleware_limits :
      (s : Service Store) (d : Limit) (custom count : ℤ) (st : Store)
      → Ready S t ctx (codes "auth") (identifier_of q) (codes "minute") s
      → Counts S t ctx (codes "auth") (identifier_of q) (codes "minute") s d custom count st
      → IsInt64 custom
      → IsInt64 d.requests
      → IsInt64 count
      → pos 0 ≤ℤ d.requests
      → pos 0 ≤ℤ count
      → (calls : List GinCall) × (s' : Service Store) × (rate_limit_middleware S epoch t now ctx q s
          ≡ done (calls, s'))
        × ((passes calls ≡ true) ↔ (
            count ≤ℤ effective S t ctx (codes "auth") (identifier_of q) (codes "minute") d custom))
        × (s'.mutex ≡ unlocked)
  unfolding rate_limit_middleware
  middleware_limits s d custom count st r c ic id in_ dp cp =
      let (result, s', e, fair, stored, forgotten, free) =
        check-IsFair S t ctx (codes "auth") (identifier_of q) (codes "minute") s d custom count st r
          c ic id in_ dp cp in
      let i = limited_iff (ServiceError Err) epoch now result in
      (
        limited_calls {E = ServiceError Err} epoch now (ok result),
        s',
        rw (e, ◌>>=◌),
        ground (arith, i, fair.denies),
        free,
      )

  -- With the service's mutex free and its breaker closed, a request whose check fails in the
  -- storage passes, with the storage as the failed call leaves it and the failure noted by the
  -- service.
  pub middleware_lets_through :
      (s : Service Store) {e : ServiceError Err} {st : Store}
      → Ready S t ctx (codes "auth") (identifier_of q) (codes "minute") s
      → Fails S t ctx (codes "auth") (identifier_of q) (codes "minute") s e st
      → (calls : List GinCall) × (s' : Service Store) × (rate_limit_middleware S epoch t now ctx q s
          ≡ done (calls, s'))
        × (passes calls ≡ true)
        × (s'.store ≡ st)
        × (s'.last_failure ≡ t.noted)
  unfolding rate_limit_middleware passes limited_calls
  middleware_lets_through s {e = failure} r f =
      let (s', e, stored, n, th, noted, cb, free) =
        check-Fails S t ctx (codes "auth") (identifier_of q) (codes "minute") s r f in
      (
        limited_calls {E = ServiceError Err} epoch now (err failure),
        s',
        rw (e, ◌>>=◌),
        refl,
        stored,
        noted,
      )
