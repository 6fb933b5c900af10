-- ===== src/Service/Outage.antt =====
-- rate-limiter/internal/service/ratelimiter.go: a storage that keeps failing opens the breaker.
use rate_limiter.Base.{
  ℕ, ◌+◌, ◌^◌, ◌≤◌, ◌<◌, false, ◌≡◌, refl, List, [], ◌∷◌, arith, leb, All, length,
}
use rate_limiter.Base.Exec.{Result, ok, err, Exec, ◌>>=◌, pure}
use rate_limiter.Base.Int.{pos, ◌+ℤ◌, int64}
use rate_limiter.Base.Sync.{Time, Context, unlocked, done}
use rate_limiter.Base.Text.{Text}
use rate_limiter.Storage.{Storage}
use rate_limiter.Service.{
  Service, ServiceError, whitelist_check_failed, Readings, LimitResult, check_rate_limit, full_key,
}
use rate_limiter.Service.Decision.{at_whitelist, check-Fails}

abbrev pub IsErr : {E A : Type 0} → Result E A → Type 0
IsErr (ok a) = ⊥
IsErr (err e) = Unit {0}

next_count : (m : ℕ) → m < 2 ^ 62 → int64 (pos m +ℤ pos 1) ≡ pos (m + 1)
unfolding int64 ◌+ℤ◌
next_count m h = ground arith

module _ (S : Storage) (ctx : Context) (key identifier window_name : Text) where
  open S use {Store, Err}

  -- The storage cannot say whether a key is whitelisted.
  abbrev pub IsDown : Type 0
  IsDown =
      (now : Time) (st : Store)
      → (e : Err) × (st' : Store) × (S.is_whitelisted now ctx (full_key key identifier) st
          ≡ (st', err e))

  -- Checks one after the other, with their results.
  unfoldable pub check_all :
      List Readings → Exec (Service Store) (List (Result (ServiceError Err) LimitResult))
  check_all [] = pure []
  check_all (t ∷ ts) = do
    r ← check_rate_limit S t ctx key identifier window_name
    rs ← check_all ts
    pure (r ∷ rs)

  outage_from :
      (ts : List Readings) (k m : ℕ) (s : Service Store)
      → IsDown
      → k < 2 ^ 62
      → m + length ts ≤ k
      → s.mutex ≡ unlocked
      → s.failure_threshold ≡ pos k
      → s.failure_count ≡ pos m
      → s.circuit_breaker ≡ leb k m
      → (rs : List (Result (ServiceError Err) LimitResult)) × (s' : Service Store) × (check_all ts s
          ≡ done (rs, s'))
        × All IsErr rs
        × (s'.failure_count ≡ pos (m + length ts))
        × (s'.circuit_breaker ≡ leb k (m + length ts))
        × (s'.mutex ≡ unlocked)
  unfolding check_all
  outage_from [] k m s down kb le free th n cb = ([], s, refl, tt, ground arith, ground arith, free)
  outage_from (t ∷ ts) k m s down kb le free th n cb =
      let (e, st, a) = down t.called s.store in
      let (s', eq, stored, counted, same, timed, opened, free') =
        check-Fails S t ctx key identifier window_name s
          (record { free = free; shut = ground arith }) (at_whitelist e st a) in
      let counted' : s'.failure_count ≡ pos (m + 1) = ground (arith, next_count m (omega arith)) in
      let (rs, s'', eqs, errs, total, opened', free'') =
        outage_from ts k (m + 1) s' down kb (omega arith) free' (ground arith) counted'
          (ground arith) in
      (
        err (whitelist_check_failed e) ∷ rs,
        s'',
        ground (arith, eq, eqs),
        (tt, errs),
        ground (arith, total),
        ground (arith, opened'),
        free'',
      )

  -- While the storage cannot answer, `n` checks in a row on a service with the mutex free, the
  -- breaker closed and no failure behind it, `n` at most the threshold and the threshold positive
  -- and below 2^62, all return an error and leave `n` failures noted and the mutex free, and the
  -- breaker is open exactly when `n` has reached the threshold.
  pub outage_opens :
      (ts : List Readings) (k : ℕ) (s : Service Store)
      → IsDown
      → 0 < k
      → k < 2 ^ 62
      → length ts ≤ k
      → s.mutex ≡ unlocked
      → s.failure_threshold ≡ pos k
      → s.failure_count ≡ pos 0
      → s.circuit_breaker ≡ false
      → (rs : List (Result (ServiceError Err) LimitResult)) × (s' : Service Store) × (check_all ts s
          ≡ done (rs, s'))
        × All IsErr rs
        × (s'.failure_count ≡ pos (length ts))
        × (s'.circuit_breaker ≡ leb k (length ts))
        × (s'.mutex ≡ unlocked)
  outage_opens ts k s down kp kb le free th n cb =
      let (rs, s', e, errs, total, opened, free') =
        outage_from ts k 0 s down kb (omega arith) free th n (ground arith) in
      (rs, s', e, errs, ground (arith, total), ground (arith, opened), free')
