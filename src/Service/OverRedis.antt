-- ===== src/Service/OverRedis.antt =====
-- rate-limiter/internal/service/ratelimiter.go over internal/storage/redis.go: what a request is
-- decided by when the service stands on the Redis storage.
use rate_limiter.Base.{ℕ, ◌<◌, ◌^◌, ◌≡◌, ap, ◌∙◌, ◌↔◌, true, none, some, List, [], ◌∷◌, ◌++◌, arith}
use rate_limiter.Base.Dict.{lookup}
use rate_limiter.Base.Exec.{Result, ok, err}
use rate_limiter.Base.Int.{ℤ, pos, ◌≤ℤ◌, ◌<ℤ◌, IsInt64}
use rate_limiter.Base.Sync.{Time, done}
use rate_limiter.Base.Text.{Text}
use rate_limiter.Storage.Redis.{
  Client, redis_nil, StoreError, sliding_window, prefix_counter, prefix_whitelist, limit_key,
  unix_ms, milliseconds, redis_storage, increment_and_count, is_whitelisted, get_limit, listed, got,
  wrap, script_failed,
}
use rate_limiter.Storage.Redis.Members.{distinct, within, Falling}
use rate_limiter.Storage.Redis.Window.{Documented, KeepsPace, found, script_counts_distinct}
use rate_limiter.Service.{Service, Readings, Limit, LimitResult, full_key, check_rate_limit}
use rate_limiter.Service.Decision.{Ready, Counts, check-IsFair}

-- A script that is run without a failure: the server is as the script leaves it, and its number
-- comes back.
abbrev pub RunsScripts : Client → Type 0
RunsScripts R =
    (f : R.Server → R.Server × ℤ) (st : R.Server) → R.run_script none f st ≡ ((f st).0, ok (f st).1)

module _ (R : Client) (epoch : Time) (doc : Documented R.commands) (waited : List ℕ → ℕ)
    (t : Readings) (key identifier window_name : Text) where
  open R use {Server}

  abbrev full : Text
  full = full_key key identifier

  -- A server with an earlier history of one key and nothing else of it: after the calls of the
  -- script at the times `h`, in milliseconds, on a key that starts empty, with the time that passes
  -- before each and before the call at `now`, and with no whitelist entry and no custom limit.
  pub record HasHistory (w now : ℕ) (h : List ℕ) (st₀ st : Server) : Type 0 where
    pub starts_empty : doc.members (prefix_counter ++ full) st₀ ≡ []
    pub called : st ≡ found R.commands doc waited (prefix_counter ++ full) w now h st₀
    pub keeps_pace : KeepsPace waited
    pub in_order : Falling now h
    pub unlisted : R.exists t.called none (prefix_whitelist ++ full) st ≡ (st, ok (pos 0))
    pub no_limit : R.get t.called none (limit_key R epoch full window_name) st ≡ (st, err redis_nil)

  abbrev answer : Server → ℤ → Server × Result StoreError ℤ
  answer st n = (st, ok n)

  pub history-Counts :
      (s : Service Server) (d : Limit) (w now : ℕ) (h : List ℕ) (st₀ : Server)
      → RunsScripts R
      → HasHistory w now h st₀ s.store
      → lookup window_name s.default_limits ≡ some d
      → milliseconds d.window ≡ pos w
      → 0 < w
      → unix_ms epoch t.called ≡ pos now
      → Counts
          (redis_storage R epoch)
          t
          none
          key
          identifier
          window_name
          s
          d
          (pos 0)
          (pos (distinct (within w now (now ∷ h))))
          (sliding_window R.commands (prefix_counter ++ full) (pos now) (pos w) s.store).0
  unfolding is_whitelisted listed get_limit got increment_and_count
  history-Counts s d w now h st₀ runs i known ms wp at =
      let k = prefix_counter ++ full in
      let script = sliding_window R.commands k in
      let reply : ℤ → ℤ → Server × Result StoreError ℤ =
        λ n m. ((script n m s.store).0, ok (script n m s.store).1) in
      let counted : (script (pos now) (pos w) s.store).1 ≡ pos (distinct (within w now (now ∷ h))) =
        ap (λ st. (script (pos now) (pos w) st).1) i.called
        ∙ script_counts_distinct R.commands doc waited k w now h st₀ i.starts_empty i.keeps_pace
            i.in_order wp in
      record {
        known = known;
        after_whitelist = s.store;
        after_limit = s.store;
        not_listed = ap (listed R epoch) i.unlisted;
        custom_limit = ap (got R epoch) i.no_limit;
        counts =
            ap (wrap script_failed)
              (runs (script (unix_ms epoch t.called) (milliseconds d.window)) s.store)
            ∙ ap (λ n. reply n (milliseconds d.window)) at
            ∙ ap (λ m. reply (pos now) m) ms
            ∙ ap (answer (script (pos now) (pos w) s.store).0) counted;
      }

  -- The service on the Redis storage denies a request exactly when the distinct milliseconds at
  -- which its key was counted in the window that ends now, this request's included, are more than
  -- the window's limit. (The mutex is free, the breaker closed and the context open; scripts run
  -- without a failure and the four commands do what is documented; the key's counter started
  -- empty, its calls are in order, with any time between them on the server's clock, by which the
  -- key expires, that is not a second more than the difference of their times, and it has no
  -- whitelist entry and no custom limit; the window
  -- is configured, of a positive whole number of milliseconds or cut to it, and its limit is an
  -- `int` that is not negative.)
  pub over_redis :
      (s : Service Server) (d : Limit) (w now : ℕ) (h : List ℕ) (st₀ : Server)
      → RunsScripts R
      → HasHistory w now h st₀ s.store
      → Ready (redis_storage R epoch) t none key identifier window_name s
      → lookup window_name s.default_limits ≡ some d
      → milliseconds d.window ≡ pos w
      → 0 < w
      → unix_ms epoch t.called ≡ pos now
      → IsInt64 d.requests
      → pos 0 ≤ℤ d.requests
      → distinct (within w now (now ∷ h)) < 2 ^ 63
      → (r : LimitResult) × (s' : Service Server) × (check_rate_limit
            (redis_storage R epoch)
            t
            none
            key
            identifier
            window_name
            s
          ≡ done (ok r, s'))
        × ((r.limited ≡ true) ↔ (d.requests <ℤ pos (distinct (within w now (now ∷ h)))))
  over_redis s d w now h st₀ runs i ready known ms wp at l lp small =
      let (r, s', e, fair, stored, forgotten, free) =
        check-IsFair (redis_storage R epoch) t none key identifier window_name s d (pos 0)
          (pos (distinct (within w now (now ∷ h))))
          (sliding_window R.commands (prefix_counter ++ full) (pos now) (pos w) s.store).0 ready
          (history-Counts s d w now h st₀ runs i known ms wp at) (ground arith) l (ground arith) lp
          (omega arith) in
      (r, s', e, fair.denies)
