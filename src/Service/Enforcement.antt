-- ===== src/Service/Enforcement.antt =====
-- rate-limiter/internal/service/ratelimiter.go over internal/storage/redis.go: what a sequence of checks
-- lets through.
pub mod Data
mod Tests
pub use Data.*
use rate_limiter.Base.{
  ℕ, suc, ◌+◌, ◌<◌, ◌≤◌, ◌≡◌, refl, ap, ◌∙◌, inl, inr, Bool, true, false, ◌&&◌, none, some, List,
  [], ◌∷◌, ◌++◌, arith, leb, ltb, ◌==◌, All, if◌then◌else◌, Bool-cases,
}
use rate_limiter.Base.Dict.{lookup}
use rate_limiter.Base.Exec.{Result, ok, err, Exec, ◌>>=◌, ◌>>◌, pure}
use rate_limiter.Base.Int.{ℤ, pos, pos_part, ◌≤ℤ◌, ltb_ℤ}
use rate_limiter.Base.Sync.{Time, unlocked, done}
use rate_limiter.Base.Text.{Text}
use rate_limiter.Storage.Redis.{
  Client, redis_nil, StoreError, sliding_window, prefix_counter, prefix_whitelist, limit_key,
  unix_ms, milliseconds, redis_storage,
}
use rate_limiter.Storage.Redis.Members.{has, distinct, within, Falling, has-within}
use rate_limiter.Storage.Redis.Distinct.{Part, distinct-Part}
use rate_limiter.Storage.Redis.Window.{Documented, KeepsPace, calls, found}
use rate_limiter.Service.{
  Service, ServiceError, Readings, Limit, LimitResult, counted, full_key, check_rate_limit,
}
use rate_limiter.Service.Breaker.{after_success}
use rate_limiter.Service.Decision.{Ready, check-counted}
use rate_limiter.Service.OverRedis.{RunsScripts, HasHistory, history-Counts}

module _ (R : Client) (epoch : Time) (doc : Documented R.commands) (waited : List ℕ → ℕ)
    (key identifier window_name : Text) where
  open R use {Server}

  -- The service after some time on the server, before the check at a time that follows `h`.
  abbrev pub after_wait : ℕ → List ℕ → Service Server → Service Server
  after_wait now h s = record s { store = doc.elapse (waited (now ∷ h)) s.store }

  abbrev pub wait : ℕ → List ℕ → Exec (Service Server) (Unit {0})
  wait now h s = done (tt, after_wait now h s)

  -- Checks one after the other, with time between them, after those at the times `h`.
  unfoldable pub check_timed :
      List ℕ
      → List Readings
      → Exec (Service Server) (List (Result (ServiceError StoreError) LimitResult))
  check_timed h [] = pure []
  check_timed h (t ∷ ts) = do
    wait (stamp epoch t) h
    r ← check_rate_limit (redis_storage R epoch) t none key identifier window_name
    rs ← check_timed (stamp epoch t ∷ h) ts
    pure (r ∷ rs)

module _ (R : Client) (epoch : Time) (doc : Documented R.commands) (waited : List ℕ → ℕ)
    (key identifier window_name : Text) (d : Limit) (w : ℕ) (st₀ : R.Server) where
  open R use {Server}

  abbrev counter : Text
  counter = prefix_counter ++ full_key key identifier

  -- The server while nothing but the checks of one key calls it: the key's counter starts empty, and
  -- it has no whitelist entry and no custom limit, whatever the checks have counted.
  pub record Quiet : Type 0 where
    pub starts_empty : doc.members counter st₀ ≡ []
    pub keeps_pace : KeepsPace waited
    pub unlisted :
        (now : Time) (n : ℕ) (h : List ℕ)
        → let st = found R.commands doc waited counter w n h st₀ in
          R.exists now none (prefix_whitelist ++ full_key key identifier) st ≡ (st, ok (pos 0))
    pub no_limit :
        (now : Time) (n : ℕ) (h : List ℕ)
        → let st = found R.commands doc waited counter w n h st₀ in
          R.get now none (limit_key R epoch (full_key key identifier) window_name) st
          ≡ (st, err redis_nil)

  -- A service that is ready for the checks, after those at the times `h`.
  pub record Running (h : List ℕ) (s : Service Server) : Type 0 where
    pub called : s.store ≡ calls R.commands doc waited counter w h st₀
    pub free : s.mutex ≡ unlocked
    pub shut : s.circuit_breaker ≡ false
    pub known : lookup window_name s.default_limits ≡ some d

  one_check :
      (t : Readings) (h : List ℕ) (s : Service Server)
      → RunsScripts R
      → Quiet
      → Running h s
      → Falling (stamp epoch t) h
      → unix_ms epoch t.called ≡ pos (stamp epoch t)
      → milliseconds d.window ≡ pos w
      → 0 < w
      → (s' : Service Server) × (check_rate_limit
            (redis_storage R epoch)
            t
            none
            key
            identifier
            window_name
            (after_wait R epoch doc waited key identifier window_name (stamp epoch t) h s)
          ≡ done (
            ok (
                counted d.requests d.window window_name
                  (pos (distinct (within w (stamp epoch t) (stamp epoch t ∷ h))))),
            s',
          ))
        × Running (stamp epoch t ∷ h) s'
  unfolding calls
  one_check t h s runs q r falls at ms wp =
      let n = stamp epoch t in
      let sₑ = after_wait R epoch doc waited key identifier window_name n h s in
      let there : sₑ.store ≡ found R.commands doc waited counter w n h st₀ =
        ap (doc.elapse (waited (n ∷ h))) r.called in
      let c = pos (distinct (within w n (n ∷ h))) in
      let st = (sliding_window R.commands counter (pos n) (pos w) sₑ.store).0 in
      let i : HasHistory R epoch doc waited t key identifier window_name w n h st₀ sₑ.store =
        record {
          starts_empty = q.starts_empty;
          called = there;
          keeps_pace = q.keeps_pace;
          in_order = falls;
          unlisted = rw there (q.unlisted t.called n h);
          no_limit = rw there (q.no_limit t.called n h);
        } in
      let ready : Ready (redis_storage R epoch) t none key identifier window_name sₑ = record {
        free = r.free;
        shut = r.shut;
      } in
      (
        after_success (record sₑ { store = st }) r.free,
        check-counted (redis_storage R epoch) t none key identifier window_name sₑ d (pos 0) c st
            ready
            (history-Counts R epoch doc waited t key identifier window_name sₑ d w n h st₀ runs i
              r.known ms wp at),
        record {
          called = ap (λ x. (sliding_window R.commands counter (pos n) (pos w) x).0) there;
          free = r.free;
          shut = r.shut;
          known = r.known;
        },
      )

  -- In every window the times in a list are at most as many, as distinct ones, as the limit.
  abbrev Within : List ℕ → Type 0
  Within xs = (end : ℕ) → pos (distinct (between w end xs)) ≤ℤ d.requests

  let_through :
      (n : ℕ) (xs h : List ℕ)
      → Part xs h
      → Within xs
      → (let c = pos (distinct (within w n (n ∷ h))) in
          Within (if ltb_ℤ d.requests c then xs else n ∷ xs))
  let_through n xs h p fits end = elim (Bool-cases (leb n end)) [
    | inl here ↦ ground (
      arith,
      fits end,
      here,
      distinct-Part _ _ (between-Part w n end xs h p (ground (arith, here))),
    )
    | inr later ↦ ground (arith, fits end, later)
  ]

  let_through-Part :
      (n : ℕ) (b : Bool) (xs h : List ℕ) → Part xs h → Part (if b then xs else n ∷ xs) (n ∷ h)
  let_through-Part n b xs h p y in_ = ground (arith, p y, in_)

  enforced_from :
      (ts : List Readings) (n : ℕ) (h more : List ℕ) (s : Service Server)
      → RunsScripts R
      → Quiet
      → Running h s
      → Falling n h
      → InOrder epoch n ts
      → milliseconds d.window ≡ pos w
      → 0 < w
      → Part more h
      → Within more
      → (rs : List (Result (ServiceError StoreError) LimitResult)) × (s' : Service Server)
        × (check_timed R epoch doc waited key identifier window_name h ts s ≡ done (rs, s'))
        × All IsOk rs
        × Within (allowed epoch ts rs more)
  unfolding check_timed counted
  enforced_from [] n h more s runs q r falls order ms wp p fits = ([], s, refl, tt, fits)
  enforced_from (t ∷ ts) n h more s runs q r falls order ms wp p fits =
      let (at, le, order') = order in
      let m = stamp epoch t in
      let c = pos (distinct (within w m (m ∷ h))) in
      let falls' = Falling-later n m h falls le in
      let (s₁, e, r₁) = one_check t h s runs q r falls' at ms wp in
      let (rs, s', es, oks, fits') =
        enforced_from ts m (m ∷ h) (if ltb_ℤ d.requests c then more else m ∷ more) s₁ runs q r₁
          (omega arith, falls') order' ms wp (let_through-Part m (ltb_ℤ d.requests c) more h p)
          (let_through m more h p fits) in
      (
        ok (counted d.requests d.window window_name c) ∷ rs,
        s',
        ground (arith, e, es),
        (tt, oks),
        fits',
      )

  -- The service on the Redis storage enforces the limit of a window: of any sequence of checks of a
  -- key, none earlier than the one before it, every one comes back without an error, and in no
  -- window of the length of the limit's, wherever it ends, are the distinct milliseconds at which
  -- checks were allowed more than the limit. (Scripts run without a failure and the four commands do
  -- what is documented; between two checks any time passes on the server's clock, by which the key
  -- expires, that is not a second more than the difference of their times; at the start the mutex is free, the breaker closed and the key's counter
  -- empty; the key has no whitelist entry and no custom limit; the window is configured, of a positive
  -- whole number of milliseconds or cut to it, and its limit is not negative.)
  pub limit_enforced :
      (ts : List Readings) (s : Service Server)
      → RunsScripts R
      → Quiet
      → Running [] s
      → InOrder epoch 0 ts
      → milliseconds d.window ≡ pos w
      → 0 < w
      → pos 0 ≤ℤ d.requests
      → (rs : List (Result (ServiceError StoreError) LimitResult)) × (s' : Service Server)
        × (check_timed R epoch doc waited key identifier window_name [] ts s ≡ done (rs, s'))
        × All IsOk rs
        × ((end : ℕ) → pos (distinct (between w end (allowed epoch ts rs []))) ≤ℤ d.requests)
  limit_enforced ts s runs q r order ms wp lp =
      enforced_from ts 0 [] [] s runs q r tt order ms wp (λ y h. h) (λ end. lp)
