-- ===== src/Service/Effects.antt =====
-- rate-limiter/internal/service/ratelimiter.go over internal/storage/redis.go: an update of the
-- whitelist or of a limit, and the checks that follow it.
mod Tests
use rate_limiter.Base.{
  inl, Bool, true, false, ◌≡◌, refl, ap, sym, subst, ◌∙◌, List, [], ◌∷◌, All, none, some, ◌++◌,
  arith, if◌then◌else◌,
}
use rate_limiter.Base.Dict.{lookup}
use rate_limiter.Base.Exec.{Result, ok, err, Exec, ◌>>=◌, pure}
use rate_limiter.Base.Int.{ℤ, pos, ltb_ℤ, ◌≤ℤ◌, ◌<ℤ◌, ◌+ℤ◌, IsInt64}
use rate_limiter.Base.Sync.{Time, Duration, Context, unlocked, done}
use rate_limiter.Base.Text.{Text}
use rate_limiter.Storage.{Storage}
use rate_limiter.Storage.Redis.{
  Client, ClientError, StoreError, add_failed, increment_and_count, prefix_whitelist, limit_key,
  redis_storage, is_whitelisted, get_limit, listed, got, parsed, redis_nil, client_failed,
}
use rate_limiter.Storage.Redis.Limits.{KeepsValues, set_ok, get_limit-set_limit}
use rate_limiter.Service.{
  Service, ServiceError, set_limit_failed, update_whitelist_failed, Readings, Limit, LimitResult,
  unlimited, counted, full_key, check_rate_limit, set_limit, update_whitelist,
}
use rate_limiter.Service.Breaker.{
  is_open-steady, after_failure, after_success, increment_failure_lem, reset_failure_lem,
}
use rate_limiter.Service.Updates.{Updated, set_limit-answered, update_whitelist-answered}
use rate_limiter.Service.Decision.{
  Ready, IsFair, effective, Counts, check-counted, counted-IsFair, check_uncounted,
}

-- What `SET key value PX ttl` and `EXISTS key` are documented to do: a key that is set lives until its
-- time has come, and as long as it lives it is found, which leaves it there.
pub record FindsKeys (R : Client) : Type 1 where
  pub Lives : Text → Time → R.Server → Type 0
  pub sets :
      (now : Time) (key : Text) (n : ℤ) (ttl : Duration) (st st' : R.Server)
      → R.set now none key n ttl st ≡ (st', ok tt)
      → Lives key (now +ℤ ttl) st'
  pub finds :
      (later end : Time) (key : Text) (st : R.Server)
      → Lives key end st
      → later <ℤ end
      → ((R.exists later none key st).1 ≡ ok (pos 1)) × Lives key end (R.exists later none key st).0

-- The results of checks that are allowed without a limit.
abbrev pub all_unlimited : {E : Type 0} → List (Readings × Text) → List (Result E LimitResult)
all_unlimited [] = []
all_unlimited ((t, window_name) ∷ cs) = ok (unlimited window_name) ∷ all_unlimited cs

module _ (R : Client) (epoch : Time) (key identifier : Text) where
  open R use {Server}

  -- Checks of the key one after the other, each in a window of its own.
  unfoldable pub check_each :
      List (Readings × Text)
      → Exec (Service Server) (List (Result (ServiceError StoreError) LimitResult))
  check_each [] = pure []
  check_each ((t, window_name) ∷ cs) = do
    r ← check_rate_limit (redis_storage R epoch) t none key identifier window_name
    rs ← check_each cs
    pure (r ∷ rs)

  abbrev entry : Text
  entry = prefix_whitelist ++ full_key key identifier

  listed_one :
      (o : Server × Result ClientError ℤ) → o.1 ≡ ok (pos 1) → listed R epoch o ≡ (o.0, ok true)
  unfolding listed
  listed_one (st, ok n) h = ground (arith, h)
  listed_one (st, err e) h = cc

  while_listed :
      (finding : FindsKeys R) (end : Time) (cs : List (Readings × Text)) (s : Service Server)
      → s.mutex ≡ unlocked
      → s.circuit_breaker ≡ false
      → finding.Lives entry end s.store
      → All (λ c. c.0.called <ℤ end) cs
      → (s' : Service Server) × (check_each cs s ≡ done (all_unlimited cs, s'))
  unfolding check_each is_whitelisted
  while_listed finding end [] s free shut lives h = (s, refl)
  while_listed finding end ((t, window_name) ∷ cs) s free shut lives h =
      let (found, still) = finding.finds t.called end entry s.store lives h.0 in
      let st = (R.exists t.called none entry s.store).0 in
      let (s', e) = while_listed finding end cs (record s { store = st }) free shut still h.1 in
      let first =
        check_uncounted (redis_storage R epoch) t none key identifier window_name s st true
          (record { free = free; shut = shut })
          (listed_one (R.exists t.called none entry s.store) found) (inl refl) in
      (s', ground (arith, first, e))

  -- On the Redis storage, with a server that finds what it holds: after an update that put a key on
  -- the whitelist without an error, with the mutex free and the breaker closed, of any sequence of
  -- checks of the key, each within a day of the update and in whatever window, every one is allowed
  -- without a limit. (Nothing but the checks of the key calls the server after the update.)
  pub whitelist_takes_effect :
      (t : Readings) (cs : List (Readings × Text)) (s s₁ : Service Server)
      → FindsKeys R
      → s.mutex ≡ unlocked
      → s.circuit_breaker ≡ false
      → update_whitelist (redis_storage R epoch) t none key identifier true s ≡ done (ok tt, s₁)
      → All (λ c. c.0.called <ℤ t.called +ℤ pos 86400000000000) cs
      → (s' : Service Server) × (check_each cs s₁ ≡ done (all_unlimited cs, s'))
  unfolding rate_limiter.Storage.Redis.update_whitelist
  whitelist_takes_effect t cs s s₁ finding free shut e h =
      let S = redis_storage R epoch in
      let ready : Ready S t none key identifier [] s = record { free = free; shut = shut } in
      let u = update_whitelist-answered S t none key identifier [] true s s₁ _ ready refl e in
      let set : R.set t.called none entry (pos 1) (pos 86400000000000) s.store ≡ (u.store, ok tt) =
        set_ok R epoch s.store u.store _ add_failed u.stored in
      let lives = finding.sets t.called entry (pos 1) (pos 86400000000000) s.store u.store set in
      while_listed finding (t.called +ℤ pos 86400000000000) cs s₁ u.ready.free u.ready.shut
        (subst (finding.Lives entry (t.called +ℤ pos 86400000000000)) (sym u.held) lives) h

module _ (R : Client) (epoch : Time) (t later : Readings) (key identifier window_name : Text) where
  open R use {Server}

  abbrev S : Storage
  S = redis_storage R epoch

  abbrev full : Text
  full = full_key key identifier

  got_pair :
      (o : Server × Result ClientError Text) (n : ℤ)
      → (got R epoch o).1 ≡ ok n
      → got R epoch o ≡ (o.0, ok n)
  unfolding got parsed
  got_pair (st, ok text) n h = ground arith
  got_pair (st, err redis_nil) n h = ground arith
  got_pair (st, err (client_failed m)) n h = cc

  -- On the Redis storage, with a server that keeps values: after a custom limit, a positive `int`,
  -- was set for a key and a configured window without an error, with the mutex free and the breaker
  -- closed, the next check, within a day, is decided fairly on that limit, whatever the limit of the
  -- window, if it finds the key off the whitelist, which leaves the server as it is, and the storage
  -- counts it without an error, a count that is an `int64` and not negative.
  pub limit_takes_effect :
      (s s₁ : Service Server) (n : ℤ) (d : Limit) (count : ℤ) (st : Server)
      → KeepsValues R
      → IsInt64 n
      → pos 0 <ℤ n
      → Ready S t none key identifier window_name s
      → set_limit S t none key identifier window_name n s ≡ done (ok tt, s₁)
      → later.called <ℤ t.called +ℤ pos 86400000000000
      → lookup window_name s.default_limits ≡ some d
      → R.exists later.called none (prefix_whitelist ++ full) s₁.store ≡ (s₁.store, ok (pos 0))
      → increment_and_count R epoch later.called none full d.window
          (R.get later.called none (limit_key R epoch full window_name) s₁.store).0
        ≡ (st, ok count)
      → IsInt64 count
      → pos 0 ≤ℤ count
      → (res : LimitResult) × (s' : Service Server) × (check_rate_limit S later none key identifier
            window_name s₁
          ≡ done (ok res, s'))
        × IsFair n count res
  unfolding is_whitelisted listed get_limit
  limit_takes_effect s s₁ n d count st keeps small positive r e w known off counting cl cp =
      let u = set_limit-answered S t none key identifier window_name n s s₁ _ r refl e in
      let entry = limit_key R epoch full window_name in
      let read : (get_limit R epoch later.called none full window_name s₁.store).1 ≡ ok n =
        ap (λ x. (get_limit R epoch later.called none full window_name x).1) u.held
        ∙ get_limit-set_limit R epoch t.called later.called full window_name n s.store u.store keeps
            small u.stored w in
      let custom = got_pair (R.get later.called none entry s₁.store) n read in
      let holds : effective S later none key identifier window_name d n ≡ n = ground arith in
      let s' = after_success (record s₁ { store = st }) u.ready.free in
      let run =
        check-counted S later none key identifier window_name s₁ d n count st
          (record { free = u.ready.free; shut = u.ready.shut })
          (record {
            known = ap (lookup window_name) u.kept ∙ known;
            after_whitelist = s₁.store;
            after_limit = (R.get later.called none entry s₁.store).0;
            not_listed = ap (listed R epoch) off;
            custom_limit = custom;
            counts = counting;
          }) in
      (
        counted n d.window window_name count,
        s',
        run ∙ ap (λ l. done (ok (counted l d.window window_name count), s')) holds,
        counted-IsFair n count d.window window_name small cl (ground arith) cp,
      )
