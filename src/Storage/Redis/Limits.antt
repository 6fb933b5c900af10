-- ===== src/Storage/Redis/Limits.antt =====
-- rate-limiter/internal/storage/redis.go: a custom limit that is set and read back.
use rate_limiter.Base.{◌≡◌, ap, none, arith}
use rate_limiter.Base.Decimal.{format_int, atoi-format_int}
use rate_limiter.Base.Exec.{Result, ok, err}
use rate_limiter.Base.Int.{ℤ, pos, ◌+ℤ◌, ◌<ℤ◌, IsInt64}
use rate_limiter.Base.Sync.{Time, Duration}
use rate_limiter.Base.Text.{Text}
use rate_limiter.Storage.Redis.{
  Client, ClientError, StoreError, limit_key, get_limit, set_limit, wrap, got, parsed, redis_nil,
  client_failed, set_failed,
}

-- What `SET key value PX ttl` and `GET key` are documented to do: for as long as the value lives, the
-- key reads as its text.
abbrev pub KeepsValues : Client → Type 0
KeepsValues R =
    (now later : Time) (key : Text) (n : ℤ) (ttl : Duration) (st st' : R.Server)
    → R.set now none key n ttl st ≡ (st', ok tt)
    → later <ℤ now +ℤ ttl
    → (R.get later none key st').1 ≡ ok (format_int n)

module _ (R : Client) (epoch : Time) where
  open R use {Server}

  pub set_ok :
      (st st' : Server) (r : Server × Result ClientError (Unit {0})) (f : ClientError → StoreError)
      → wrap f r ≡ (st', ok tt)
      → r ≡ (st', ok tt)
  set_ok st st' (st₁, ok tt) f h = ap (λ r. (r.0, ok tt)) h
  set_ok st st' (st₁, err e) f h = cc

  got_ok :
      (r : Server × Result ClientError Text) (n : ℤ)
      → IsInt64 n
      → r.1 ≡ ok (format_int n)
      → (got R epoch r).1 ≡ ok n
  unfolding got parsed
  got_ok (st, ok t) n h e = ground (arith, atoi-format_int n h)
  got_ok (st, err redis_nil) n h e = cc
  got_ok (st, err (client_failed m)) n h e = cc

  -- Where the server keeps values, a limit that `SetLimit` stored without an error is what
  -- `GetLimit` returns for that key and window, at any time within a day, for every `int`.
  pub get_limit-set_limit :
      (now later : Time) (key window : Text) (n : ℤ) (st st' : Server)
      → KeepsValues R
      → IsInt64 n
      → set_limit R epoch now none key window n st ≡ (st', ok tt)
      → later <ℤ now +ℤ pos 86400000000000
      → (get_limit R epoch later none key window st').1 ≡ ok n
  unfolding get_limit set_limit
  get_limit-set_limit now later key window n st st' keeps h e w =
      got_ok (R.get later none (limit_key R epoch key window) st') n h (
        keeps now later (limit_key R epoch key window) n (pos 86400000000000) st st'
          (set_ok st st' (R.set now none (limit_key R epoch key window) n (pos 86400000000000) st)
            set_failed e)
          w)
