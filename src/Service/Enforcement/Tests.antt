-- ===== src/Service/Enforcement/Tests.antt =====
-- rate-limiter/internal/service/ratelimiter.go over internal/storage/redis.go: the theorems at a client
-- that never fails.
use rate_limiter.Base.{◌-◌, ℕ, ◌≡◌, refl, ◌↔◌, true, false, none, List, [], ◌∷◌, arith, All}
use rate_limiter.Base.Dict.{lookup}
use rate_limiter.Base.Exec.{Result, ok, err}
use rate_limiter.Base.Int.{pos, ◌<ℤ◌, ◌-ℤ◌}
use rate_limiter.Base.Sync.{unlocked, done}
use rate_limiter.Base.Text.{Text, codes, text_eq}
use rate_limiter.Storage.Redis.{Client, redis_nil, redis_storage, limit_key}
use rate_limiter.Storage.Redis.Sample.{server, Slot, empty_slot, server_documented}
use rate_limiter.Storage.Redis.Window.{KeepsPace, found, calls}
use rate_limiter.Service.{
  Service, ServiceError, Readings, Limit, LimitResult, full_key, check_rate_limit,
}
use rate_limiter.Service.OverRedis.{over_redis}
use rate_limiter.Base.Int.{◌≤ℤ◌}
use rate_limiter.Storage.Redis.{StoreError}
use rate_limiter.Storage.Redis.Members.{distinct}
use rate_limiter.Service.Enforcement.{between, allowed, IsOk, check_timed, limit_enforced}

abbrev at : ℕ → Readings
at n = record { checked = pos n; rechecked = pos n; called = pos n; noted = pos n }

abbrev ten : Limit
ten = record { requests = pos 10; window = pos 1000000000 }

-- A client that never fails.
abbrev client : Client
client = record {
  commands = server;
  run_script = λ ctx script st. ((script st).0, ok (script st).1);
  exists = λ now ctx k st. (st, ok (pos 0));
  set = λ now ctx k n ttl st. (st, ok tt);
  del = λ now ctx k st. (st, ok (pos 0));
  get = λ now ctx k st. (st, err redis_nil);
  ping = λ ctx st. (st, ok tt);
  flush_all = λ ctx st. (st, ok tt);
  run_pipeline = λ ctx cmds st. (st, ok []);
}

abbrev counter_key : Text
counter_key = codes "ratelimit:counter:k:u"

-- Three calls at 5000 and 4500 milliseconds before the request at 5000.
abbrev history : List ℕ
history = 5000 ∷ 5000 ∷ 4500 ∷ []

-- Between two checks the server's clock runs as the callers' do.
abbrev gaps : List ℕ → ℕ
gaps [] = 0
gaps (now ∷ []) = 0
gaps (now ∷ prev ∷ h) = now - prev

gaps-KeepsPace : KeepsPace gaps
gaps-KeepsPace now prev h le = omega arith

abbrev over : Service (Text → Slot)
over = record {
  store = found server server_documented gaps counter_key 1000 5000 history (λ j. empty_slot);
  default_limits = (codes "second", ten) ∷ [];
  circuit_breaker = false;
  failure_count = pos 0;
  failure_threshold = pos 5;
  last_failure = pos 0;
  reset_timeout = pos 10000000000;
  mutex = unlocked;
}

over_redis_example :
    (r : LimitResult) × (s' : Service (Text → Slot)) × (check_rate_limit
        (redis_storage client (pos 0))
        (at 5000000000)
        none
        (codes "k")
        (codes "u")
        (codes "second")
        over
      ≡ done (ok r, s'))
    × ((r.limited ≡ true) ↔ (pos 10 <ℤ pos 2))
unfolding full_key text_eq lookup ◌-ℤ◌ limit_key
over_redis_example =
    over_redis client (pos 0) server_documented gaps (at 5000000000) (codes "k") (codes "u")
      (codes "second") over ten 1000 5000 history (λ j. empty_slot) (λ f st. refl)
      (record {
        starts_empty = refl;
        called = refl;
        keeps_pace = gaps-KeepsPace;
        in_order = (omega arith, (omega arith, (omega arith, tt)));
        unlisted = refl;
        no_limit = refl;
      })
      (record { free = refl; shut = refl }) refl refl (omega arith) refl (omega arith, omega arith)
      (omega arith) (omega arith)

abbrev one : Limit
one = record { requests = pos 1; window = pos 1000000000 }

-- The second check comes in the millisecond of the first, the third is denied.
abbrev checks : List Readings
checks = at 4500000000 ∷ at 4500600000 ∷ at 5000000000 ∷ at 5600000000 ∷ []

limit_enforced_example :
    (rs : List (Result (ServiceError StoreError) LimitResult)) × (s' : Service (Text → Slot))
    × (check_timed client
          (pos 0)
          server_documented
          gaps
          (codes "k")
          (codes "u")
          (codes "second")
          []
          checks
          (record over { store = λ j. empty_slot; default_limits = (codes "second", one) ∷ [] })
        ≡ done (rs, s'))
    × All IsOk rs
    × ((end : ℕ) → pos (distinct (between 1000 end (allowed (pos 0) checks rs []))) ≤ℤ pos 1)
unfolding text_eq lookup ◌-ℤ◌ calls
limit_enforced_example =
    limit_enforced client (pos 0) server_documented gaps (codes "k") (codes "u") (codes "second")
      one 1000 (λ j. empty_slot) checks
      (record over { store = λ j. empty_slot; default_limits = (codes "second", one) ∷ [] })
      (λ f st. refl)
      (record {
        starts_empty = refl;
        keeps_pace = gaps-KeepsPace;
        unlisted = λ now n h. refl;
        no_limit = λ now n h. refl;
      })
      (record { called = refl; free = refl; shut = refl; known = refl })
      (refl, omega arith, (refl, omega arith, (refl, omega arith, (refl, omega arith, tt)))) refl
      (omega arith) (omega arith)
