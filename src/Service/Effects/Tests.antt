-- ===== src/Service/Effects/Tests.antt =====
-- rate-limiter/internal/service/ratelimiter.go over internal/storage/redis.go: updates and checks on a
-- server that keeps texts.
use rate_limiter.Base.{ℕ, ◌≡◌, refl, ap, sym, Option, none, some, List, [], ◌∷◌, arith}
use rate_limiter.Base.Decimal.{format_int, decimal}
use rate_limiter.Base.Dict.{Dict, lookup, insert, lookup-insert}
use rate_limiter.Base.Exec.{Result, ok, err}
use rate_limiter.Base.Int.{pos, ◌+ℤ◌}
use rate_limiter.Base.Sync.{done}
use rate_limiter.Base.Text.{Text, codes, text_eq, text_eq_refl}
use rate_limiter.Storage.{Storage}
use rate_limiter.Storage.Redis.{
  Client, ClientError, redis_nil, redis_storage, increment_and_count, sliding_window,
}
use rate_limiter.Storage.Redis.Limits.{KeepsValues}
use rate_limiter.Service.{
  Service, Readings, Limit, LimitResult, new_service, is_circuit_breaker_open, reset_failure,
  full_key, check_rate_limit, set_limit, update_whitelist,
}
use rate_limiter.Service.Decision.{IsFair}
use rate_limiter.Service.Effects.{
  FindsKeys, check_each, all_unlimited, whitelist_takes_effect, limit_takes_effect,
}

abbrev nil_or : Option Text → Result ClientError Text
nil_or none = err redis_nil
nil_or (some t) = ok t

abbrev one_if : Option Text → ℕ
one_if none = 0
one_if (some t) = 1

-- Texts that never expire, and scripts that count 7.
abbrev keeping : Client
keeping = record {
  commands = record {
    Server = Dict Text;
    zremrangebyscore = λ k lo hi st. st;
    zadd = λ k score member st. st;
    pexpire = λ k ms st. st;
    zcard = λ k st. (st, pos 7);
  };
  run_script = λ ctx script st. ((script st).0, ok (script st).1);
  exists = λ now ctx k st. (st, ok (pos (one_if (lookup k st))));
  set = λ now ctx k n ttl st. (insert k (format_int n) st, ok tt);
  del = λ now ctx k st. (st, ok (pos 0));
  get = λ now ctx k st. (st, nil_or (lookup k st));
  ping = λ ctx st. (st, ok tt);
  flush_all = λ ctx st. ([], ok tt);
  run_pipeline = λ ctx cmds st. (st, ok []);
}

keeping-KeepsValues : KeepsValues keeping
keeping-KeepsValues now later k n ttl st st' h w =
    rw (sym (ap (λ r. r.0) h), lookup-insert k k (format_int n) st, text_eq_refl k)

abbrev keeping-FindsKeys : FindsKeys keeping
keeping-FindsKeys = record {
  Lives = λ k end st. one_if (lookup k st) ≡ 1;
  sets = λ now k n ttl st st' h.
      rw (sym (ap (λ r. r.0) h), lookup-insert k k (format_int n) st, text_eq_refl k) refl;
  finds = λ later end k st lives w. (ap (λ n. ok (pos n)) lives, lives);
}

abbrev at : ℕ → Readings
at n = record { checked = pos n; rechecked = pos n; called = pos n; noted = pos n }

abbrev ten : Limit
ten = record { requests = pos 10; window = pos 1000000000 }

abbrev empty : Service (Dict Text)
empty = new_service [] ((codes "second", ten) ∷ [])

abbrev with_entry : Text → Text → Service (Dict Text)
with_entry k v = new_service ((k, v) ∷ []) ((codes "second", ten) ∷ [])

abbrev redis : Storage
redis = redis_storage keeping (pos 0)

-- Two checks, in two windows.
abbrev two_checks : List (Readings × Text)
two_checks = (at 9, codes "second") ∷ (at 20, codes "minute") ∷ []

whitelist_takes_effect_example :
    (s' : Service (Dict Text)) × (check_each keeping
        (pos 0)
        (codes "k")
        (codes "u")
        two_checks
        (with_entry (codes "ratelimit:whitelist:k:u") (codes "1"))
      ≡ done (all_unlimited two_checks, s'))
unfolding update_whitelist new_service is_circuit_breaker_open
    rate_limiter.Storage.Redis.update_whitelist reset_failure insert full_key format_int decimal
    ◌+ℤ◌
whitelist_takes_effect_example =
    whitelist_takes_effect keeping (pos 0) (codes "k") (codes "u") (at 5) two_checks empty
      (with_entry (codes "ratelimit:whitelist:k:u") (codes "1")) keeping-FindsKeys refl refl refl
      (omega arith, (omega arith, tt))

limit_takes_effect_example :
    (res : LimitResult) × (s' : Service (Dict Text)) × (check_rate_limit redis
        (at 9)
        none
        (codes "k")
        (codes "u")
        (codes "second")
        (with_entry (codes "ratelimit:limit:k:u:second") (codes "5"))
      ≡ done (ok res, s'))
    × IsFair (pos 5) (pos 7) res
unfolding set_limit new_service is_circuit_breaker_open rate_limiter.Storage.Redis.set_limit
    reset_failure insert full_key format_int decimal ◌+ℤ◌ lookup text_eq increment_and_count
    sliding_window
limit_takes_effect_example =
    limit_takes_effect keeping (pos 0) (at 5) (at 9) (codes "k") (codes "u") (codes "second") empty
      (with_entry (codes "ratelimit:limit:k:u:second") (codes "5")) (pos 5) ten (pos 7)
      ((codes "ratelimit:limit:k:u:second", codes "5") ∷ []) keeping-KeepsValues
      (omega arith, omega arith) (omega arith) (record { free = refl; shut = refl }) refl
      (omega arith) refl refl refl (omega arith, omega arith) (omega arith)
