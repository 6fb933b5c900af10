-- ===== src/Service/Tests.antt =====
-- rate-limiter/internal/service/ratelimiter.go: the theorems at a concrete storage.
use rate_limiter.Base.{ℕ, ◌+◌, ◌≡◌, refl, ◌↔◌, true, false, none, List, [], ◌∷◌, arith, All}
use rate_limiter.Base.Dict.{Dict, lookup}
use rate_limiter.Base.Exec.{Result, ok, err}
use rate_limiter.Base.Int.{pos, ◌+ℤ◌, ◌-ℤ◌, int64, leb_ℤ}
use rate_limiter.Base.Sync.{unlocked, done, fatal, runlock_of_unlocked, since}
use rate_limiter.Base.Text.{codes, text_eq}
use rate_limiter.Storage.{Storage}
use rate_limiter.Service.{
  Service, ServiceError, whitelist_check_failed, service_unavailable, Readings, Limit, LimitResult,
  is_expired, unlimited, full_key, new_service, check_rate_limit, update_whitelist, set_limit,
}
use rate_limiter.Service.Breaker.{expired_is_fatal, open_bypasses}
use rate_limiter.Service.Decision.{IsFair, check-IsFair, at_whitelist, check-Fails}
use rate_limiter.Service.Termination.{Returns, Returns-iff}
use rate_limiter.Service.Outage.{IsErr, check_all, outage_opens}

-- A storage that answers: nobody is whitelisted but "k:vip", no custom limit, one counter.
abbrev counter : Storage
counter = record {
  Store = ℕ;
  Err = Unit {0};
  increment_and_count = λ now ctx key window n. (n + 1, ok (pos (n + 1)));
  is_whitelisted = λ now ctx key n. (n, ok (text_eq key (codes "k:vip")));
  update_whitelist = λ now ctx key listed n. (n, ok tt);
  set_limit = λ now ctx key window limit n. (n, ok tt);
  get_limit = λ now ctx key window n. (n, ok (pos 0));
}

-- A storage that never answers.
abbrev down : Storage
down = record {
  Store = ℕ;
  Err = Unit {0};
  increment_and_count = λ now ctx key window n. (n, err tt);
  is_whitelisted = λ now ctx key n. (n, err tt);
  update_whitelist = λ now ctx key listed n. (n, err tt);
  set_limit = λ now ctx key window limit n. (n, err tt);
  get_limit = λ now ctx key window n. (n, err tt);
}

abbrev at : ℕ → Readings
at n = record { checked = pos n; rechecked = pos n; called = pos n; noted = pos n }

abbrev ten : Limit
ten = record { requests = pos 10; window = pos 1000000000 }

abbrev limits : Dict Limit
limits = (codes "second", ten) ∷ []

-- Ten requests were counted before.
abbrev ready : Service ℕ
ready = record (new_service 10 limits) { last_failure = pos 0 }

-- The breaker opened at the time 100.
abbrev tripped : Service ℕ
tripped = record ready { circuit_breaker = true; last_failure = pos 100 }

expired_is_fatal_example :
    (check_rate_limit counter (at 20000000000) none (codes "k") (codes "u") (codes "second") tripped
      ≡ fatal runlock_of_unlocked)
    × (update_whitelist counter (at 20000000000) none (codes "k") (codes "u") true tripped
        ≡ fatal runlock_of_unlocked)
    × (set_limit counter
          (at 20000000000)
          none
          (codes "k")
          (codes "u")
          (codes "second")
          (pos 3)
          tripped
        ≡ fatal runlock_of_unlocked)
unfolding new_service since ◌-ℤ◌
expired_is_fatal_example =
    expired_is_fatal counter (at 20000000000) none (codes "k") (codes "u") (codes "second") true
      (pos 3) tripped refl refl

open_bypasses_example :
    (check_rate_limit down (at 200) none (codes "k") (codes "u") (codes "second") tripped
      ≡ done (ok (unlimited (codes "second")), tripped))
    × (update_whitelist down (at 200) none (codes "k") (codes "u") true tripped
        ≡ done (err service_unavailable, tripped))
    × (set_limit down (at 200) none (codes "k") (codes "u") (codes "second") (pos 3) tripped
        ≡ done (err service_unavailable, tripped))
unfolding new_service since ◌-ℤ◌
open_bypasses_example =
    open_bypasses down (at 200) none (codes "k") (codes "u") (codes "second") true (pos 3) tripped
      refl refl refl

check-IsFair_example :
    (r : LimitResult) × (s' : Service ℕ) × (check_rate_limit counter
        (at 5)
        none
        (codes "k")
        (codes "u")
        (codes "second")
        ready
      ≡ done (ok r, s'))
    × IsFair (pos 10) (pos 11) r
    × (s'.store ≡ 11)
    × (s'.failure_count ≡ pos 0)
    × (s'.mutex ≡ unlocked)
unfolding new_service full_key text_eq lookup
check-IsFair_example =
    check-IsFair counter (at 5) none (codes "k") (codes "u") (codes "second") ready ten (pos 0)
      (pos 11) 11 (record { free = refl; shut = refl })
      (record {
        known = refl;
        after_whitelist = 10;
        after_limit = 10;
        not_listed = refl;
        custom_limit = refl;
        counts = refl;
      })
      (omega arith) (omega arith) (omega arith) (omega arith) (omega arith)

check-Fails_example :
    (s' : Service ℕ) × (check_rate_limit down
        (at 5)
        none
        (codes "k")
        (codes "u")
        (codes "second")
        ready
      ≡ done (err (whitelist_check_failed tt), s'))
    × (s'.store ≡ 10)
    × (s'.failure_count ≡ int64 (ready.failure_count +ℤ pos 1))
    × (s'.failure_threshold ≡ ready.failure_threshold)
    × (s'.last_failure ≡ pos 5)
    × (s'.circuit_breaker ≡ leb_ℤ ready.failure_threshold s'.failure_count)
    × (s'.mutex ≡ unlocked)
unfolding new_service
check-Fails_example =
    check-Fails down (at 5) none (codes "k") (codes "u") (codes "second") ready
      (record { free = refl; shut = refl }) (at_whitelist tt 10 refl)

outage_opens_example :
    (rs : List (Result (ServiceError (Unit {0})) LimitResult)) × (s' : Service ℕ) × (check_all down
        none
        (codes "k")
        (codes "u")
        (codes "second")
        (at 1 ∷ at 2 ∷ at 3 ∷ at 4 ∷ at 5 ∷ [])
        ready
      ≡ done (rs, s'))
    × All IsErr rs
    × (s'.failure_count ≡ pos 5)
    × (s'.circuit_breaker ≡ true)
    × (s'.mutex ≡ unlocked)
unfolding new_service
outage_opens_example =
    outage_opens down none (codes "k") (codes "u") (codes "second")
      (at 1 ∷ at 2 ∷ at 3 ∷ at 4 ∷ at 5 ∷ []) 5 ready (λ now st. (tt, st, refl)) (omega arith)
      (omega arith) (omega arith) refl refl refl refl

Returns-iff_example :
    (Returns down
        (at 200)
        none
        (check_rate_limit down (at 200) none (codes "k") (codes "u") (codes "second"))
        tripped
      ↔ (is_expired (at 200).checked tripped ≡ false))
    × (Returns down
          (at 200)
          none
          (update_whitelist down (at 200) none (codes "k") (codes "u") true)
          tripped
        ↔ (is_expired (at 200).checked tripped ≡ false))
    × (Returns down
          (at 200)
          none
          (set_limit down (at 200) none (codes "k") (codes "u") (codes "second") (pos 5))
          tripped
        ↔ (is_expired (at 200).checked tripped ≡ false))
unfolding new_service
Returns-iff_example =
    Returns-iff down (at 200) none (codes "k") (codes "u") (codes "second") true (pos 5) tripped
      refl
