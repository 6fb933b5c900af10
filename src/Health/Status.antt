-- ===== src/Health/Status.antt =====
-- rate-limiter/internal/health/health.go: the status of the whole and the readiness, whatever the order
-- of the checkers.
use rate_limiter.Base.{
  ◌≡◌, ◌≢◌, refl, ◌∙◌, ◌↔◌, Bool, true, false, not, ◌||◌, [], ◌∷◌, arith, if◌then◌else◌,
}
use rate_limiter.Base.Dict.{Dict, insert}
use rate_limiter.Base.Exec.{Result, ok, err}
use rate_limiter.Base.Sync.{Time, Context}
use rate_limiter.Base.Text.{Text, codes, text_eq, text_eq_iff, text_eq_refl, ne_of_text_eq}
use rate_limiter.Health.{
  HealthChecker, ServiceChecker, ServiceHealth, RedisAnswers, RuntimeStats, check, combine,
  check_services, check_redis_health, redis_health, all_ready, readiness, healthy, degraded,
  unhealthy,
}

-- Some checker reports a status with the property.
abbrev pub reports : (Text → Bool) → Context → Dict ServiceChecker → Bool
reports p ctx [] = false
reports p ctx ((n, c) ∷ cs) = p (c ctx).status || reports p ctx cs

abbrev pub is_unhealthy : Text → Bool
is_unhealthy s = text_eq s unhealthy

abbrev pub is_not_healthy : Text → Bool
is_not_healthy s = not (text_eq s healthy)

abbrev pub redis_down : Result Text (Unit {0}) → Bool
redis_down (ok _) = false
redis_down (err e) = true

-- The status that the reports call for: it does not depend on their order.
abbrev pub overall : Bool → Context → Dict ServiceChecker → Text
overall down ctx cs =
    if reports is_unhealthy ctx cs
    then unhealthy
    else if down || reports is_not_healthy ctx cs
    then degraded
    else healthy

degraded-unhealthy : text_eq degraded unhealthy ≡ false
unfolding text_eq
degraded-unhealthy = refl

unhealthy-healthy : text_eq unhealthy healthy ≡ false
unfolding text_eq
unhealthy-healthy = refl

healthy-unhealthy : text_eq healthy unhealthy ≡ false
unfolding text_eq
healthy-unhealthy = refl

services_from :
    (ctx : Context) (cs : Dict ServiceChecker) (start : Text) (services : Dict ServiceHealth)
    → (check_services ctx cs (start, services)).0 ≡ (
        if text_eq start unhealthy
        then unhealthy
        else if reports is_unhealthy ctx cs
        then unhealthy
        else if reports is_not_healthy ctx cs
        then degraded
        else start)
unfolding check_services combine
services_from ctx [] start services = ground (arith, text_eq_iff start unhealthy)
services_from ctx ((n, c) ∷ cs) start services =
    let s = (c ctx).status in
    services_from ctx cs (combine start s) (insert n (c ctx) services)
    ∙ ground (
      arith,
      degraded-unhealthy,
      unhealthy-healthy,
      text_eq_refl unhealthy,
      text_eq_iff start unhealthy,
      text_eq_iff s unhealthy,
    )

redis_status :
    (a : RedisAnswers) (now : Time) (h : HealthChecker)
    → (check_redis_health a now h).status ≡ (if redis_down a.ping then unhealthy else healthy)
unfolding check_redis_health redis_health
redis_status a now h = ground arith

-- The status of the whole is unhealthy when a registered service is unhealthy; if none is, it is
-- degraded when Redis does not answer or a service is not healthy; and healthy otherwise.
pub check-overall :
    (now checked : Time) (a : RedisAnswers) (r : RuntimeStats) (ctx : Context) (h : HealthChecker)
    → (check now checked a r ctx h).0.status ≡ overall (redis_down a.ping) ctx h.service_checkers
unfolding check
check-overall now checked a r ctx h =
    let redis = check_redis_health a checked h in
    let start = if not (text_eq redis.status healthy) then degraded else healthy in
    services_from ctx h.service_checkers start ((codes "redis", redis) ∷ [])
    ∙ ground (
      arith,
      redis_status a checked h,
      degraded-unhealthy,
      unhealthy-healthy,
      healthy-unhealthy,
      text_eq_refl healthy,
    )

not_ready :
    (ctx : Context) (cs : Dict ServiceChecker)
    → all_ready ctx cs ≡ not (reports is_unhealthy ctx cs)
unfolding all_ready
not_ready ctx [] = refl
not_ready ctx ((n, c) ∷ cs) = ground (arith, not_ready ctx cs)

ready_overall :
    (p : Result Text (Unit {0})) (ctx : Context) (h : HealthChecker)
    → (readiness p ctx h ≡ true)
      ↔ ((redis_down p ≡ false) × (overall (redis_down p) ctx h.service_checkers ≢ unhealthy))
unfolding readiness
ready_overall (err e) ctx h = ground arith
ready_overall (ok u) ctx h = ground (
  arith,
  not_ready ctx h.service_checkers,
  ne_of_text_eq degraded unhealthy degraded-unhealthy,
  ne_of_text_eq healthy unhealthy healthy-unhealthy,
)

-- The system is ready exactly when Redis answers and the status of the whole, on the same reports, is
-- not unhealthy: a degraded system is ready as long as Redis answers.
pub readiness_iff :
    (now checked : Time) (a : RedisAnswers) (r : RuntimeStats) (ctx : Context) (h : HealthChecker)
    → (readiness a.ping ctx h ≡ true)
      ↔ ((redis_down a.ping ≡ false) × ((check now checked a r ctx h).0.status ≢ unhealthy))
readiness_iff now checked a r ctx h =
    rw (check-overall now checked a r ctx h) (ready_overall a.ping ctx h)
