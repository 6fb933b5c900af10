-- ===== src/Metrics/Labels.antt =====
-- rate-limiter/internal/metrics/metrics.go: every call of an instrument fits the family that
-- NewMetrics registered for it, and what the middleware counts.
use rate_limiter.Base.{
  ℕ, ◌+◌, ◌≡◌, refl, Bool, true, false, ◌&&◌, ◌==◌, Option, none, some, List, [], ◌∷◌, length,
  arith, if◌then◌else◌,
}
use rate_limiter.Base.Int.{ℤ}
use rate_limiter.Base.Sync.{Time, Duration}
use rate_limiter.Base.Text.{Text}
use rate_limiter.Metrics.{
  Metrics, enabled, Call, inc, dec, gauge, observe, Instrument, requests_total, requests_limited,
  requests_in_flight, Served, record_http_request, record_rate_limit_check,
  record_storage_operation, record_cache_operation, record_cache_size, record_circuit_breaker_state,
  metrics_middleware, finished_calls,
}
use rate_limiter.Metrics.Families.{Kind, counter, gauge_value, histogram, family}

abbrev can_inc : Kind → Bool
can_inc counter = true
can_inc gauge_value = true
can_inc (histogram b) = false

abbrev can_set : Kind → Bool
can_set counter = false
can_set gauge_value = true
can_set (histogram b) = false

abbrev can_observe : Kind → Bool
can_observe counter = false
can_observe gauge_value = false
can_observe (histogram b) = true

-- The family is of a kind that has the method, and has as many labels as there are values. Where
-- the numbers differ `WithLabelValues` panics.
unfoldable pub fits : Call → Bool
fits (inc i values) = can_inc (family i).kind && length values == length (family i).labels
fits (dec i values) = can_set (family i).kind && length values == length (family i).labels
fits (gauge i values v) = can_set (family i).kind && length values == length (family i).labels
fits (observe i values v) = can_observe (family i).kind && length values == length (family i).labels

unfoldable pub all_fit : List Call → Bool
all_fit [] = true
all_fit (c ∷ cs) = fits c && all_fit cs

-- A call of one of the methods, or a request through the middleware.
pub data Recording : Type 0 where
  http_request : Text → Text → ℕ → Duration → ℤ → Recording
  rate_limit_check : Text → Text → Bool → ℤ → Duration → Recording
  storage_operation : Text → Text → Duration → Option Text → Recording
  cache_operation : Text → Text → Duration → Bool → Recording
  cache_size_now : Text → ℤ → Recording
  breaker_state : Text → Bool → Recording
  request : Time → Time → Option Served → Recording

unfoldable pub recorded : Metrics → Recording → List Call
recorded m (http_request method path status d size) =
    record_http_request m method path status d size
recorded m (rate_limit_check key window limited n d) =
    record_rate_limit_check m key window limited n d
recorded m (storage_operation operation kind d failure) =
    record_storage_operation m operation kind d failure
recorded m (cache_operation operation kind d hit) = record_cache_operation m operation kind d hit
recorded m (cache_size_now kind n) = record_cache_size m kind n
recorded m (breaker_state name opened) = record_circuit_breaker_state m name opened
recorded m (request start now served) = metrics_middleware m start now served

-- Whatever a method or the middleware is called with, each call that it makes of an instrument is
-- one that the registered family has, with as many label values as the family has labels.
pub recorded-all_fit : (m : Metrics) (r : Recording) → all_fit (recorded m r) ≡ true
unfolding recorded all_fit fits family record_http_request record_rate_limit_check
    record_storage_operation record_cache_operation record_cache_size record_circuit_breaker_state
    metrics_middleware finished_calls
recorded-all_fit m (http_request method path status d size) = ground arith
recorded-all_fit m (rate_limit_check key window limited n d) = ground arith
recorded-all_fit m (storage_operation operation kind d failure) = ground arith
recorded-all_fit m (cache_operation operation kind d hit) = ground arith
recorded-all_fit m (cache_size_now kind n) = ground arith
recorded-all_fit m (breaker_state name opened) = ground arith
recorded-all_fit m (request start now served) = ground arith

abbrev pub is_in_flight : Instrument → Bool
is_in_flight requests_in_flight = true
is_in_flight _ = false

abbrev pub is_total : Instrument → Bool
is_total requests_total = true
is_total _ = false

abbrev pub is_limited : Instrument → Bool
is_limited requests_limited = true
is_limited _ = false

-- How often the instruments that `p` picks are incremented and decremented.
unfoldable pub incs : (Instrument → Bool) → List Call → ℕ
incs p [] = 0
incs p (inc i values ∷ cs) = (if p i then 1 else 0) + incs p cs
incs p (c ∷ cs) = incs p cs

unfoldable pub decs : (Instrument → Bool) → List Call → ℕ
decs p [] = 0
decs p (dec i values ∷ cs) = (if p i then 1 else 0) + decs p cs
decs p (c ∷ cs) = decs p cs

abbrev pub if_served : Option Served → ℕ
if_served none = 0
if_served (some r) = 1

abbrev pub if_too_many : Option Served → ℕ
if_too_many none = 0
if_too_many (some r) = if r.status == 429 then 1 else 0

-- The middleware raises and lowers the gauge of requests in flight once for each request, also
-- where a later handler panics. A request that is served is counted once, and once more among the
-- limited ones exactly if its status is 429; one that panics is not counted.
pub middleware_counts :
    (start now : Time) (served : Option Served)
    → let calls = metrics_middleware enabled start now served in
      (incs is_in_flight calls ≡ 1)
      × (decs is_in_flight calls ≡ 1)
      × (incs is_total calls ≡ if_served served)
      × (incs is_limited calls ≡ if_too_many served)
unfolding metrics_middleware finished_calls record_http_request incs decs
middleware_counts start now none = (refl, refl, refl, refl)
middleware_counts start now (some r) = ground arith
