-- ===== src/Metrics/Tests.antt =====
-- rate-limiter/internal/metrics/metrics.go: the theorems at concrete requests, and with a registry
-- that is a list of what it holds.
use rate_limiter.Base.{◌*◌, ◌≡◌, refl, ◌⊎◌, Bool, true, false, ◌&&◌, ◌||◌, List, [], ◌∷◌, ltb}
use rate_limiter.Base.Int.{pos}
use rate_limiter.Base.Sync.{Outcome, done, fatal, already_registered}
use rate_limiter.Base.Text.{codes, text_eq}
use rate_limiter.Config.Data.{Ratio}
use rate_limiter.Config.Sample.{sample_metrics}
use rate_limiter.Metrics.{enabled, Instrument}
use rate_limiter.Metrics.Families.{
  Collector, go_collector, Registerer, new_metrics, Kind, histogram, listed, family, instruments,
}
use rate_limiter.Metrics.Registration.{same, Documented, Clash, new_metrics_cases}
use rate_limiter.Metrics.Labels.{recorded, all_fit, http_request, recorded-all_fit}

holds_in : List Collector → Collector → Bool
holds_in [] d = false
holds_in (c ∷ cs) d = same c d || holds_in cs d

abbrev added_to : Bool → Collector → List Collector → Outcome (List Collector)
added_to true c cs = fatal already_registered
added_to false c cs = done (c ∷ cs)

abbrev list_registry : Registerer
list_registry = record {
  Registry = List Collector;
  must_register = λ c cs. added_to (holds_in cs c) c cs;
}

added_to-false :
    (b : Bool) (c : Collector) (g : List Collector)
    → b ≡ false
    → (g' : List Collector) × (added_to b c g ≡ done g')
      × ((d : Collector) → holds_in g' d ≡ same c d || holds_in g d)
unfolding holds_in
added_to-false true c g h = cc
added_to-false false c g h = (c ∷ g, refl, λ d. refl)

list_documented : Documented list_registry holds_in
list_documented = record {
  refuses = λ c g h. rw h refl;
  accepts = λ c g h. added_to-false (holds_in g c) c g h;
}

-- The default configuration, and the default registry, which holds the collector of Go statistics.
new_metrics_cases_example :
    (Clash (holds_in (go_collector ∷ [])) sample_metrics
      × (new_metrics list_registry sample_metrics (go_collector ∷ []) ≡ fatal already_registered))
    ⊎ ((¬ Clash (holds_in (go_collector ∷ [])) sample_metrics)
        × ((g' : List Collector) × (new_metrics list_registry sample_metrics (go_collector ∷ [])
              ≡ done (enabled, g'))))
new_metrics_cases_example =
    new_metrics_cases list_registry holds_in sample_metrics (go_collector ∷ []) list_documented refl

default_panics :
    new_metrics list_registry sample_metrics (go_collector ∷ []) ≡ fatal already_registered
unfolding new_metrics holds_in same text_eq
default_panics = refl

recorded-all_fit_example :
    all_fit (recorded enabled (http_request (codes "GET") (codes "/x") 599 (pos 5) (pos 20))) ≡ true
recorded-all_fit_example =
    recorded-all_fit enabled (http_request (codes "GET") (codes "/x") 599 (pos 5) (pos 20))

-- Prometheus wants the buckets of a histogram in increasing order.
abbrev rising : List Ratio → Bool
rising [] = true
rising (a ∷ []) = true
rising (a ∷ b ∷ bs) = ltb (a.over * b.under) (b.over * a.under) && rising (b ∷ bs)

abbrev rising_kind : Kind → Bool
rising_kind (histogram (listed bs)) = rising bs
rising_kind _ = true

abbrev all_rising : List Instrument → Bool
all_rising [] = true
all_rising (i ∷ is) = rising_kind (family i).kind && all_rising is

buckets_rise : all_rising instruments ≡ true
unfolding instruments family
buckets_rise = refl
