-- ===== src/Metrics/Registration.antt =====
-- rate-limiter/internal/metrics/metrics.go: when NewMetrics makes a collector and when it panics.
use rate_limiter.Base.{
  ◌≡◌, refl, ap, ◌∙◌, ◌↔◌, Bool, Bool-cases, ◌⊎◌, inl, inr, true, false, ◌||◌, List, [], ◌∷◌, ◌++◌,
  map, arith, All, if◌then◌else◌,
}
use rate_limiter.Base.Sync.{Outcome, done, fatal, already_registered}
use rate_limiter.Base.Text.{text_eq}
use rate_limiter.Config.Data.{MetricsConfig}
use rate_limiter.Metrics.Data.{
  enabled, Instrument, requests_total, requests_limited, request_duration, requests_in_flight,
  response_size, request_errors, rate_limit_checks, rate_limit_hits, rate_limit_current_value,
  rate_limit_duration, storage_operations, storage_errors, storage_duration, cache_hits,
  cache_misses, cache_size, cache_operations, cache_duration, circuit_breaker_open,
  circuit_breaker_trips, go_routines, gc_duration, memory_usage,
}
use rate_limiter.Metrics.Families.{
  Collector, named, go_collector, Registerer, family, instruments, collectors, register_all,
  new_metrics,
}

unfoldable pub same : Collector → Collector → Bool
same (named a) (named b) = text_eq a b
same go_collector go_collector = true
same _ _ = false

-- What is documented of `MustRegister`: it panics where the registry holds the collector, and
-- otherwise adds it and nothing else.
pub record Documented (R : Registerer) (holds : R.Registry → Collector → Bool) : Type 0 where
  pub refuses :
      (c : Collector) (g : R.Registry)
      → holds g c ≡ true
      → R.must_register c g ≡ fatal already_registered
  pub accepts :
      (c : Collector) (g : R.Registry)
      → holds g c ≡ false
      → (g' : R.Registry) × (R.must_register c g ≡ done g')
        × ((d : Collector) → holds g' d ≡ same c d || holds g d)

abbrev none_held : (Collector → Bool) → List Collector → Bool
none_held held [] = true
none_held held (c ∷ cs) = if held c then false else none_held held cs

unfoldable pub unlike : Collector → List Collector → Bool
unfolding same
unlike c [] = true
unlike c (d ∷ ds) = if same c d then false else unlike c ds

abbrev pub distinct : List Collector → Bool
distinct [] = true
distinct (c ∷ cs) = if unlike c cs then distinct cs else false

none_held-unlike :
    (c : Collector) (held held' : Collector → Bool) (cs : List Collector)
    → ((d : Collector) → held' d ≡ same c d || held d)
    → unlike c cs ≡ true
    → none_held held' cs ≡ none_held held cs
unfolding unlike
none_held-unlike c held held' [] h u = refl
none_held-unlike c held held' (d ∷ ds) h u = ground (arith, h d, none_held-unlike c held held' ds h)

module _ (R : Registerer) where
  step_ok :
      (c : Collector) (cs : List Collector) (g g' : R.Registry)
      → R.must_register c g ≡ done g'
      → register_all R (c ∷ cs) g ≡ register_all R cs g'
  unfolding register_all
  step_ok c cs g g' e = rw (e, register_all) refl

  step_held :
      (c : Collector) (cs : List Collector) (g : R.Registry)
      → R.must_register c g ≡ fatal already_registered
      → register_all R (c ∷ cs) g ≡ fatal already_registered
  unfolding register_all
  step_held c cs g e = rw (e, register_all) refl

module _ (R : Registerer) (holds : R.Registry → Collector → Bool) (law : Documented R holds) where
  register_all_ok :
      (cs : List Collector) (g : R.Registry)
      → distinct cs ≡ true
      → none_held (holds g) cs ≡ true
      → (g' : R.Registry) × (register_all R cs g ≡ done g')
  unfolding register_all
  register_all_ok [] g u h = (g, refl)
  register_all_ok (c ∷ cs) g u h =
      let (g₁, e, held) = law.accepts c g (ground arith) in
      let (g', e') =
        register_all_ok cs g₁ (ground arith)
          (none_held-unlike c (holds g) (holds g₁) cs held (ground arith) ∙ ground arith) in
      (g', step_ok R c cs g g₁ e ∙ e')

  register_all_held :
      (cs : List Collector) (g : R.Registry)
      → distinct cs ≡ true
      → none_held (holds g) cs ≡ false
      → register_all R cs g ≡ fatal already_registered
  register_all_held [] g u h = cc
  register_all_held (c ∷ cs) g u h = elim (Bool-cases (holds g c)) [
    | inl old ↦ step_held R c cs g (law.refuses c g old)
    | inr new ↦
        let (g₁, e, held) = law.accepts c g new in
        step_ok R c cs g g₁ e
        ∙ register_all_held cs g₁ (ground arith)
            (none_held-unlike c (holds g) (holds g₁) cs held (ground arith) ∙ ground arith)
  ]

collectors-distinct : (cfg : MetricsConfig) → distinct (collectors cfg) ≡ true
unfolding unlike family instruments text_eq
collectors-distinct cfg = ground arith

pick : (P : Instrument → Type 0) (i : Instrument) → All P instruments → P i
unfolding instruments
pick P requests_total h = h.0
pick P requests_limited h = h.1.0
pick P request_duration h = h.1.1.0
pick P requests_in_flight h = h.1.1.1.0
pick P response_size h = h.1.1.1.1.0
pick P request_errors h = h.1.1.1.1.1.0
pick P rate_limit_checks h = h.1.1.1.1.1.1.0
pick P rate_limit_hits h = h.1.1.1.1.1.1.1.0
pick P rate_limit_current_value h = h.1.1.1.1.1.1.1.1.0
pick P rate_limit_duration h = h.1.1.1.1.1.1.1.1.1.0
pick P storage_operations h = h.1.1.1.1.1.1.1.1.1.1.0
pick P storage_errors h = h.1.1.1.1.1.1.1.1.1.1.1.0
pick P storage_duration h = h.1.1.1.1.1.1.1.1.1.1.1.1.0
pick P cache_hits h = h.1.1.1.1.1.1.1.1.1.1.1.1.1.0
pick P cache_misses h = h.1.1.1.1.1.1.1.1.1.1.1.1.1.1.0
pick P cache_size h = h.1.1.1.1.1.1.1.1.1.1.1.1.1.1.1.0
pick P cache_operations h = h.1.1.1.1.1.1.1.1.1.1.1.1.1.1.1.1.0
pick P cache_duration h = h.1.1.1.1.1.1.1.1.1.1.1.1.1.1.1.1.1.0
pick P circuit_breaker_open h = h.1.1.1.1.1.1.1.1.1.1.1.1.1.1.1.1.1.1.0
pick P circuit_breaker_trips h = h.1.1.1.1.1.1.1.1.1.1.1.1.1.1.1.1.1.1.1.0
pick P go_routines h = h.1.1.1.1.1.1.1.1.1.1.1.1.1.1.1.1.1.1.1.1.0
pick P gc_duration h = h.1.1.1.1.1.1.1.1.1.1.1.1.1.1.1.1.1.1.1.1.1.0
pick P memory_usage h = h.1.1.1.1.1.1.1.1.1.1.1.1.1.1.1.1.1.1.1.1.1.1.0

none_held-All :
    (held : Collector → Bool) (is : List Instrument) (rest : List Collector)
    → none_held held (map (λ i. named (family i).name) is ++ rest) ≡ true
    → All (λ i. held (named (family i).name) ≡ false) is × (none_held held rest ≡ true)
none_held-All held [] rest h = (tt, h)
none_held-All held (i ∷ is) rest h =
    let (free, left) = none_held-All held is rest (ground arith) in ((ground arith, free), left)

some_held :
    (held : Collector → Bool) (is : List Instrument) (rest : List Collector)
    → none_held held (map (λ i. named (family i).name) is ++ rest) ≡ false
    → ((i : Instrument) × (held (named (family i).name) ≡ true)) ⊎ (none_held held rest ≡ false)
some_held held [] rest h = inr h
some_held held (i ∷ is) rest h = elim (Bool-cases (held (named (family i).name))) [
  | inl old ↦ inl (i, old)
  | inr new ↦ some_held held is rest (ground arith)
]

-- Something that NewMetrics wants to register is there already.
abbrev pub Clash : (Collector → Bool) → MetricsConfig → Type 0
Clash held cfg =
    ((i : Instrument) × (held (named (family i).name) ≡ true))
    ⊎ ((cfg.enable_go_stats ≡ true) × (held go_collector ≡ true))

abbrev go_part : MetricsConfig → List Collector
go_part cfg = if cfg.enable_go_stats then go_collector ∷ [] else []

Clash-iff :
    (held : Collector → Bool) (cfg : MetricsConfig)
    → Clash held cfg ↔ (none_held held (collectors cfg) ≡ false)
Clash-iff held cfg = (
  λ c. elim (Bool-cases (none_held held (collectors cfg))) [
    | inl free ↦
        let (all, left) = none_held-All held instruments (go_part cfg) free in
        elim c [
          | inl (i, h) ↦ let e = pick (λ j. held (named (family j).name) ≡ false) i all in cc
          | inr (on, h) ↦ ground arith
        ]
    | inr h ↦ h
  ],
  λ h. elim (some_held held instruments (go_part cfg) h) [
    | inl found ↦ inl found
    | inr left ↦ inr (ground arith)
  ],
)

new_metrics-register_all :
    (R : Registerer) (cfg : MetricsConfig) (g : R.Registry) (o : Outcome R.Registry)
    → cfg.enabled ≡ true
    → register_all R (collectors cfg) g ≡ o
    → new_metrics R cfg g ≡ elim o [ done g' ↦ done (enabled, g') | fatal e ↦ fatal e ]
unfolding new_metrics
new_metrics-register_all R cfg g o on e =
    rw on (
      ap (λ (x : Outcome R.Registry). elim x [ done g' ↦ done (enabled, g') | fatal f ↦ fatal f ])
        e)

-- NewMetrics with metrics enabled, over a registerer as documented: it panics where one of the
-- names of its instruments is registered already, or where Go statistics are enabled and the
-- registry holds the collector of these; in every other case it returns the enabled metrics.
pub new_metrics_cases :
    (R : Registerer) (holds : R.Registry → Collector → Bool) (cfg : MetricsConfig) (g : R.Registry)
    → Documented R holds
    → cfg.enabled ≡ true
    → (Clash (holds g) cfg × (new_metrics R cfg g ≡ fatal already_registered))
      ⊎ ((¬ Clash (holds g) cfg) × ((g' : R.Registry) × (new_metrics R cfg g ≡ done (enabled, g'))))
new_metrics_cases R holds cfg g law on =
    let unique = collectors-distinct cfg in
    elim (Bool-cases (none_held (holds g) (collectors cfg))) [
      | inl free ↦
          let (g', e) = register_all_ok R holds law (collectors cfg) g unique free in
          inr (
            (λ c. (let h = (Clash-iff (holds g) cfg).0 c in cc)),
            (g', new_metrics-register_all R cfg g _ on e),
          )
      | inr clash ↦
          let e = register_all_held R holds law (collectors cfg) g unique clash in
          inl ((Clash-iff (holds g) cfg).1 clash, new_metrics-register_all R cfg g _ on e)
    ]
