-- ===== src/CircuitBreaker/Data.antt =====
-- rate-limiter/internal/circuitbreaker/circuitbreaker.go: the states, the counts and the settings,
-- and a new breaker.
use rate_limiter.Base.{ℕ, Bool, true, false, Option, none, some, List, [], ◌∷◌, ltb}
use rate_limiter.Base.Int.{pos}
use rate_limiter.Base.Sync.{Time, Duration, zero_time}
use rate_limiter.Base.Text.{Text, codes}
use rate_limiter.Metrics.{Metrics, Call, record_circuit_breaker_state}

pub data State : Type 0 where
  closed open_state half_open : State

abbrev pub state_string : State → Text
state_string closed = codes "closed"
state_string open_state = codes "open"
state_string half_open = codes "half-open"

abbrev pub is_state : State → State → Bool
is_state closed closed = true
is_state open_state open_state = true
is_state half_open half_open = true
is_state _ _ = false

pub record Counts : Type 0 where
  pub requests : ℕ
  pub total_successes : ℕ
  pub total_failures : ℕ
  pub consecutive_successes : ℕ
  pub consecutive_failures : ℕ

abbrev pub no_counts : Counts
no_counts = record {
  requests = 0;
  total_successes = 0;
  total_failures = 0;
  consecutive_successes = 0;
  consecutive_failures = 0;
}

-- What a method does outside the breaker: a call of a metrics instrument, or of the callback
-- `onStateChange`.
pub data Effect : Type 0 where
  metric : Call → Effect
  state_change : Text → State → State → Effect

abbrev pub metrics_effects : List Call → List Effect
metrics_effects [] = []
metrics_effects (c ∷ cs) = metric c ∷ metrics_effects cs

-- A nil `readyToTrip` is `none`.
pub record Settings : Type 0 where
  pub name : Text
  pub max_requests : ℕ  -- uint32
  pub interval : Duration
  pub timeout : Duration
  pub ready_to_trip : Option (Counts → Bool)

abbrev pub default_ready_to_trip : Counts → Bool
default_ready_to_trip c = ltb 5 c.consecutive_failures

abbrev pub default_settings : Settings
default_settings = record {
  name = codes "default";
  max_requests = 1;
  interval = pos 0;
  timeout = pos 60000000000;
  ready_to_trip = some default_ready_to_trip;
}

pub record CircuitBreaker : Type 0 where
  pub name : Text
  pub max_requests : ℕ
  pub interval : Duration
  pub timeout : Duration
  pub ready_to_trip : Counts → Bool
  pub metrics : Metrics
  pub state : State
  pub generation : ℕ
  pub counts : Counts
  pub expiry : Time
  pub last_state_change : Time
  pub trace : List Effect

abbrev trip_rule : Option (Counts → Bool) → Counts → Bool
trip_rule none = default_ready_to_trip
trip_rule (some f) = f

unfoldable pub new_circuit_breaker : Settings → Metrics → Time → CircuitBreaker
unfolding record_circuit_breaker_state
new_circuit_breaker settings m now = record {
  name = settings.name;
  max_requests = settings.max_requests;
  interval = settings.interval;
  timeout = settings.timeout;
  ready_to_trip = trip_rule settings.ready_to_trip;
  metrics = m;
  state = closed;
  generation = 0;
  counts = no_counts;
  expiry = zero_time;
  last_state_change = now;
  trace = metrics_effects (record_circuit_breaker_state m settings.name false);
}

pub data Refusal : Type 0 where
  breaker_open too_many_requests : Refusal

-- The generation comes back with an error too.
pub data Ticket : Type 0 where
  admitted : ℕ → Ticket
  refused : ℕ → Refusal → Ticket
