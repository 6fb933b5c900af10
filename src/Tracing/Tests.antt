-- ===== src/Tracing/Tests.antt =====
-- rate-limiter/internal/tracing/tracing.go: the theorem for a request that panics, and the calls for
-- one that is served.
use rate_limiter.Base.{◌≡◌, refl, true, none, some, [], ◌∷◌}
use rate_limiter.Base.Int.{pos}
use rate_limiter.Base.Text.{codes}
use rate_limiter.Config.Sample.{sample_tracing}
use rate_limiter.Tracing.{
  Span, code_error, Tracer, Steps, Incoming, new_tracer, trace_middleware, add_event,
  set_attributes, end_span, record_error,
}
use rate_limiter.Tracing.Spans.{started, ended, nexts, statuses, spans_end}

abbrev up : Steps
up = record { dial_error = none; exporter_error = none; resource_error = none }

abbrev tracer : Tracer
tracer = record { is_set = true; config = sample_tracing }

abbrev incoming : Incoming
incoming = record {
  method = codes "GET";
  full_path = codes "/x";
  url = codes "/x?a=1";
  user_agent = [];
  client_ip = codes "10.0.0.1";
}

abbrev span : Span
span = record { id = 7; recording = true }

spans_end_example :
    let calls = trace_middleware (some tracer) incoming none span none in
    (started calls ≡ span ∷ [])
    × (ended calls ≡ started calls)
    × (nexts calls ≡ 1)
    × (statuses calls ≡ [])
unfolding new_tracer
spans_end_example = spans_end sample_tracing up tracer incoming none span none refl

marked :
    statuses (
      trace_middleware
        (some tracer)
        incoming
        none
        span
        (some (record { status = 404; size = pos 9 })))
    ≡ (span, code_error) ∷ []
unfolding statuses trace_middleware
marked = refl

-- Without a span in the context the methods on the current span ask for nothing.
no_span :
    (add_event none (codes "e") [] ≡ [])
    × (set_attributes none [] ≡ [])
    × (end_span none ≡ [])
    × (record_error none (some (codes "e")) ≡ [])
unfolding add_event set_attributes end_span record_error
no_span = (refl, refl, refl, refl)
