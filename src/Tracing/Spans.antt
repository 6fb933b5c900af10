-- ===== src/Tracing/Spans.antt =====
-- rate-limiter/internal/tracing/tracing.go: the tracers that NewTracer makes, and the spans that the
-- middleware starts and ends with them.
use rate_limiter.Base.{
  ℕ, ◌+◌, ◌≡◌, ap, true, Option, none, some, List, [], ◌∷◌, leb, arith, if◌then◌else◌,
}
use rate_limiter.Base.Exec.{ok}
use rate_limiter.Config.Data.{TracingConfig}
use rate_limiter.Tracing.{
  Span, SpanContext, StatusCode, code_error, code_ok, TraceCall, start, end_of, set_status, next,
  Tracer, Steps, new_tracer, Incoming, Response, start_span, after_next, trace_request,
  trace_middleware,
}

unfoldable pub started : List TraceCall → List Span
started [] = []
started (start ctx name attrs span ∷ cs) = span ∷ started cs
started (c ∷ cs) = started cs

unfoldable pub ended : List TraceCall → List Span
ended [] = []
ended (end_of span ∷ cs) = span ∷ ended cs
ended (c ∷ cs) = ended cs

-- The statuses that are set, each with its span.
unfoldable pub statuses : List TraceCall → List (Span × StatusCode)
statuses [] = []
statuses (set_status span code message ∷ cs) = (span, code) ∷ statuses cs
statuses (c ∷ cs) = statuses cs

unfoldable pub nexts : List TraceCall → ℕ
nexts [] = 0
nexts (next ∷ cs) = 1 + nexts cs
nexts (c ∷ cs) = nexts cs

abbrev pub status_of : Response → StatusCode
status_of s = if leb 400 s.status then code_error else code_ok

abbrev pub marks : Span → Option Response → List (Span × StatusCode)
marks span none = []
marks span (some s) = (span, status_of s) ∷ []

abbrev pub HasShape : Tracer → TracingConfig → Type 0
HasShape t cfg = (t.config ≡ cfg) × (t.is_set ≡ cfg.enabled)

new_tracer-HasShape :
    (cfg : TracingConfig) (s : Steps) (t : Tracer) → (new_tracer cfg s).1 ≡ ok t → HasShape t cfg
unfolding new_tracer
new_tracer-HasShape cfg s t h = ground arith

trace_request_lem :
    (t : Tracer) (r : Incoming) (extracted : SpanContext) (fresh : Span) (served : Option Response)
    → t.is_set ≡ true
    → t.config.enabled ≡ true
    → let calls = trace_request t r extracted fresh served in
      (started calls ≡ fresh ∷ [])
      × (ended calls ≡ fresh ∷ [])
      × (nexts calls ≡ 1)
      × (statuses calls ≡ marks fresh served)
unfolding trace_request start_span after_next started ended nexts statuses
trace_request_lem t r extracted fresh none set on = ground arith
trace_request_lem t r extracted fresh (some s) set on = ground arith

-- With a tracer that NewTracer returned, the middleware passes each request on once. If tracing is
-- enabled it starts one span and ends that span once, and nothing else, also where a later handler
-- panics; and it marks the span of a request that is served as an error exactly from status 400
-- on, and as fine below. If tracing is disabled it starts, marks and ends nothing.
pub spans_end :
    (cfg : TracingConfig) (s : Steps) (t : Tracer) (r : Incoming) (extracted : SpanContext)
    (fresh : Span) (served : Option Response)
    → (new_tracer cfg s).1 ≡ ok t
    → let calls = trace_middleware (some t) r extracted fresh served in
      (started calls ≡ (if cfg.enabled then fresh ∷ [] else []))
      × (ended calls ≡ started calls)
      × (nexts calls ≡ 1)
      × (statuses calls ≡ (if cfg.enabled then marks fresh served else []))
unfolding trace_middleware started ended nexts statuses
spans_end cfg s t r extracted fresh served made =
    let (same, set) = new_tracer-HasShape cfg s t made in
    let on : t.config.enabled ≡ cfg.enabled = ap (λ (c : TracingConfig). c.enabled) same in
    ground (arith, set, on, trace_request_lem t r extracted fresh served)
