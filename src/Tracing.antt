-- ===== src/Tracing.antt =====
-- rate-limiter/internal/tracing/tracing.go: the tracer over OpenTelemetry. The library's calls are
-- lists, in order; what it answers is an argument.
pub mod Spans
mod Tests
use rate_limiter.Base.{
  ℕ, ◌≤◌, Bool, true, false, ◌||◌, not, Option, none, some, List, [], ◌∷◌, ◌++◌, leb, if◌then◌else◌,
}
use rate_limiter.Base.Exec.{Result, ok, err}
use rate_limiter.Base.Http.{status_text}
use rate_limiter.Base.Int.{ℤ, pos}
use rate_limiter.Base.Text.{Text, codes}
use rate_limiter.Config.Data.{Ratio, TracingConfig}

-- A span, as the library knows it, and whether it is recorded.
pub record Span : Type 0 where
  pub id : ℕ
  pub recording : Bool

-- The span in a context, if there is one.
abbrev pub SpanContext : Type 0
SpanContext = Option Span

pub data StatusCode : Type 0 where
  code_error code_ok : StatusCode

-- The value of an attribute of a span.
pub data SpanAttr : Type 0 where
  http_method http_url http_user_agent http_client_ip : Text → SpanAttr
  http_status_code : ℕ → SpanAttr
  response_size : ℤ → SpanAttr
  other_attr : Text → Text → SpanAttr

-- The calls of OpenTelemetry, of the span in hand, of the request and of gin.
pub data TraceCall : Type 0 where
  dial : Text → TraceCall
  new_exporter set_tracer_provider set_propagator : TraceCall
  new_resource : Text → Text → Text → TraceCall
  new_tracer_provider : Ratio → TraceCall
  get_tracer : Text → TraceCall
  extract_context : TraceCall
  start : SpanContext → Text → List SpanAttr → Span → TraceCall
  add_event_to : Span → Text → List SpanAttr → TraceCall
  set_attributes_of : Span → List SpanAttr → TraceCall
  record_error_on : Span → Text → TraceCall
  set_status : Span → StatusCode → Text → TraceCall
  end_of : Span → TraceCall
  with_context : SpanContext → TraceCall
  shutdown_provider next : TraceCall

-- Whether the field `tracer` is set, and the configuration.
pub record Tracer : Type 0 where
  pub is_set : Bool
  pub config : TracingConfig

-- The errors of the steps of NewTracer; none where the step succeeds.
pub record Steps : Type 0 where
  pub dial_error : Option Text
  pub exporter_error : Option Text
  pub resource_error : Option Text

pub data TracingError : Type 0 where
  connection_failed exporter_failed resource_failed : Text → TracingError

unfoldable pub after_resource :
    TracingConfig → Option Text → List TraceCall × Result TracingError Tracer
after_resource cfg (some e) = ([], err (resource_failed e))
after_resource cfg none = (
  new_tracer_provider cfg.sampling_rate
      ∷ set_tracer_provider
      ∷ set_propagator
      ∷ get_tracer (codes "github.com/distributed/ratelimiter")
      ∷ [],
  ok (record { is_set = true; config = cfg }),
)

unfoldable pub after_exporter :
    TracingConfig → Steps → Option Text → List TraceCall × Result TracingError Tracer
unfolding after_resource
after_exporter cfg s (some e) = ([], err (exporter_failed e))
after_exporter cfg s none =
    let (calls, result) = after_resource cfg s.resource_error in
    (new_resource cfg.service_name (codes "v1.0.0") (codes "production") ∷ calls, result)

unfoldable pub after_dial :
    TracingConfig → Steps → Option Text → List TraceCall × Result TracingError Tracer
unfolding after_exporter
after_dial cfg s (some e) = ([], err (connection_failed e))
after_dial cfg s none =
    let (calls, result) = after_exporter cfg s s.exporter_error in (new_exporter ∷ calls, result)

unfoldable pub new_tracer : TracingConfig → Steps → List TraceCall × Result TracingError Tracer
unfolding after_dial
new_tracer cfg s =
    if cfg.enabled
    then (let (calls, result) = after_dial cfg s s.dial_error in
        (dial cfg.endpoint ∷ calls, result))
    else ([], ok (record { is_set = false; config = cfg }))

-- `trace.SpanFromContext`: a span that does nothing where the context has none.
abbrev pub span_from_context : SpanContext → Span
span_from_context none = record { id = 0; recording = false }
span_from_context (some s) = s

-- `fresh` is the span that the library starts.
unfoldable pub start_span :
    Tracer → SpanContext → Text → List SpanAttr → Span → List TraceCall × SpanContext × Span
start_span t ctx name attrs fresh =
    if not t.is_set || not t.config.enabled
    then ([], ctx, span_from_context ctx)
    else (start ctx name attrs fresh ∷ [], some fresh, fresh)

unfoldable pub add_event : SpanContext → Text → List SpanAttr → List TraceCall
add_event ctx name attrs =
    let span = span_from_context ctx in
    if not span.recording then [] else add_event_to span name attrs ∷ []

unfoldable pub set_attributes : SpanContext → List SpanAttr → List TraceCall
set_attributes ctx attrs =
    let span = span_from_context ctx in
    if not span.recording then [] else set_attributes_of span attrs ∷ []

unfoldable pub end_span : SpanContext → List TraceCall
end_span ctx =
    let span = span_from_context ctx in if not span.recording then [] else end_of span ∷ []

-- A nil error is `none`.
unfoldable pub record_error : SpanContext → Option Text → List TraceCall
record_error ctx none = []
record_error ctx (some e) =
    let span = span_from_context ctx in
    if not span.recording then [] else record_error_on span e ∷ []

-- What gin knows of a request before it is served, and after.
pub record Incoming : Type 0 where
  pub method : Text
  pub full_path : Text
  pub url : Text
  pub user_agent : Text
  pub client_ip : Text

pub record Response : Type 0 where
  pub status : ℕ
  pub size : ℤ

-- After `Next`; a panic in it is `none`. The deferred `End` is not among these calls.
unfoldable pub after_next : Span → Option Response → List TraceCall
unfolding status_text
after_next span none = []
after_next span (some s) =
    set_attributes_of span (http_status_code s.status ∷ response_size s.size ∷ [])
    ∷ (if leb 400 s.status
        then set_status span code_error (status_text s.status)
        else set_status span code_ok [])
    ∷ []

-- `extracted` is the context after the headers are read.
unfoldable pub trace_request :
    Tracer → Incoming → SpanContext → Span → Option Response → List TraceCall
unfolding start_span after_next
trace_request t r extracted fresh served =
    let name = r.method ++ 32 ∷ r.full_path in
    let attrs : List SpanAttr =
      http_method r.method
      ∷ http_url r.url
      ∷ http_user_agent r.user_agent
      ∷ http_client_ip r.client_ip
      ∷ [] in
    let (calls, ctx, span) = start_span t extracted name attrs fresh in
    extract_context ∷ calls ++ with_context ctx ∷ next ∷ after_next span served ++ end_of span ∷ []

-- A nil tracer is `none`.
unfoldable pub trace_middleware :
    Option Tracer → Incoming → SpanContext → Span → Option Response → List TraceCall
unfolding trace_request
trace_middleware none r extracted fresh served = next ∷ []
trace_middleware (some t) r extracted fresh served =
    if not t.config.enabled then next ∷ [] else trace_request t r extracted fresh served

-- `is_sdk` says whether the global provider is the SDK's, and `answer` is its error.
unfoldable pub shutdown : Tracer → Bool → Option Text → List TraceCall × Option Text
shutdown t is_sdk answer =
    if not t.config.enabled
    then ([], none)
    else if is_sdk
    then (shutdown_provider ∷ [], answer)
    else ([], none)
