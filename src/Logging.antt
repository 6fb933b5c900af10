-- ===== src/Logging.antt =====
-- rate-limiter/internal/logging/logger.go: the logger over log/slog and the two middlewares. The
-- clock and the identifiers that package uuid makes are arguments.
pub mod Data
pub mod Levels
pub mod Requests
mod Tests
pub use Data.*
use rate_limiter.Base.{
  ℕ, ◌≤◌, Bool, true, false, Option, none, some, List, [], ◌∷◌, ◌++◌, leb, if◌then◌else◌,
}
use rate_limiter.Base.Int.{ℤ, pos, leb_ℤ}
use rate_limiter.Base.Sync.{Time, Duration, since}
use rate_limiter.Base.Text.{Text, codes, text_eq}
use rate_limiter.Config.Data.{LoggingConfig}
use rate_limiter.Gin.{Request, GinCall, header, set, next}
use rate_limiter.Storage.Redis.{quot}

unfoldable pub level_of : Text → Level
level_of name =
    if text_eq name (codes "debug")
    then level_debug
    else if text_eq name (codes "info")
    then level_info
    else if text_eq name (codes "warn")
    then level_warn
    else if text_eq name (codes "error")
    then level_error
    else level_info

unfoldable pub output_of : Text → Output
output_of name =
    if text_eq name (codes "stdout")
    then stdout
    else if text_eq name (codes "stderr")
    then stderr
    else stdout

unfoldable pub format_of : Text → Format
format_of name =
    if text_eq name (codes "json")
    then json_format
    else if text_eq name (codes "text")
    then text_format
    else json_format

unfoldable pub new_logger : LoggingConfig → Logger
unfolding level_of output_of format_of
new_logger cfg = record {
  handler = record {
    format = format_of cfg.format;
    output = output_of cfg.output;
    level = level_of cfg.level;
    add_source = cfg.enable_caller;
  };
  attrs = [];
  level = level_of cfg.level;
}

unfoldable pub with_field : Text → AttrValue → Logger → Logger
with_field k v l = record l { attrs = l.attrs ++ (k, v) ∷ [] }

-- The loop over the map, whose order Go leaves open.
unfoldable pub with_fields : List Attr → Logger → Logger
unfolding with_field
with_fields [] l = l
with_fields ((k, v) ∷ fields) l = with_fields fields (with_field k v l)

-- Adds the value if it is a string that is not empty.
unfoldable pub with_present : Text → Option CtxValue → Logger → Logger
unfolding with_field
with_present k none l = l
with_present k (some other_value) l = l
with_present k (some (string_value v)) l = if text_eq v [] then l else with_field k (attr_text v) l

unfoldable pub with_context_values : Values → Logger → Logger
unfolding with_present
with_context_values ctx l = with_present (codes "user_id") (ctx user_id_key) (
    with_present (codes "request_id") (ctx request_id_key)
      (with_present (codes "correlation_id") (ctx correlation_id_key) l))

unfoldable pub debug_enabled : Logger → Bool
debug_enabled l = leb_ℤ l.level level_debug

unfoldable pub info_enabled : Logger → Bool
info_enabled l = leb_ℤ l.level level_info

unfoldable pub warn_enabled : Logger → Bool
warn_enabled l = leb_ℤ l.level level_warn

unfoldable pub error_enabled : Logger → Bool
error_enabled l = leb_ℤ l.level level_error

-- slog's `Error`, `Warn`, `Info` and `Debug`: a line where the handler takes the level.
unfoldable pub log_at : Level → Text → Logger → List Line
log_at severity message l =
    if leb_ℤ l.handler.level severity
    then record { severity = severity; message = message; attrs = l.attrs } ∷ []
    else []

-- The identifier in the request's header, and a new one where there is none.
abbrev pub correlation_of : Text → Text → Text
correlation_of given fresh = if text_eq given [] then fresh else given

abbrev pub announce : Text → Text → List LogCall
announce given fresh =
    if text_eq given [] then ask (header (codes "X-Correlation-ID") fresh) ∷ [] else []

unfoldable pub correlation_id_middleware : Text → Values → Request → List LogCall
correlation_id_middleware fresh ctx r =
    let given = r.get_header (codes "X-Correlation-ID") in
    let id = correlation_of given fresh in
    announce given fresh
    ++ with_context (with_value correlation_id_key (string_value id) ctx)
      ∷ ask (set (codes "correlation_id") id)
      ∷ ask next
      ∷ []

-- What gin knows after the rest of the chain has served the request.
pub record Served : Type 0 where
  pub context : Values
  pub url_path : Text
  pub raw_query : Text
  pub status : ℕ
  pub method : Text
  pub client_ip : Text
  pub user_agent : Text
  pub size : ℤ

abbrev pub logged_path : Served → Text
logged_path s = if text_eq s.raw_query [] then s.url_path else s.url_path ++ 63 ∷ s.raw_query

-- The map of the fields, as a list of its entries.
abbrev pub request_fields : Duration → Served → List Attr
request_fields d s =
    (codes "status", attr_int (pos s.status))
    ∷ (codes "method", attr_text s.method)
    ∷ (codes "path", attr_text (logged_path s))
    ∷ (codes "ip", attr_text s.client_ip)
    ∷ (codes "user_agent", attr_text s.user_agent)
    ∷ (codes "latency_ms", thousandths (quot d 1000))
    ∷ (codes "size", attr_int s.size)
    ∷ []

-- By the status of the response.
unfoldable pub log_by : ℕ → Logger → List Line
unfolding log_at
log_by status l =
    if leb 500 status
    then log_at level_error (codes "Server error") l
    else if leb 400 status
    then log_at level_warn (codes "Client error") l
    else log_at level_info (codes "Request completed") l

-- `ranged` is the order in which Go ranges over the map.
unfoldable pub log_served : (List Attr → List Attr) → Duration → Served → Logger → List Line
unfolding with_fields log_by
log_served ranged d s l = log_by s.status (with_fields (ranged (request_fields d s)) l)

unfoldable pub writes : List Line → List LogCall
writes [] = []
writes (x ∷ xs) = write x ∷ writes xs

-- What is new in a request: the identifiers, the two readings of the clock, and the
-- order in which Go ranges over the map of the fields.
pub record Fresh : Type 0 where
  pub correlation_id : Text
  pub request_id : Text
  pub start : Time
  pub finish : Time
  pub ranged : List Attr → List Attr

-- After `Next`; a panic in it is `none` and leaves this function.
unfoldable pub after_next : Logger → Fresh → Option Served → List LogCall
unfolding log_served with_context_values writes
after_next l f none = []
after_next l f (some s) =
    writes (log_served f.ranged (since f.finish f.start) s (with_context_values s.context l))

-- A value of gin's keys is put into the context as it is.
unfoldable pub with_user : Option CtxValue → Values → Values
with_user none ctx = ctx
with_user (some v) ctx = with_value user_id_key v ctx

abbrev pub user_calls : Option CtxValue → Values → List LogCall
user_calls none ctx = []
user_calls (some v) ctx = with_context (with_value user_id_key v ctx) ∷ []

-- The context that the rest of the chain sees.
unfoldable pub request_context : Fresh → Values → Option CtxValue → Request → Values
unfolding with_user
request_context f ctx user r =
    let id = correlation_of (r.get_header (codes "X-Correlation-ID")) f.correlation_id in
    with_user user (
      with_value request_id_key (string_value f.request_id)
        (with_value correlation_id_key (string_value id) ctx))

-- `chain` is the rest of the chain, from the context that it is given.
unfoldable pub logging_middleware :
    Logger → Fresh → Values → Option CtxValue → Request → (Values → Option Served) → List LogCall
unfolding request_context after_next
logging_middleware l f ctx user r chain =
    let given = r.get_header (codes "X-Correlation-ID") in
    let id = correlation_of given f.correlation_id in
    let ctx₁ = with_value correlation_id_key (string_value id) ctx in
    let ctx₂ = with_value request_id_key (string_value f.request_id) ctx₁ in
    announce given f.correlation_id
    ++ (with_context ctx₁
        ∷ ask (set (codes "correlation_id") id)
        ∷ with_context ctx₂
        ∷ ask (set (codes "request_id") f.request_id)
        ∷ user_calls user ctx₂)
    ++ ask next ∷ after_next l f (chain (request_context f ctx user r))
