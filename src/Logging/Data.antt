-- ===== src/Logging/Data.antt =====
-- rate-limiter/internal/logging/logger.go: what a logger is made of, and what the middlewares ask
-- of gin, the request and log/slog.
use rate_limiter.Base.{Bool, true, false, Option, some, List, if◌then◌else◌}
use rate_limiter.Base.Int.{ℤ, pos, negsuc}
use rate_limiter.Base.Text.{Text}
use rate_limiter.Gin.{GinCall}

-- slog.LevelDebug and the others
abbrev pub Level : Type 0
Level = ℤ

abbrev pub level_debug : Level
level_debug = negsuc 3

abbrev pub level_info : Level
level_info = pos 0

abbrev pub level_warn : Level
level_warn = pos 4

abbrev pub level_error : Level
level_error = pos 8

pub data Output : Type 0 where
  stdout stderr : Output

pub data Format : Type 0 where
  json_format text_format : Format

-- A handler of slog with its options.
pub record SlogHandler : Type 0 where
  pub format : Format
  pub output : Output
  pub level : Level
  pub add_source : Bool

-- The value of an attribute; thousandths are the milliseconds of a duration, in microseconds.
pub data AttrValue : Type 0 where
  attr_text : Text → AttrValue
  attr_int thousandths : ℤ → AttrValue

abbrev pub Attr : Type 0
Attr = Text × AttrValue

-- `Logger`: the wrapped slog.Logger with its attributes, oldest first, and the level.
pub record Logger : Type 0 where
  pub handler : SlogHandler
  pub attrs : List Attr
  pub level : Level

-- What slog writes.
pub record Line : Type 0 where
  pub severity : Level
  pub message : Text
  pub attrs : List Attr

pub data ContextKey : Type 0 where
  correlation_id_key request_id_key user_id_key : ContextKey

-- A value in a context or in gin's keys: a string, or of another type.
pub data CtxValue : Type 0 where
  string_value : Text → CtxValue
  other_value : CtxValue

-- The values that a request's context carries.
abbrev pub Values : Type 0
Values = ContextKey → Option CtxValue

abbrev pub same_key : ContextKey → ContextKey → Bool
same_key correlation_id_key correlation_id_key = true
same_key request_id_key request_id_key = true
same_key user_id_key user_id_key = true
same_key _ _ = false

-- context.WithValue
abbrev pub with_value : ContextKey → CtxValue → Values → Values
with_value k v ctx j = if same_key k j then some v else ctx j

pub data LogCall : Type 0 where
  ask : GinCall → LogCall
  with_context : Values → LogCall
  write : Line → LogCall
