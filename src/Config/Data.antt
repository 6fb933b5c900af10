-- ===== src/Config/Data.antt =====
-- rate-limiter/internal/config/config.go: the records of the configuration, whose fields are named
-- as the keys of the file are.
use rate_limiter.Base.{ℕ, Bool, Option, List}
use rate_limiter.Base.Dict.{Dict}
use rate_limiter.Base.Exec.{Result}
use rate_limiter.Base.Int.{ℤ}
use rate_limiter.Base.Sync.{Duration}
use rate_limiter.Base.Text.{Text}

-- A float64 that the code only hands on, as the ratio that it is written as.
pub record Ratio : Type 0 where
  pub over : ℕ
  pub under : ℕ

pub record RedisConfig : Type 0 where
  pub addresses : List Text
  pub password : Text
  pub db : ℤ
  pub pool_size : ℤ
  pub min_idle_conns : ℤ
  pub max_retries : ℤ
  pub dial_timeout : Duration
  pub read_timeout : Duration
  pub write_timeout : Duration
  pub pool_timeout : Duration
  pub cluster_mode : Bool

pub record TlsConfig : Type 0 where
  pub enabled : Bool
  pub cert_file : Text
  pub key_file : Text
  pub min_version : Text
  pub max_version : Text
  pub cipher_suites : Text

pub record HttpConfig : Type 0 where
  pub address : Text
  pub read_timeout : Duration
  pub write_timeout : Duration
  pub shutdown_timeout : Duration
  pub max_header_bytes : ℤ
  pub enable_cors : Bool
  pub enable_compression : Bool
  pub tls : TlsConfig

pub record GrpcConfig : Type 0 where
  pub address : Text
  pub shutdown_timeout : Duration
  pub max_recv_msg_size : ℤ
  pub max_send_msg_size : ℤ
  pub tls : TlsConfig

pub record Limit : Type 0 where
  pub requests : ℤ
  pub window : Duration

pub record RateLimiterConfig : Type 0 where
  pub default_limits : Dict Limit
  pub whitelist : List Text
  pub circuit_breaker_threshold : ℤ
  pub circuit_breaker_timeout : Duration
  pub local_cache_enabled : Bool
  pub local_cache_size : ℤ
  pub local_cache_ttl : Duration

pub record ApiKeyConfig : Type 0 where
  pub key : Text
  pub role : Text
  pub is_active : Bool

pub record BasicAuthConfig : Type 0 where
  pub enabled : Bool
  pub username : Text
  pub password : Text

pub record AuthConfig : Type 0 where
  pub enabled : Bool
  pub api_keys : List ApiKeyConfig
  pub jwt_secret : Text
  pub jwt_expiration : Duration
  pub basic_auth : BasicAuthConfig

pub record MetricsConfig : Type 0 where
  pub enabled : Bool
  pub address : Text
  pub path : Text
  pub enable_go_stats : Bool

pub record TracingConfig : Type 0 where
  pub enabled : Bool
  pub service_name : Text
  pub endpoint : Text
  pub sampling_rate : Ratio

pub record LoggingConfig : Type 0 where
  pub level : Text
  pub format : Text
  pub output : Text
  pub time_format : Text
  pub enable_caller : Bool

pub record Config : Type 0 where
  pub redis : RedisConfig
  pub http : HttpConfig
  pub grpc : GrpcConfig
  pub limiter : RateLimiterConfig
  pub auth : AuthConfig
  pub metrics : MetricsConfig
  pub tracing : TracingConfig
  pub logging : LoggingConfig

-- The values of `SetDefault`: strings, a string, an int, a bool, a duration, a float64.
pub data Setting : Type 0 where
  texts : List Text → Setting
  text : Text → Setting
  int : ℤ → Setting
  flag : Bool → Setting
  duration : Duration → Setting
  ratio : Ratio → Setting

-- What `Load` tells viper before it reads.
pub data ViperCall : Type 0 where
  set_config_name set_config_type add_config_path set_env_prefix : Text → ViperCall
  set_default : Text → Setting → ViperCall
  set_env_key_replacer bind_env : Text → Text → ViperCall
  automatic_env : ViperCall

-- An error of viper: `ConfigFileNotFoundError`, or any other.
pub data ViperError : Type 0 where
  config_file_not_found other_error : Text → ViperError

-- viper, a library: its answers to `ReadInConfig` (none is nil) and `Unmarshal` after these calls.
pub record Viper : Type 0 where
  pub read_in_config : List ViperCall → Option ViperError
  pub unmarshal : List ViperCall → Result ViperError Config
