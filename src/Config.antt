-- ===== src/Config.antt =====
-- rate-limiter/internal/config/config.go: the configuration, loaded from viper and the environment.
-- viper is a library: what it is told is a list of calls, and what it answers is a parameter.
pub mod Data
mod Defaults
pub mod Keys
pub mod Sample
mod Tests
use rate_limiter.Base.{
  ℕ, ◌≤◌, Bool, true, false, Option, none, some, List, [], ◌∷◌, ◌++◌, if◌then◌else◌,
}
use rate_limiter.Base.Exec.{Result, ok, err}
use rate_limiter.Base.Split.{split, trim_space}
use rate_limiter.Base.Text.{Text, codes, text_eq}
pub use Data.*
use Defaults.*

unfoldable pub set_defaults : List ViperCall
unfolding redis_defaults http_defaults http_tls_defaults grpc_defaults limits_defaults
    limiter_defaults auth_defaults metrics_defaults tracing_defaults logging_defaults
set_defaults =
    redis_defaults ++ http_defaults ++ http_tls_defaults ++ grpc_defaults ++ limits_defaults
    ++ limiter_defaults ++ auth_defaults ++ metrics_defaults ++ tracing_defaults ++ logging_defaults

unfoldable pub bind_env_variables : List ViperCall
bind_env_variables =
    bind_env (codes "redis.password") (codes "RATELIMITER_REDIS_PASSWORD")
    ∷ bind_env (codes "auth.jwt_secret") (codes "RATELIMITER_JWT_SECRET")
    ∷ bind_env (codes "auth.basic_auth.username") (codes "RATELIMITER_BASIC_AUTH_USERNAME")
    ∷ bind_env (codes "auth.basic_auth.password") (codes "RATELIMITER_BASIC_AUTH_PASSWORD")
    ∷ bind_env (codes "http.address") (codes "RATELIMITER_HTTP_ADDRESS")
    ∷ bind_env (codes "grpc.address") (codes "RATELIMITER_GRPC_ADDRESS")
    ∷ bind_env (codes "redis.addresses") (codes "RATELIMITER_REDIS_ADDRESSES")
    ∷ bind_env (codes "logging.level") (codes "RATELIMITER_LOG_LEVEL")
    ∷ []

-- The calls of viper before the file is read, in order.
unfoldable pub configure : List ViperCall
unfolding set_defaults bind_env_variables
configure =
    (set_config_name (codes "config")
      ∷ set_config_type (codes "yaml")
      ∷ add_config_path (codes ".")
      ∷ add_config_path (codes "./config")
      ∷ add_config_path (codes "/etc/ratelimiter")
      ∷ set_defaults)
    ++ (set_env_prefix (codes "RATELIMITER")
        ∷ set_env_key_replacer (codes ".") (codes "_")
        ∷ automatic_env
        ∷ bind_env_variables)

-- The environment: `os.Getenv`, which is empty where a variable is missing.
abbrev pub Environment : Type 0
Environment = Text → Text

-- The value of a variable if it is not empty, and the old value otherwise.
abbrev pub or_old : Text → Text → Text
or_old value old = if text_eq value [] then old else value

-- `parts` is one entry split at its colons; an entry of one part is passed over.
unfoldable pub key_of : List Text → List ApiKeyConfig
key_of [] = []
key_of (part ∷ []) = []
key_of (key ∷ role ∷ more) = record { key = key; role = role; is_active = true } ∷ []

-- The loop over the entries: what it appends to the configured keys.
unfoldable pub keys_of : List Text → List ApiKeyConfig
keys_of [] = []
keys_of (entry ∷ entries) = key_of (split 58 (trim_space entry)) ++ keys_of entries

unfoldable pub env_keys : Text → List ApiKeyConfig
unfolding keys_of
env_keys value = if text_eq value [] then [] else keys_of (split 44 value)

unfoldable pub load_secrets_from_env : Environment → Config → Config
unfolding env_keys
load_secrets_from_env env c = record c {
  redis = record c.redis {
    password = or_old (env (codes "RATELIMITER_REDIS_PASSWORD")) c.redis.password;
  };
  auth = record c.auth {
    jwt_secret = or_old (env (codes "RATELIMITER_JWT_SECRET")) c.auth.jwt_secret;
    basic_auth = record c.auth.basic_auth {
      username = or_old (env (codes "RATELIMITER_BASIC_AUTH_USERNAME")) c.auth.basic_auth.username;
      password = or_old (env (codes "RATELIMITER_BASIC_AUTH_PASSWORD")) c.auth.basic_auth.password;
    };
    api_keys = c.auth.api_keys ++ env_keys (env (codes "RATELIMITER_API_KEYS"));
  };
}

-- After `Unmarshal`.
unfoldable pub finish_load : Environment → Result ViperError Config → Result ViperError Config
unfolding load_secrets_from_env
finish_load env (err e) = err e
finish_load env (ok c) = ok (load_secrets_from_env env c)

-- After `ReadInConfig`: a missing file is no error.
unfoldable pub read_past :
    Environment → Option ViperError → Result ViperError Config → Result ViperError Config
unfolding finish_load
read_past env none parsed = finish_load env parsed
read_past env (some (config_file_not_found e)) parsed = finish_load env parsed
read_past env (some (other_error e)) parsed = err (other_error e)

unfoldable pub load : Viper → Environment → Result ViperError Config
unfolding configure read_past
load v env = read_past env (v.read_in_config configure) (v.unmarshal configure)
