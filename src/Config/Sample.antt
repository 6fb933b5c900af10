-- ===== src/Config/Sample.antt =====
-- A configuration for the tests: the defaults of rate-limiter/internal/config/config.go, with one
-- API key.
use rate_limiter.Base.{true, false, [], ◌∷◌, ◌*◌, ◌^◌}
use rate_limiter.Base.Int.{pos}
use rate_limiter.Base.Sync.{millisecond, second, minute, hour}
use rate_limiter.Base.Text.{codes}
use rate_limiter.Config.Data.{
  Config, RedisConfig, TlsConfig, HttpConfig, GrpcConfig, RateLimiterConfig, AuthConfig,
  MetricsConfig, TracingConfig, LoggingConfig,
}

abbrev pub sample_redis : RedisConfig
sample_redis = record {
  addresses = codes "localhost:6379" ∷ [];
  password = [];
  db = pos 0;
  pool_size = pos 100;
  min_idle_conns = pos 10;
  max_retries = pos 3;
  dial_timeout = pos (200 * millisecond);
  read_timeout = pos (500 * millisecond);
  write_timeout = pos (500 * millisecond);
  pool_timeout = pos second;
  cluster_mode = false;
}

abbrev pub no_tls : TlsConfig
no_tls = record {
  enabled = false;
  cert_file = codes "server.crt";
  key_file = codes "server.key";
  min_version = codes "1.2";
  max_version = [];
  cipher_suites = [];
}

abbrev pub sample_http : HttpConfig
sample_http = record {
  address = codes ":8080";
  read_timeout = pos (5 * second);
  write_timeout = pos (10 * second);
  shutdown_timeout = pos (30 * second);
  max_header_bytes = pos (2 ^ 20);
  enable_cors = true;
  enable_compression = true;
  tls = no_tls;
}

abbrev pub sample_grpc : GrpcConfig
sample_grpc = record {
  address = codes ":9090";
  shutdown_timeout = pos (30 * second);
  max_recv_msg_size = pos (2 ^ 22);
  max_send_msg_size = pos (2 ^ 22);
  tls = no_tls;
}

abbrev pub sample_limiter : RateLimiterConfig
sample_limiter = record {
  default_limits = (codes "minute", record { requests = pos 100; window = pos minute }) ∷ [];
  whitelist = [];
  circuit_breaker_threshold = pos 5;
  circuit_breaker_timeout = pos (10 * second);
  local_cache_enabled = true;
  local_cache_size = pos 10000;
  local_cache_ttl = pos minute;
}

abbrev pub sample_auth : AuthConfig
sample_auth = record {
  enabled = false;
  api_keys = record { key = codes "k1"; role = codes "admin"; is_active = true } ∷ [];
  jwt_secret = [];
  jwt_expiration = pos (24 * hour);
  basic_auth = record { enabled = false; username = []; password = [] };
}

abbrev pub sample_metrics : MetricsConfig
sample_metrics = record {
  enabled = true;
  address = codes ":9091";
  path = codes "/metrics";
  enable_go_stats = true;
}

abbrev pub sample_tracing : TracingConfig
sample_tracing = record {
  enabled = true;
  service_name = codes "ratelimiter";
  endpoint = codes "localhost:4317";
  sampling_rate = record { over = 1; under = 10 };
}

abbrev pub sample_logging : LoggingConfig
sample_logging = record {
  level = codes "info";
  format = codes "json";
  output = codes "stdout";
  time_format = codes "2006-01-02T15:04:05Z07:00";
  enable_caller = true;
}

abbrev pub sample : Config
sample = record {
  redis = sample_redis;
  http = sample_http;
  grpc = sample_grpc;
  limiter = sample_limiter;
  auth = sample_auth;
  metrics = sample_metrics;
  tracing = sample_tracing;
  logging = sample_logging;
}
