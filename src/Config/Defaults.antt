-- ===== src/Config/Defaults.antt =====
-- rate-limiter/internal/config/config.go: the values of `setDefaults`, a list for each part of it.
use rate_limiter.Base.{true, false, List, [], ◌∷◌, ◌*◌, ◌^◌}
use rate_limiter.Base.Int.{pos}
use rate_limiter.Base.Sync.{millisecond, second, minute, hour}
use rate_limiter.Base.Text.{codes}
use rate_limiter.Config.Data.{ViperCall, set_default, texts, text, int, flag, duration, ratio}

unfoldable pub redis_defaults : List ViperCall
redis_defaults =
    set_default (codes "redis.addresses") (texts (codes "localhost:6379" ∷ []))
    ∷ set_default (codes "redis.password") (text [])
    ∷ set_default (codes "redis.db") (int (pos 0))
    ∷ set_default (codes "redis.pool_size") (int (pos 100))
    ∷ set_default (codes "redis.min_idle_conns") (int (pos 10))
    ∷ set_default (codes "redis.max_retries") (int (pos 3))
    ∷ set_default (codes "redis.dial_timeout") (duration (pos (200 * millisecond)))
    ∷ set_default (codes "redis.read_timeout") (duration (pos (500 * millisecond)))
    ∷ set_default (codes "redis.write_timeout") (duration (pos (500 * millisecond)))
    ∷ set_default (codes "redis.pool_timeout") (duration (pos second))
    ∷ set_default (codes "redis.cluster_mode") (flag false)
    ∷ []

unfoldable pub http_defaults : List ViperCall
http_defaults =
    set_default (codes "http.address") (text (codes ":8080"))
    ∷ set_default (codes "http.read_timeout") (duration (pos (5 * second)))
    ∷ set_default (codes "http.write_timeout") (duration (pos (10 * second)))
    ∷ set_default (codes "http.shutdown_timeout") (duration (pos (30 * second)))
    ∷ set_default (codes "http.max_header_bytes") (int (pos (2 ^ 20)))
    ∷ set_default (codes "http.enable_cors") (flag true)
    ∷ set_default (codes "http.enable_compression") (flag true)
    ∷ []

unfoldable pub http_tls_defaults : List ViperCall
http_tls_defaults =
    set_default (codes "http.tls.enabled") (flag false)
    ∷ set_default (codes "http.tls.cert_file") (text (codes "server.crt"))
    ∷ set_default (codes "http.tls.key_file") (text (codes "server.key"))
    ∷ set_default (codes "http.tls.min_version") (text (codes "1.2"))
    ∷ set_default (codes "http.tls.max_version") (text [])
    ∷ set_default (codes "http.tls.cipher_suites") (text [])
    ∷ []

unfoldable pub grpc_defaults : List ViperCall
grpc_defaults =
    set_default (codes "grpc.address") (text (codes ":9090"))
    ∷ set_default (codes "grpc.shutdown_timeout") (duration (pos (30 * second)))
    ∷ set_default (codes "grpc.max_recv_msg_size") (int (pos (4 * 1024 * 1024)))
    ∷ set_default (codes "grpc.max_send_msg_size") (int (pos (4 * 1024 * 1024)))
    ∷ set_default (codes "grpc.tls.enabled") (flag false)
    ∷ []

unfoldable pub limits_defaults : List ViperCall
limits_defaults =
    set_default (codes "rate_limiter.default_limits.second.requests") (int (pos 10))
    ∷ set_default (codes "rate_limiter.default_limits.second.window") (duration (pos second))
    ∷ set_default (codes "rate_limiter.default_limits.minute.requests") (int (pos 100))
    ∷ set_default (codes "rate_limiter.default_limits.minute.window") (duration (pos minute))
    ∷ set_default (codes "rate_limiter.default_limits.hour.requests") (int (pos 1000))
    ∷ set_default (codes "rate_limiter.default_limits.hour.window") (duration (pos hour))
    ∷ set_default (codes "rate_limiter.default_limits.day.requests") (int (pos 10000))
    ∷ set_default (codes "rate_limiter.default_limits.day.window") (duration (pos (24 * hour)))
    ∷ []

unfoldable pub limiter_defaults : List ViperCall
limiter_defaults =
    set_default (codes "rate_limiter.circuit_breaker_threshold") (int (pos 5))
    ∷ set_default (codes "rate_limiter.circuit_breaker_timeout") (duration (pos (10 * second)))
    ∷ set_default (codes "rate_limiter.local_cache_enabled") (flag true)
    ∷ set_default (codes "rate_limiter.local_cache_size") (int (pos 10000))
    ∷ set_default (codes "rate_limiter.local_cache_ttl") (duration (pos minute))
    ∷ []

unfoldable pub auth_defaults : List ViperCall
auth_defaults =
    set_default (codes "auth.enabled") (flag false)
    ∷ set_default (codes "auth.jwt_expiration") (duration (pos (24 * hour)))
    ∷ set_default (codes "auth.basic_auth.enabled") (flag false)
    ∷ []

unfoldable pub metrics_defaults : List ViperCall
metrics_defaults =
    set_default (codes "metrics.enabled") (flag true)
    ∷ set_default (codes "metrics.address") (text (codes ":9091"))
    ∷ set_default (codes "metrics.path") (text (codes "/metrics"))
    ∷ set_default (codes "metrics.enable_go_stats") (flag true)
    ∷ []

unfoldable pub tracing_defaults : List ViperCall
tracing_defaults =
    set_default (codes "tracing.enabled") (flag false)
    ∷ set_default (codes "tracing.service_name") (text (codes "ratelimiter"))
    ∷ set_default (codes "tracing.endpoint") (text (codes "localhost:4317"))
    ∷ set_default (codes "tracing.sampling_rate") (ratio (record { over = 1; under = 10 }))
    ∷ []

unfoldable pub logging_defaults : List ViperCall
logging_defaults =
    set_default (codes "logging.level") (text (codes "info"))
    ∷ set_default (codes "logging.format") (text (codes "json"))
    ∷ set_default (codes "logging.output") (text (codes "stdout"))
    ∷ set_default (codes "logging.time_format") (text (codes "2006-01-02T15:04:05Z07:00"))
    ∷ set_default (codes "logging.enable_caller") (flag true)
    ∷ []
