-- ===== src/Storage/Redis/Connect.antt =====
-- rate-limiter/internal/storage/redis.go: the choice of the client, and the connection's test.
use rate_limiter.Base.{Option, none, some, List, [], ◌∷◌, if◌then◌else◌}
use rate_limiter.Base.Exec.{Result, ok, err}
use rate_limiter.Base.Int.{ℤ, pos}
use rate_limiter.Base.Sync.{Time, Duration, zero_time, Outcome, done, fatal, index_out_of_range}
use rate_limiter.Base.Text.{Text}
use rate_limiter.Config.Data.{RedisConfig}

-- The options that both kinds of client have.
pub record PoolOptions : Type 0 where
  pub password : Text
  pub pool_size : ℤ
  pub min_idle_conns : ℤ
  pub dial_timeout : Duration
  pub read_timeout : Duration
  pub write_timeout : Duration
  pub pool_timeout : Duration
  pub max_retries : ℤ

-- `NewClusterClient` with its addresses, or `NewClient` with its address and database.
pub data UniversalClient : Type 0 where
  cluster_client : List Text → PoolOptions → UniversalClient
  single_client : Text → ℤ → PoolOptions → UniversalClient

pub record RedisStorage : Type 0 where
  pub client : UniversalClient
  pub config : RedisConfig
  pub failure_count : ℤ
  pub last_failure : Time

abbrev pub pool_options : RedisConfig → PoolOptions
pool_options cfg = record {
  password = cfg.password;
  pool_size = cfg.pool_size;
  min_idle_conns = cfg.min_idle_conns;
  dial_timeout = cfg.dial_timeout;
  read_timeout = cfg.read_timeout;
  write_timeout = cfg.write_timeout;
  pool_timeout = cfg.pool_timeout;
  max_retries = cfg.max_retries;
}

-- `cfg.Addresses[0]` panics where there is no address.
unfoldable pub first_address : RedisConfig → List Text → Outcome UniversalClient
first_address cfg [] = fatal index_out_of_range
first_address cfg (a ∷ rest) = done (single_client a cfg.db (pool_options cfg))

unfoldable pub client_of : RedisConfig → Outcome UniversalClient
unfolding first_address
client_of cfg =
    if cfg.cluster_mode
    then done (cluster_client cfg.addresses (pool_options cfg))
    else first_address cfg cfg.addresses

-- `failed to connect to Redis`, over the error of the ping.
pub data ConnectError (E : Type 0) : Type 0 where
  connect_failed : E → ConnectError E

-- The storage of a client, by the answer to its ping, where none is no error.
abbrev pub connected :
    {E : Type 0} → RedisConfig → Option E → UniversalClient → Result (ConnectError E) RedisStorage
connected cfg (some e) client = err (connect_failed e)
connected cfg none client =
    ok (record { client = client; config = cfg; failure_count = pos 0; last_failure = zero_time })

unfoldable pub new_redis_storage :
    {E : Type 0}
    → RedisConfig
    → (UniversalClient → Option E)
    → Outcome (Result (ConnectError E) RedisStorage)
unfolding client_of
new_redis_storage cfg ping = elim (client_of cfg) [
  | done client ↦ done (connected cfg (ping client) client)
  | fatal e ↦ fatal e
]

-- The client's answer is passed on.
unfoldable pub close : {E : Type 0} → (UniversalClient → Option E) → RedisStorage → Option E
close close_client s = close_client s.client
