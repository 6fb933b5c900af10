-- ===== src/Lib.antt =====
-- A verification library for the distributed rate limiter under rate-limiter/.
--
-- The program answers "may this key make another request in this window?". The service
-- (internal/service) asks a storage (internal/storage, Redis in production) whether the key is
-- whitelisted, which limit holds, and how many requests the window has seen; a breaker of its own
-- lets every request through while the storage is down. HTTP and gRPC handlers (internal/handler)
-- and a middleware (internal/auth) call the service. A cache of one or two levels
-- (internal/cache), a general circuit breaker (internal/circuitbreaker), fallback strategies
-- (internal/fallback), health checks (internal/health), metrics (internal/metrics), logging
-- (internal/logging) and tracing (internal/tracing) stand beside it. The configuration
-- (internal/config) is loaded at the start (cmd/server), and the key store is made from it.
--
-- Files, and the code under rate-limiter/ that each is about:
--   Base             notation, integers with Go's 64-bit and 32-bit wrap-around, text, decimal text
--                    and characters, splitting and trimming of text, HTTP statuses, maps, the mutex
--                    and the clock, actions that change an object
--   Config           internal/config/config.go: the records (Data), the defaults (Defaults), loading;
--                    Keys is about the keys in the environment, Sample is one for tests
--   Metrics          internal/metrics/metrics.go, the recording methods and the middleware; Families
--                    is NewMetrics; Registration and Labels hold theorems
--   CircuitBreaker   internal/circuitbreaker/circuitbreaker.go, every method; Transitions,
--                    Generations, Invariant, Admission and Tripping hold its theorems
--   Storage          internal/storage/storage.go, the interface; Storage.Redis is redis.go, with the
--                    sliding window script (Members, Distinct, Window), the custom limits (Limits), the
--                    client that NewRedisStorage makes (Connect) and a server for tests (Sample)
--   Service          internal/service/ratelimiter.go: CheckRateLimit, UpdateWhitelist, SetLimit and
--                    the built-in breaker; Breaker, Decision, Updates, Termination and Outage
--                    hold its theorems; OverRedis, Enforcement and Effects those on the service
--                    over the Redis storage
--   Cache            internal/cache/cache.go, the local cache; Cache.MultiLevel is the cache of two
--                    levels; Calls has a sequence of calls and the map that Refinement
--                    compares the cache with; Bounds, Expiry and Aliasing hold theorems
--   Gin              the calls of gin that the middlewares make, shared by the next three
--   Validation       internal/handler/validation.go; Passing holds its theorem, Keys what validation
--                    does for the service's keys
--   Fallback         internal/fallback/fallback.go; Denial and Schedule hold its theorems
--   Auth             internal/auth/auth.go: the key store and the middlewares, of which Basic holds
--                    the basic authentication; Keys, Access, Basic and Limiting hold theorems,
--                    Configured those on the keys of the configuration, and Refinement compares the
--                    store with a map
--   Health           internal/health/health.go; Status holds its theorems
--   Handler          internal/handler: Http is http.go, with its routes in Routes, and Grpc is
--                    grpc.go; Agreement, Updates and Headers hold their theorems
--   Logging          internal/logging/logger.go; Levels and Requests hold its theorems
--   Tracing          internal/tracing/tracing.go; Spans holds its theorem
--   Server           cmd/server/main.go: the steps of main; Serving has the moves of its three
--                    goroutines, Shutdown a theorem on how they end
-- A Data module holds the records and data types of the component that it stands under. The Tests
-- modules apply the theorems at concrete inputs.
--
-- A method is a function from the object's state and its arguments to the new state and the
-- result; snake_case names are the Go names. Each reading of the clock is an argument, so theorems
-- hold for any clock, also one that runs backwards unless a hypothesis says otherwise. A method that
-- holds a mutex throughout is one step; where the code drops and takes locks in between (the
-- service's breaker, GetKey of the key store) the calls of the mutex are actions that can end the
-- run. Go's `int` and `int64` are integers with the wrap-around `int64` written where the code adds
-- or subtracts; `uint64` counters wrap modulo 2^64. Times are nanoseconds and do not wrap. A map is
-- an association list, in any order. A Go runtime error that ends the process, a wait for ever and
-- a nil dereference are the outcome `fatal`.
--
-- Parameters: the Redis client and the server's commands, whose documented behaviour is a named
-- hypothesis, the expiry of keys by the server's clock included, as is gin's rule for required
-- fields; the remote level of a cache; the storage of the service, of which Storage.Redis is
-- one; the text of a storage's errors; viper's answers; the registerer of Prometheus, whose
-- documented behaviour is a named hypothesis; the answers of OpenTelemetry; what the calls that
-- serve return, by two named hypotheses; the identifiers of package uuid. The only fuel is in
-- Base.Decimal, where a number's own size bounds the count of its digits.
--
-- Not modelled: the connections themselves; what viper reads of files, what slog, Prometheus
-- and OpenTelemetry do with the calls that they are given; the help texts of metrics; white
-- space beyond ASCII in RATELIMITER_API_KEYS; the rules in the tags of the bodies of
-- internal/handler/validation.go, which a library reads; the passing of time on the Redis
-- server inside a check; interleavings inside a method, but for GetKey and main; floating-point
-- numbers, which only report times, but for the ratios that the code hands on.
pub mod Base
pub mod Config
pub mod Metrics
pub mod CircuitBreaker
pub mod Storage
pub mod Service
pub mod Cache
pub mod Gin
pub mod Validation
pub mod Fallback
pub mod Auth
pub mod Health
pub mod Handler
pub mod Logging
pub mod Tracing
pub mod Server
