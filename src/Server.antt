-- ===== src/Server.antt =====
-- rate-limiter/cmd/server/main.go: the start and the end of the server, as the steps of `main` in
-- order. What the libraries answer is an argument. The two serving goroutines are steps here that start
-- them; Serving has what they do.
pub mod Serving
pub mod Shutdown
mod Tests
use rate_limiter.Base.{ℕ, ◌*◌, Bool, true, false, Option, none, some, List, [], ◌∷◌, ◌++◌}
use rate_limiter.Base.Exec.{Result, ok, err}
use rate_limiter.Base.Sync.{second}
use rate_limiter.Base.Text.{Text, codes}

-- The calls of `main`; a deferred `cancel` runs only where `main` returns.
pub data Step : Type 0 where
  load_config new_redis_client ping_redis new_metrics new_redis_storage new_rate_limiter_service :
      Step
  route_metrics new_http_handler register_routes new_grpc_server register_server listen_grpc : Step
  serve_http serve_grpc wait_for_signal shutdown_http stop_grpc cancel : Step
  log_line : Text → Step

-- The process ends: `main` returns, or `log.Fatalf` exits with its message.
pub data Ending : Type 0 where
  returned : Ending
  exited : Text → Ending

-- Whether each step that can fail does.
pub record Failures : Type 0 where
  pub load_fails : Bool
  pub ping_fails : Bool
  pub listen_fails : Bool
  pub shutdown_fails : Bool

-- A part of `main`: the steps that it makes, and how the process ends.
abbrev pub Run : Type 0
Run = List Step × Ending

abbrev pub before : List Step → Run → Run
before steps (more, ending) = (steps ++ more, ending)

abbrev pub or_exit : Text → Bool → Run → Run
or_exit message true rest = ([], exited message)
or_exit message false rest = rest

unfoldable pub stop_servers : Failures → Run
stop_servers f = before (log_line (codes "Shutting down server...") ∷ shutdown_http ∷ []) (
    or_exit (codes "HTTP server forced to shutdown") f.shutdown_fails
      (stop_grpc ∷ log_line (codes "Server exiting") ∷ cancel ∷ cancel ∷ [], returned))

unfoldable pub start_servers : Failures → Run
unfolding stop_servers
start_servers f =
    before
      (route_metrics ∷ new_http_handler ∷ register_routes ∷ new_grpc_server ∷ register_server
        ∷ listen_grpc ∷ [])
      (or_exit (codes "Failed to listen for gRPC") f.listen_fails
        (before (serve_http ∷ serve_grpc ∷ wait_for_signal ∷ []) (stop_servers f)))

-- `main`, where both servers run until a signal comes.
unfoldable pub main : Failures → Run
unfolding start_servers
main f = before (load_config ∷ []) (
    or_exit (codes "Failed to load configuration") f.load_fails (
      before (new_redis_client ∷ ping_redis ∷ []) (
        or_exit (codes "Failed to connect to Redis") f.ping_fails (
          before (new_metrics ∷ new_redis_storage ∷ new_rate_limiter_service ∷ [])
            (start_servers f)))))
