-- ===== src/Server/Tests.antt =====
-- rate-limiter/cmd/server/main.go: two runs of `main`.
use rate_limiter.Base.{◌≡◌, refl, Option, none, some, true, false, [], ◌∷◌}
use rate_limiter.Base.Text.{codes}
use rate_limiter.Server.{
  load_config, new_redis_client, ping_redis, new_metrics, new_redis_storage,
  new_rate_limiter_service, route_metrics, new_http_handler, register_routes, new_grpc_server,
  register_server, listen_grpc, serve_http, serve_grpc, wait_for_signal, shutdown_http, log_line,
  exited, main,
}
use rate_limiter.Server.Serving.{
  Place, waiting, signalled, shutting, stopping, over, ServeError, server_closed, failed, back,
  Process, started, after_http, on_signal, on_call, on_shutdown,
}

-- Without Redis nothing is served.
no_redis :
    main (record {
      load_fails = false;
      ping_fails = true;
      listen_fails = false;
      shutdown_fails = false;
    })
    ≡ (
      load_config ∷ new_redis_client ∷ ping_redis ∷ [],
      exited (codes "Failed to connect to Redis"),
    )
unfolding main
no_redis = refl

-- Where the HTTP server does not shut down in time, the gRPC server is not stopped.
forced :
    main (record {
      load_fails = false;
      ping_fails = false;
      listen_fails = false;
      shutdown_fails = true;
    })
    ≡ (
      load_config
          ∷ new_redis_client
          ∷ ping_redis
          ∷ new_metrics
          ∷ new_redis_storage
          ∷ new_rate_limiter_service
          ∷ route_metrics
          ∷ new_http_handler
          ∷ register_routes
          ∷ new_grpc_server
          ∷ register_server
          ∷ listen_grpc
          ∷ serve_http
          ∷ serve_grpc
          ∷ wait_for_signal
          ∷ log_line (codes "Shutting down server...")
          ∷ shutdown_http
          ∷ [],
      exited (codes "HTTP server forced to shutdown"),
    )
unfolding main
forced = refl

-- A server that answers by the documentation, with one error of its own at most.
abbrev HttpMay : Place → Option ServeError → Type 0
HttpMay waiting e = e ≡ some failed
HttpMay signalled e = e ≡ some failed
HttpMay shutting e = e ≡ some server_closed
HttpMay stopping e = e ≡ some server_closed
HttpMay over e = e ≡ some server_closed

abbrev GrpcMay : Place → Option ServeError → Type 0
GrpcMay waiting e = e ≡ some failed
GrpcMay signalled e = e ≡ some failed
GrpcMay shutting e = e ≡ some failed
GrpcMay stopping e = e ≡ none
GrpcMay over e = e ≡ none

abbrev noticed : Process
noticed = on_signal started

abbrev asked : Process
asked = on_call noticed

abbrev closed : Process
closed = record asked { http = back shutting (some server_closed) }

abbrev stopping_grpc : Process
stopping_grpc = on_shutdown false closed

abbrev tested : Process
tested = after_http (some server_closed) stopping_grpc
