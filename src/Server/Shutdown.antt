-- ===== src/Server/Shutdown.antt =====
-- rate-limiter/cmd/server/main.go: how the process ends.
use rate_limiter.Base.{◌≡◌, ◌⊎◌, true, false, Bool, Option, none, some, List, [], ◌∷◌, arith}
use rate_limiter.Base.Text.{codes}
use rate_limiter.Server.{
  Step, Ending, Failures, exited, log_line, shutdown_http, stop_grpc, cancel, stop_servers,
}
use rate_limiter.Server.Serving.{
  Place, waiting, signalled, shutting, stopping, over, ServeError, server_closed, failed, Serving,
  back, Process, http_message, grpc_message, after_http, after_grpc, on_signal, on_call,
  on_shutdown, on_stopped, Move, signal, call_shutdown, shut_down, stopped, http_returns,
  http_tests, grpc_returns, grpc_tests,
}

-- The steps of `main` before a place of its own.
made_by : Place → List Step
made_by waiting = []
made_by signalled = log_line (codes "Shutting down server...") ∷ []
made_by shutting = log_line (codes "Shutting down server...") ∷ shutdown_http ∷ []
made_by stopping = log_line (codes "Shutting down server...") ∷ shutdown_http ∷ stop_grpc ∷ []
made_by over =
    log_line (codes "Shutting down server...")
    ∷ shutdown_http
    ∷ stop_grpc
    ∷ log_line (codes "Server exiting")
    ∷ cancel
    ∷ cancel
    ∷ []

-- A serving goroutine that is back holds what its call may return there.
abbrev Holds : (Place → Option ServeError → Type 0) → Serving → Type 0
Holds Returns g = (at : Place) (e : Option ServeError) → g ≡ back at e → Returns at e

Holds-back :
    (Returns : Place → Option ServeError → Type 0) (at : Place) (e : Option ServeError)
    → Returns at e
    → Holds Returns (back at e)
Holds-back Returns at e r at' e' same = ground (arith, same, r)

module _ (HttpReturns GrpcReturns : Place → Option ServeError → Type 0) where
  held :
      (p q : Process)
      → Move HttpReturns GrpcReturns p q
      → Holds HttpReturns p.http × Holds GrpcReturns p.grpc
      → Holds HttpReturns q.http × Holds GrpcReturns q.grpc
  unfolding on_signal on_call on_shutdown on_stopped after_http after_grpc
  held p _ (signal at) h = h
  held p _ (call_shutdown at) h = h
  held p _ (shut_down true at) h = h
  held p _ (shut_down false at) h = h
  held p _ (stopped at) h = h
  held p _ (http_returns e at r) h = (Holds-back HttpReturns p.main e r, h.1)
  held p _ (http_tests at none w) h = ((λ a e same. cc), h.1)
  held p _ (http_tests at (some server_closed) w) h = ((λ a e same. cc), h.1)
  held p _ (http_tests at (some failed) w) h = h
  held p _ (grpc_returns e at r) h = (h.0, Holds-back GrpcReturns p.main e r)
  held p _ (grpc_tests at none w) h = (h.0, λ a e same. cc)
  held p _ (grpc_tests at (some e) w) h = h

abbrev pub AsMain : Process → Ending → Type 0
AsMain p e = (f : Failures) × ((p.made, e) ≡ stop_servers f)

abbrev pub ByHttp : Process → Ending → Type 0
ByHttp p e =
    (e ≡ exited http_message)
    × ((at : Place) × (p.http ≡ back at (some failed)) × ((at ≡ waiting) ⊎ (at ≡ signalled)))

abbrev pub ByGrpc : Process → Ending → Type 0
ByGrpc p e =
    (e ≡ exited grpc_message)
    × ((at : Place) × (x : ServeError) × (p.grpc ≡ back at (some x))
        × ((at ≡ waiting) ⊎ (at ≡ signalled) ⊎ (at ≡ shutting)))

with_shutdown : Bool → Failures
with_shutdown b = record {
  load_fails = false;
  ping_fails = false;
  listen_fails = false;
  shutdown_fails = b;
}
