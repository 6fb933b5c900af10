-- ===== src/Server/Serving.antt =====
-- rate-limiter/cmd/server/main.go: what follows the start of the servers, as the moves of three
-- goroutines: `main` and the two that serve. The process ends with `main`, or with the first
-- `log.Fatalf` of any of them.
use rate_limiter.Base.{◌≡◌, true, false, Bool, Option, none, some, List, [], ◌∷◌, ◌++◌}
use rate_limiter.Base.Text.{Text, codes}
use rate_limiter.Server.{Step, Ending, returned, exited, log_line, shutdown_http, stop_grpc, cancel}

-- Where `main` is: at `<-quit`, after the signal and before `httpServer.Shutdown` has marked the
-- server, in `Shutdown`, in `grpcServer.GracefulStop`, or at its end.
pub data Place : Type 0 where
  waiting signalled shutting stopping over : Place

-- What a serving call returns where it is not nil: `http.ErrServerClosed`, or another error.
pub data ServeError : Type 0 where
  server_closed failed : ServeError

-- A serving goroutine: in its call, back from it (it came back where `main` was there), or at its end.
pub data Serving : Type 0 where
  serving ended : Serving
  back : Place → Option ServeError → Serving

-- The three goroutines; the steps that `main` has made since the signal; and how the process has
-- ended, if it has.
pub record Process : Type 0 where
  pub main : Place
  pub http : Serving
  pub grpc : Serving
  pub made : List Step
  pub ending : Option Ending

abbrev pub started : Process
started = record { main = waiting; http = serving; grpc = serving; made = []; ending = none }

abbrev pub http_message : Text
http_message = codes "HTTP server error"

abbrev pub grpc_message : Text
grpc_message = codes "gRPC server error"

abbrev pub forced_message : Text
forced_message = codes "HTTP server forced to shutdown"

-- The test of the goroutine that serves HTTP.
unfoldable pub after_http : Option ServeError → Process → Process
after_http none p = record p { http = ended }
after_http (some server_closed) p = record p { http = ended }
after_http (some failed) p = record p { ending = some (exited http_message) }

-- The test of the goroutine that serves gRPC.
unfoldable pub after_grpc : Option ServeError → Process → Process
after_grpc none p = record p { grpc = ended }
after_grpc (some e) p = record p { ending = some (exited grpc_message) }

unfoldable pub on_signal : Process → Process
on_signal p = record p {
  main = signalled;
  made = p.made ++ log_line (codes "Shutting down server...") ∷ [];
}

-- `Shutdown` is called.
unfoldable pub on_call : Process → Process
on_call p = record p { main = shutting; made = p.made ++ shutdown_http ∷ [] }

unfoldable pub on_shutdown : Bool → Process → Process
on_shutdown true p = record p { ending = some (exited forced_message) }
on_shutdown false p = record p { main = stopping; made = p.made ++ stop_grpc ∷ [] }

unfoldable pub on_stopped : Process → Process
on_stopped p = record p {
  main = over;
  made = p.made ++ log_line (codes "Server exiting") ∷ cancel ∷ cancel ∷ [];
  ending = some returned;
}

-- What the serving calls may return, by where `main` is.
module _ (HttpReturns GrpcReturns : Place → Option ServeError → Type 0) where
  -- One move of one goroutine. A call that has returned is looked at in a later move.
  pub data Move (p : Process) : Process → Type 0 where
    signal : p.main ≡ waiting → Move p (on_signal p)
    call_shutdown : p.main ≡ signalled → Move p (on_call p)
    shut_down : (fails : Bool) → p.main ≡ shutting → Move p (on_shutdown fails p)
    stopped : p.main ≡ stopping → Move p (on_stopped p)
    http_returns :
        (e : Option ServeError)
        → p.http ≡ serving
        → HttpReturns p.main e
        → Move p (record p { http = back p.main e })
    http_tests : (at : Place) (e : Option ServeError) → p.http ≡ back at e → Move p (after_http e p)
    grpc_returns :
        (e : Option ServeError)
        → p.grpc ≡ serving
        → GrpcReturns p.main e
        → Move p (record p { grpc = back p.main e })
    grpc_tests : (at : Place) (e : Option ServeError) → p.grpc ≡ back at e → Move p (after_grpc e p)

  -- The states that some interleaving of the moves reaches; none is made after the end.
  pub data Reached : Process → Type 0 where
    start : Reached started
    move : (p q : Process) → Reached p → p.ending ≡ none → Move p q → Reached q
