-- ===== src/Handler/Agreement.antt =====
-- rate-limiter/internal/handler/http.go and grpc.go: the two front ends answer a check alike.
use rate_limiter.Base.{◌≡◌, ◌≢◌, refl, ap, sym, ◌∙◌, [], ◌++◌, if◌then◌else◌}
use rate_limiter.Base.Exec.{Result, ok, err, ◌>>=◌, pure}
use rate_limiter.Base.Int.{int32}
use rate_limiter.Base.Sync.{Context, Outcome, done, fatal}
use rate_limiter.Base.Text.{Text, codes, text_eq_ne}
use rate_limiter.Gin.{Request}
use rate_limiter.Storage.{Storage}
use rate_limiter.Service.{Service, ServiceError, LimitResult, Readings, check_rate_limit}
use rate_limiter.Handler.{or_default}
use rate_limiter.Handler.Http.{HttpReply, alive, failure, decision, success, check_http, decided}
use rate_limiter.Handler.Grpc.{
  Status, internal, CheckRequest, CheckResponse, response, check_grpc, check_with, answered,
}

-- The gRPC answer with the content of an HTTP one: its decision, field by field, the limit and what
-- remains of it cut to 32 bits, or its error under the message that gRPC puts before it.
abbrev pub as_grpc : HttpReply → Result Status CheckResponse
as_grpc r = elim r.body [
  | decision result ↦ ok (record {
    limited = result.limited;
    current_count = result.current_count;
    limit = int32 result.limit;
    remaining = int32 result.remaining;
    reset_after = result.reset_after;
    window = result.window;
  })
  | failure e ↦ err (internal (codes "failed to check rate limit: " ++ e))
  | alive t ↦ err (internal [])
  | success ↦ err (internal [])
]

abbrev pub map_outcome : {A B S : Type 0} → (A → B) → Outcome (A × S) → Outcome (B × S)
map_outcome f (done (a, s)) = done (f a, s)
map_outcome f (fatal e) = fatal e

-- The gRPC request with the parameters of an HTTP one.
abbrev pub grpc_request : Request → CheckRequest
grpc_request r = record {
  key = r.query (codes "key");
  identifier = r.query (codes "identifier");
  window = r.query (codes "window");
}

module _ (S : Storage) (describe : S.Err → Text) (t : Readings) (ctx : Context) where
  open S use {Store, Err}

  agree_at :
      (o : Outcome (Result (ServiceError Err) LimitResult × Service Store)) (s : Service Store)
      → ((λ _. o) >>= λ reply. pure (answered S describe reply)) s
        ≡ map_outcome as_grpc (((λ _. o) >>= λ reply. pure (decided S describe reply)) s)
  unfolding answered decided response
  agree_at (done (ok r, s')) s = refl
  agree_at (done (err e, s')) s = refl
  agree_at (fatal e) s = refl

  -- The same check with an identifier over HTTP and over gRPC does the same to the service, and the
  -- gRPC answer is the HTTP one, its decision field by field with the limit and what remains of it cut
  -- to 32 bits, or its error as an internal error.
  pub http_grpc_agree :
      (r : Request) (s : Service Store)
      → r.query (codes "identifier") ≢ []
      → check_grpc S describe t ctx (grpc_request r) s
        ≡ map_outcome as_grpc (check_http S describe t ctx r s)
  unfolding check_grpc check_http check_with
  http_grpc_agree r s n =
      let i = r.query (codes "identifier") in
      let key = or_default (r.query (codes "key")) (codes "default") in
      let window = or_default (r.query (codes "window")) (codes "minute") in
      let given = text_eq_ne i [] n in
      ap (λ b. check_with S describe t ctx (grpc_request r) b s) given
      ∙ agree_at (check_rate_limit S t ctx key i window s) s
      ∙ ap
          (λ b. map_outcome as_grpc (
            (check_rate_limit S t ctx key (if b then r.client_ip else i) window >>= λ reply.
            pure (decided S describe reply))
              s))
          (sym given)
