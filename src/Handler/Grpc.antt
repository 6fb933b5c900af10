-- ===== src/Handler/Grpc.antt =====
-- rate-limiter/internal/handler/grpc.go: the gRPC handlers. The messages are those of
-- rate-limiter/api/proto, whose `int32` fields take the service's `int`s.
use rate_limiter.Base.{Bool, true, false, List, [], ◌∷◌, ◌++◌, if◌then◌else◌}
use rate_limiter.Base.Exec.{Result, ok, err, Exec, ◌>>=◌, pure}
use rate_limiter.Base.Int.{ℤ, pos, leb_ℤ, int32}
use rate_limiter.Base.Sync.{Duration, Context}
use rate_limiter.Base.Text.{Text, codes, text_eq}
use rate_limiter.Storage.{Storage}
use rate_limiter.Service.{
  Service, ServiceError, LimitResult, Readings, check_rate_limit, update_whitelist, set_limit,
}
use rate_limiter.Handler.{error_text, or_default}

pub data Status : Type 0 where
  invalid_argument internal : Text → Status

-- `reset_after` is in seconds on the wire.
pub record CheckResponse : Type 0 where
  pub limited : Bool
  pub current_count : ℤ
  pub limit : ℤ
  pub remaining : ℤ
  pub reset_after : Duration
  pub window : Text

pub record CheckRequest : Type 0 where
  pub key : Text
  pub identifier : Text
  pub window : Text

pub record UpdateRequest : Type 0 where
  pub key : Text
  pub identifier : Text
  pub whitelisted : Bool

-- `limit` is an `int32`.
pub record SetRequest : Type 0 where
  pub key : Text
  pub identifier : Text
  pub window : Text
  pub limit : ℤ

unfoldable pub response : LimitResult → CheckResponse
response r = record {
  limited = r.limited;
  current_count = r.current_count;
  limit = int32 r.limit;
  remaining = int32 r.remaining;
  reset_after = r.reset_after;
  window = r.window;
}

-- The tests of the fields, in order.
unfoldable pub update_problem : UpdateRequest → List Text
update_problem r =
    if text_eq r.key []
    then codes "key is required" ∷ []
    else if text_eq r.identifier []
    then codes "identifier is required" ∷ []
    else []

unfoldable pub set_problem : SetRequest → List Text
set_problem r =
    if text_eq r.key []
    then codes "key is required" ∷ []
    else if text_eq r.identifier []
    then codes "identifier is required" ∷ []
    else if text_eq r.window []
    then codes "window is required" ∷ []
    else if leb_ℤ r.limit (pos 0)
    then codes "limit must be positive" ∷ []
    else []

module _ (S : Storage) (describe : S.Err → Text) where
  open S use {Store, Err}

  unfoldable pub answered : Result (ServiceError Err) LimitResult → Result Status CheckResponse
  answered (ok result) = ok (response result)
  answered (err e) = err (internal (codes "failed to check rate limit: " ++ error_text describe e))

  unfoldable pub check_with :
      Readings → Context → CheckRequest → Bool → Exec (Service Store) (Result Status CheckResponse)
  unfolding answered
  check_with t ctx r true = pure (err (invalid_argument (codes "identifier is required")))
  check_with t ctx r false = do
    reply ←
        check_rate_limit S t ctx (or_default r.key (codes "default")) r.identifier
          (or_default r.window (codes "minute"))
    pure (answered reply)

  unfoldable pub check_grpc :
      Readings → Context → CheckRequest → Exec (Service Store) (Result Status CheckResponse)
  unfolding check_with
  check_grpc t ctx r = check_with t ctx r (text_eq r.identifier [])

  -- The end of the two updates, with the message of each.
  unfoldable pub finished : Text → Result (ServiceError Err) (Unit {0}) → Result Status (Unit {0})
  finished message (ok _) = ok tt
  finished message (err e) = err (internal (message ++ error_text describe e))

  unfoldable pub update_with :
      Readings
      → Context
      → UpdateRequest
      → List Text
      → Exec (Service Store) (Result Status (Unit {0}))
  unfolding finished
  update_with t ctx r (problem ∷ _) = pure (err (invalid_argument problem))
  update_with t ctx r [] = do
    reply ← update_whitelist S t ctx r.key r.identifier r.whitelisted
    pure (finished (codes "failed to update whitelist: ") reply)

  unfoldable pub update_whitelist_grpc :
      Readings → Context → UpdateRequest → Exec (Service Store) (Result Status (Unit {0}))
  unfolding update_with
  update_whitelist_grpc t ctx r = update_with t ctx r (update_problem r)

  unfoldable pub set_with :
      Readings → Context → SetRequest → List Text → Exec (Service Store) (Result Status (Unit {0}))
  unfolding finished
  set_with t ctx r (problem ∷ _) = pure (err (invalid_argument problem))
  set_with t ctx r [] = do
    reply ← set_limit S t ctx r.key r.identifier r.window r.limit
    pure (finished (codes "failed to set limit: ") reply)

  unfoldable pub set_limit_grpc :
      Readings → Context → SetRequest → Exec (Service Store) (Result Status (Unit {0}))
  unfolding set_with
  set_limit_grpc t ctx r = set_with t ctx r (set_problem r)
