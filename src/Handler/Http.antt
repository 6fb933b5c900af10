-- ===== src/Handler/Http.antt =====
-- rate-limiter/internal/handler/http.go: the HTTP handlers and the middleware for protected routes.
use rate_limiter.Base.{ℕ, Bool, Option, none, some, List, [], ◌∷◌, if◌then◌else◌}
use rate_limiter.Base.Decimal.{format_int}
use rate_limiter.Base.Exec.{Result, ok, err, Exec, ◌>>=◌, pure}
use rate_limiter.Base.Int.{ℤ}
use rate_limiter.Base.Sync.{Time, Context, add_time, second}
use rate_limiter.Base.Text.{Text, codes}
use rate_limiter.Gin.{Request, GinCall, header, abort_json, next}
use rate_limiter.Storage.{Storage}
use rate_limiter.Storage.Redis.{quot}
use rate_limiter.Auth.{unix}
use rate_limiter.Service.{
  Service, ServiceError, LimitResult, Readings, check_rate_limit, update_whitelist, set_limit,
}
use rate_limiter.Handler.{error_text, or_default}

-- The JSON bodies: a health report with its time, an error, a decision with all of its fields, or a
-- success.
pub data Body : Type 0 where
  alive : Time → Body
  failure : Text → Body
  decision : LimitResult → Body
  success : Body

pub record HttpReply : Type 0 where
  pub status : ℕ
  pub body : Body

pub record WhitelistRequest : Type 0 where
  pub key : Text
  pub identifier : Text
  pub whitelisted : Bool

pub record LimitRequest : Type 0 where
  pub key : Text
  pub identifier : Text
  pub window : Text
  pub limit : ℤ

-- The value of a field, as the validation of a body sees it.
pub data FieldValue : Type 0 where
  text_field : Text → FieldValue
  bool_field : Bool → FieldValue
  int_field : ℤ → FieldValue

-- The fields with the tag `binding:"required"`.
unfoldable pub whitelist_required : WhitelistRequest → List FieldValue
whitelist_required r = text_field r.key ∷ text_field r.identifier ∷ bool_field r.whitelisted ∷ []

unfoldable pub limit_required : LimitRequest → List FieldValue
limit_required r =
    text_field r.key ∷ text_field r.identifier ∷ text_field r.window ∷ int_field r.limit ∷ []

abbrev pub or_refused : {A : Type 0} → A → Option Text → Result Text A
or_refused r none = ok r
or_refused r (some e) = err e

-- `ShouldBindJSON`: what the body decodes to, if `missing`, gin's validation of the required fields,
-- finds no error in them.
unfoldable pub bind :
    {A : Type 0}
    → (List FieldValue → Option Text)
    → (A → List FieldValue)
    → Result Text A
    → Result Text A
bind missing required (err e) = err e
bind missing required (ok r) = or_refused r (missing (required r))

unfoldable pub health_check : Time → HttpReply
health_check now = record { status = 200; body = alive now }

module _ (S : Storage) (describe : S.Err → Text) where
  open S use {Store, Err}

  unfoldable pub decided : Result (ServiceError Err) LimitResult → HttpReply
  decided (ok result) = record { status = 200; body = decision result }
  decided (err e) = record { status = 500; body = failure (error_text describe e) }

  unfoldable pub check_http : Readings → Context → Request → Exec (Service Store) HttpReply
  unfolding decided
  check_http t ctx r = do
    reply ←
        check_rate_limit S t ctx (or_default (r.query (codes "key")) (codes "default"))
          (or_default (r.query (codes "identifier")) r.client_ip)
          (or_default (r.query (codes "window")) (codes "minute"))
    pure (decided reply)

  unfoldable pub changed : Result (ServiceError Err) (Unit {0}) → HttpReply
  changed (ok _) = record { status = 200; body = success }
  changed (err e) = record { status = 500; body = failure (error_text describe e) }

  unfoldable pub whitelist_bound :
      Readings → Context → Result Text WhitelistRequest → Exec (Service Store) HttpReply
  unfolding changed
  whitelist_bound t ctx (err e) = pure (record { status = 400; body = failure e })
  whitelist_bound t ctx (ok r) = do
    reply ← update_whitelist S t ctx r.key r.identifier r.whitelisted
    pure (changed reply)

  -- `decoded` is what the JSON of the body decodes to.
  unfoldable pub update_whitelist_http :
      (List FieldValue → Option Text)
      → Readings
      → Context
      → Result Text WhitelistRequest
      → Exec (Service Store) HttpReply
  unfolding bind whitelist_required whitelist_bound
  update_whitelist_http missing t ctx decoded =
      whitelist_bound t ctx (bind missing whitelist_required decoded)

  unfoldable pub limit_bound :
      Readings → Context → Result Text LimitRequest → Exec (Service Store) HttpReply
  unfolding changed
  limit_bound t ctx (err e) = pure (record { status = 400; body = failure e })
  limit_bound t ctx (ok r) = do
    reply ← set_limit S t ctx r.key r.identifier r.window r.limit
    pure (changed reply)

  unfoldable pub set_limit_http :
      (List FieldValue → Option Text)
      → Readings
      → Context
      → Result Text LimitRequest
      → Exec (Service Store) HttpReply
  unfolding bind limit_required limit_bound
  set_limit_http missing t ctx decoded = limit_bound t ctx (bind missing limit_required decoded)

-- The client's address, or the key that it sends.
abbrev pub identifier_of : Request → Text
identifier_of r = or_default (r.get_header (codes "X-API-Key")) r.client_ip

unfoldable pub rest_calls : Time → Time → LimitResult → List GinCall
rest_calls epoch now result =
    header (codes "X-RateLimit-Reset") (format_int (unix epoch (add_time now result.reset_after)))
    ∷ (if result.limited
        then header (codes "Retry-After") (format_int (quot result.reset_after second))
          ∷ abort_json 429 (codes "Rate limit exceeded")
          ∷ []
        else next ∷ [])

unfoldable pub header_calls {ℓ} : {E : Type ℓ} → Time → Time → Result E LimitResult → List GinCall
unfolding rest_calls
header_calls epoch now (err e) = next ∷ []
header_calls epoch now (ok result) =
    header (codes "X-RateLimit-Limit") (format_int result.limit)
    ∷ header (codes "X-RateLimit-Remaining") (format_int result.remaining)
    ∷ rest_calls epoch now result

-- A failed check lets the request pass.
unfoldable pub rate_limit_http :
    (S : Storage)
    → Time
    → Readings
    → Time
    → Context
    → Request
    → Exec (Service S.Store) (List GinCall)
rate_limit_http S epoch t now ctx r = do
  reply ← check_rate_limit S t ctx (codes "api") (identifier_of r) (codes "minute")
  pure (header_calls epoch now reply)
