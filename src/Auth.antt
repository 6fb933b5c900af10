-- ===== src/Auth.antt =====
-- rate-limiter/internal/auth/auth.go: the store of API keys, whose methods take its mutex, and the
-- middlewares for keys, roles, headers, limits and basic authentication.
pub mod Keys
pub mod Configured
pub mod Refinement
pub mod Access
pub mod Basic
pub mod Limiting
mod Tests
use rate_limiter.Base.{
  ℕ, ◌+◌, ◌/◌, Bool, true, false, ◌&&◌, ◌||◌, not, Option, none, some, List, [], ◌∷◌, ◌++◌, ◌==◌,
  if◌then◌else◌,
}
use rate_limiter.Base.Dict.{Dict, lookup, insert, delete}
use rate_limiter.Base.Exec.{Result, ok, err, Exec, ◌>>=◌, ◌>>◌, pure, get}
use rate_limiter.Base.Int.{ℤ, pos, negsuc, ◌-ℤ◌}
use rate_limiter.Base.Rune.{rune_text}
use rate_limiter.Base.Sync.{
  Time, Duration, Context, zero_time, add_time, second, RwMutex, unlocked, r_lock, r_unlock, lock,
  unlock, Outcome, done, fatal,
}
use rate_limiter.Base.Text.{Text, codes, text_eq}
use rate_limiter.Config.Data.{Config, ApiKeyConfig}
use rate_limiter.Gin.{Request, GinCall, header, set, abort_json, abort_status, next}
use rate_limiter.Storage.{Storage}
use rate_limiter.Storage.Redis.{quot}
use rate_limiter.Service.{LimitResult, Readings, Service, ServiceError, check_rate_limit}

abbrev pub role_admin : Text
role_admin = codes "admin"

abbrev pub role_user : Text
role_user = codes "user"

abbrev pub role_read_only : Text
role_read_only = codes "readonly"

pub record ApiKey : Type 0 where
  pub key : Text
  pub role : Text
  pub is_active : Bool
  pub last_used : Time

pub record ApiKeyStore : Type 0 where
  pub keys : Dict ApiKey
  pub mutex : RwMutex

unfoldable pub on_mutex : (RwMutex → Outcome RwMutex) → Exec ApiKeyStore (Unit {0})
on_mutex f s = elim (f s.mutex) [ done m ↦ done (tt, record s { mutex = m }) | fatal e ↦ fatal e ]

unfoldable pub write_key : Text → ApiKey → Exec ApiKeyStore (Unit {0})
write_key k a s = done (tt, record s { keys = insert k a s.keys })

remove_key : Text → Exec ApiKeyStore (Unit {0})
remove_key k s = done (tt, record s { keys = delete k s.keys })

unfoldable pub add_key : Text → Text → Bool → Exec ApiKeyStore (Unit {0})
unfolding on_mutex write_key lock unlock
add_key k role active = do
  on_mutex lock
  write_key k (record { key = k; role = role; is_active = active; last_used = zero_time })
  on_mutex unlock

unfoldable pub delete_key : Text → Exec ApiKeyStore (Unit {0})
unfolding on_mutex remove_key lock unlock
delete_key k = do on_mutex lock; remove_key k; on_mutex unlock

unfoldable pub add_all : List ApiKeyConfig → Exec ApiKeyStore (Unit {0})
add_all [] = pure tt
add_all (c ∷ cs) = do add_key c.key c.role c.is_active; add_all cs

unfoldable pub new_api_key_store : Config → Outcome (Unit {0} × ApiKeyStore)
unfolding add_all
new_api_key_store cfg = add_all cfg.auth.api_keys (record { keys = []; mutex = unlocked })

-- Under the read lock: the key, if it exists and is active.
abbrev pub active : Option ApiKey → Option ApiKey
active none = none
active (some a) = if a.is_active then some a else none

-- `between` is what other goroutines do while `GetKey` holds no lock; the copy of the entry that it
-- read before is written back after it. The deferred `RUnlock` runs last.
get_active :
    Time → Exec ApiKeyStore (Unit {0}) → Text → Option ApiKey → Exec ApiKeyStore (Option ApiKey)
unfolding on_mutex write_key r_unlock r_lock lock unlock
get_active now between k none = do on_mutex r_unlock; pure none
get_active now between k (some a) = do
  let a' = record a { last_used = now }
  on_mutex r_unlock
  between
  on_mutex lock
  write_key k a'
  on_mutex unlock
  on_mutex r_lock
  on_mutex r_unlock
  pure (some a')

unfoldable pub get_key :
    Time → Exec ApiKeyStore (Unit {0}) → Text → Exec ApiKeyStore (Option ApiKey)
unfolding on_mutex r_lock get_active
get_key now between k = do
  on_mutex r_lock
  s ← get
  get_active now between k (active (lookup k s.keys))

-- The key that a request provides: its header, or else its query parameter.
abbrev pub provided : Request → Text
provided r =
    if text_eq (r.get_header (codes "X-API-Key")) []
    then r.query (codes "api_key")
    else r.get_header (codes "X-API-Key")

abbrev pub key_calls : Option ApiKey → List GinCall
key_calls none = abort_json 401 (codes "invalid API key") ∷ []
key_calls (some a) = set (codes "api_key") a.key ∷ set (codes "role") a.role ∷ next ∷ []

unfoldable pub key_auth : Time → Text → Bool → Exec ApiKeyStore (List GinCall)
key_auth now k true = pure (abort_json 401 (codes "missing API key") ∷ [])
key_auth now k false = do a ← get_key now (pure tt) k; pure (key_calls a)

unfoldable pub api_key_auth_middleware : Time → Request → Exec ApiKeyStore (List GinCall)
unfolding key_auth
api_key_auth_middleware now r = key_auth now (provided r) (text_eq (provided r) [])

-- The loop over the required roles.
unfoldable pub has_role : Text → List Text → Bool
has_role role [] = false
has_role role (required ∷ roles) =
    let rest = has_role role roles in
    if text_eq role role_admin || text_eq role required then true else rest

unfoldable pub role_calls : List Text → Option Text → List GinCall
role_calls roles none = abort_json 401 (codes "authorization required") ∷ []
role_calls roles (some role) =
    if has_role role roles
    then next ∷ []
    else abort_json 403 (codes "insufficient permissions") ∷ []

unfoldable pub role_auth_middleware : List Text → Request → List GinCall
role_auth_middleware roles r = role_calls roles (r.get (codes "role"))

unfoldable pub security_headers_middleware : List GinCall
security_headers_middleware =
    header (codes "X-Content-Type-Options") (codes "nosniff")
    ∷ header (codes "X-Frame-Options") (codes "DENY")
    ∷ header (codes "X-XSS-Protection") (codes "1; mode=block")
    ∷ header (codes "Strict-Transport-Security") (codes "max-age=31536000; includeSubDomains")
    ∷ header (codes "Content-Security-Policy") (codes "default-src 'self'")
    ∷ header (codes "Referrer-Policy") (codes "strict-origin-when-cross-origin")
    ∷ next
    ∷ []

unfoldable pub cors_security_middleware : Request → List GinCall
cors_security_middleware r =
    header (codes "Access-Control-Allow-Origin") (codes "*")
    ∷ header (codes "Access-Control-Allow-Methods") (codes "GET, POST, PUT, DELETE")
    ∷ header (codes "Access-Control-Allow-Headers") (codes "Content-Type, Authorization, X-API-Key")
    ∷ header (codes "Access-Control-Max-Age") (codes "86400")
    ∷ (if text_eq r.method (codes "OPTIONS") then abort_status 204 ∷ [] else next ∷ [])

abbrev pub identifier_of : Request → Text
identifier_of r = elim (r.get (codes "api_key")) [ none ↦ r.client_ip | some k ↦ k ]

-- Seconds, rounded down, as `Unix` does; `epoch` is 1970 on the clock's scale.
abbrev pub unix : Time → Time → ℤ
unix epoch t = elim (t -ℤ epoch) [ pos n ↦ pos (n / second) | negsuc n ↦ negsuc (n / second) ]

-- `string` makes a character of a number. The seconds of a duration are cut towards zero.
unfoldable pub limit_calls : Time → Time → LimitResult → List GinCall
limit_calls epoch now result =
    header (codes "X-RateLimit-Limit") (rune_text result.limit)
    ∷ header (codes "X-RateLimit-Remaining") (rune_text result.remaining)
    ∷ header (codes "X-RateLimit-Reset") (rune_text (unix epoch (add_time now result.reset_after)))
    ∷ (if result.limited
        then header (codes "Retry-After") (rune_text (quot result.reset_after second))
          ∷ abort_json 429 (codes "rate limit exceeded")
          ∷ []
        else next ∷ [])

unfoldable pub limited_calls {ℓ} : {E : Type ℓ} → Time → Time → Result E LimitResult → List GinCall
unfolding limit_calls
limited_calls epoch now (err e) = next ∷ []
limited_calls epoch now (ok result) = limit_calls epoch now result

unfoldable pub rate_limit_middleware :
    (S : Storage)
    → Time
    → Readings
    → Time
    → Context
    → Request
    → Exec (Service S.Store) (List GinCall)
rate_limit_middleware S epoch t now ctx r = do
  reply ← check_rate_limit S t ctx (codes "auth") (identifier_of r) (codes "minute")
  pure (limited_calls epoch now reply)
