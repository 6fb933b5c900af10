-- ===== src/Auth/Tests.antt =====
-- rate-limiter/internal/auth/auth.go: the theorems at concrete keys and requests.
use rate_limiter.Base.{
  ◌≡◌, ◌≢◌, refl, ◌↔◌, true, false, none, some, List, [], ◌∷◌, ◌++◌, arith, if◌then◌else◌, ℕ, ◌+◌,
}
use rate_limiter.Base.Dict.{lookup}
use rate_limiter.Base.Exec.{ok}
use rate_limiter.Base.Int.{pos, ◌≤ℤ◌}
use rate_limiter.Base.Sync.{unlocked, done}
use rate_limiter.Base.Text.{codes, text_eq}
use rate_limiter.Base.Split.{join, spaceless, lacks}
use rate_limiter.Config.{Config, Viper, config_file_not_found, Environment, load}
use rate_limiter.Config.Sample.{sample}
use rate_limiter.Config.Keys.{all_plain}
use rate_limiter.Auth.Refinement.{
  getting, deleting, perform_all, promised_all, view, store_refines_map,
}
use rate_limiter.Auth.Configured.{role_in, env_key_opens}
use rate_limiter.Storage.{Storage}
use rate_limiter.Service.{Service, Readings, Limit, new_service}
use rate_limiter.Gin.{Request, GinCall, passes}
use rate_limiter.Auth.{
  ApiKey, ApiKeyStore, active, provided, get_key, delete_key, new_api_key_store,
  rate_limit_middleware,
}
use rate_limiter.Auth.Keys.{used_at, deleted_key_returns}
use rate_limiter.Auth.Access.{authorize, MayUse, HasAccess, authorize_iff}
use rate_limiter.Auth.Basic.{basic_auth_middleware, basic_iff}
use rate_limiter.Auth.Limiting.{middleware_limits}

abbrev reader : ApiKey
reader = record { key = codes "k1"; role = codes "readonly"; is_active = true; last_used = pos 0 }

abbrev store : ApiKeyStore
store = record { keys = (codes "k1", reader) ∷ []; mutex = unlocked }

-- A request with the key, and with basic authentication.
abbrev request : Request
request = record {
  get_header = λ k.
      if text_eq k (codes "X-API-Key")
      then codes "k1"
      else if text_eq k (codes "Authorization")
      then codes "Basic bob:s:t"
      else [];
  query = λ k. [];
  get = λ k. none;
  client_ip = codes "10.0.0.1";
  method = codes "GET";
}

deleted_key_returns_example :
    (s' : ApiKeyStore) × (get_key (pos 7) (delete_key (codes "k1")) (codes "k1") store
      ≡ done (some (used_at (pos 7) reader), s'))
    × (s'.mutex ≡ unlocked)
    × (active (lookup (codes "k1") s'.keys) ≡ some (used_at (pos 7) reader))
unfolding lookup text_eq
deleted_key_returns_example = deleted_key_returns (pos 7) (codes "k1") store reader refl refl refl

authorize_iff_example :
    (calls : List GinCall) × (s' : ApiKeyStore) × (authorize
        (pos 7)
        (codes "user" ∷ codes "readonly" ∷ [])
        request
        store
      ≡ done (calls, s'))
    × ((passes calls ≡ true) ↔ HasAccess store request (codes "user" ∷ codes "readonly" ∷ []))
authorize_iff_example =
    authorize_iff (pos 7) (codes "user" ∷ codes "readonly" ∷ []) request store refl

-- "Basic bob:s:t": the password keeps its colon.
basic_iff_example : (passes (basic_auth_middleware (codes "bob") (codes "s:t") request) ≡ true) ↔ (
    request.get_header (codes "Authorization")
    ≡ codes "Basic " ++ (codes "bob" ++ 58 ∷ codes "s:t"))
basic_iff_example = basic_iff (codes "bob") (codes "s:t") request (
  (λ e. absurd (omega (arith, e))),
  ((λ e. absurd (omega (arith, e))), ((λ e. absurd (omega (arith, e))), tt)),
)

-- A storage with one counter.
abbrev counter : Storage
counter = record {
  Store = ℕ;
  Err = Unit {0};
  increment_and_count = λ now ctx key window n. (n + 1, ok (pos (n + 1)));
  is_whitelisted = λ now ctx key n. (n, ok false);
  update_whitelist = λ now ctx key listed n. (n, ok tt);
  set_limit = λ now ctx key window limit n. (n, ok tt);
  get_limit = λ now ctx key window n. (n, ok (pos 0));
}

abbrev at5 : Readings
at5 = record { checked = pos 5; rechecked = pos 5; called = pos 5; noted = pos 5 }

abbrev ten : Limit
ten = record { requests = pos 10; window = pos 60000000000 }

abbrev limiter : Service ℕ
limiter = new_service 3 ((codes "minute", ten) ∷ [])

middleware_limits_example :
    (calls : List GinCall) × (s' : Service ℕ) × (rate_limit_middleware counter
        (pos 0)
        at5
        (pos 6)
        none
        request
        limiter
      ≡ done (calls, s'))
    × ((passes calls ≡ true) ↔ (pos 4 ≤ℤ pos 10))
    × (s'.mutex ≡ unlocked)
unfolding new_service lookup text_eq
middleware_limits_example =
    middleware_limits counter (pos 0) at5 (pos 6) none request limiter ten (pos 0) (pos 4) 4
      (record { free = refl; shut = refl })
      (record {
        known = refl;
        after_whitelist = 3;
        after_limit = 3;
        not_listed = refl;
        custom_limit = refl;
        counts = refl;
      })
      (omega arith, omega arith) (omega arith, omega arith) (omega arith, omega arith) (omega arith)
      (omega arith)

-- viper without a file, and an environment that gives the file's administrator another role.
abbrev fileless : Viper
fileless = record {
  read_in_config = λ calls. some (config_file_not_found (codes "config"));
  unmarshal = λ calls. ok sample;
}

abbrev two_keys : Environment
two_keys name =
    if text_eq name (codes "RATELIMITER_API_KEYS") then codes "k1:readonly,k2:user" else []

key_given : provided request ≢ []
unfolding text_eq
key_given e = cc

env_key_opens_example :
    (c : Config) × (s : ApiKeyStore) × (calls : List GinCall) × (s' : ApiKeyStore) × (load fileless
        two_keys
      ≡ ok c)
    × (new_api_key_store c ≡ done (tt, s))
    × (authorize (pos 7) (codes "user" ∷ []) request s ≡ done (calls, s'))
    × ((passes calls ≡ true) ↔ MayUse (codes "readonly") (codes "user" ∷ []))
unfolding text_eq role_in all_plain join spaceless lacks
env_key_opens_example =
    env_key_opens fileless two_keys sample (codes "k1", codes "readonly")
      ((codes "k2", codes "user") ∷ []) (pos 7) (codes "user" ∷ []) request (codes "readonly") tt
      refl refl refl key_given refl

store_refines_map_example :
    let calls =
      getting (pos 7) (codes "k1") ∷ deleting (codes "k1") ∷ getting (pos 8) (codes "k1") ∷ [] in
    (s' : ApiKeyStore) × (perform_all calls store ≡ done ((promised_all calls (view store)).1, s'))
    × (s'.mutex ≡ unlocked)
    × (view s' ≡ (promised_all calls (view store)).0)
store_refines_map_example =
    store_refines_map
      (getting (pos 7) (codes "k1") ∷ deleting (codes "k1") ∷ getting (pos 8) (codes "k1") ∷ [])
      store refl

last_get_fails :
    (promised_all
      (getting (pos 7) (codes "k1") ∷ deleting (codes "k1") ∷ getting (pos 8) (codes "k1") ∷ [])
      (view store)).1
    ≡ some (used_at (pos 7) reader) ∷ none ∷ none ∷ []
unfolding promised_all lookup text_eq
last_get_fails = refl
