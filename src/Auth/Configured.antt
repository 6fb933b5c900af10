-- ===== src/Auth/Configured.antt =====
-- rate-limiter/internal/auth/auth.go and config/config.go: the key store that the loaded
-- configuration makes, and the requests that it lets through.
use rate_limiter.Base.{
  ◌≡◌, ◌≢◌, ◌↔◌, subst, refl, ap, ◌∙◌, true, Option, none, some, List, [], ◌∷◌, ◌++◌, map, arith,
  if◌then◌else◌,
}
use rate_limiter.Base.Dict.{Dict, lookup, insert, lookup-insert}
use rate_limiter.Base.Exec.{ok}
use rate_limiter.Base.Sync.{Time, done, zero_time, unlocked, lock, unlock}
use rate_limiter.Base.Text.{Text, codes, text_eq, text_eq_iff}
use rate_limiter.Auth.{provided, ApiKey, ApiKeyStore, add_key, add_all, new_api_key_store}
use rate_limiter.Auth.Access.{authorize, HasAccess, MayUse, authorize_iff}
use rate_limiter.Config.{
  Config, ApiKeyConfig, Environment, Viper, ViperError, config_file_not_found, other_error,
  configure, load, read_past, finish_load, load_secrets_from_env, env_keys,
}
use rate_limiter.Config.Keys.{listing, granted, all_plain, env_keys-listing}
use rate_limiter.Gin.{Request, GinCall, passes}

-- The entry that a configured key makes.
abbrev pub unused : ApiKeyConfig → ApiKey
unused c = record { key = c.key; role = c.role; is_active = c.is_active; last_used = zero_time }

-- What `m` holds after these keys are added.
unfoldable pub added : List ApiKeyConfig → Dict ApiKey → Dict ApiKey
added [] m = m
added (c ∷ cs) m = added cs (insert c.key (unused c) m)

add_all_lem :
    (cs : List ApiKeyConfig) (m : Dict ApiKey)
    → add_all cs (record { keys = m; mutex = unlocked })
      ≡ done (tt, record { keys = added cs m; mutex = unlocked })
unfolding add_all add_key added lock unlock
add_all_lem [] m = refl
add_all_lem (c ∷ cs) m = add_all_lem cs (insert c.key (unused c) m)

-- The last of these keys whose text is `k`.
unfoldable pub last_of : Text → List ApiKeyConfig → Option ApiKeyConfig
last_of k [] = none
last_of k (c ∷ cs) = elim (last_of k cs) [
  | some d ↦ some d
  | none ↦ if text_eq c.key k then some c else none
]

abbrev pub or_held : Option ApiKeyConfig → Option ApiKey → Option ApiKey
or_held none held = held
or_held (some c) held = some (unused c)

lookup-added :
    (k : Text) (cs : List ApiKeyConfig) (m : Dict ApiKey)
    → lookup k (added cs m) ≡ or_held (last_of k cs) (lookup k m)
unfolding added last_of
lookup-added k [] m = refl
lookup-added k (c ∷ cs) m =
    ground
      (arith, lookup-added k cs (insert c.key (unused c) m), lookup-insert c.key k (unused c) m)

-- The store of a configuration comes into being with its mutex free, and holds under each text the
-- last configured key of that text, with its role, active or not, and never used.
new_api_key_store_lem :
    (cfg : Config)
    → (s : ApiKeyStore) × (new_api_key_store cfg ≡ done (tt, s))
      × (s.mutex ≡ unlocked)
      × ((k : Text) → lookup k s.keys ≡ or_held (last_of k cfg.auth.api_keys) none)
unfolding new_api_key_store lookup
new_api_key_store_lem cfg = (
  record { keys = added cfg.auth.api_keys []; mutex = unlocked },
  add_all_lem cfg.auth.api_keys [],
  refl,
  λ k. lookup-added k cfg.auth.api_keys [],
)

-- The role in the last pair of key `k`.
unfoldable pub role_in : Text → List (Text × Text) → Option Text
role_in k [] = none
role_in k ((key, role) ∷ ps) = elim (role_in k ps) [
  | some r ↦ some r
  | none ↦ if text_eq key k then some role else none
]

last_of-append :
    (k : Text) (xs ys : List ApiKeyConfig) {c : ApiKeyConfig}
    → last_of k ys ≡ some c
    → last_of k (xs ++ ys) ≡ some c
unfolding last_of
last_of-append k [] ys h = h
last_of-append k (x ∷ xs) ys h = rw (last_of-append k xs ys h) refl

last_of-granted :
    (k : Text) (ps : List (Text × Text))
    → last_of k (map granted ps)
      ≡ elim (role_in k ps) [ some role ↦ some (granted (k, role)) | none ↦ none ]
unfolding last_of role_in
last_of-granted k [] = refl
last_of-granted k ((key, role) ∷ ps) = ground (arith, last_of-granted k ps, text_eq_iff key k)

-- The file was read, or is missing.
abbrev pub IsTolerated : Option ViperError → Type 0
IsTolerated none = Unit
IsTolerated (some (config_file_not_found e)) = Unit
IsTolerated (some (other_error e)) = ⊥

read_past-IsTolerated :
    (env : Environment) (cfg : Config) (o : Option ViperError)
    → IsTolerated o
    → read_past env o (ok cfg) ≡ ok (load_secrets_from_env env cfg)
unfolding read_past finish_load
read_past-IsTolerated env cfg none h = refl
read_past-IsTolerated env cfg (some (config_file_not_found e)) h = refl
read_past-IsTolerated env cfg (some (other_error e)) h = elim h [ ]

access_of_key :
    (s : ApiKeyStore) (r : Request) (roles : List Text) (a : ApiKey)
    → provided r ≢ []
    → lookup (provided r) s.keys ≡ some a
    → a.is_active ≡ true
    → HasAccess s r roles ↔ MayUse a.role roles
access_of_key s r roles a given found on = (
  λ (b, h, f, i, m). let q : b ≡ a = cc in subst (λ (x : ApiKey). MayUse x.role roles) q m,
  λ m. (a, given, found, on, m),
)

-- The variable RATELIMITER_API_KEYS lists keys with roles, none of which has a space, a comma or a
-- colon. Where viper reads its file or finds none, and decodes it, the configuration loads; its key
-- store is made; and a request that provides a listed key passes the two middlewares exactly when
-- the role of that key's last entry in the list may use the route, whatever the file says of the
-- key.
pub env_key_opens :
    (v : Viper) (env : Environment) (cfg : Config) (p : Text × Text) (ps : List (Text × Text))
    (now : Time) (roles : List Text) (r : Request) (role : Text)
    → IsTolerated (v.read_in_config configure)
    → v.unmarshal configure ≡ ok cfg
    → env (codes "RATELIMITER_API_KEYS") ≡ listing p ps
    → all_plain (p ∷ ps) ≡ true
    → provided r ≢ []
    → role_in (provided r) (p ∷ ps) ≡ some role
    → (c : Config) × (s : ApiKeyStore) × (calls : List GinCall) × (s' : ApiKeyStore) × (load v env
        ≡ ok c)
      × (new_api_key_store c ≡ done (tt, s))
      × (authorize now roles r s ≡ done (calls, s'))
      × ((passes calls ≡ true) ↔ MayUse role roles)
unfolding load load_secrets_from_env
env_key_opens v env cfg p ps now roles r role tolerated parsed listed plain given has =
    let k = provided r in
    let c = load_secrets_from_env env cfg in
    let loaded : load v env ≡ ok c =
      ap (λ o. read_past env (v.read_in_config configure) o) parsed
      ∙ read_past-IsTolerated env cfg (v.read_in_config configure) tolerated in
    let keys : env_keys (env (codes "RATELIMITER_API_KEYS")) ≡ map granted (p ∷ ps) =
      ap env_keys listed ∙ env_keys-listing p ps plain in
    let last : last_of k c.auth.api_keys ≡ some (granted (k, role)) =
      last_of-append k cfg.auth.api_keys (env_keys (env (codes "RATELIMITER_API_KEYS")))
        (ap (last_of k) keys ∙ last_of-granted k (p ∷ ps) ∙ rw has refl) in
    let (s, made, free, held) = new_api_key_store_lem c in
    let found : lookup k s.keys ≡ some (unused (granted (k, role))) =
      held k ∙ ap (λ o. or_held o none) last in
    let (calls, s', ran, passed) = authorize_iff now roles r s free in
    let access = access_of_key s r roles (unused (granted (k, role))) given found refl in
    (c, s, calls, s', loaded, made, ran, (λ h. access.0 (passed.0 h), λ m. passed.1 (access.1 m)))
