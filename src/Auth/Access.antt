-- ===== src/Auth/Access.antt =====
-- rate-limiter/internal/auth/auth.go: the middlewares for keys and for roles, one after the other.
use rate_limiter.Base.{
  ◌≡◌, ◌≢◌, refl, subst, ◌⊎◌, ◌↔◌, Bool, true, false, Option, none, some, List, [], ◌∷◌, arith,
  if◌then◌else◌,
}
use rate_limiter.Base.Dict.{lookup}
use rate_limiter.Base.Exec.{Exec, pure, ◌>>=◌}
use rate_limiter.Base.Sync.{Time, done, unlocked}
use rate_limiter.Base.Text.{Text, codes, text_eq, text_eq_iff}
use rate_limiter.Gin.{Request, GinCall, abort_json, passes, after}
use rate_limiter.Auth.{
  ApiKey, ApiKeyStore, active, provided, key_calls, key_auth, api_key_auth_middleware, has_role,
  role_calls, role_auth_middleware, role_admin,
}
use rate_limiter.Auth.Keys.{returned, get_key_lem}

-- A route that is guarded by both: the second one runs if the first one passes the request on.
unfoldable pub authorize : Time → List Text → Request → Exec ApiKeyStore (List GinCall)
authorize now roles r = do
  calls ← api_key_auth_middleware now r
  pure (if passes calls then role_auth_middleware roles (after calls r) else calls)

abbrev pub Has : Text → List Text → Type 0
Has role [] = ⊥
Has role (x ∷ xs) = (role ≡ x) ⊎ Has role xs

-- One of the roles, or the administrator where there is any.
abbrev pub MayUse : Text → List Text → Type 0
MayUse role roles = Has role roles ⊎ ((role ≡ role_admin) × (roles ≢ []))

abbrev pub HasAccess : ApiKeyStore → Request → List Text → Type 0
HasAccess s r roles =
    (a : ApiKey) × (provided r ≢ [])
    × (lookup (provided r) s.keys ≡ some a)
    × (a.is_active ≡ true)
    × MayUse a.role roles

has_role_iff : (role : Text) (roles : List Text) → (has_role role roles ≡ true) ↔ MayUse role roles
unfolding has_role
has_role_iff role [] = ground arith
has_role_iff role (x ∷ xs) =
    ground (arith, text_eq_iff role role_admin, text_eq_iff role x, has_role_iff role xs)

-- The calls of the first middleware, by whether the key is missing and by what is found, and those
-- of both.
abbrev first_calls : Bool → Option ApiKey → List GinCall
first_calls true o = abort_json 401 (codes "missing API key") ∷ []
first_calls false o = key_calls o

abbrev both_calls : List Text → Request → List GinCall → List GinCall
both_calls roles r calls =
    if passes calls then role_auth_middleware roles (after calls r) else calls

key_auth_lem :
    (now : Time) (k : Text) (b : Bool) (s : ApiKeyStore)
    → s.mutex ≡ unlocked
    → (s' : ApiKeyStore) × (key_auth now k b s
        ≡ done (first_calls b (returned now (active (lookup k s.keys))), s'))
unfolding key_auth
key_auth_lem now k true s free = (s, refl)
key_auth_lem now k false s free =
    let (s', e, m, rest) = get_key_lem now k s free in (s', rw (e, ◌>>=◌))

role_calls_iff :
    (role : Text) (roles : List Text)
    → (passes (role_calls roles (some role)) ≡ true) ↔ MayUse role roles
unfolding passes role_calls
role_calls_iff role roles = ground (arith, has_role_iff role roles)

both_calls_iff :
    (now : Time) (roles : List Text) (r : Request) (b : Bool) (o : Option ApiKey)
    → (passes (both_calls roles r (first_calls b (returned now o))) ≡ true)
      ↔ ((a : ApiKey) × (b ≡ false) × (o ≡ some a) × MayUse a.role roles)
unfolding passes after role_auth_middleware text_eq
both_calls_iff now roles r true o = (λ h. cc, λ (a, h, e, m). cc)
both_calls_iff now roles r false none = (λ h. cc, λ (a, h, e, m). cc)
both_calls_iff now roles r false (some a) = (
  λ h. (a, refl, refl, (role_calls_iff a.role roles).0 h),
  λ (a', h, e, m).
      let q : a' ≡ a = cc in
      (role_calls_iff a.role roles).1 (subst (λ (x : ApiKey). MayUse x.role roles) q m),
)

active_iff :
    (o : Option ApiKey) (a : ApiKey) → (active o ≡ some a) ↔ ((o ≡ some a) × (a.is_active ≡ true))
active_iff none a = ground arith
active_iff (some x) a = ground arith

-- A request on a free store comes back from the two middlewares, and passes them exactly when it
-- provides the text of a key that is in the store and active, and whose role is one of the
-- required roles, or is the administrator's where at least one role is required.
pub authorize_iff :
    (now : Time) (roles : List Text) (r : Request) (s : ApiKeyStore)
    → s.mutex ≡ unlocked
    → (calls : List GinCall) × (s' : ApiKeyStore) × (authorize now roles r s ≡ done (calls, s'))
      × ((passes calls ≡ true) ↔ HasAccess s r roles)
unfolding authorize api_key_auth_middleware
authorize_iff now roles r s free =
    let k = provided r in
    let o = lookup k s.keys in
    let (s', e) = key_auth_lem now k (text_eq k []) s free in
    let i = both_calls_iff now roles r (text_eq k []) (active o) in
    (
      both_calls roles r (first_calls (text_eq k []) (returned now (active o))),
      s',
      rw (e, ◌>>=◌),
      (
        λ h.
            let (a, m, f, u) = i.0 h in
            let (found, on) = (active_iff o a).0 f in
            (a, ground (arith, m, text_eq_iff k []), found, on, u),
        λ (a, m, found, on, u).
            i.1 (a, ground (arith, m, text_eq_iff k []), (active_iff o a).1 (found, on), u),
      ),
    )
