-- ===== src/Handler/Tests.antt =====
-- rate-limiter/internal/handler/http.go and grpc.go: the theorems at concrete requests.
use rate_limiter.Base.{
  Bool, map, ℕ, ◌+◌, ◌≡◌, refl, ◌⊎◌, inl, true, false, ◌&&◌, All, Option, none, some, List, [], ◌∷◌,
  arith, if◌then◌else◌,
}
use rate_limiter.Base.Decimal.{atoi}
use rate_limiter.Base.Exec.{Result, ok, ◌>>=◌, pure}
use rate_limiter.Base.Int.{pos, leb_ℤ}
use rate_limiter.Base.Sync.{done}
use rate_limiter.Base.Text.{Text, codes, text_eq, text_eq_iff, ne_of_text_eq}
use rate_limiter.Storage.{Storage}
use rate_limiter.Service.{
  Service, Readings, Limit, new_service, full_key, update_whitelist, unlimited,
}
use rate_limiter.Service.Decision.{check_uncounted}
use rate_limiter.Gin.{Request, GinCall, passes}
use rate_limiter.Handler.Routes.{Route, register_routes}
use rate_limiter.Handler.Http.{
  failure, WhitelistRequest, FieldValue, text_field, bool_field, int_field, update_whitelist_http,
  changed, check_http, rate_limit_http,
}
use rate_limiter.Handler.Grpc.{check_grpc}
use rate_limiter.Handler.Agreement.{as_grpc, map_outcome, grpc_request, http_grpc_agree}
use rate_limiter.Handler.Updates.{IsZero, HasAll, http_only_adds}
use rate_limiter.Handler.Headers.{limit_headers, headers_read_back}

abbrev counter : Storage
counter = record {
  Store = ℕ;
  Err = Unit {0};
  increment_and_count = λ now ctx key window n. (n + 1, ok (pos (n + 1)));
  is_whitelisted = λ now ctx key n. (n, ok (text_eq key (codes "api:vip")));
  update_whitelist = λ now ctx key listed n. (n, ok tt);
  set_limit = λ now ctx key window limit n. (n, ok tt);
  get_limit = λ now ctx key window n. (n, ok (pos 0));
}

abbrev describe : Unit {0} → Text
describe e = codes "gone"

abbrev at5 : Readings
at5 = record { checked = pos 5; rechecked = pos 5; called = pos 5; noted = pos 5 }

abbrev ten : Limit
ten = record { requests = pos 10; window = pos 60000000000 }

abbrev limiter : Service ℕ
limiter = new_service 3 ((codes "minute", ten) ∷ [])

-- identifier=u1, and the API key "vip".
abbrev request : Request
request = record {
  get_header = λ k. if text_eq k (codes "X-API-Key") then codes "vip" else [];
  query = λ k. if text_eq k (codes "identifier") then codes "u1" else [];
  get = λ k. none;
  client_ip = codes "10.0.0.1";
  method = codes "GET";
}

http_grpc_agree_example :
    check_grpc counter describe at5 none (grpc_request request) limiter
    ≡ map_outcome as_grpc (check_http counter describe at5 none request limiter)
unfolding text_eq
http_grpc_agree_example =
    http_grpc_agree counter describe at5 none request limiter (ne_of_text_eq (codes "u1") [] refl)

abbrev listing : WhitelistRequest
listing = record { key = codes "api"; identifier = codes "u1"; whitelisted = true }

-- A validation that refuses zero values.
abbrev first_zero : List FieldValue → Option Text
first_zero [] = none
first_zero (text_field t ∷ vs) =
    let rest = first_zero vs in if text_eq t [] then some (codes "required") else rest
first_zero (bool_field b ∷ vs) =
    let rest = first_zero vs in if b then rest else some (codes "required")
first_zero (int_field n ∷ vs) =
    let rest = first_zero vs in
    if leb_ℤ n (pos 0) && leb_ℤ (pos 0) n then some (codes "required") else rest

first_zero-passes : (vs : List FieldValue) → first_zero vs ≡ none → All (λ v. IsZero v → ⊥) vs
first_zero-passes [] h = tt
first_zero-passes (text_field t ∷ vs) h =
    ((λ z. ground (arith, text_eq_iff t [], z)), first_zero-passes vs (ground arith))
first_zero-passes (bool_field b ∷ vs) h =
    ((λ z. ground (arith, z)), first_zero-passes vs (ground arith))
first_zero-passes (int_field n ∷ vs) h =
    ((λ z. ground (arith, z)), first_zero-passes vs (ground arith))

first_zero-refuses :
    (vs : List FieldValue) (e : Text) → first_zero vs ≡ some e → All (λ v. IsZero v → ⊥) vs → ⊥
first_zero-refuses [] e h a = cc
first_zero-refuses (text_field t ∷ vs) e h a =
    ground
      (arith, text_eq_iff t [], a.0, λ (q : first_zero vs ≡ some e). first_zero-refuses vs e q a.1)
first_zero-refuses (bool_field b ∷ vs) e h a =
    ground (arith, a.0, λ (q : first_zero vs ≡ some e). first_zero-refuses vs e q a.1)
first_zero-refuses (int_field n ∷ vs) e h a =
    ground (arith, a.0, λ (q : first_zero vs ≡ some e). first_zero-refuses vs e q a.1)

http_only_adds_example :
    ((r : WhitelistRequest) × (◌≡◌ {A = Result Text WhitelistRequest} (ok listing) (ok r))
      × HasAll r
      × (update_whitelist_http counter describe first_zero at5 none (ok listing) limiter
          ≡ (update_whitelist counter at5 none r.key r.identifier true >>= λ reply.
                pure (changed counter describe reply))
              limiter))
    ⊎ (((r : WhitelistRequest)
          → ◌≡◌ {A = Result Text WhitelistRequest} (ok listing) (ok r)
          → HasAll r
          → ⊥)
        × ((e : Text) × (update_whitelist_http counter describe first_zero at5 none
                (ok listing)
                limiter
              ≡ done (record { status = 400; body = failure e }, limiter))))
http_only_adds_example =
    http_only_adds counter describe at5 none first_zero (ok listing) limiter
      (record { passes = first_zero-passes; refuses = first_zero-refuses })

-- The key "vip" is whitelisted: a decision without a limit.
headers_read_back_example :
    (limit remaining : Text) × (rest : List GinCall) × (rate_limit_http counter
        (pos 0)
        at5
        (pos 6)
        none
        request
        limiter
      ≡ done (limit_headers limit remaining rest, limiter))
    × (atoi limit ≡ some (pos 0))
    × (atoi remaining ≡ some (pos 0))
    × (passes rest ≡ true)
unfolding text_eq new_service full_key
headers_read_back_example =
    headers_read_back counter (pos 0) (pos 6) at5 none request limiter limiter
      (unlimited (codes "minute")) (omega arith, omega arith) (omega arith, omega arith)
      (check_uncounted counter at5 none (codes "api") (codes "vip") (codes "minute") limiter 3 true
        (record { free = refl; shut = refl }) refl (inl refl))

-- The paths in the order of their registration, and the one behind the middleware.
registered :
    map {B = Text × Bool} (λ (r : Route). (r.path, r.limited)) register_routes
    ≡ (codes "/health", false)
      ∷ (codes "/api/v1/check", false)
      ∷ (codes "/api/v1/management/whitelist", false)
      ∷ (codes "/api/v1/management/limit", false)
      ∷ (codes "/protected/resource", true)
      ∷ []
unfolding register_routes
registered = refl
