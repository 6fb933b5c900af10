-- ===== src/Handler/Routes.antt =====
-- rate-limiter/internal/handler/http.go: the routes that RegisterRoutes gives to gin.
use rate_limiter.Base.{Bool, true, false, List, [], ◌∷◌, ◌++◌, map, if◌then◌else◌}
use rate_limiter.Base.Text.{Text, codes}

-- The handlers of the routes.
pub data Endpoint : Type 0 where
  on_health_check on_check_rate_limit on_update_whitelist on_set_limit on_resource : Endpoint

-- Whether the middleware for rate limits stands before the handler.
pub record Route : Type 0 where
  pub method : Text
  pub path : Text
  pub limited : Bool
  pub endpoint : Endpoint

-- `router.Group` and `Use`: the prefix and the middleware of a group.
abbrev pub group : Text → Bool → List Route → List Route
group prefix limited routes =
    map
      (λ (r : Route). record {
        method = r.method;
        path = prefix ++ r.path;
        limited = if limited then true else r.limited;
        endpoint = r.endpoint;
      })
      routes

abbrev pub handle_get : Text → Endpoint → List Route
handle_get path e = record { method = codes "GET"; path = path; limited = false; endpoint = e } ∷ []

abbrev pub handle_post : Text → Endpoint → List Route
handle_post path e =
    record { method = codes "POST"; path = path; limited = false; endpoint = e } ∷ []

unfoldable pub register_routes : List Route
register_routes =
    handle_get (codes "/health") on_health_check
    ++ (group (codes "/api/v1") false (
          handle_get (codes "/check") on_check_rate_limit
          ++ group (codes "/management") false (
              handle_post (codes "/whitelist") on_update_whitelist
              ++ handle_post (codes "/limit") on_set_limit))
        ++ group (codes "/protected") true (handle_get (codes "/resource") on_resource))
