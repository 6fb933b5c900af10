-- ===== src/Logging/Tests.antt =====
-- rate-limiter/internal/logging/logger.go: the theorems at a concrete logger and request.
use rate_limiter.Base.{◌≡◌, ◌≢◌, ◌⊎◌, ◌↔◌, refl, Option, none, some, List, [], ◌∷◌, ◌++◌}
use mathlib.Core.List.{Perm}
use mathlib.Core.List.Perm
use rate_limiter.Base.Int.{pos}
use rate_limiter.Base.Sync.{since}
use rate_limiter.Base.Text.{codes, text_eq}
use rate_limiter.Config.Sample.{sample_logging}
use rate_limiter.Gin.{Request, next}
use rate_limiter.Logging.{
  Logger, level_info, string_value, Values, Served, Fresh, new_logger, correlation_of,
  correlation_id_key, logging_middleware, correlation_id_middleware, request_context, level_of,
  LogCall, ask, Attr, writes, request_fields,
}
use rate_limiter.Logging.Requests.{
  IsSilent, line_after, attrs_of, user_of, request_logged, context_after, correlation_id_kept_iff,
}

abbrev info_logger : Logger
info_logger = new_logger sample_logging

abbrev background : Values
background key = none

abbrev plain_request : Request
plain_request = record {
  get_header = λ k. [];
  query = λ k. [];
  get = λ k. none;
  client_ip = codes "10.0.0.1";
  method = codes "GET";
}

abbrev fresh : Fresh
fresh = record {
  correlation_id = codes "c1";
  request_id = codes "r1";
  start = pos 1000;
  finish = pos 9000;
  ranged = λ xs. xs;
}

abbrev served : Values → Served
served ctx = record {
  context = ctx;
  url_path = codes "/health";
  raw_query = codes "a=1";
  status = 404;
  method = codes "GET";
  client_ip = codes "10.0.0.1";
  user_agent = [];
  size = pos 12;
}

same_context :
    (s : Served)
    → ◌≡◌ {A = Option Served}
        (some (served (request_context fresh background none plain_request)))
        (some s)
    → s.context ≡ request_context fresh background none plain_request
same_context s e = cc

request_logged_example :
    let chain : Values → Option Served = λ ctx. some (served ctx) in
    (before : List LogCall) × (fields : Served → List Attr) × (logging_middleware info_logger fresh
        background none plain_request chain
      ≡ before
        ++ ask next
          ∷ writes (
              line_after info_logger
                (attrs_of info_logger
                  (some (
                    string_value (
                      correlation_of
                        (plain_request.get_header (codes "X-Correlation-ID"))
                        (codes "c1"))))
                  (some (string_value (codes "r1")))
                  (user_of none background))
                fields
                (chain (request_context fresh background none plain_request))))
    × IsSilent before
    × ((s : Served) → Perm (fields s) (request_fields (since (pos 9000) (pos 1000)) s))
request_logged_example =
    request_logged info_logger fresh background none plain_request (λ ctx. some (served ctx))
      (λ s e. same_context s e) (λ xs. Perm.refl xs)

correlation_id_kept_iff_example :
    let between =
      context_after background (correlation_id_middleware (codes "c0") background plain_request) in
    (request_context fresh between none plain_request correlation_id_key
      ≡ between correlation_id_key)
    ↔ ((plain_request.get_header (codes "X-Correlation-ID") ≢ []) ⊎ (codes "c1" ≡ codes "c0"))
correlation_id_kept_iff_example =
    correlation_id_kept_iff (codes "c0") fresh background none plain_request

-- Levels that are not known are the level of information.
unknown_level : level_of (codes "trace") ≡ level_info
unfolding level_of text_eq
unknown_level = refl
