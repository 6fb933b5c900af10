-- ===== src/Logging/Requests.antt =====
-- rate-limiter/internal/logging/logger.go: what the middlewares do for a request.
use rate_limiter.Base.{
  ℕ, ◌+◌, ◌≡◌, ◌≢◌, ◌⊎◌, ◌↔◌, refl, ap, ◌∙◌, Option, none, some, List, [], ◌∷◌, ◌++◌, leb, arith,
  if◌then◌else◌,
}
use mathlib.Core.List.{Perm}
use rate_limiter.Base.Int.{leb_ℤ}
use rate_limiter.Base.Sync.{Duration, since}
use rate_limiter.Base.Text.{Text, codes, text_eq_iff}
use rate_limiter.Gin.{Request, header, set, abort_json, abort_status, next}
use rate_limiter.Logging.{
  Logger, Level, level_info, level_warn, level_error, Attr, CtxValue, string_value, Values,
  correlation_id_key, request_id_key, user_id_key, Line, LogCall, ask, with_context, write, Served,
  Fresh, request_fields, log_served, log_by, after_next, correlation_of, announce, user_calls,
  with_value, correlation_id_middleware, logging_middleware, log_at, with_context_values,
  request_context, writes,
}
use rate_limiter.Logging.Levels.{present, with_context_values_lem, with_fields_lem}

-- The level of a request's line, and its message.
abbrev pub severity_of : ℕ → Level
severity_of status =
    if leb 500 status then level_error else if leb 400 status then level_warn else level_info

abbrev pub message_of : ℕ → Text
message_of status =
    if leb 500 status
    then codes "Server error"
    else if leb 400 status
    then codes "Client error"
    else codes "Request completed"

-- The line, where the handler takes its level.
abbrev pub line_of : Logger → List Attr → List Attr → Served → List Line
line_of l attrs fields s =
    if leb_ℤ l.handler.level (severity_of s.status)
    then record {
      severity = severity_of s.status;
      message = message_of s.status;
      attrs = attrs ++ fields;
    }
      ∷ []
    else []

log_by_lem :
    (fields : List Attr) (s : Served) (l : Logger)
    → log_by s.status (record l { attrs = l.attrs ++ fields }) ≡ line_of l l.attrs fields s
unfolding log_by log_at
log_by_lem fields s l = ground arith

log_served_lem :
    (ranged : List Attr → List Attr) (d : Duration) (s : Served) (l : Logger)
    → log_served ranged d s l ≡ line_of l l.attrs (ranged (request_fields d s)) s
unfolding log_served
log_served_lem ranged d s l =
    ap (log_by s.status) (with_fields_lem (ranged (request_fields d s)) l)
    ∙ log_by_lem (ranged (request_fields d s)) s l

unfoldable pub lines : List LogCall → List Line
lines [] = []
lines (write x ∷ cs) = x ∷ lines cs
lines (ask c ∷ cs) = lines cs
lines (with_context ctx ∷ cs) = lines cs

unfoldable pub nexts : List LogCall → ℕ
nexts [] = 0
nexts (ask next ∷ cs) = 1 + nexts cs
nexts (ask (header k v) ∷ cs) = nexts cs
nexts (ask (set k v) ∷ cs) = nexts cs
nexts (ask (abort_json n e) ∷ cs) = nexts cs
nexts (ask (abort_status n) ∷ cs) = nexts cs
nexts (write x ∷ cs) = nexts cs
nexts (with_context ctx ∷ cs) = nexts cs

-- The attributes of a request's line before the fields, by its three identifiers.
abbrev pub attrs_of : Logger → Option CtxValue → Option CtxValue → Option CtxValue → List Attr
attrs_of l correlation request user =
    ((l.attrs ++ present (codes "correlation_id") correlation)
      ++ present (codes "request_id") request)
    ++ present (codes "user_id") user

served_lem :
    (l : Logger) (f : Fresh) (s : Served)
    → after_next l f (some s)
      ≡ writes (
          line_of l
            (attrs_of l
              (s.context correlation_id_key)
              (s.context request_id_key)
              (s.context user_id_key))
            (f.ranged (request_fields (since f.finish f.start) s))
            s)
unfolding after_next
served_lem l f s = ap writes (
    log_served_lem f.ranged (since f.finish f.start) s (with_context_values s.context l)
    ∙ rw (with_context_values_lem s.context l) refl)

-- Calls that neither write a line nor pass the request on.
abbrev pub IsSilent : List LogCall → Type 0
IsSilent calls = (lines calls ≡ []) × (nexts calls ≡ 0)

-- The calls before the request is passed on.
abbrev calls_before : Fresh → Values → Option CtxValue → Request → List LogCall
calls_before f ctx user r =
    let given = r.get_header (codes "X-Correlation-ID") in
    let id = correlation_of given f.correlation_id in
    let ctx₁ = with_value correlation_id_key (string_value id) ctx in
    let ctx₂ = with_value request_id_key (string_value f.request_id) ctx₁ in
    announce given f.correlation_id
    ++ with_context ctx₁
      ∷ ask (set (codes "correlation_id") id)
      ∷ with_context ctx₂
      ∷ ask (set (codes "request_id") f.request_id)
      ∷ user_calls user ctx₂

IsSilent-before :
    (f : Fresh) (ctx : Values) (user : Option CtxValue) (r : Request)
    → IsSilent (calls_before f ctx user r)
unfolding lines nexts
IsSilent-before f ctx none r = ground arith
IsSilent-before f ctx (some v) r = ground arith

split_before :
    (f : Fresh) (ctx : Values) (user : Option CtxValue) (r : Request) (rest : List LogCall)
    → let given = r.get_header (codes "X-Correlation-ID") in
      let id = correlation_of given f.correlation_id in
      let ctx₁ = with_value correlation_id_key (string_value id) ctx in
      let ctx₂ = with_value request_id_key (string_value f.request_id) ctx₁ in
      announce given f.correlation_id
        ++ (with_context ctx₁
            ∷ ask (set (codes "correlation_id") id)
            ∷ with_context ctx₂
            ∷ ask (set (codes "request_id") f.request_id)
            ∷ user_calls user ctx₂)
        ++ ask next ∷ rest
      ≡ calls_before f ctx user r ++ ask next ∷ rest
split_before f ctx none r rest = ground arith
split_before f ctx (some v) r rest = ground arith

before_next :
    (l : Logger) (f : Fresh) (ctx : Values) (user : Option CtxValue) (r : Request)
    (chain : Values → Option Served)
    → (before : List LogCall) × IsSilent before
      × (logging_middleware l f ctx user r chain
          ≡ before ++ ask next ∷ after_next l f (chain (request_context f ctx user r)))
unfolding logging_middleware
before_next l f ctx user r chain =
    (calls_before f ctx user r, IsSilent-before f ctx user r, split_before f ctx user r _)

-- The user's identifier that the rest of the chain finds in its context.
abbrev pub user_of : Option CtxValue → Values → Option CtxValue
user_of none ctx = ctx user_id_key
user_of (some v) ctx = some v

request_context-keys :
    (f : Fresh) (ctx : Values) (user : Option CtxValue) (r : Request)
    → let seen = request_context f ctx user r in
      (seen correlation_id_key
        ≡ some (
            string_value
              (correlation_of (r.get_header (codes "X-Correlation-ID")) f.correlation_id)))
      × (seen request_id_key ≡ some (string_value f.request_id))
      × (seen user_id_key ≡ user_of user ctx)
unfolding request_context
request_context-keys f ctx none r = (refl, refl, refl)
request_context-keys f ctx (some v) r = (refl, refl, refl)

-- The line of a request that is served; a panic writes none.
abbrev pub line_after : Logger → List Attr → (Served → List Attr) → Option Served → List Line
line_after l attrs fields none = []
line_after l attrs fields (some s) = line_of l attrs (fields s) s

after_kept :
    (l : Logger) (f : Fresh) (ctx : Values) (user : Option CtxValue) (r : Request)
    (o : Option Served)
    → let seen = request_context f ctx user r in
      ((s : Served) → o ≡ some s → s.context ≡ seen)
      → after_next l f o
        ≡ writes (
            line_after l
              (attrs_of l (seen correlation_id_key) (seen request_id_key) (seen user_id_key))
              (λ s. f.ranged (request_fields (since f.finish f.start) s))
              o)
unfolding after_next writes
after_kept l f ctx user r none kept = refl
after_kept l f ctx user r (some s) kept =
    served_lem l f s
    ∙ ap
        (λ (x : Values). writes (
          line_of l (attrs_of l (x correlation_id_key) (x request_id_key) (x user_id_key))
            (f.ranged (request_fields (since f.finish f.start) s)) s))
        (kept s refl)

-- LoggingMiddleware passes every request on once, and writes nothing before that. After it, if the
-- rest of the chain serves the request, it writes one line where the logger's handler takes the
-- level, and nothing where it does not take it or where the rest of the chain panics. The line is an
-- error from status 500 on, a warning from 400 on and an information below. It has the logger's
-- attributes, the correlation identifier that the client sent or else the new one, the new request
-- identifier, the user's identifier (each only where it is a string that is not empty), and the
-- fields of the request in some order. (The rest of the chain keeps the request's context; Go ranges
-- over a map in an order of its entries.)
pub request_logged :
    (l : Logger) (f : Fresh) (ctx : Values) (user : Option CtxValue) (r : Request)
    (chain : Values → Option Served)
    → ((s : Served)
        → chain (request_context f ctx user r) ≡ some s
        → s.context ≡ request_context f ctx user r)
    → ((xs : List Attr) → Perm (f.ranged xs) xs)
    → let id = correlation_of (r.get_header (codes "X-Correlation-ID")) f.correlation_id in
      (before : List LogCall) × (fields : Served → List Attr) × (logging_middleware l f ctx user r
          chain
        ≡ before
          ++ ask next
            ∷ writes (
                line_after l
                  (attrs_of l
                    (some (string_value id))
                    (some (string_value f.request_id))
                    (user_of user ctx))
                  fields
                  (chain (request_context f ctx user r))))
      × IsSilent before
      × ((s : Served) → Perm (fields s) (request_fields (since f.finish f.start) s))
request_logged l f ctx user r chain kept order =
    let seen = request_context f ctx user r in
    let (before, silent, e) = before_next l f ctx user r chain in
    let fields : Served → List Attr = λ s. f.ranged (request_fields (since f.finish f.start) s) in
    let (c, q, u) = request_context-keys f ctx user r in
    (
      before,
      fields,
      e
          ∙ ap (λ rest. before ++ ask next ∷ rest)
              (after_kept l f ctx user r (chain seen) kept
                ∙ (λ i. writes (line_after l (attrs_of l (c i) (q i) (u i)) fields (chain seen)))),
      silent,
      λ s. order (request_fields (since f.finish f.start) s),
    )

-- The context of the request after these calls.
unfoldable pub context_after : Values → List LogCall → Values
context_after ctx [] = ctx
context_after ctx (with_context ctx' ∷ cs) = context_after ctx' cs
context_after ctx (ask c ∷ cs) = context_after ctx cs
context_after ctx (write x ∷ cs) = context_after ctx cs

correlation_id_after :
    (fresh : Text) (ctx : Values) (r : Request)
    → context_after ctx (correlation_id_middleware fresh ctx r) correlation_id_key
      ≡ some (string_value (correlation_of (r.get_header (codes "X-Correlation-ID")) fresh))
unfolding context_after correlation_id_middleware
correlation_id_after fresh ctx r = ground arith

-- Where CorrelationIDMiddleware runs before LoggingMiddleware, the rest of the chain finds the
-- identifier of the first in its context exactly if the client sent one, or the two new identifiers
-- are equal: without the header the second middleware replaces the identifier of the first.
pub correlation_id_kept_iff :
    (fresh : Text) (f : Fresh) (ctx : Values) (user : Option CtxValue) (r : Request)
    → let between = context_after ctx (correlation_id_middleware fresh ctx r) in
      (request_context f between user r correlation_id_key ≡ between correlation_id_key)
      ↔ ((r.get_header (codes "X-Correlation-ID") ≢ []) ⊎ (f.correlation_id ≡ fresh))
correlation_id_kept_iff fresh f ctx user r =
    let between = context_after ctx (correlation_id_middleware fresh ctx r) in
    ground (
      arith,
      correlation_id_after fresh ctx r,
      (request_context-keys f between user r).0,
      text_eq_iff (r.get_header (codes "X-Correlation-ID")) [],
    )
