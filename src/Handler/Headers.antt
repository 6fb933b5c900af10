-- ===== src/Handler/Headers.antt =====
-- rate-limiter/internal/handler/http.go and internal/auth/auth.go: the numbers in the headers of the
-- two rate limiting middlewares.
use rate_limiter.Base.{
  ℕ, ◌+◌, ◌/◌, ◌≤◌, ◌≡◌, refl, ap, ◌∙◌, Bool, true, false, not, none, some, List, ◌∷◌, arith,
  if◌then◌else◌,
}
use rate_limiter.Base.Decimal.{atoi, format_int, atoi-format_int, atoi-letter}
use rate_limiter.Base.Exec.{ok, ◌>>=◌}
use rate_limiter.Base.Int.{pos, IsInt64}
use rate_limiter.Base.Rune.{rune_text}
use rate_limiter.Base.Sync.{Time, Context, done}
use rate_limiter.Base.Text.{Text, codes}
use rate_limiter.Gin.{Request, GinCall, header, passes}
use rate_limiter.Storage.{Storage}
use rate_limiter.Service.{Service, LimitResult, Readings, check_rate_limit}
use rate_limiter.Handler.Http.{identifier_of, rest_calls, header_calls, rate_limit_http}
use rate_limiter.Auth.{limited_calls, limit_calls}

-- The first two headers, by their values.
abbrev pub limit_headers : Text → Text → List GinCall → List GinCall
limit_headers limit remaining rest =
    header (codes "X-RateLimit-Limit") limit
    ∷ header (codes "X-RateLimit-Remaining") remaining
    ∷ rest

rest_calls-passes :
    (epoch now : Time) (res : LimitResult) → passes (rest_calls epoch now res) ≡ not res.limited
unfolding passes rest_calls
rest_calls-passes epoch now res = ground arith

-- When the check comes back with a decision, the middleware of the HTTP handler comes back too: its
-- limit and remaining headers read back as the decision's numbers, if these are `int`s, and the
-- request passes exactly when it is not limited.
pub headers_read_back :
    (S : Storage) (epoch now : Time) (t : Readings) (ctx : Context) (r : Request)
    (s s' : Service S.Store) (res : LimitResult)
    → IsInt64 res.limit
    → IsInt64 res.remaining
    → check_rate_limit S t ctx (codes "api") (identifier_of r) (codes "minute") s
      ≡ done (ok res, s')
    → (limit remaining : Text) × (rest : List GinCall) × (rate_limit_http S epoch t now ctx r s
        ≡ done (limit_headers limit remaining rest, s'))
      × (atoi limit ≡ some res.limit)
      × (atoi remaining ≡ some res.remaining)
      × (passes rest ≡ not res.limited)
unfolding rate_limit_http header_calls
headers_read_back S epoch now t ctx r s s' res l m e = (
  format_int res.limit,
  format_int res.remaining,
  rest_calls epoch now res,
  rw (e, ◌>>=◌),
  atoi-format_int res.limit l,
  atoi-format_int res.remaining m,
  rest_calls-passes epoch now res,
)

unread_if :
    (b : Bool) (x y : Text) → atoi x ≡ none → atoi y ≡ none → atoi (if b then x else y) ≡ none
unread_if true x y h k = h
unread_if false x y h k = k

-- A character of code 58 or more is no number.
not_a_number : (n : ℕ) → 58 ≤ n → atoi (rune_text (pos n)) ≡ none
not_a_number n h =
    let letter = λ (c : ℕ) (cs : Text) (l : 58 ≤ c). atoi-letter c cs l in
    unread_if _ _ _ (letter n _ h) (
      unread_if _ _ _ (letter (192 + n / 64) _ (omega arith)) (
        unread_if _ _ _ (letter 239 _ (omega arith)) (
          unread_if _ _ _ (letter (224 + n / 4096) _ (omega arith)) (
            unread_if _ _ _ (letter (240 + n / 262144) _ (omega arith))
              (letter 239 _ (omega arith))))))

-- For a decision with a limit of 58 or more, the limit header that the middleware of the auth
-- package writes is no decimal number.
pub auth_header_unreadable :
    (E : Type 0) (epoch now : Time) (res : LimitResult) (n : ℕ)
    → res.limit ≡ pos n
    → 58 ≤ n
    → (limit remaining : Text) × (rest : List GinCall) × (limited_calls {E = E} epoch now (ok res)
        ≡ limit_headers limit remaining rest)
      × (atoi limit ≡ none)
unfolding limited_calls limit_calls
auth_header_unreadable E epoch now res n e h =
    (_, _, _, refl, ap (λ l. atoi (rune_text l)) e ∙ not_a_number n h)
