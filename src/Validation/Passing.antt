-- ===== src/Validation/Passing.antt =====
-- rate-limiter/internal/handler/validation.go: which requests pass, and what a valid identifier is.
use rate_limiter.Base.{ℕ, ◌≤◌, ◌≡◌, refl, ◌⊎◌, ◌↔◌, true, none, [], ◌∷◌, arith, All, length}
use rate_limiter.Base.Dict.{lookup}
use rate_limiter.Base.Text.{Text, codes, text_eq_iff}
use rate_limiter.Gin.{Request, passes, set}
use rate_limiter.Validation.{
  validate_identifier, validate_time_window, sanitize_input, validation_middleware, check_window,
  is_identifier_byte, all_identifier_bytes,
}

-- A letter, a digit, a dash or an underscore.
abbrev pub IsIdentifierByte : ℕ → Type 0
IsIdentifierByte c =
    ((97 ≤ c) × (c ≤ 122))
    ⊎ (((65 ≤ c) × (c ≤ 90)) ⊎ (((48 ≤ c) × (c ≤ 57)) ⊎ ((c ≡ 95) ⊎ (c ≡ 45))))

abbrev pub IsIdentifier : Text → Type 0
IsIdentifier s = (1 ≤ length s) × (length s ≤ 100) × All IsIdentifierByte s

abbrev pub IsWindow : Text → Type 0
IsWindow w =
    (w ≡ codes "second") ⊎ ((w ≡ codes "minute") ⊎ ((w ≡ codes "hour") ⊎ (w ≡ codes "day")))

byte_iff : (c : ℕ) → (is_identifier_byte c ≡ true) ↔ IsIdentifierByte c
byte_iff c = ground arith

bytes_iff : (s : Text) → (all_identifier_bytes s ≡ true) ↔ All IsIdentifierByte s
bytes_iff [] = (λ e. tt, λ a. refl)
bytes_iff (c ∷ cs) = ground (arith, byte_iff c, bytes_iff cs)

validate_identifier_lem : (s : Text) → (validate_identifier s ≡ none) ↔ IsIdentifier s
unfolding validate_identifier
validate_identifier_lem [] = ground arith
validate_identifier_lem (c ∷ cs) = ground (arith, bytes_iff (c ∷ cs))

validate_time_window_lem : (w : Text) → (validate_time_window w ≡ none) ↔ IsWindow w
unfolding validate_time_window lookup
validate_time_window_lem w = ground (
  arith,
  text_eq_iff (codes "second") w,
  text_eq_iff (codes "minute") w,
  text_eq_iff (codes "hour") w,
  text_eq_iff (codes "day") w,
)

checked_after_set :
    (w s : Text)
    → (passes (check_window w (set (codes "sanitized_identifier") s ∷ [])) ≡ true)
      ↔ ((w ≡ []) ⊎ IsWindow w)
unfolding passes check_window
checked_after_set w s = ground (arith, text_eq_iff w [], validate_time_window_lem w)

checked_alone : (w : Text) → (passes (check_window w []) ≡ true) ↔ ((w ≡ []) ⊎ IsWindow w)
unfolding passes check_window
checked_alone w = ground (arith, text_eq_iff w [], validate_time_window_lem w)

-- A request passes exactly when its identifier, if it has one, is after the removal of control
-- characters one to a hundred letters, digits, dashes and underscores, and its window, if it has
-- one, is a second, a minute, an hour or a day.
pub passes_iff :
    (r : Request)
    → (passes (validation_middleware r) ≡ true) ↔ (
        ((r.query (codes "identifier") ≡ [])
          ⊎ IsIdentifier (sanitize_input (r.query (codes "identifier"))))
        × ((r.query (codes "window") ≡ []) ⊎ IsWindow (r.query (codes "window"))))
unfolding passes validation_middleware
passes_iff r =
    let i = r.query (codes "identifier") in
    let w = r.query (codes "window") in
    ground (
      arith,
      text_eq_iff i [],
      validate_identifier_lem (sanitize_input i),
      checked_alone w,
      checked_after_set w (sanitize_input i),
    )
