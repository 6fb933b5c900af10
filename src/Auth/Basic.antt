-- ===== src/Auth/Basic.antt =====
-- rate-limiter/internal/auth/auth.go: the basic authentication, and which headers it accepts.
use rate_limiter.Base.{
  ◌≡◌, ◌≢◌, refl, ap, ◌∙◌, ◌↔◌, inl, inr, true, Option, none, some, [], ◌∷◌, ◌++◌, arith,
  Option-cases, All, List, ◌||◌, not, ◌==◌, if◌then◌else◌,
}
use rate_limiter.Base.Text.{Text, codes, text_eq, text_eq_iff}
use rate_limiter.Gin.{Request, GinCall, header, abort_json, next, passes}

-- strings.TrimPrefix, where the text has the prefix; none where it has not
unfoldable pub trim_prefix : Text → Text → Option Text
trim_prefix [] s = some s
trim_prefix (p ∷ ps) [] = none
trim_prefix (p ∷ ps) (c ∷ cs) = let rest = trim_prefix ps cs in if p == c then rest else none

-- The parts before and after the first colon.
unfoldable pub parse_basic_auth : Text → Option (Text × Text)
parse_basic_auth [] = none
parse_basic_auth (c ∷ cs) =
    let rest = parse_basic_auth cs in
    if c == 58 then some ([], cs) else elim rest [ none ↦ none | some (u, p) ↦ some (c ∷ u, p) ]

unfoldable pub challenge : Text → List GinCall
challenge message =
    header (codes "WWW-Authenticate") (codes "Basic realm=\"API\"") ∷ abort_json 401 message ∷ []

-- `subtle.ConstantTimeCompare` is 1 on equal texts.
unfoldable pub check_credentials : Text → Text → Option (Text × Text) → List GinCall
unfolding challenge
check_credentials username password none = challenge (codes "invalid authentication format")
check_credentials username password (some (u, p)) =
    if not (text_eq u username) || not (text_eq p password)
    then challenge (codes "invalid credentials")
    else next ∷ []

unfoldable pub check_basic : Text → Text → Option Text → List GinCall
unfolding challenge check_credentials
check_basic username password none = challenge (codes "invalid authentication method")
check_basic username password (some auth) =
    check_credentials username password (parse_basic_auth auth)

unfoldable pub basic_auth_middleware : Text → Text → Request → List GinCall
unfolding challenge check_basic
basic_auth_middleware username password r =
    let auth_header = r.get_header (codes "Authorization") in
    if text_eq auth_header []
    then challenge (codes "authentication required")
    else check_basic username password (trim_prefix (codes "Basic ") auth_header)

joined-trim_prefix : (p s rest : Text) → trim_prefix p s ≡ some rest → s ≡ p ++ rest
unfolding trim_prefix
joined-trim_prefix [] s rest e = cc
joined-trim_prefix (p ∷ ps) [] rest e = cc
joined-trim_prefix (p ∷ ps) (c ∷ cs) rest e = ground (arith, joined-trim_prefix ps cs rest)

trim_prefix-joined : (p rest : Text) → trim_prefix p (p ++ rest) ≡ some rest
unfolding trim_prefix
trim_prefix-joined [] rest = refl
trim_prefix-joined (p ∷ ps) rest = ground (arith, trim_prefix-joined ps rest)

-- No colon.
abbrev pub NoColon : Text → Type 0
NoColon = All (λ c. c ≢ 58)

parse-joined : (u p : Text) → NoColon u → parse_basic_auth (u ++ 58 ∷ p) ≡ some (u, p)
unfolding parse_basic_auth
parse-joined [] p n = refl
parse-joined (c ∷ u) p n = ground (arith, n.0, parse-joined u p n.1)

joined-parse : (s u p : Text) → parse_basic_auth s ≡ some (u, p) → s ≡ u ++ 58 ∷ p
unfolding parse_basic_auth
joined-parse [] u p e = cc
joined-parse (c ∷ cs) u p e = elim (Option-cases (parse_basic_auth cs)) [
  | inl h ↦ ground arith
  | inr ((u', p'), h) ↦ ground (arith, joined-parse cs u' p' h)
]

credentials_iff :
    (u p : Text) (o : Option (Text × Text))
    → (passes (check_credentials u p o) ≡ true) ↔ (o ≡ some (u, p))
unfolding passes check_credentials challenge
credentials_iff u p none = ground arith
credentials_iff u p (some (u', p')) = ground (arith, text_eq_iff u' u, text_eq_iff p' p)

parse_iff : (u p s : Text) → NoColon u → (parse_basic_auth s ≡ some (u, p)) ↔ (s ≡ u ++ 58 ∷ p)
parse_iff u p s n = (joined-parse s u p, λ e. ap parse_basic_auth e ∙ parse-joined u p n)

basic_part_iff :
    (u p : Text) (o : Option Text)
    → NoColon u
    → (passes (check_basic u p o) ≡ true) ↔ (o ≡ some (u ++ 58 ∷ p))
unfolding passes check_basic challenge
basic_part_iff u p none n = ground arith
basic_part_iff u p (some s) n =
    ground (arith, credentials_iff u p (parse_basic_auth s), parse_iff u p s n)

trim_iff : (p s rest : Text) → (trim_prefix p s ≡ some rest) ↔ (s ≡ p ++ rest)
trim_iff p s rest =
    (joined-trim_prefix p s rest, λ e. ap (trim_prefix p) e ∙ trim_prefix-joined p rest)

-- Where the username has no colon, a request passes exactly when its header is "Basic " with the
-- username, a colon and the password after it, as they are and not encoded.
pub basic_iff :
    (username password : Text) (r : Request)
    → NoColon username
    → (passes (basic_auth_middleware username password r) ≡ true)
      ↔ (r.get_header (codes "Authorization") ≡ codes "Basic " ++ (username ++ 58 ∷ password))
unfolding passes basic_auth_middleware challenge
basic_iff username password r n =
    let h = r.get_header (codes "Authorization") in
    ground (
      arith,
      text_eq_iff h [],
      basic_part_iff username password (trim_prefix (codes "Basic ") h) n,
      trim_iff (codes "Basic ") h (username ++ 58 ∷ password),
    )
