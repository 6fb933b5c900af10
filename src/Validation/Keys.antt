-- ===== src/Validation/Keys.antt =====
-- rate-limiter/internal/handler/validation.go and internal/service/ratelimiter.go: the keys that the
-- service builds, and what the validation of identifiers does for them.
use rate_limiter.Base.{◌≡◌, refl, ap, sym, ◌∙◌, [], ◌∷◌, ◌++◌, arith, All}
use rate_limiter.Base.Exec.{◌>>=◌}
use rate_limiter.Base.Sync.{Context}
use rate_limiter.Base.Text.{Text, codes}
use rate_limiter.Storage.{Storage}
use rate_limiter.Service.{
  Service, Readings, full_key, check_rate_limit, check_past, is_circuit_breaker_open,
}
use rate_limiter.Validation.Passing.{IsIdentifier, IsIdentifierByte}

colon_inside : (xs i s : Text) → s ≡ xs ++ 58 ∷ i → All IsIdentifierByte s → ⊥
colon_inside [] i [] e a = cc
colon_inside [] i (y ∷ s) e a = let h : y ≡ 58 = cc in absurd (omega (arith, a.0))
colon_inside (x ∷ xs) i [] e a = cc
colon_inside (x ∷ xs) i (y ∷ s) e a = colon_inside xs i s (cc) a.1

split_colon :
    (k k' i i' : Text)
    → All IsIdentifierByte i
    → All IsIdentifierByte i'
    → k ++ 58 ∷ i ≡ k' ++ 58 ∷ i'
    → (k ≡ k') × (i ≡ i')
split_colon [] [] i i' a a' e = (refl, cc)
split_colon [] (x ∷ k') i i' a a' e = absurd (colon_inside k' i' i (cc) a)
split_colon (x ∷ k) [] i i' a a' e = absurd (colon_inside k i i' (cc) a')
split_colon (x ∷ k) (x' ∷ k') i i' a a' e =
    let h = split_colon k k' i i' a a' (cc) in let hd : x ≡ x' = cc in (rw (hd, h.0), h.1)

append_assoc : (a b c : Text) → a ++ b ++ c ≡ a ++ (b ++ c)
append_assoc [] b c = refl
append_assoc (x ∷ a) b c = ap (λ t. x ∷ t) (append_assoc a b c)

-- With identifiers that validation accepts, different pairs of a key and an identifier have
-- different full keys.
pub full_key_injective :
    (k k' i i' : Text)
    → IsIdentifier i
    → IsIdentifier i'
    → full_key k i ≡ full_key k' i'
    → (k ≡ k') × (i ≡ i')
unfolding full_key
full_key_injective k k' i i' v v' e =
    split_colon k k' i i' v.2 v'.2
      (sym (append_assoc k (58 ∷ []) i) ∙ e ∙ append_assoc k' (58 ∷ []) i')

shared_text : (a b c : Text) → full_key (a ++ codes ":" ++ b) c ≡ full_key a (b ++ codes ":" ++ c)
unfolding full_key
shared_text a b c =
    ap (λ t. t ++ c) (append_assoc (a ++ codes ":") b (codes ":"))
    ∙ append_assoc (a ++ codes ":") (b ++ codes ":") c

-- To `CheckRateLimit` the key "a:b" with the identifier "c" and the key "a" with the identifier
-- "b:c" are the same, for all texts, every storage and every state: without validation a colon can
-- end up on either side.
pub full_key_shared :
    (S : Storage) (t : Readings) (ctx : Context) (a b c window : Text) (s : Service S.Store)
    → check_rate_limit S t ctx (a ++ codes ":" ++ b) c window s
      ≡ check_rate_limit S t ctx a (b ++ codes ":" ++ c) window s
unfolding check_rate_limit
full_key_shared S t ctx a b c window s =
    ap (λ full. (is_circuit_breaker_open t >>= λ tripped. check_past S t ctx full window tripped) s)
      (shared_text a b c)
