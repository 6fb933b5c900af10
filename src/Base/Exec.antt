-- ===== src/Base/Exec.antt =====
-- Methods that change an object, fail with a Go error, or do not come back.
use rate_limiter.Base.Sync.{Outcome, done, fatal}

pub data Result {ℓ κ} (E : Type ℓ) (A : Type κ) : Type (ℓ ⊔ κ) where
  ok : A → Result E A
  err : E → Result E A

-- An action on an object of type `S`.
abbrev pub Exec : Type 0 → Type 0 → Type 0
Exec S A = S → Outcome (A × S)

infixl 5 ◌>>=◌ ◌>>◌
abbrev pub ◌>>=◌ : {S A B : Type 0} → Exec S A → (A → Exec S B) → Exec S B
◌>>=◌ m f s = elim (m s) [ done (a, s') ↦ f a s' | fatal e ↦ fatal e ]

abbrev pub ◌>>◌ : {S B : Type 0} → Exec S (Unit {0}) → Exec S B → Exec S B
m >> k = m >>= λ _. k

abbrev pub pure : {S A : Type 0} → A → Exec S A
pure a s = done (a, s)

abbrev pub get : {S : Type 0} → Exec S S
get s = done (s, s)
