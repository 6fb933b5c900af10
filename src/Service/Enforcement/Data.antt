-- ===== src/Service/Enforcement/Data.antt =====
-- rate-limiter/internal/service/ratelimiter.go: the times of checks, and those that were allowed.
use rate_limiter.Base.{ℕ, ◌+◌, ◌≤◌, ◌≡◌, ◌&&◌, List, [], ◌∷◌, arith, leb, ltb, if◌then◌else◌}
use rate_limiter.Base.Exec.{Result, ok, err}
use rate_limiter.Base.Int.{pos, pos_part}
use rate_limiter.Base.Sync.{Time}
use rate_limiter.Storage.Redis.{unix_ms}
use rate_limiter.Storage.Redis.Members.{has, within, Falling, has-within}
use rate_limiter.Storage.Redis.Distinct.{Part}
use rate_limiter.Service.{Readings, LimitResult}

-- The times in the window that ends at `end`.
abbrev pub between : ℕ → ℕ → List ℕ → List ℕ
between w end [] = []
between w end (x ∷ xs) =
    let rest = between w end xs in if leb x end && ltb end (x + w) then x ∷ rest else rest

has-between :
    (y w end : ℕ) (xs : List ℕ)
    → has y (between w end xs) ≡ ((leb y end && ltb end (y + w)) && has y xs)
has-between y w end [] = ground arith
has-between y w end (x ∷ xs) = ground (arith, has-between y w end xs)

pub Falling-later : (n m : ℕ) (h : List ℕ) → Falling n h → n ≤ m → Falling m h
Falling-later n m [] f le = tt
Falling-later n m (x ∷ h) f le = (omega arith, f.1)

pub between-Part :
    (w n end : ℕ) (xs h : List ℕ)
    → Part xs h
    → n ≤ end
    → Part (between w end (n ∷ xs)) (within w n (n ∷ h))
between-Part w n end xs h p le y in_ =
    ground (arith, has-between y w end (n ∷ xs), has-within y w n (n ∷ h), p y, in_)

-- The whole milliseconds of the time at which a check calls the storage.
abbrev pub stamp : Time → Readings → ℕ
stamp epoch t = pos_part (unix_ms epoch t.called)

-- The times of the checks that were allowed, before those in `more`.
abbrev pub allowed :
    {E : Type 0} → Time → List Readings → List (Result E LimitResult) → List ℕ → List ℕ
allowed epoch [] rs more = more
allowed epoch (t ∷ ts) [] more = more
allowed epoch (t ∷ ts) (ok r ∷ rs) more =
    allowed epoch ts rs (if r.limited then more else stamp epoch t ∷ more)
allowed epoch (t ∷ ts) (err e ∷ rs) more = allowed epoch ts rs more

-- After 1970, and none before the one that it follows.
abbrev pub InOrder : Time → ℕ → List Readings → Type 0
InOrder epoch n [] = Unit {0}
InOrder epoch n (t ∷ ts) =
    (unix_ms epoch t.called ≡ pos (stamp epoch t))
    × (n ≤ stamp epoch t)
    × InOrder epoch (stamp epoch t) ts

abbrev pub IsOk : {E A : Type 0} → Result E A → Type 0
IsOk (ok a) = Unit {0}
IsOk (err e) = ⊥
