-- ===== src/Storage/Redis/Members.antt =====
-- rate-limiter/internal/storage/redis.go: the members of a sorted set whose scores are the members, as
-- lists of numbers, and the distinct times in a window.
use rate_limiter.Base.{
  ℕ, suc, ◌+◌, ◌≤◌, ◌≡◌, refl, Bool, true, false, ◌&&◌, ◌||◌, List, [], ◌∷◌, ltb, ◌==◌,
  if◌then◌else◌, arith, length, All,
}
use rate_limiter.Base.Int.{ℤ, pos, ltb_ℤ, ◌≤ℤ◌, ◌-ℤ◌}

-- A member put in its place in a list that grows, if it is not there.
abbrev pub place : ℕ → List ℕ → List ℕ
place t [] = t ∷ []
place t (x ∷ xs) =
    let rest = place t xs in if ltb x t then x ∷ rest else if x == t then x ∷ xs else t ∷ x ∷ xs

abbrev pub keep_above : ℤ → List ℕ → List ℕ
keep_above cutoff [] = []
keep_above cutoff (x ∷ xs) =
    let rest = keep_above cutoff xs in if ltb_ℤ cutoff (pos x) then x ∷ rest else rest

-- The specification: the distinct times of a list, and those in the window that ends at `now`.
abbrev pub has : ℕ → List ℕ → Bool
has t [] = false
has t (x ∷ xs) = x == t || has t xs

abbrev pub distinct : List ℕ → ℕ
distinct [] = 0
distinct (x ∷ xs) = let n = distinct xs in if has x xs then n else suc n

abbrev pub within : ℕ → ℕ → List ℕ → List ℕ
within window now [] = []
within window now (x ∷ xs) =
    let rest = within window now xs in if ltb now (x + window) then x ∷ rest else rest

-- Latest first, and none after `now`.
abbrev pub Falling : ℕ → List ℕ → Type 0
Falling now [] = Unit {0}
Falling now (x ∷ xs) = (x ≤ now) × Falling x xs

pub cutoff_lem : (window now t : ℕ) → ltb_ℤ (pos now -ℤ pos window) (pos t) ≡ ltb now (t + window)
unfolding ◌-ℤ◌
cutoff_lem window now t = ground arith

abbrev pub AllLe : ℕ → List ℕ → Type 0
AllLe t = All (λ x. x ≤ t)

pub AllLe-mono : (a b : ℕ) (xs : List ℕ) → a ≤ b → AllLe a xs → AllLe b xs
AllLe-mono a b [] h l = tt
AllLe-mono a b (x ∷ xs) h l = (omega arith, AllLe-mono a b xs h l.1)

pub AllLe-keep : (t : ℕ) (c : ℤ) (xs : List ℕ) → AllLe t xs → AllLe t (keep_above c xs)
AllLe-keep t c [] l = tt
AllLe-keep t c (x ∷ xs) l = ground (arith, AllLe-keep t c xs l.1)

pub AllLe-place : (t : ℕ) (xs : List ℕ) → AllLe t xs → AllLe t (place t xs)
AllLe-place t [] l = (omega arith, tt)
AllLe-place t (x ∷ xs) l = ground (arith, AllLe-place t xs l.1)

pub length-place :
    (t : ℕ) (xs : List ℕ)
    → AllLe t xs
    → length (place t xs) ≡ (if has t xs then length xs else suc (length xs))
length-place t [] l = refl
length-place t (x ∷ xs) l = ground (arith, length-place t xs l.1)

pub has-place : (y t : ℕ) (xs : List ℕ) → AllLe t xs → has y (place t xs) ≡ (t == y || has y xs)
has-place y t [] l = ground arith
has-place y t (x ∷ xs) l = ground (arith, has-place y t xs l.1)

pub keep-place_in :
    (c : ℤ) (t : ℕ) (xs : List ℕ)
    → AllLe t xs
    → ltb_ℤ c (pos t) ≡ true
    → keep_above c (place t xs) ≡ place t (keep_above c xs)
keep-place_in c t [] l h = ground arith
keep-place_in c t (x ∷ xs) l h = ground (arith, keep-place_in c t xs l.1 h)

pub keep-place_out :
    (c : ℤ) (t : ℕ) (xs : List ℕ)
    → AllLe t xs
    → ltb_ℤ c (pos t) ≡ false
    → keep_above c (place t xs) ≡ keep_above c xs
keep-place_out c t [] l h = ground arith
keep-place_out c t (x ∷ xs) l h = ground (arith, keep-place_out c t xs l.1 h)

pub keep-keep :
    (c c' : ℤ) (xs : List ℕ) → c ≤ℤ c' → keep_above c' (keep_above c xs) ≡ keep_above c' xs
keep-keep c c' [] h = refl
keep-keep c c' (x ∷ xs) h = ground (arith, keep-keep c c' xs h)

pub has-keep :
    (y : ℕ) (c : ℤ) (xs : List ℕ) → has y (keep_above c xs) ≡ (ltb_ℤ c (pos y) && has y xs)
has-keep y c [] = ground arith
has-keep y c (x ∷ xs) = ground (arith, has-keep y c xs)

pub has-within :
    (y window now : ℕ) (xs : List ℕ)
    → has y (within window now xs) ≡ (ltb now (y + window) && has y xs)
has-within y window now [] = ground arith
has-within y window now (x ∷ xs) = ground (arith, has-within y window now xs)
