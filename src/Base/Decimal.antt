-- ===== src/Base/Decimal.antt =====
-- Decimal text: Go's `strconv.Atoi`, and an `int` as `fmt` and the Redis client write it.
use Prim.Native.Nat.{ℕ, zero, suc, ◌+◌, ◌-◌, ◌*◌, ◌/◌, ◌%◌, ◌^◌, ◌<◌, ◌≤◌}
use mathlib.Core.Path.{◌≡◌}
use mathlib.Core.Bool.{Bool, ◌&&◌}
use mathlib.Core.List.{[], ◌∷◌}
use mathlib.Core.Option.{Option, none, some}
use native.Mathlib.Omega.{arith}
use rate_limiter.Base.Tests.{ltb, leb, ◌==◌, if◌then◌else◌}
use rate_limiter.Base.Int.{ℤ, pos, negsuc, sub_ℕ, IsInt64}
use rate_limiter.Base.Text.{Text}

abbrev pub is_digit : ℕ → Bool
is_digit c = leb 48 c && leb c 57

digits : ℕ → Text → Option ℕ
digits n [] = some n
digits n (c ∷ cs) = if is_digit c then digits (10 * n + (c - 48)) cs else none

-- At least one digit.
unfoldable pub unsigned : Text → Option ℕ
unfolding digits
unsigned [] = none
unsigned (c ∷ cs) = digits 0 (c ∷ cs)

at_most : ℕ → (ℕ → ℤ) → Option ℕ → Option ℤ
at_most bound f none = none
at_most bound f (some n) = if leb n bound then some (f n) else none

-- An optional sign, digits, and the range of an `int`.
unfoldable pub atoi : Text → Option ℤ
unfolding unsigned at_most
atoi [] = none
atoi (c ∷ cs) =
    if c == 45
    then at_most (2 ^ 63) (sub_ℕ 0) (unsigned cs)
    else if c == 43
    then at_most (2 ^ 63 - 1) pos (unsigned cs)
    else at_most (2 ^ 63 - 1) pos (unsigned (c ∷ cs))

-- `fuel` above the number is enough, since a step divides it by ten.
decimal_onto : ℕ → ℕ → Text → Text
decimal_onto zero n rest = rest
decimal_onto (suc fuel) n rest =
    let more = decimal_onto fuel (n / 10) ((48 + n % 10) ∷ rest) in
    if ltb n 10 then (48 + n) ∷ rest else more

unfoldable pub decimal : ℕ → Text
unfolding decimal_onto
decimal n = decimal_onto (suc n) n []

unfoldable pub format_int : ℤ → Text
format_int (pos n) = decimal n
format_int (negsuc n) = 45 ∷ decimal (n + 1)

unsigned-decimal_onto :
    (fuel n : ℕ) (rest : Text) → n < fuel → unsigned (decimal_onto fuel n rest) ≡ digits n rest
unfolding unsigned digits decimal_onto
unsigned-decimal_onto zero n rest h = ground arith
unsigned-decimal_onto (suc fuel) n rest h =
    ground (arith, unsigned-decimal_onto fuel (n / 10) ((48 + n % 10) ∷ rest))

pub unsigned-decimal : (n : ℕ) → unsigned (decimal n) ≡ some n
unfolding decimal digits
unsigned-decimal n = unsigned-decimal_onto (suc n) n [] (omega arith)

-- Text without a sign.
atoi-unsigned : (t : Text) (n : ℕ) → unsigned t ≡ some n → n < 2 ^ 63 → atoi t ≡ some (pos n)
unfolding atoi unsigned digits at_most
atoi-unsigned [] n h b = cc
atoi-unsigned (c ∷ cs) n h b = ground arith

pub atoi-format_int : (i : ℤ) → IsInt64 i → atoi (format_int i) ≡ some i
unfolding format_int atoi at_most
atoi-format_int (pos n) h = atoi-unsigned (decimal n) n (unsigned-decimal n) h.0
atoi-format_int (negsuc n) h = ground (arith, unsigned-decimal (n + 1))

-- Text that starts past the digits is no number.
pub atoi-letter : (c : ℕ) (cs : Text) → 58 ≤ c → atoi (c ∷ cs) ≡ none
unfolding atoi unsigned digits at_most
atoi-letter c cs h = ground arith
