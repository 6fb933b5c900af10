-- ===== src/Base/Split.antt =====
-- What the code uses of Go's `strings` package, on bytes: `Split` at one byte and `TrimSpace` of
-- ASCII text.
use Prim.Native.Nat.{ℕ}
use mathlib.Core.Path.{◌≡◌, refl}
use mathlib.Core.Bool.{Bool, true, false, ◌||◌}
use mathlib.Core.List.{List, [], ◌∷◌, ◌++◌}
use native.Mathlib.Omega.{arith}
use rate_limiter.Base.Tests.{◌==◌, if◌then◌else◌}
use rate_limiter.Base.Text.{Text}

abbrev pub into_first : ℕ → List Text → List Text
into_first c [] = (c ∷ []) ∷ []
into_first c (part ∷ parts) = (c ∷ part) ∷ parts

-- strings.Split(s, sep)
unfoldable pub split : ℕ → Text → List Text
split sep [] = [] ∷ []
split sep (c ∷ cs) = let rest = split sep cs in if c == sep then [] ∷ rest else into_first c rest

-- The parts with the separator between each two; `join sep first others` is never empty of parts.
unfoldable pub join : ℕ → Text → List Text → Text
join sep part [] = part
join sep part (other ∷ others) = part ++ sep ∷ join sep other others

-- No byte is `sep`.
unfoldable pub lacks : ℕ → Text → Bool
lacks sep [] = true
lacks sep (c ∷ cs) = if c == sep then false else lacks sep cs

split-lacks : (sep : ℕ) (part : Text) → lacks sep part ≡ true → split sep part ≡ part ∷ []
unfolding split lacks
split-lacks sep [] h = refl
split-lacks sep (c ∷ cs) h = ground (arith, split-lacks sep cs)

split-append :
    (sep : ℕ) (part rest : Text)
    → lacks sep part ≡ true
    → split sep (part ++ sep ∷ rest) ≡ part ∷ split sep rest
unfolding split lacks
split-append sep [] rest h = ground arith
split-append sep (c ∷ cs) rest h = ground (arith, split-append sep cs rest)

unfoldable pub all_lack : ℕ → List Text → Bool
all_lack sep [] = true
all_lack sep (part ∷ parts) = if lacks sep part then all_lack sep parts else false

pub split-join :
    (sep : ℕ) (part : Text) (parts : List Text)
    → lacks sep part ≡ true
    → all_lack sep parts ≡ true
    → split sep (join sep part parts) ≡ part ∷ parts
unfolding join all_lack
split-join sep part [] h hs = split-lacks sep part h
split-join sep part (other ∷ others) h hs =
    ground (arith, split-append sep part (join sep other others) h, split-join sep other others)

-- '\t', '\n', '\v', '\f', '\r' and ' '
unfoldable pub is_space : ℕ → Bool
is_space c = c == 9 || (c == 10 || (c == 11 || (c == 12 || (c == 13 || c == 32))))

unfoldable pub trim_left : Text → Text
unfolding is_space
trim_left [] = []
trim_left (c ∷ cs) = let rest = trim_left cs in if is_space c then rest else c ∷ cs

-- What is left of `c :: rest` after the spaces at the end of `rest` are gone.
abbrev pub trimmed_to : ℕ → Text → Text
trimmed_to c [] = if is_space c then [] else c ∷ []
trimmed_to c (d ∷ ds) = c ∷ d ∷ ds

unfoldable pub trim_right : Text → Text
unfolding is_space
trim_right [] = []
trim_right (c ∷ cs) = trimmed_to c (trim_right cs)

-- strings.TrimSpace(s)
unfoldable pub trim_space : Text → Text
unfolding trim_left trim_right
trim_space s = trim_right (trim_left s)

unfoldable pub spaceless : Text → Bool
unfolding is_space
spaceless [] = true
spaceless (c ∷ cs) = if is_space c then false else spaceless cs

trim_right-spaceless : (s : Text) → spaceless s ≡ true → trim_right s ≡ s
unfolding trim_right spaceless
trim_right-spaceless [] h = refl
trim_right-spaceless (c ∷ []) h = ground arith
trim_right-spaceless (c ∷ d ∷ ds) h = rw (trim_right-spaceless (d ∷ ds) (ground arith), trimmed_to)

pub trim_space-spaceless : (s : Text) → spaceless s ≡ true → trim_space s ≡ s
unfolding trim_space trim_left spaceless
trim_space-spaceless [] h = refl
trim_space-spaceless (c ∷ cs) h = ground (arith, trim_right-spaceless (c ∷ cs))

pub spaceless-append :
    (s t : Text) → spaceless s ≡ true → spaceless t ≡ true → spaceless (s ++ t) ≡ true
unfolding spaceless
spaceless-append [] t h k = k
spaceless-append (c ∷ cs) t h k = ground (arith, spaceless-append cs t)

pub lacks-append :
    (sep : ℕ) (s t : Text) → lacks sep s ≡ true → lacks sep t ≡ true → lacks sep (s ++ t) ≡ true
unfolding lacks
lacks-append sep [] t h k = k
lacks-append sep (c ∷ cs) t h k = ground (arith, lacks-append sep cs t)
