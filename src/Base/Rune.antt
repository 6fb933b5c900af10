-- ===== src/Base/Rune.antt =====
-- Go's conversion `string(n)` of an integer: the UTF-8 encoding of that code point.
use Prim.Native.Nat.{ℕ, ◌+◌, ◌/◌, ◌%◌}
use mathlib.Core.Bool.{◌&&◌}
use mathlib.Core.List.{[], ◌∷◌}
use rate_limiter.Base.Tests.{ltb, leb, if◌then◌else◌}
use rate_limiter.Base.Int.{ℤ, pos, negsuc}
use rate_limiter.Base.Text.{Text}

-- U+FFFD
abbrev replacement : Text
replacement = 239 ∷ 191 ∷ 189 ∷ []

abbrev encode : ℕ → Text
encode c =
    if ltb c 128
    then c ∷ []
    else if ltb c 2048
    then (192 + c / 64) ∷ (128 + c % 64) ∷ []
    else if leb 55296 c && leb c 57343
    then replacement
    else if ltb c 65536
    then (224 + c / 4096) ∷ (128 + c / 64 % 64) ∷ (128 + c % 64) ∷ []
    else if leb c 1114111
    then (240 + c / 262144) ∷ (128 + c / 4096 % 64) ∷ (128 + c / 64 % 64) ∷ (128 + c % 64) ∷ []
    else replacement

abbrev pub rune_text : ℤ → Text
rune_text (pos c) = encode c
rune_text (negsuc n) = replacement
