-- ===== src/Fallback/Schedule.antt =====
-- rate-limiter/internal/fallback/fallback.go: the schedule by the hour of the day.
use rate_limiter.Base.{
  ℕ, ◌+◌, ◌/◌, ◌%◌, ◌<◌, ◌≡◌, ap, ◌∙◌, ◌&&◌, some, [], ◌∷◌, arith, ◌==◌, if◌then◌else◌,
}
use rate_limiter.Base.Dict.{Dict, lookup, insert, lookup-insert}
use rate_limiter.Base.Int.{ℤ, pos}
use rate_limiter.Base.Rune.{rune_text}
use rate_limiter.Base.Text.{Text, text_eq, text_eq_iff}
use rate_limiter.Fallback.{
  TimeWindowFallback, format_hour, set_schedule, multiplier, factor, insert_nested, entries_of,
}

rune_ascii : (c : ℕ) → c < 128 → rune_text (pos c) ≡ c ∷ []
rune_ascii c h = ground arith

-- The two digits of an hour of the day.
two_digits : (h : ℕ) → h < 24 → format_hour (pos h) ≡ (48 + h / 10) ∷ (48 + h % 10) ∷ []
unfolding format_hour
two_digits h l =
    ground (arith, rune_ascii (h + 48), rune_ascii (48 + h / 10), rune_ascii (48 + h % 10))

hour_eq :
    (h h' : ℕ) → h < 24 → h' < 24 → text_eq (format_hour (pos h)) (format_hour (pos h')) ≡ (h == h')
unfolding text_eq
hour_eq h h' l l' =
    ap (λ t. text_eq t (format_hour (pos h'))) (two_digits h l)
    ∙ ap (λ t. text_eq ((48 + h / 10) ∷ (48 + h % 10) ∷ []) t) (two_digits h' l')
    ∙ ground arith

lookup-insert_nested :
    (key key' sub sub' : Text) (n : ℤ) (m : Dict (Dict ℤ))
    → lookup sub' (entries_of (lookup key' (insert_nested key sub n m))) ≡ (
        if text_eq key key' && text_eq sub sub'
        then some n
        else lookup sub' (entries_of (lookup key' m)))
unfolding insert_nested
lookup-insert_nested key key' sub sub' n m = ground (
  arith,
  text_eq_iff key key',
  lookup-insert key key' (insert sub n (entries_of (lookup key m))) m,
  lookup-insert sub sub' n (entries_of (lookup key m)),
)

-- A factor that is set for a key and an hour of the day, 0 to 23, is the factor at that hour for
-- that key, and every other factor at an hour of the day is as before.
pub multiplier-set_schedule :
    (key key' : Text) (h h' : ℕ) (m : ℤ) (f : TimeWindowFallback)
    → h < 24
    → h' < 24
    → multiplier (pos h') key' (set_schedule key (pos h) m f)
      ≡ (if text_eq key key' && h == h' then m else multiplier (pos h') key' f)
unfolding multiplier set_schedule factor
multiplier-set_schedule key key' h h' m f l l' = ground (
  arith,
  hour_eq h h' l l',
  lookup-insert_nested key key' (format_hour (pos h)) (format_hour (pos h')) m f.schedules,
)
