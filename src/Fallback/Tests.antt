-- ===== src/Fallback/Tests.antt =====
-- rate-limiter/internal/fallback/fallback.go: the theorems at concrete strategies.
use rate_limiter.Base.{◌≡◌, refl, true, false, none}
use rate_limiter.Base.Dict.{lookup, insert}
use rate_limiter.Base.Int.{pos}
use rate_limiter.Base.Text.{codes, text_eq}
use rate_limiter.Fallback.{
  Strategy, local_memory, priority, time_window, new_local_memory, new_priority, new_time_window,
  set_priority, set_schedule, set_limit, handle, format_hour,
}
use rate_limiter.Fallback.Denial.{Answers, handle-denies}

-- Priorities around a schedule around the local memory.
abbrev layered : Strategy
layered = priority (set_priority (codes "paid") (pos 2) (new_priority true)) (
    time_window (set_schedule (codes "paid") (pos 9) (pos 3) (new_time_window true)) (
      local_memory
        (set_limit (codes "paid") (codes "hour") (pos 50) (new_local_memory true (pos 10)))))

handle-denies_example :
    Answers false (handle (λ n. pos 9) none (codes "paid") (codes "hour") layered)
unfolding set_priority new_priority lookup insert text_eq
handle-denies_example = handle-denies (λ n. pos 9) none (codes "paid") (codes "hour") layered tt

-- Past midnight the digits go on after "9".
format_hour_100 : format_hour (pos 100) ≡ codes ":0"
unfolding format_hour
format_hour_100 = refl
