-- ===== src/Fallback.antt =====
-- rate-limiter/internal/fallback/fallback.go: the strategies for a storage that is down. A strategy
-- is one of the five of the package, the last two around another one, or any other implementation of
-- the interface. What a strategy writes to its logger is part of the outcome.
pub mod Data
pub mod Denial
pub mod Schedule
mod Tests
pub use Data.*
use rate_limiter.Base.{
  ℕ, zero, suc, ◌+◌, ◌/◌, ◌%◌, Bool, true, false, Option, none, some, List, [], ◌∷◌, ◌++◌, ◌==◌,
  if◌then◌else◌,
}
use rate_limiter.Base.Dict.{Dict, lookup, insert}
use rate_limiter.Base.Int.{ℤ, pos, negsuc, ltb_ℤ, leb_ℤ, eqb_ℤ, ◌+ℤ◌, ◌-ℤ◌, ◌*ℤ◌, int64}
use rate_limiter.Base.Rune.{rune_text}
use rate_limiter.Base.Sync.{
  Duration, Context, Outcome, done, fatal, Fault, nil_dereference, second, minute, hour,
}
use rate_limiter.Base.Text.{Text, codes, text_eq}
use rate_limiter.Service.{LimitResult}

unfoldable pub new_local_memory : Bool → ℤ → LocalMemoryFallback
new_local_memory logger default_rate = record {
  limits = [];
  logger = logger;
  default_rate = default_rate;
}

unfoldable pub new_allow_all : Bool → Strategy
new_allow_all logger = allow_all logger

unfoldable pub new_deny_all : Bool → Strategy
new_deny_all logger = deny_all logger

unfoldable pub new_priority : Bool → PriorityFallback
new_priority logger = record { priorities = []; logger = logger }

unfoldable pub new_time_window : Bool → TimeWindowFallback
new_time_window logger = record { schedules = []; logger = logger }

-- A nested map, read and written; a missing inner map is made.
abbrev pub entries_of : Option (Dict ℤ) → Dict ℤ
entries_of none = []
entries_of (some m) = m

unfoldable pub insert_nested : Text → Text → ℤ → Dict (Dict ℤ) → Dict (Dict ℤ)
insert_nested key sub n m = insert key (insert sub n (entries_of (lookup key m))) m

-- `windowLimits[window]`: zero where it is missing.
abbrev pub or_zero : Option ℤ → ℤ
or_zero none = pos 0
or_zero (some n) = n

unfoldable pub set_limit : Text → Text → ℤ → LocalMemoryFallback → LocalMemoryFallback
set_limit key window limit f = record f { limits = insert_nested key window limit f.limits }

unfoldable pub set_priority : Text → ℤ → PriorityFallback → PriorityFallback
set_priority key p f = record f { priorities = insert key p f.priorities }

unfoldable pub calculate_reset_time : Text → Duration
calculate_reset_time window =
    if text_eq window (codes "second")
    then pos second
    else if text_eq window (codes "minute")
    then pos minute
    else if text_eq window (codes "hour")
    then pos hour
    else if text_eq window (codes "day")
    then pos 86400000000000
    else pos minute

-- `string(n)` is the character of code `n`; from ten on the hour is not negative.
unfoldable pub format_hour : ℤ → Text
unfolding ◌+ℤ◌
format_hour (pos h) =
    if ltb_ℤ (pos h) (pos 10)
    then codes "0" ++ rune_text (pos (h + 48))
    else rune_text (pos (48 + h / 10)) ++ rune_text (pos (48 + h % 10))
format_hour (negsuc n) = codes "0" ++ rune_text (negsuc n +ℤ pos 48)

unfoldable pub set_schedule : Text → ℤ → ℤ → TimeWindowFallback → TimeWindowFallback
set_schedule key h m f = record f { schedules = insert_nested key (format_hour h) m f.schedules }

-- The results that the strategies make themselves.
unfoldable pub answered : Bool → ℤ → ℤ → Text → LimitResult
answered limited limit remaining window = record {
  limited = limited;
  current_count = pos 0;
  limit = limit;
  remaining = remaining;
  reset_after = calculate_reset_time window;
  window = [];
}

reply_with : LimitResult → Bool → Text → Text → Outcome (Reply × List Log)
reply_with r logger strategy message = done (
  record { result = some r; error = none },
  if logger
      then record { fields = (codes "strategy", text strategy) ∷ []; message = message } ∷ []
      else [],
)

limit_for : ℤ → Text → Option (Dict ℤ) → ℤ
limit_for default_rate window none = default_rate
limit_for default_rate window (some m) =
    let limit = or_zero (lookup window m) in if eqb_ℤ limit (pos 0) then default_rate else limit

unfoldable pub handle_local : LocalMemoryFallback → Text → Text → Outcome (Reply × List Log)
unfolding limit_for reply_with ◌-ℤ◌
handle_local f key window =
    let limit = limit_for f.default_rate window (lookup key f.limits) in
    reply_with (answered false limit (int64 (limit -ℤ pos 1)) window) f.logger
      (codes "local_memory") (codes "Applied fallback rate limiting")

priority_log : Text → ℤ → Bool → Log
priority_log key p limited = record {
  fields =
      (codes "strategy", text (codes "priority"))
      ∷ (codes "key", text key)
      ∷ (codes "priority", number p)
      ∷ (codes "limited", flag limited)
      ∷ [];
  message = codes "Applied priority-based fallback";
}

denial_log : Text → ℤ → Log
denial_log key p = record {
  fields =
      (codes "strategy", text (codes "priority"))
      ∷ (codes "key", text key)
      ∷ (codes "priority", number p)
      ∷ [];
  message = codes "Denied request due to low priority";
}

-- With a logger the inner result is read, and a nil one panics.
noted : Bool → Text → ℤ → Reply → List Log → Option LimitResult → Outcome (Reply × List Log)
unfolding priority_log
noted false key p r logs o = done (r, logs)
noted true key p r logs none = fatal nil_dereference
noted true key p r logs (some res) = done (r, logs ++ priority_log key p res.limited ∷ [])

pass_on : Bool → Text → ℤ → Outcome (Reply × List Log) → Outcome (Reply × List Log)
unfolding noted
pass_on logger key p (fatal e) = fatal e
pass_on logger key p (done (r, logs)) = noted logger key p r logs r.result

unfoldable pub by_priority :
    PriorityFallback → Text → Text → Outcome (Reply × List Log) → Outcome (Reply × List Log)
unfolding pass_on denial_log
by_priority f key window inner =
    let p = or_zero (lookup key f.priorities) in
    if leb_ℤ p (pos 0)
    then done (
      record { result = some (answered true (pos 0) (pos 0) window); error = none },
      if f.logger then denial_log key p ∷ [] else [],
    )
    else pass_on f.logger key p inner

-- The factor of the hour, 1 where the schedule has none.
factor : Option ℤ → ℤ
factor none = pos 1
factor (some n) = n

unfoldable pub multiplier : ℤ → Text → TimeWindowFallback → ℤ
unfolding factor
multiplier h key f = factor (lookup (format_hour h) (entries_of (lookup key f.schedules)))

schedule_log : Text → ℤ → ℤ → ℤ → Log
schedule_log key h m limit = record {
  fields =
      (codes "strategy", text (codes "time_window"))
      ∷ (codes "key", text key)
      ∷ (codes "hour", number h)
      ∷ (codes "multiplier", number m)
      ∷ (codes "limit", number limit)
      ∷ [];
  message = codes "Applied time-window fallback";
}

-- The inner result is changed in place, unless there is an error or no result.
scale_result :
    Bool → Text → ℤ → ℤ → List Log → Option LimitResult → Option Text → Outcome (Reply × List Log)
unfolding schedule_log ◌*ℤ◌
scale_result logger key h m logs res (some e) = done (record { result = res; error = some e }, logs)
scale_result logger key h m logs none none = done (record { result = none; error = none }, logs)
scale_result logger key h m logs (some res) none =
    let limit = int64 (res.limit *ℤ m) in
    done (
      record {
        result = some (record res { limit = limit; remaining = int64 (res.remaining *ℤ m) });
        error = none;
      },
      if logger then logs ++ schedule_log key h m limit ∷ [] else logs,
    )

scale : Bool → Text → ℤ → ℤ → Outcome (Reply × List Log) → Outcome (Reply × List Log)
unfolding scale_result
scale logger key h m (fatal e) = fatal e
scale logger key h m (done (r, logs)) = scale_result logger key h m logs r.result r.error

unfoldable pub by_schedule :
    TimeWindowFallback → ℤ → Text → Outcome (Reply × List Log) → Outcome (Reply × List Log)
unfolding scale
by_schedule f h key inner = scale f.logger key h (multiplier h key f) inner

-- `Handle`. The strategies that vary by time read the clock one after the other: `hours n` is what
-- the one under `n` others reads.
unfoldable pub handle : (ℕ → ℤ) → Context → Text → Text → Strategy → Outcome (Reply × List Log)
unfolding reply_with
handle hours ctx key window (local_memory f) = handle_local f key window
handle hours ctx key window (allow_all logger) =
    reply_with (answered false (pos 1000000) (pos 1000000) window) logger (codes "allow_all")
      (codes "Applied allow-all fallback")
handle hours ctx key window (deny_all logger) =
    reply_with (answered true (pos 0) (pos 0) window) logger (codes "deny_all")
      (codes "Applied deny-all fallback")
handle hours ctx key window (priority f inner) =
    by_priority f key window (handle hours ctx key window inner)
handle hours ctx key window (time_window f inner) =
    by_schedule f (hours 0) key (handle (λ n. hours (suc n)) ctx key window inner)
handle hours ctx key window (other f n) = done (f ctx key window, [])
