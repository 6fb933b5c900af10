-- ===== src/Base/Sync.antt =====
-- What the code uses of Go's `sync.RWMutex`, `context` and `time`, for one goroutine.
use Prim.Native.Nat.{ℕ, zero, suc, ◌^◌, ◌-◌}
use mathlib.Core.Bool.{Bool, true, false}
use mathlib.Core.Option.{Option}
use rate_limiter.Base.Tests.{ltb, if◌then◌else◌}
use rate_limiter.Base.Int.{ℤ, pos, negsuc, ltb_ℤ, ◌+ℤ◌, ◌-ℤ◌}

-- A run that does not come back: the runtime's unrecoverable errors, waiting for ever, and a panic.
pub data Fault : Type 0 where
  runlock_of_unlocked unlock_of_unlocked deadlock nil_dereference : Fault
  already_registered index_out_of_range : Fault

pub data Outcome {ℓ} (A : Type ℓ) : Type ℓ where
  done : A → Outcome A
  fatal : Fault → Outcome A

-- The readers and the writer that hold the mutex.
pub record RwMutex : Type 0 where
  pub readers : ℕ
  pub writing : Bool

abbrev pub unlocked : RwMutex
unlocked = record { readers = 0; writing = false }

unfoldable pub r_lock : RwMutex → Outcome RwMutex
r_lock m = if m.writing then fatal deadlock else done (record m { readers = suc m.readers })

r_unlock_count : ℕ → Bool → Outcome RwMutex
r_unlock_count zero w = fatal runlock_of_unlocked
r_unlock_count (suc n) w = done (record { readers = n; writing = w })

unfoldable pub r_unlock : RwMutex → Outcome RwMutex
unfolding r_unlock_count
r_unlock m = r_unlock_count m.readers m.writing

lock_count : ℕ → Bool → Outcome RwMutex
lock_count zero w = if w then fatal deadlock else done (record { readers = 0; writing = true })
lock_count (suc n) w = fatal deadlock

unfoldable pub lock : RwMutex → Outcome RwMutex
unfolding lock_count
lock m = lock_count m.readers m.writing

unfoldable pub unlock : RwMutex → Outcome RwMutex
unlock m = if m.writing then done (record m { writing = false }) else fatal unlock_of_unlocked

-- `ctx.Err()`: none while `ctx.Done()` is open.
pub data ContextError : Type 0 where
  canceled deadline_exceeded : ContextError

abbrev pub Context : Type 0
Context = Option ContextError

-- An instant is a number of nanoseconds after `time.Time{}`; a duration is one too.
abbrev pub Time : Type 0
Time = ℤ

abbrev pub Duration : Type 0
Duration = ℤ

abbrev pub zero_time : Time
zero_time = pos 0

abbrev pub millisecond : ℕ
millisecond = 1000000

abbrev pub second : ℕ
second = 1000000000

abbrev pub minute : ℕ
minute = 60000000000

abbrev pub hour : ℕ
hour = 3600000000000

-- t.After(u)
abbrev pub after : Time → Time → Bool
after t u = ltb_ℤ u t

-- t.Before(u)
abbrev pub before : Time → Time → Bool
before t u = ltb_ℤ t u

-- t.Sub(u), and so time.Since: saturates at the least and the greatest duration
abbrev saturate : ℤ → Duration
saturate (pos n) = if ltb n (2 ^ 63) then pos n else pos (2 ^ 63 - 1)
saturate (negsuc n) = if ltb n (2 ^ 63) then negsuc n else negsuc (2 ^ 63 - 1)

unfoldable pub since : Time → Time → Duration
since now t = saturate (now -ℤ t)

-- t.Add(d)
unfoldable pub add_time : Time → Duration → Time
add_time t d = t +ℤ d
