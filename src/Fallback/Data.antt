-- ===== src/Fallback/Data.antt =====
-- rate-limiter/internal/fallback/fallback.go: the strategies and what they answer.
use rate_limiter.Base.{Bool, Option, List}
use rate_limiter.Base.Dict.{Dict}
use rate_limiter.Base.Int.{ℤ}
use rate_limiter.Base.Sync.{Context}
use rate_limiter.Base.Text.{Text, codes}
use rate_limiter.Service.{LimitResult}

-- One line of the log: its fields, and the message at the level of information.
pub data Field : Type 0 where
  text : Text → Field
  number : ℤ → Field
  flag : Bool → Field

pub record Log : Type 0 where
  pub fields : List (Text × Field)
  pub message : Text

-- A nil result is `none`, and so is a nil error.
pub record Reply : Type 0 where
  pub result : Option LimitResult
  pub error : Option Text

-- A logger is there, or is nil.
pub record LocalMemoryFallback : Type 0 where
  pub limits : Dict (Dict ℤ)
  pub logger : Bool
  pub default_rate : ℤ

pub record PriorityFallback : Type 0 where
  pub priorities : Dict ℤ
  pub logger : Bool

pub record TimeWindowFallback : Type 0 where
  pub schedules : Dict (Dict ℤ)
  pub logger : Bool

pub data Strategy : Type 0 where
  local_memory : LocalMemoryFallback → Strategy
  allow_all : Bool → Strategy
  deny_all : Bool → Strategy
  priority : PriorityFallback → Strategy → Strategy
  time_window : TimeWindowFallback → Strategy → Strategy
  other : (Context → Text → Text → Reply) → Text → Strategy

abbrev pub name : Strategy → Text
name (local_memory f) = codes "local_memory"
name (allow_all l) = codes "allow_all"
name (deny_all l) = codes "deny_all"
name (priority f inner) = codes "priority"
name (time_window f inner) = codes "time_window"
name (other f n) = n
