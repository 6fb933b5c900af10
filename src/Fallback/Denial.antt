-- ===== src/Fallback/Denial.antt =====
-- rate-limiter/internal/fallback/fallback.go: which requests the strategies of the package deny.
use rate_limiter.Base.{
  ℕ, suc, ◌≡◌, refl, ap, ◌∙◌, Bool, true, false, ◌||◌, if◌then◌else◌, none, some, List,
}
use rate_limiter.Base.Dict.{lookup}
use rate_limiter.Base.Int.{ℤ, pos, leb_ℤ}
use rate_limiter.Base.Sync.{Context, Outcome, done}
use rate_limiter.Base.Text.{Text}
use rate_limiter.Service.{LimitResult}
use rate_limiter.Fallback.{
  Strategy, local_memory, allow_all, deny_all, priority, time_window, other, Log, Reply, or_zero,
  PriorityFallback, TimeWindowFallback, handle, handle_local, by_priority, by_schedule, answered,
  pass_on, noted, scale, scale_result,
}

-- Built from the five strategies of the package alone.
abbrev pub IsOwn : Strategy → Type 0
IsOwn (local_memory f) = Unit
IsOwn (allow_all l) = Unit
IsOwn (deny_all l) = Unit
IsOwn (priority f inner) = IsOwn inner
IsOwn (time_window f inner) = IsOwn inner
IsOwn (other f n) = ⊥

-- A strategy that denies everything is reached, or a priority on the way is not positive.
abbrev pub denies : Text → Strategy → Bool
denies key (local_memory f) = false
denies key (allow_all l) = false
denies key (deny_all l) = true
denies key (priority f inner) =
    leb_ℤ (or_zero (lookup key f.priorities)) (pos 0) || denies key inner
denies key (time_window f inner) = denies key inner
denies key (other f n) = false

-- It comes back with a result and no error, and the result is limited or not.
abbrev pub Answers : Bool → Outcome (Reply × List Log) → Type 0
Answers b o =
    (res : LimitResult) × (logs : List Log) × (o
      ≡ done (record { result = some res; error = none }, logs))
    × (res.limited ≡ b)

chosen-Answers :
    (low logger : Bool) (key window : Text) (p : ℤ) (denial logs : List Log) (res : LimitResult)
    → Answers (low || res.limited) (
        if low
        then done
            (record { result = some (answered true (pos 0) (pos 0) window); error = none }, denial)
        else pass_on logger key p (done (record { result = some res; error = none }, logs)))
unfolding pass_on noted answered
chosen-Answers true logger key window p denial logs res = (_, _, refl, refl)
chosen-Answers false true key window p denial logs res = (_, _, refl, refl)
chosen-Answers false false key window p denial logs res = (_, _, refl, refl)

by_priority-Answers :
    (f : PriorityFallback) (key window : Text) (b : Bool) (o : Outcome (Reply × List Log))
    → Answers b o
    → Answers (leb_ℤ (or_zero (lookup key f.priorities)) (pos 0) || b) (by_priority f key window o)
unfolding by_priority
by_priority-Answers f key window b o (res, logs, e, l) =
    let p = or_zero (lookup key f.priorities) in
    let (r, ls, h, d) = chosen-Answers (leb_ℤ p (pos 0)) f.logger key window p _ logs res in
    (r, ls, ap (λ o. by_priority f key window o) e ∙ h, d ∙ ap (λ b. leb_ℤ p (pos 0) || b) l)

by_schedule-Answers :
    (f : TimeWindowFallback) (h : ℤ) (key : Text) (b : Bool) (o : Outcome (Reply × List Log))
    → Answers b o
    → Answers b (by_schedule f h key o)
unfolding by_schedule scale scale_result
by_schedule-Answers f h key b o (res, logs, e, l) =
    (_, _, ap (λ o. by_schedule f h key o) e ∙ refl, l)

-- However the strategies of the package are put around each other, a request comes back with a
-- result and no error, and the result is limited exactly when the innermost strategy denies all
-- or a priority on the way to it is not positive for the key: neither a schedule nor the local
-- memory's limits ever limit a request.
pub handle-denies :
    (hours : ℕ → ℤ) (ctx : Context) (key window : Text) (s : Strategy)
    → IsOwn s
    → Answers (denies key s) (handle hours ctx key window s)
unfolding handle handle_local answered
handle-denies hours ctx key window (local_memory f) own = (_, _, refl, refl)
handle-denies hours ctx key window (allow_all l) own = (_, _, refl, refl)
handle-denies hours ctx key window (deny_all l) own = (_, _, refl, refl)
handle-denies hours ctx key window (priority f inner) own =
    by_priority-Answers f key window (denies key inner) (handle hours ctx key window inner)
      (handle-denies hours ctx key window inner own)
handle-denies hours ctx key window (time_window f inner) own =
    by_schedule-Answers f (hours 0) key (denies key inner)
      (handle (λ n. hours (suc n)) ctx key window inner)
      (handle-denies (λ n. hours (suc n)) ctx key window inner own)
handle-denies hours ctx key window (other f n) own = absurd own
