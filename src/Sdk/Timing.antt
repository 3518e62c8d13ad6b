-- ===== src/Sdk/Timing.antt =====
-- Scheduling writes the timer and nothing else (src/debugbundle/core.py).
use debugbundle_python.Prelude.{
  ℕ, ◌+◌, ◌≡◌, refl, Option, none, some, Bool, true, false, leb, nat_eqb, max, ◌-◌, if◌then◌else◌,
  inl, inr, Bool-cases,
}
use debugbundle_python.Sdk.{
  Sdk, running, schedule_at, schedule_flush_locked, schedule_pressure_report_locked,
}

-- A state that differs from another in the timer alone.
abbrev pub TimerOnly : Sdk → Sdk → Type 0
TimerOnly s s' = s' ≡ record s { timer = s'.timer }

schedule_at-TimerOnly : (o : Option ℕ) (s : Sdk) (due_at : ℕ) → TimerOnly s (schedule_at o s due_at)
schedule_at-TimerOnly none s due_at = refl
schedule_at-TimerOnly (some current) s due_at = elim (Bool-cases (leb current due_at)) [
  | inl sooner ↦ rw sooner refl
  | inr later ↦ rw later refl
]

pub if-TimerOnly :
    (b : Bool) (s t u : Sdk) → TimerOnly s t → TimerOnly s u → TimerOnly s (if b then t else u)
if-TimerOnly true s t u p q = p
if-TimerOnly false s t u p q = q

pub schedule_flush_locked-TimerOnly :
    (s : Sdk) (delay : Option ℕ) (monotonic : ℕ)
    → TimerOnly s (schedule_flush_locked s delay monotonic)
unfolding schedule_flush_locked
schedule_flush_locked-TimerOnly s delay monotonic =
    let due_at : ℕ = monotonic + (elim delay [ none ↦ s.flush_interval | some d ↦ d ]) in
    if-TimerOnly s.sending s s (schedule_at (running s.timer) s due_at) refl
      (schedule_at-TimerOnly (running s.timer) s due_at)

-- No timer is set while a flush is under way.
pub schedule_flush_locked_waits :
    (s : Sdk) (delay : Option ℕ) (monotonic : ℕ)
    → s.sending ≡ true
    → (schedule_flush_locked s delay monotonic).timer ≡ s.timer
unfolding schedule_flush_locked
schedule_flush_locked_waits s delay monotonic busy = rw busy refl

pub schedule_pressure_report_locked-TimerOnly :
    (s : Sdk) (now monotonic : ℕ) → TimerOnly s (schedule_pressure_report_locked s now monotonic)
unfolding schedule_pressure_report_locked
schedule_pressure_report_locked-TimerOnly s now monotonic =
    let delay = max s.flush_interval (s.last_pressure_report_at + 60_000 - now) in
    if-TimerOnly (nat_eqb s.pressure_drops 0) s s (schedule_flush_locked s (some delay) monotonic)
      refl (schedule_flush_locked-TimerOnly s (some delay) monotonic)
