-- ===== src/Sdk.antt =====
-- The state of `DebugBundleSdk` (src/debugbundle/core.py) that the queue and its delivery use.
-- Times are milliseconds; `timer` and `timer_due_at` are on the monotonic clock.
pub mod Timing
use debugbundle_python.Prelude.{
  ℕ, ◌+◌, ◌-◌, ◌≤◌, String, Option, none, some, Bool, true, false, not, ◌&&◌, ◌||◌, List, [], ◌∷◌,
  ltb, leb, nat_eqb, max, string_eq, nat_eq, ◌==◌, if◌then◌else◌,
}
use debugbundle_python.Prelude.Int.{ℤ, pos}
use debugbundle_python.Prelude.Dict.{Dict}
use debugbundle_python.Json.{Json, Fields, int, str, dict, get}
use debugbundle_python.Evidence.{is_text}
use debugbundle_python.Diagnostics.{DiagnosticCaptureBudget, BudgetJson}
use debugbundle_python.Config.{CapturePolicy}
use debugbundle_python.Suppression.{Tracker}

-- A Python dict object: `ident` is its `id()`.
pub record Event : Type 0 where
  pub ident : ℕ
  pub fields : Fields

abbrev pub event_type_is : Event → String → Bool
event_type_is e t = is_text (get e.fields "event_type") t

-- `str(event["event_id"])` of a protected event, whose id is a text
abbrev pub text_of : Json → String
text_of (str s) = s
text_of _ = ""

abbrev pub event_id : Event → String
event_id e = text_of (get e.fields "event_id")

pub record Timer : Type 0 where
  pub due_at : ℕ
  pub is_alive : Bool

pub record Sdk : Type 0 where
  pub enabled : Bool
  -- `none` for no transport, `some true` for an `HttpTransport`
  pub transport : Option Bool
  pub batch_size : ℕ
  pub flush_interval : ℕ
  pub buffer : List Event
  pub buffer_sizes : Dict ℕ ℕ
  pub buffer_bytes : ℕ
  pub pending_low_priority : ℤ
  pub sending : Bool
  pub inflight_count : ℕ
  pub timer : Option Timer
  pub generation : ℕ
  pub pressure_drops : ℕ
  pub last_pressure_report_at : ℕ
  pub suppression : Tracker
  pub retry_after : ℕ
  pub last_event_at : Option ℕ
  pub consecutive_failures : ℕ
  pub capture_policy : CapturePolicy
  pub capture_recovery_observations : Bool
  pub evidence : List String
  pub diagnostics : DiagnosticCaptureBudget
  pub hook_bypass : List ℕ

-- What the program takes from libraries: the lengths of encoded events, keys and window records of
-- the budget, and `datetime.fromisoformat`, in milliseconds.
pub record Host : Type 0 where
  pub json : BudgetJson
  pub event_bytes : Event → ℕ
  pub parse_time : String → Option ℕ

-- `Thread.is_alive()` of a timer that may be missing
abbrev pub running : Option Timer → Option ℕ
running none = none
running (some t) = if t.is_alive then some t.due_at else none

abbrev pub start_timer : Sdk → ℕ → Sdk
start_timer s due_at = record s { timer = some (record { due_at = due_at; is_alive = true }) }

abbrev pub schedule_at : Option ℕ → Sdk → ℕ → Sdk
schedule_at none s due_at = start_timer s due_at
schedule_at (some current) s due_at = if leb current due_at then s else start_timer s due_at

-- `_schedule_flush_locked(delay)` at a monotonic time; `none` is the flush interval.
unfoldable pub schedule_flush_locked : Sdk → Option ℕ → ℕ → Sdk
schedule_flush_locked s delay monotonic =
    if s.sending
    then s
    else schedule_at (running s.timer) s
        (monotonic + (elim delay [ none ↦ s.flush_interval | some d ↦ d ]))

-- `_schedule_pressure_report_locked()`
unfoldable pub schedule_pressure_report_locked : Sdk → ℕ → ℕ → Sdk
unfolding schedule_flush_locked
schedule_pressure_report_locked s now monotonic =
    if nat_eqb s.pressure_drops 0
    then s
    else schedule_flush_locked s
        (some (max s.flush_interval (s.last_pressure_report_at + 60_000 - now))) monotonic
