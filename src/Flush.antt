-- ===== src/Flush.antt =====
-- The delivery of src/debugbundle/flush_delivery.py: what the section under the lock that follows
-- the transport is made of, with `downgrade_rejections` of src/debugbundle/evidence_delivery.py.
-- The clocks are read once: `now`, and `monotonic` for timers. `none` is a `KeyError` or an
-- `IndexError`.
pub mod Beginning
pub mod Commit
pub mod Settle
pub mod Sending
pub mod Finalize
pub mod Finalized
pub mod Batches
pub mod Answers
pub mod Retained
pub mod Picked
pub mod Downgraded
pub mod Apart
pub mod Followed
pub mod Requeued
pub mod Responded
pub mod Rested
pub mod System
use debugbundle_python.Prelude.{
  ℕ, ◌+◌, ◌-◌, String, Option, none, some, Bool, true, false, not, ◌&&◌, ◌||◌, ◌++◌, List, [], ◌∷◌,
  map, length, drop, get_elem?, contains, ltb, leb, nat_eqb, sum_map, one_if, is_some, string_eq,
  nat_eq, ◌==◌, if◌then◌else◌, ◌>>=◌,
}
use debugbundle_python.Prelude.Int.{pos}
use debugbundle_python.Prelude.Dict
use debugbundle_python.Prelude.Dict.{Dict, put, remove, total}
use debugbundle_python.Json.{Json}
use debugbundle_python.Diagnostics.Changes.{retain_only}
use debugbundle_python.Acknowledgement.{
  AcknowledgementDecision, Kind, legacy, protocol_failure, acknowledged, decide_acknowledgement,
}
use debugbundle_python.Evidence.{observe}
use debugbundle_python.Transport.{TransportResponse, bounded_retry_after_ms}
use debugbundle_python.Sdk.{
  Sdk, Event, Host, event_type_is, event_id, schedule_flush_locked, schedule_pressure_report_locked,
}
use debugbundle_python.Queue.{high_priority_event}

-- `batch[index] for index in retryable_indices if 0 <= index < len(batch)`
abbrev pub pick : List Event → List ℕ → List Event
pick batch [] = []
pick batch (index ∷ indices) =
    let rest = pick batch indices in
    elim (get_elem? batch index) [ none ↦ rest | some e ↦ e ∷ rest ]

abbrev pub is_empty : List Event → Bool
is_empty [] = true
is_empty (e ∷ es) = false

-- `if sdk._buffer: sdk._schedule_flush_locked()`
unfoldable pub rearm : Sdk → ℕ → Sdk
unfolding schedule_flush_locked
rearm s monotonic = if is_empty s.buffer then s else schedule_flush_locked s none monotonic

abbrev pub is_success : ℕ → Bool
is_success status = leb 200 status && ltb status 300

abbrev pub is_refused : ℕ → Bool
is_refused status = leb 400 status && ltb status 500

abbrev is_null : Json → Bool
is_null Json.null = true
is_null _ = false

-- `response.status_code == 429 or (response.status_code >= 500 and ... is not None)`
abbrev pub is_delayed : TransportResponse → Bool
is_delayed r =
    nat_eqb r.status_code 429 || (leb 500 r.status_code && not (is_null r.retry_after_ms))

abbrev pub is_acknowledged : Kind → Bool
is_acknowledged acknowledged = true
is_acknowledged _ = false

-- One more failure, and the wait that the response asks for.
unfoldable pub back_off : Sdk → TransportResponse → ℕ → ℕ → Sdk
unfolding schedule_flush_locked
back_off s r now monotonic =
    let wait = bounded_retry_after_ms r.retry_after_ms in
    schedule_flush_locked
      (record s { consecutive_failures = s.consecutive_failures + 1; retry_after = now + wait })
      (some wait) monotonic

-- The ids of the diagnostic events in the queue.
abbrev pub diagnostic_ids : List Event → List String
diagnostic_ids [] = []
diagnostic_ids (e ∷ es) =
    let rest = diagnostic_ids es in
    if event_type_is e "diagnostic_context" then event_id e ∷ rest else rest

-- `{id(event): sdk._buffer_sizes[id(event)] for event in sdk._buffer}`
pub sizes_of : Dict ℕ ℕ → List Event → Option (Dict ℕ ℕ)
sizes_of sizes [] = some []
sizes_of sizes (e ∷ es) = do
  size ← Dict.get sizes e.ident
  rest ← sizes_of sizes es
  some (put rest e.ident size)

-- `intersection_update`
abbrev pub intersect : List ℕ → List ℕ → List ℕ
intersect [] ids = []
intersect (i ∷ is) ids = let rest = intersect is ids in if contains ids i then i ∷ rest else rest

abbrev pub low_count : List Event → ℕ
low_count = sum_map (λ e. one_if (not (high_priority_event e)))

abbrev pub wake_delay : Sdk → Bool → Option ℕ
wake_delay s at_once = if at_once && nat_eqb s.consecutive_failures 0 then some 0 else none

-- The last step of `finally`: a timer for what is left, or for the report on pressure.
unfoldable pub wake : Sdk → Bool → ℕ → ℕ → Sdk
unfolding schedule_flush_locked schedule_pressure_report_locked
wake s at_once now monotonic =
    if is_some s.timer
    then s
    else if is_empty s.buffer
    then schedule_pressure_report_locked s now monotonic
    else if leb s.retry_after now
    then schedule_flush_locked s (wake_delay s at_once) monotonic
    else s

-- What follows the new queue of an acknowledged batch.
unfoldable pub after_acknowledged :
    Sdk → AcknowledgementDecision → Bool → TransportResponse → ℕ → ℕ → Sdk
unfolding back_off
after_acknowledged s ack again r now monotonic =
    let s' = if nat_eqb ack.accepted 0 then s else record s { last_event_at = some now } in
    if again then back_off s' r now monotonic else record s' {
      retry_after = 0;
      consecutive_failures = if nat_eqb ack.accepted 0 then 3 else 0;
    }

-- `filter_evidence(sdk, event)` where it gives another event, `none` where it gives none or the
-- same one: any function.
module _ (host : Host) (reduced : Sdk → Event → Option Event) where
  -- One round of `downgrade_rejections`.
  unfoldable pub downgrade_one : Sdk → List Event → ℕ × String → Option (Sdk × List Event)
  downgrade_one s batch (index, reason) = do
    original ← get_elem? batch index
    if not (reason == "invalid_event")
          || not (
              event_type_is original "backend_exception"
              || event_type_is original "frontend_exception")
        then some (s, [])
        else elim (reduced s original) [
          | none ↦ some (s, [])
          | some e ↦ do
            old ← Dict.get s.buffer_sizes original.ident
            some (
              record s {
                buffer_bytes = s.buffer_bytes + host.event_bytes e - old;
                buffer_sizes =
                    put (remove s.buffer_sizes original.ident) e.ident (host.event_bytes e);
                hook_bypass = e.ident ∷ s.hook_bypass;
              },
              e ∷ [],
            )
        ]

  unfoldable pub downgrade_all : Sdk → List Event → List (ℕ × String) → Option (Sdk × List Event)
  unfolding downgrade_one
  downgrade_all s batch [] = some (s, [])
  downgrade_all s batch (error ∷ errors) = do
    (s', first) ← downgrade_one s batch error
    (s'', rest) ← downgrade_all s' batch errors
    some (s'', first ++ rest)

  unfoldable pub downgrade_rejections :
      Sdk → List Event → List (ℕ × String) → Bool → Option (Sdk × List Event)
  unfolding downgrade_all
  downgrade_rejections s batch errors lost = elim lost [
    | true ↦ downgrade_all s batch errors
    | false ↦ some (s, [])
  ]
