-- ===== src/Queue.antt =====
-- src/debugbundle/queue_admission.py: admission to the bounded queue, by priority.
pub mod Shape
pub mod Eviction
pub mod Admission
pub mod Placing
pub mod Offers
pub mod Results
use debugbundle_python.Prelude.{
  ℕ, zero, suc, ◌+◌, ◌-◌, ◌*◌, ◌^◌, ◌≤◌, String, Option, none, some, Bool, true, false, not, ◌&&◌,
  ◌||◌, ◌++◌, List, [], ◌∷◌, length, ltb, leb, nat_eqb, min, string_eq, nat_eq, ◌==◌, contains,
  if◌then◌else◌, ◌>>=◌,
}
use debugbundle_python.Prelude.Int.{ℤ, pos, ◌+ℤ◌, ◌-ℤ◌, ltb_ℤ}
use debugbundle_python.Prelude.Dict
use debugbundle_python.Prelude.Dict.{Dict, put, remove}
use debugbundle_python.Json.{Json, Fields, int, str, dict, get}
use debugbundle_python.Evidence.{is_text}
use debugbundle_python.Diagnostics.{DiagnosticCaptureBudget}
use debugbundle_python.Diagnostics.Changes.{release}
use debugbundle_python.Reconcile.{reconcile_diagnostic}
use debugbundle_python.Sdk.{Sdk, Event, Host, event_type_is, event_id, schedule_flush_locked}

abbrev is_server_error : Json → Bool
is_server_error (int (pos n)) = leb 500 n
is_server_error _ = false

-- `high_priority_event`, by the payload
pub high_payload : Json → Bool → Bool
high_payload (dict payload) is_request =
    is_text (get payload "level") "error"
    || is_text (get payload "level") "critical"
    || (is_request && is_server_error (get payload "response_status"))
high_payload _ is_request = false

unfoldable pub high_priority_event : Event → Bool
unfolding high_payload
high_priority_event e =
    event_type_is e "backend_exception"
    || high_payload (get e.fields "payload") (event_type_is e "request_event")

abbrev max_drops : ℕ
max_drops = 2 ^ 63 - 1

-- `may_prepare_event`
unfoldable pub may_prepare_event : Sdk → Bool → ℕ → ℕ → Sdk × Bool
may_prepare_event s high_priority max_events max_bytes =
    if ltb (length s.buffer) max_events && ltb s.buffer_bytes max_bytes
    then (s, true)
    else if high_priority && ltb_ℤ (pos 0) s.pending_low_priority
    then (s, true)
    else (record s { pressure_drops = min max_drops (s.pressure_drops + 1) }, false)

-- `set.discard`
unfoldable pub discard : List ℕ → ℕ → List ℕ
discard [] i = []
discard (j ∷ ids) i = let rest = discard ids i in if j == i then rest else j ∷ rest

-- The loop of `evict_low_priority`: past the events in flight, the first event of low priority and
-- the buffer without it.
unfoldable pub pop_low : ℕ → List Event → Option (Event × List Event)
pop_low inflight [] = none
pop_low (suc k) (e ∷ es) = elim (pop_low k es) [
  | none ↦ none
  | some (evicted, rest) ↦ some (evicted, e ∷ rest)
]
pop_low zero (e ∷ es) = elim (high_priority_event e) [
  | true ↦ elim (pop_low zero es) [ none ↦ none | some (evicted, rest) ↦ some (evicted, e ∷ rest) ]
  | false ↦ some (e, es)
]

abbrev pub is_full : Sdk → ℕ → ℕ → ℕ → Bool
is_full s bytes max_events max_bytes =
    leb max_events (length s.buffer) || ltb max_bytes (s.buffer_bytes + bytes)

abbrev dropped : Sdk → Sdk
dropped s = record s { pressure_drops = s.pressure_drops + 1 }

-- The place of an event of high priority: behind those that follow the events in flight.
unfoldable pub insert_high : ℕ → Event → List Event → List Event
insert_high inflight e [] = e ∷ []
insert_high (suc k) e (x ∷ xs) = x ∷ insert_high k e xs
insert_high zero e (x ∷ xs) =
    let rest = insert_high zero e xs in if high_priority_event x then x ∷ rest else e ∷ x ∷ xs

-- Where the event goes, its charge, and the timer.
abbrev goes_first : Event → Bool → Bool → Bool
goes_first e high under_pressure = high && (not (event_type_is e "request_event") || under_pressure)

abbrev placed : Sdk → Event → Bool → Bool → Sdk
placed s e high under_pressure =
    let first = goes_first e high under_pressure in
    record s {
      buffer = if first then insert_high s.inflight_count e s.buffer else s.buffer ++ e ∷ [];
      pending_low_priority =
          if first then s.pending_low_priority else s.pending_low_priority +ℤ pos 1;
    }

abbrev charged : Sdk → Event → ℕ → Sdk
charged s e bytes = record s {
  buffer_bytes = s.buffer_bytes + bytes;
  buffer_sizes = put s.buffer_sizes e.ident bytes;
}

module _ (host : Host) where
  -- The budget when the event leaves.
  abbrev diagnostics_without : Sdk → Event → DiagnosticCaptureBudget
  diagnostics_without s e =
      if event_type_is e "diagnostic_context"
      then release host.json s.diagnostics (event_id e ∷ [])
      else s.diagnostics

  -- The body of the loop for the event found; `none` is the `KeyError` of `_buffer_sizes.pop`.
  unfoldable pub evict_found : Option (Event × List Event) → Sdk → Option (Sdk × Bool)
  unfolding discard
  evict_found none s = some (s, false)
  evict_found (some (evicted, rest)) s = do
    size ← Dict.get s.buffer_sizes evicted.ident
    some (
      record s {
        buffer = rest;
        hook_bypass = discard s.hook_bypass evicted.ident;
        diagnostics = diagnostics_without s evicted;
        buffer_bytes = s.buffer_bytes - size;
        buffer_sizes = remove s.buffer_sizes evicted.ident;
        pending_low_priority = s.pending_low_priority -ℤ pos 1;
        pressure_drops = min max_drops (s.pressure_drops + 1);
      },
      true,
    )

  unfoldable pub evict_low_priority : Sdk → Option (Sdk × Bool)
  unfolding evict_found pop_low
  evict_low_priority s = evict_found (pop_low s.inflight_count s.buffer) s

  -- The `while` loop of `offer_protected_event`, on a number of rounds; `some (s, false)` is its
  -- refusal.
  unfoldable pub make_room : ℕ → Sdk → Bool → ℕ → ℕ → ℕ → Option (Sdk × Bool)
  unfolding evict_low_priority
  make_room zero s high bytes max_events max_bytes = none
  make_room (suc rounds) s high bytes max_events max_bytes =
      elim (is_full s bytes max_events max_bytes) [
        | false ↦ some (s, true)
        | true ↦ elim high [
          | false ↦ some (dropped s, false)
          | true ↦ elim (evict_low_priority s) [
            | none ↦ none
            | some (s', evicted) ↦ elim evicted [
              | true ↦ make_room rounds s' true bytes max_events max_bytes
              | false ↦ some (dropped s', false)
            ]
          ]
        ]
      ]

  unfoldable pub enqueue : Sdk → Event → ℕ → Bool → ℕ → ℕ → Sdk × Bool
  unfolding insert_high
  enqueue s e bytes under_pressure now monotonic =
      let (s', accepted) = reconcile_diagnostic host s none (some e) now in
      if accepted
      then (let q = charged (placed s' e (high_priority_event e) under_pressure) e bytes in
          (
            schedule_flush_locked q (if leb q.batch_size (length q.buffer) then some 0 else none)
                monotonic,
            true,
          ))
      else (s', false)

  -- `offer_protected_event`; `none` would be a `KeyError`.
  unfoldable pub offer_protected_event : Sdk → Event → ℕ → ℕ → ℕ → ℕ → ℕ → Option (Sdk × Bool)
  unfolding make_room enqueue
  offer_protected_event s e bytes max_events max_bytes now monotonic =
      if ltb max_bytes bytes
      then some (dropped s, false)
      else elim (make_room (suc (length s.buffer)) s (high_priority_event e) bytes max_events
          max_bytes) [
            | none ↦ none
            | some (s', room) ↦ elim room [
              | true ↦
                  some (enqueue s' e bytes (is_full s bytes max_events max_bytes) now monotonic)
              | false ↦ some (s', false)
            ]
          ]
