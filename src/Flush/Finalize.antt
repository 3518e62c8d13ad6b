-- ===== src/Flush/Finalize.antt =====
-- src/debugbundle/delivery_hooks.py: the events of a flush are finalized one at a time, while other
-- threads may change the queue between the sections under the lock. `none` is an error.
use debugbundle_python.Prelude.{
  ℕ, zero, suc, ◌+◌, ◌-◌, String, Option, none, some, Bool, true, false, ◌&&◌, List, [], ◌∷◌,
  contains, leb, nat_eqb, string_eq, nat_eq, ◌==◌, if◌then◌else◌, ◌>>=◌,
}
use debugbundle_python.Prelude.Dict
use debugbundle_python.Prelude.Dict.{Dict, put, remove}
use debugbundle_python.Json.{Fields, str, dict, end, get, has}
use debugbundle_python.Evidence.{is_text}
use debugbundle_python.RequestPolicy.{should_capture_request_event}
use debugbundle_python.Reconcile.{allows_recovery, reconcile_diagnostic}
use debugbundle_python.Levels.{log_level_eligible}
use debugbundle_python.Queue.{discard}
use debugbundle_python.Sdk.{Sdk, Event, Host, event_type_is}

-- `buffer[index] = replacement`
abbrev pub set_at : List Event → ℕ → Event → Option (List Event)
set_at [] index e = none
set_at (x ∷ xs) zero e = some (e ∷ xs)
set_at (x ∷ xs) (suc index) e =
    let rest = set_at xs index e in elim rest [ none ↦ none | some ys ↦ some (x ∷ ys) ]

-- `buffer.pop(index)`
abbrev pub pop_at : List Event → ℕ → Option (List Event)
pop_at [] index = none
pop_at (x ∷ xs) zero = some xs
pop_at (x ∷ xs) (suc index) =
    let rest = pop_at xs index in elim rest [ none ↦ none | some ys ↦ some (x ∷ ys) ]

-- What the program takes from libraries and from the SDK's own level.
pub record PolicyHost : Type 0 where
  pub lower_strip : String → String
  pub upper : String → String
  pub url_path : String → Option String
  pub log_level : String

abbrev payload_fields : Event → Fields
payload_fields e = elim (get e.fields "payload") [ dict payload ↦ payload | _ ↦ end ]

module _ (host : Host) (p : PolicyHost) where
  -- `replacement_allowed`
  unfoldable pub replacement_allowed : Sdk → Event → Option Bool
  unfolding log_level_eligible should_capture_request_event allows_recovery
  replacement_allowed s e =
      let payload = payload_fields e in
      if event_type_is e "log_event"
      then (elim (get payload "level") [
        | str level ↦ log_level_eligible p.lower_strip s p.log_level level
        | _ ↦ none
      ])
      else if event_type_is e "request_event"
      then should_capture_request_event p.url_path p.upper s.capture_policy (some payload)
          (some payload)
      else if event_type_is e "probe_event"
      then some (s.capture_policy.capture_probe_events == "standalone_when_activated")
      else if event_type_is e "diagnostic_context"
      then (if has payload "kind"
          then some (is_text (get payload "kind") "recovery" && allows_recovery host s)
          else none)
      else some true

  -- The replacement takes the place of its original.
  abbrev pub accepted : Sdk → Event → ℕ → Event → ℕ → List Event → Sdk
  accepted s original old e bytes buffer = record s {
    buffer = buffer;
    buffer_sizes = put (remove s.buffer_sizes original.ident) e.ident bytes;
    buffer_bytes = s.buffer_bytes + bytes - old;
    hook_bypass =
        discard
          (if contains s.hook_bypass original.ident then e.ident ∷ s.hook_bypass else s.hook_bypass)
          original.ident;
  }

  abbrev pub accept : Sdk → ℕ → Event → ℕ → Event → ℕ → Option (Sdk × Option Event)
  accept s index original old e bytes = do
    buffer ← set_at s.buffer index e
    some (accepted s original old e bytes buffer, some e)

  -- The original leaves the queue; a drop is counted where its replacement was too large.
  abbrev pub withheld : Sdk → Event → ℕ → Bool → List Event → Sdk
  withheld r original old pressed buffer = record r {
    pressure_drops = if pressed then r.pressure_drops + 1 else r.pressure_drops;
    buffer = buffer;
    buffer_sizes = remove r.buffer_sizes original.ident;
    buffer_bytes = r.buffer_bytes - old;
    hook_bypass = discard r.hook_bypass original.ident;
    inflight_count = r.inflight_count - 1;
  }

  abbrev pub withhold : Sdk → ℕ → Event → ℕ → Bool → ℕ → Option (Sdk × Option Event)
  withhold s index original old pressed now = do
    let r = (reconcile_diagnostic host s (some original) none now).0
    buffer ← pop_at r.buffer index
    some (withheld r original old pressed buffer, none)

  -- Whether the replacement is allowed, whether it fits, and what becomes of the budget with it.
  abbrev pub conclude :
      Sdk → ℕ → Event → ℕ → Event → ℕ → ℕ → Bool → Bool → Sdk × Bool → Option (Sdk × Option Event)
  conclude s index original old e bytes now false fits r = withhold s index original old false now
  conclude s index original old e bytes now true false r = withhold s index original old true now
  conclude s index original old e bytes now true true (r, true) =
      accept r index original old e bytes
  conclude s index original old e bytes now true true (r, false) =
      withhold r index original old false now

  -- The section under the lock, for an event and what the hook left of it with its bytes.
  unfoldable pub finalize_one :
      Sdk → ℕ → Event → Option (Event × ℕ) → ℕ → ℕ → Option (Sdk × Option Event)
  unfolding replacement_allowed reconcile_diagnostic
  finalize_one s index original replacement max_bytes now = do
    old ← Dict.get s.buffer_sizes original.ident
    elim replacement [
      | none ↦ withhold s index original old false now
      | some (e, bytes) ↦ do
        allowed ← replacement_allowed s e
        conclude s index original old e bytes now allowed
            (leb (s.buffer_bytes + bytes) (max_bytes + old))
            (reconcile_diagnostic host s (some original) (some e) now)
    ]

  -- A round: the event, what the hook leaves of it, and what other threads do meanwhile.
  pub record Round : Type 0 where
    pub original : Event
    pub replacement : Option (Event × ℕ)
    pub meanwhile : Sdk → Sdk
    pub now : ℕ

  abbrev pub kept_and : Option Event → Option (List Event) → Option (List Event)
  kept_and kept none = none
  kept_and none (some rest) = some rest
  kept_and (some e) (some rest) = some (e ∷ rest)

  abbrev pub next_index : ℕ → Option Event → ℕ
  next_index index none = index
  next_index index (some e) = index + 1

  -- `finalize_batch`; the inner `none` is its `None`, of a generation that is over.
  unfoldable pub finalize_batch : Sdk → ℕ → ℕ → ℕ → List Round → Option (Sdk × Option (List Event))
  unfolding finalize_one
  finalize_batch s generation max_bytes index [] = some (s, some [])
  finalize_batch s generation max_bytes index (r ∷ rounds) =
      elim (nat_eqb generation (r.meanwhile s).generation) [
        | false ↦ some (r.meanwhile s, none)
        | true ↦ do
          (s', kept) ← finalize_one (r.meanwhile s) index r.original r.replacement max_bytes r.now
          (s'', rest) ← finalize_batch s' generation max_bytes (next_index index kept) rounds
          some (s'', kept_and kept rest)
      ]
