-- ===== src/Diagnostics.antt =====
-- src/debugbundle/diagnostic_budget.py: the windows and the pending payloads of diagnostics, the
-- bytes charged for them, `register_failure` and `reserve`. Times are milliseconds.
pub mod Changes
pub mod Valid
pub mod Runs
use Prim.Native.String.{count}
use debugbundle_python.Prelude.{
  ℕ, ◌+◌, ◌-◌, ◌≤◌, String, Option, none, some, Bool, true, false, not, ◌&&◌, ◌||◌, List, [], ◌∷◌,
  map, length, contains, ltb, leb, nat_eqb, string_eq, ◌==◌, or_else, is_some, if◌then◌else◌,
}
use debugbundle_python.Prelude.Dict.{Dict, get, put, remove, retain, has, total}
use debugbundle_python.Json.{Json}

pub record Window : Type 0 where
  pub starts : ℕ
  pub failure_at : Option ℕ
  pub failure_id : Option String
  pub attempts : List String
  pub observations : ℕ
  pub resource : Bool
  pub ambiguous : Bool
  pub pending : ℕ
  pub cost : ℕ

pub record Pending : Type 0 where
  pub scope : String
  pub kind : String
  pub attempt : Option String
  pub size : ℕ
  pub cost : ℕ

-- The fields of a payload that the budget reads, `none` for `None` or a missing one.
pub record Payload : Type 0 where
  pub failure_ref : Json
  pub scope : Json
  pub kind : String
  pub attempt_id : Option String
  pub source_event_id : Option String

-- What the code takes from `json.dumps`: the key of a failure and its scope, and the length of a
-- window's record. The length falls where `false` becomes `true` and where a number falls.
pub record BudgetJson : Type 0 where
  pub scope_key : Json → Json → String
  pub window_length : String → ℕ → Option ℕ → Option String → List String → ℕ → Bool → Bool → ℕ → ℕ
  pub window_length-ambiguous :
      (key : String) (starts : ℕ) (at : Option ℕ) (id : Option String) (attempts : List String)
      (observations : ℕ) (resource ambiguous : Bool) (pending : ℕ)
      → window_length key starts at id attempts observations resource true pending
        ≤ window_length key starts at id attempts observations resource ambiguous pending
  pub window_length-pending :
      (key : String) (starts : ℕ) (at : Option ℕ) (id : Option String) (attempts : List String)
      (observations : ℕ) (resource ambiguous : Bool) (pending more : ℕ)
      → window_length key starts at id attempts observations resource ambiguous pending
        ≤ window_length key starts at id attempts observations resource ambiguous (pending + more)

pub record DiagnosticCaptureBudget : Type 0 where
  pub windows : Dict String Window
  pub pending : Dict String Pending
  pub held : ℕ

abbrev pub empty : DiagnosticCaptureBudget
empty = record { windows = []; pending = []; held = 0 }

abbrev pub max_accounted_bytes : ℕ
max_accounted_bytes = 65_536

abbrev pub window_ms : ℕ
window_ms = 300_000

abbrev pub resource_ms : ℕ
resource_ms = 30_000

abbrev pub accounted_bytes : DiagnosticCaptureBudget → ℕ
accounted_bytes b = b.held + total (λ _ w. w.cost) b.windows

-- `_size(value)` of an int
abbrev pub is_size : ℕ → Bool
is_size size = leb size 65_536

-- `Window(now)`
abbrev pub new_window : ℕ → Window
new_window now = record {
  starts = now;
  failure_at = none;
  failure_id = none;
  attempts = [];
  observations = 0;
  resource = false;
  ambiguous = false;
  pending = 0;
  cost = 0;
}

abbrev pub alive : ℕ → Window → Bool
alive now w = not (nat_eqb w.pending 0) || ltb now (w.starts + window_ms)

unfoldable pub prune : DiagnosticCaptureBudget → ℕ → DiagnosticCaptureBudget
prune b now = record b { windows = retain (λ _ w. alive now w) b.windows }

-- `x == y` and `x is not None and x != y` on optional texts
abbrev pub opt_eqb : Option String → Option String → Bool
opt_eqb none none = true
opt_eqb (some a) (some b) = a == b
opt_eqb _ _ = false

abbrev other_failure : Option String → String → Bool
other_failure none event_id = false
other_failure (some id) event_id = not (id == event_id)

abbrev cost_of : Option Window → ℕ
cost_of none = 0
cost_of (some w) = w.cost

abbrev base_window : Option Window → ℕ → Window
base_window none now = new_window now
base_window (some w) now = w

-- The first refusals: fifty windows and no window yet, or an ambiguous one.
abbrev no_room : Option Window → Dict String Window → Bool
no_room none windows = leb 50 (length windows)
no_room (some w) windows = false

abbrev is_ambiguous : Option Window → Bool
is_ambiguous none = false
is_ambiguous (some w) = w.ambiguous

module _ (json : BudgetJson) where
  abbrev pub key : Payload → String
  key payload = json.scope_key payload.failure_ref payload.scope

  -- `_cost(key, value)`
  abbrev pub window_cost : String → Window → ℕ
  window_cost k w =
      json.window_length k w.starts w.failure_at w.failure_id w.attempts w.observations w.resource
        w.ambiguous w.pending

  -- `value.cost = _cost(key, value)`
  abbrev pub charged : String → Window → Window
  charged k w = record w { cost = window_cost k w }

  -- The rest of `register_failure` for a window that is new, or has no other failure.
  unfoldable pub register_in :
      Option Window → DiagnosticCaptureBudget → String → String → ℕ → DiagnosticCaptureBudget × Bool
  register_in previous b k event_id now =
      let base = base_window previous now in
      let value = charged k (record base {
        failure_id = some event_id;
        failure_at = some (or_else base.failure_at now);
      }) in
      if no_room previous b.windows
      then (b, false)
      else if ltb max_accounted_bytes (accounted_bytes b - cost_of previous + value.cost)
      then (b, false)
      else (record b { windows = put b.windows k value }, not value.ambiguous)

  unfoldable pub register_found :
      Option Window → DiagnosticCaptureBudget → String → String → ℕ → DiagnosticCaptureBudget × Bool
  unfolding register_in
  register_found none b k event_id now = register_in none b k event_id now
  register_found (some w) b k event_id now =
      if other_failure w.failure_id event_id
      then (
        record b { windows = put b.windows k (charged k (record w { ambiguous = true })) },
        false,
      )
      else register_in (some w) b k event_id now

  unfoldable pub register_failure :
      DiagnosticCaptureBudget → Payload → String → ℕ → DiagnosticCaptureBudget × Bool
  unfolding prune register_found
  register_failure b payload event_id now =
      let b' = prune b now in
      let k = key payload in register_found (get b'.windows k) b' k event_id now

  -- The time checks of `reserve`, and the limit on observations.
  abbrev off_time : Window → ℕ → Bool
  off_time w now =
      ltb now w.starts
      || ltb (or_else w.failure_at w.starts + window_ms) now
      || leb 20 w.observations

  -- `attempt = payload["attempt_id"] if payload["kind"] == "recovery" else None`
  abbrev attempt_of : Payload → Option String
  attempt_of payload = if payload.kind == "recovery" then payload.attempt_id else none

  -- Whether a resource observation comes too late after the failure, or with no failure.
  abbrev late_resource : Option ℕ → ℕ → Bool
  late_resource none now = true
  late_resource (some at) now = ltb (at + resource_ms) now

  -- The window with the attempt or the resource observation noted; `none` is a refusal.
  unfoldable pub claim : Option String → Window → Payload → ℕ → Option Window
  claim (some attempt) w payload now =
      if contains w.attempts attempt
      then some w
      else if leb 5 (length w.attempts)
      then none
      else some (record w { attempts = attempt ∷ w.attempts })
  claim none w payload now =
      if w.resource
        || not (opt_eqb w.failure_id payload.source_event_id)
        || late_resource w.failure_at now
      then none
      else some (record w { resource = true })

  -- The last part of `reserve`: the claimed window is charged, with the payload.
  unfoldable pub commit_reservation :
      Option Window
      → Window
      → DiagnosticCaptureBudget
      → String
      → String
      → Payload
      → ℕ
      → DiagnosticCaptureBudget × Bool
  commit_reservation previous claimed b k event_id payload size =
      let value = charged k (record claimed {
        pending = claimed.pending + 1;
        observations = claimed.observations + 1;
      }) in
      let cost = size + count event_id + count k + 64 in
      if ltb max_accounted_bytes (accounted_bytes b - cost_of previous + value.cost + cost)
      then (b, false)
      else (
        record {
          windows = put b.windows k value;
          pending = put b.pending event_id (record {
            scope = k;
            kind = payload.kind;
            attempt = attempt_of payload;
            size = size;
            cost = cost;
          });
          held = b.held + cost;
        },
        true,
      )

  abbrev pub commit_claim :
      Option Window
      → Option Window
      → DiagnosticCaptureBudget
      → String
      → String
      → Payload
      → ℕ
      → DiagnosticCaptureBudget × Bool
  commit_claim previous none b k event_id payload size = (b, false)
  commit_claim previous (some claimed) b k event_id payload size =
      commit_reservation previous claimed b k event_id payload size

  unfoldable pub reserve_found :
      Option Window
      → DiagnosticCaptureBudget
      → String
      → String
      → Payload
      → ℕ
      → ℕ
      → DiagnosticCaptureBudget × Bool
  unfolding claim commit_reservation
  reserve_found previous b k event_id payload size now =
      let value = base_window previous now in
      if no_room previous b.windows || is_ambiguous previous || off_time value now
      then (b, false)
      else commit_claim previous (claim (attempt_of payload) value payload now) b k event_id payload
          size

  unfoldable pub reserve :
      DiagnosticCaptureBudget → String → Payload → ℕ → ℕ → DiagnosticCaptureBudget × Bool
  unfolding prune reserve_found
  reserve b event_id payload size now =
      let b' = prune b now in
      let k = key payload in
      if not (is_size size) || has b.pending event_id
      then (b, false)
      else reserve_found (get b'.windows k) b' k event_id payload size now
