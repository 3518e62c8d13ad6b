-- ===== src/Tests/Fixtures.antt =====
-- A host, events and a queue for the examples.
use debugbundle_python.Prelude.{ℕ, ◌+◌, String, none, some, true, [], ◌∷◌, arith}
use debugbundle_python.Prelude.Int.{pos}
use debugbundle_python.Json.{str, end, field}
use debugbundle_python.Diagnostics.{empty}
use debugbundle_python.Config.{balanced_capture_policy}
use debugbundle_python.Sdk.{Event, Sdk, Host}

abbrev pub host : Host
host = record {
  json = record {
    scope_key = λ ref scope. "scope";
    window_length =
        λ key starts at id attempts observations resource ambiguous pending. 200 + pending;
    window_length-ambiguous =
        λ key starts at id attempts observations resource ambiguous pending. omega arith;
    window_length-pending =
        λ key starts at id attempts observations resource ambiguous pending more. omega arith;
  };
  event_bytes = λ e. 100;
  parse_time = λ text. none;
}

abbrev pub event : ℕ → String → Event
event ident event_type = record { ident = ident; fields = field "event_type" (str event_type) end }

-- A queue of two events, full where two events are the limit.
abbrev pub full : Sdk
full = record {
  enabled = true;
  transport = some true;
  batch_size = 25;
  flush_interval = 5_000;
  buffer = event 1 "request_event" ∷ event 2 "log_event" ∷ [];
  buffer_sizes = (1, 100) ∷ (2, 120) ∷ [];
  buffer_bytes = 220;
  pending_low_priority = pos 2;
  sending = true;
  inflight_count = 1;
  timer = none;
  generation = 1;
  pressure_drops = 0;
  last_pressure_report_at = 0;
  suppression = [];
  retry_after = 0;
  last_event_at = none;
  consecutive_failures = 0;
  capture_policy = balanced_capture_policy;
  capture_recovery_observations = true;
  evidence = [];
  diagnostics = empty;
  hook_bypass = [];
}
