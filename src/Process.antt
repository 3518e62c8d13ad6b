-- ===== src/Process.antt =====
-- src/debugbundle/process_support.py: a process that was forked discards what its parent owned.
pub mod Forked
use debugbundle_python.Prelude.{
  ℕ, ◌+◌, String, Option, none, some, Bool, true, false, ◌&&◌, List, [], nat_eqb, if◌then◌else◌,
  is_some,
}
use debugbundle_python.Prelude.Int.{pos}
use debugbundle_python.Json.{Fields, end}
use debugbundle_python.Config.Remote.{RemoteConfigSnapshot, RemoteProbeDirective}
use debugbundle_python.Diagnostics.{empty}
use debugbundle_python.Sdk.{Sdk}
use debugbundle_python.Operations.{OperationContexts, no_operations}
use debugbundle_python.Scopes.{Scopes}

-- The SDK with what else belongs to its process. `probe_labels` are the keys of the probe buffers, and
-- `http` is whether there is an `HttpTransport` of its own.
pub record Process : Type 0 where
  pub pid : ℕ
  pub sdk : Sdk
  pub operations : OperationContexts
  pub context : Fields
  pub scoped_context : Scopes Fields
  pub request_trigger_directives : Scopes (List RemoteProbeDirective)
  pub probe_labels : List String
  pub remote_config_etag : Option String
  pub remote_config_snapshot : Option RemoteConfigSnapshot
  pub http : Bool

abbrev pub no_scopes : {V : Type 0} → Scopes V
no_scopes = record { store = []; next = 0 }

-- The fields of the SDK that are set again; the policy and the limits stay.
abbrev pub forked_sdk : Sdk → Sdk
forked_sdk s = record s {
  timer = none;
  generation = s.generation + 1;
  evidence = [];
  diagnostics = empty;
  hook_bypass = [];
  sending = false;
  inflight_count = 0;
  buffer = [];
  buffer_sizes = [];
  buffer_bytes = 0;
  pending_low_priority = pos 0;
  suppression = [];
  pressure_drops = 0;
  last_pressure_report_at = 0;
  retry_after = 0;
  last_event_at = none;
  consecutive_failures = 0;
}

-- The transport after the fork: a new one where there was an `HttpTransport`, or none where it cannot
-- be made.
abbrev pub with_transport : Bool → Bool → Sdk → Sdk
with_transport false made s = s
with_transport true true s = record s { transport = some true }
with_transport true false s = record s { transport = none }

abbrev pub child : Process → ℕ → Bool → Process
child q pid made = record {
  pid = pid;
  sdk = with_transport q.http made (forked_sdk q.sdk);
  operations = no_operations;
  context = end;
  scoped_context = no_scopes;
  request_trigger_directives = no_scopes;
  probe_labels = [];
  remote_config_etag = none;
  remote_config_snapshot = none;
  http = q.http && made;
}

-- `ensure_current_process`, in a process, where an `HttpTransport` can be made or not
unfoldable pub ensure_current_process : Process → ℕ → Bool → Process
ensure_current_process q pid made = if nat_eqb q.pid pid then q else child q pid made
