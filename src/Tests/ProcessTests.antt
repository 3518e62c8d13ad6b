-- ===== src/Tests/ProcessTests.antt =====
-- Runs of src/debugbundle/process_support.py and of `fit_event` of src/debugbundle/ingestion_wire.py.
use debugbundle_python.Prelude.{
  ℕ, ◌≡◌, Option, none, some, true, false, List, [], ◌∷◌, arith, if◌then◌else◌,
}
use debugbundle_python.Json.{Fields, str, dict, end, field, get, has}
use debugbundle_python.Operations.{no_operations}
use debugbundle_python.Sdk.{Sdk, Event}
use debugbundle_python.Process.{Process, no_scopes, ensure_current_process}
use debugbundle_python.Process.Forked.{IsForked, ensure_current_process-IsForked}
use debugbundle_python.Tests.Fixtures.{host, full}

abbrev parent : Process
parent = record {
  pid = 10;
  sdk = full;
  operations = no_operations;
  context = end;
  scoped_context = no_scopes;
  request_trigger_directives = no_scopes;
  probe_labels = "checkout" ∷ [];
  remote_config_etag = some "e";
  remote_config_snapshot = none;
  http = true;
}

abbrev whole : Sdk → Event → Option Event
whole s e = none

ensure_current_process-IsForked_example :
    IsForked host whole 10 1_000 parent (ensure_current_process parent 11 true)
    × (ensure_current_process (ensure_current_process parent 11 true) 11 false
        ≡ ensure_current_process parent 11 true)
ensure_current_process-IsForked_example =
    ensure_current_process-IsForked host whole 10 1_000 11 parent true false (λ e. omega arith)

abbrev large : Fields
large = field "event_type" (str "backend_exception") (
    field "payload" (dict (field "execution" (str "long") (field "message" (str "boom") end)))
      (field "context" (dict end) end))

-- Every event is too large but one without evidence.
abbrev bytes : Fields → ℕ
bytes event = elim (get event "payload") [
  | dict payload ↦ if has payload "execution" then 300_000 else 100
  | _ ↦ 100
]
