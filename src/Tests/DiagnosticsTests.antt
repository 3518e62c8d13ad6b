-- ===== src/Tests/DiagnosticsTests.antt =====
-- Runs of src/debugbundle/diagnostic_budget.py.
use debugbundle_python.Prelude.{◌+◌, string_eq, none, some, List, [], ◌∷◌, arith}
use debugbundle_python.Json.{str}
use debugbundle_python.Diagnostics.{Pending, Payload, BudgetJson, empty}
use debugbundle_python.Diagnostics.Valid.{IsValid}
use debugbundle_python.Diagnostics.Runs.{Call, register_failure, reserve, release, run, run-IsValid}

-- A record of 200 bytes, less one where the window is ambiguous, and its digits.
abbrev plain : BudgetJson
plain = record {
  scope_key = λ ref scope. "a failure and its scope";
  window_length =
      λ key starts at id attempts observations resource ambiguous pending. 200 + pending;
  window_length-ambiguous =
      λ key starts at id attempts observations resource ambiguous pending. omega arith;
  window_length-pending =
      λ key starts at id attempts observations resource ambiguous pending more. omega arith;
}

abbrev recovery : Payload
recovery = record {
  failure_ref = str "a";
  scope = str "b";
  kind = "recovery";
  attempt_id = some "first";
  source_event_id = none;
}

abbrev calls : List Call
calls =
    register_failure recovery "event 1" 1_000
    ∷ reserve "event 2" recovery 900 2_000
    ∷ reserve "event 3" recovery 900 3_000
    ∷ release ("event 2" ∷ [])
    ∷ []

run-IsValid_example : IsValid plain (run plain calls empty)
run-IsValid_example = run-IsValid plain calls

abbrev pended : Pending
pended = record {
  scope = "a failure and its scope";
  kind = "recovery";
  attempt = some "first";
  size = 900;
  cost = 994;
}
