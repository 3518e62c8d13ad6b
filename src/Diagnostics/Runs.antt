-- ===== src/Diagnostics/Runs.antt =====
-- Sequences of operations on a diagnostic budget (src/debugbundle/diagnostic_budget.py).
use debugbundle_python.Prelude.{ℕ, ◌≤◌, String, ◌≡◌, refl, some, List, [], ◌∷◌, string_eq, arith}
use debugbundle_python.Prelude.Dict.{get}
use debugbundle_python.Diagnostics
use debugbundle_python.Diagnostics.Changes
use debugbundle_python.Diagnostics.{
  Window, Pending, Payload, BudgetJson, DiagnosticCaptureBudget, empty,
}
use debugbundle_python.Diagnostics.Valid.{IsValid, WindowOk}
use debugbundle_python.Diagnostics.Valid.Entries.{release-IsAccounted, scope_window}
use debugbundle_python.Diagnostics.Valid.Registering.{register_failure-IsValid}
use debugbundle_python.Diagnostics.Valid.Reserving.{reserve-IsValid}
use debugbundle_python.Diagnostics.Valid.Replacing.{
  adjust-IsValid, retain_only-IsValid, replace-IsValid,
}

-- The methods that write, with their arguments; `clear` empties the budget.
pub data Call : Type 0 where
  clear : Call
  register_failure : Payload → String → ℕ → Call
  reserve : String → Payload → ℕ → ℕ → Call
  replace : String → String → Payload → ℕ → ℕ → Call
  adjust : String → ℕ → Call
  release : List String → Call
  retain : List String → Call

module _ (json : BudgetJson) where
  unfoldable pub call : Call → DiagnosticCaptureBudget → DiagnosticCaptureBudget
  call clear b = empty
  call (register_failure payload id now) b = (Diagnostics.register_failure json b payload id now).0
  call (reserve id payload size now) b = (Diagnostics.reserve json b id payload size now).0
  call (replace original_id id payload size now) b =
      (Changes.replace json b original_id id payload size now).0
  call (adjust id size) b = (Changes.adjust json b id size).0
  call (release ids) b = Changes.release json b ids
  call (retain ids) b = Changes.retain_only json b ids

  unfoldable pub run : List Call → DiagnosticCaptureBudget → DiagnosticCaptureBudget
  unfolding call
  run [] b = b
  run (c ∷ calls) b = run calls (call c b)

  empty-IsValid : IsValid json empty
  unfolding get
  empty-IsValid = record {
    windows = record { unique = tt; room = omega arith; each = tt };
    entries = record { unique = tt; each = tt };
    held = refl;
    within = omega arith;
    counted = λ k. refl;
  }

  call-IsValid : (c : Call) (b : DiagnosticCaptureBudget) → IsValid json b → IsValid json (call c b)
  unfolding call
  call-IsValid clear b h = empty-IsValid
  call-IsValid (register_failure payload id now) b h =
      register_failure-IsValid json b payload id now h
  call-IsValid (reserve id payload size now) b h = reserve-IsValid json b id payload size now h
  call-IsValid (replace original_id id payload size now) b h =
      replace-IsValid json b original_id id payload size now h
  call-IsValid (adjust id size) b h = adjust-IsValid json b id size h
  call-IsValid (release ids) b h = release-IsAccounted json _ ids b h
  call-IsValid (retain ids) b h = retain_only-IsValid json b ids h

  run_from-IsValid :
      (calls : List Call) (b : DiagnosticCaptureBudget)
      → IsValid json b
      → IsValid json (run calls b)
  unfolding run
  run_from-IsValid [] b h = h
  run_from-IsValid (c ∷ calls) b h = run_from-IsValid calls (call c b) (call-IsValid c b h)

  -- After any sequence of calls on an empty diagnostic budget, at most 65536 bytes are charged in
  -- at most fifty windows, each with at most twenty observations and five attempts, and the held
  -- bytes, the charges and the pending counts of the windows agree with the pending payloads.
  pub run-IsValid : (calls : List Call) → IsValid json (run calls empty)
  run-IsValid calls = run_from-IsValid calls empty empty-IsValid

  -- After any sequence of calls on an empty budget, the scope of a pending payload has its window,
  -- which counts it, is charged at its present length, and is within its limits of observations and
  -- attempts.
  pub run-scope_window :
      (calls : List Call) (id : String) (p : Pending)
      → get (run calls empty).pending id ≡ some p
      → (w : Window) × (get (run calls empty).windows p.scope ≡ some w)
        × (1 ≤ w.pending)
        × WindowOk json p.scope w
  run-scope_window calls id p found =
      scope_window json _ (run calls empty) id p (run-IsValid calls) found
