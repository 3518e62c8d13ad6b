-- ===== src/Diagnostics/Valid.antt =====
-- The accounts of the diagnostic budget, and the parts that keep them
-- (src/debugbundle/diagnostic_budget.py).
pub mod Windows
pub mod Entries
pub mod Registering
pub mod Reserving
pub mod Renaming
pub mod Replacing
use Prim.Native.String.{count}
use debugbundle_python.Prelude.{
  ℕ, ◌+◌, ◌≤◌, ◌<◌, String, ◌≡◌, refl, Option, none, some, length, one_if, string_eq, ◌==◌,
}
use debugbundle_python.Prelude.Dict.{Dict, get, UniqueKeys, AllEntries, total}
use debugbundle_python.Prelude.Dict.Laws.{share}
use debugbundle_python.Diagnostics.{
  Window, Pending, BudgetJson, DiagnosticCaptureBudget, window_cost, accounted_bytes,
  max_accounted_bytes,
}

-- The pending payloads of a scope.
abbrev pub in_scope : String → Dict String Pending → ℕ
in_scope k = total (λ _ p. one_if (p.scope == k))

abbrev pub EntryOk : String → Pending → Type 0
EntryOk id p = p.cost ≡ p.size + count id + count p.scope + 64

-- Each pending payload is charged for its bytes, its id and its scope.
pub record EntriesOk (pending : Dict String Pending) : Type 0 where
  pub unique : UniqueKeys pending
  pub each : AllEntries EntryOk pending

module _ (json : BudgetJson) where
  abbrev pub WindowOk : String → Window → Type 0
  WindowOk k w = (w.cost ≡ window_cost json k w) × (w.observations ≤ 20) × (length w.attempts ≤ 5)

  -- At most fifty windows, each charged at its present length.
  pub record WindowsOk (windows : Dict String Window) : Type 0 where
    pub unique : UniqueKeys windows
    pub room : length windows ≤ 50
    pub each : AllEntries WindowOk windows

  -- `held` is the sum of the charges, the total is within a limit, and a window counts the
  -- pending payloads of its scope (a payload's scope always has its window).
  pub record IsAccounted (limit : ℕ) (b : DiagnosticCaptureBudget) : Type 0 where
    pub windows : WindowsOk b.windows
    pub entries : EntriesOk b.pending
    pub held : b.held ≡ total (λ _ p. p.cost) b.pending
    pub within : accounted_bytes b ≤ limit
    pub counted :
        (k : String) → share (λ (w : Window). w.pending) (get b.windows k) ≡ in_scope k b.pending

  abbrev pub IsValid : DiagnosticCaptureBudget → Type 0
  IsValid = IsAccounted max_accounted_bytes
