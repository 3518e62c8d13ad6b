-- ===== src/Diagnostics/Changes.antt =====
-- src/debugbundle/diagnostic_budget.py: the operations on a payload that is pending already
-- (`adjust`, `eligible`, `release`, `retain`, `replace`).
use Prim.Native.String.{count}
use debugbundle_python.Prelude.{
  ℕ, ◌+◌, ◌-◌, String, Option, none, some, Bool, true, false, not, ◌&&◌, ◌||◌, List, [], ◌∷◌,
  contains, ltb, string_eq, ◌==◌, if◌then◌else◌,
}
use debugbundle_python.Prelude.Dict.{Dict, get, put, remove, has}
use debugbundle_python.Diagnostics.{
  Window, Pending, Payload, BudgetJson, DiagnosticCaptureBudget, max_accounted_bytes,
  accounted_bytes, is_size, opt_eqb, key, charged, reserve,
}

module _ (json : BudgetJson) where
  -- `_pending.get(event_id)` is handed to `adjust_entry`, `eligible_entry` and `release_entry`.
  unfoldable pub adjust_entry :
      Option Pending → DiagnosticCaptureBudget → String → ℕ → DiagnosticCaptureBudget × Bool
  adjust_entry none b event_id size = (b, false)
  adjust_entry (some entry) b event_id size =
      if not (is_size size) || ltb max_accounted_bytes (accounted_bytes b + size - entry.size)
      then (b, false)
      else (
        record b {
          held = b.held + size - entry.size;
          pending =
              put b.pending event_id
                (record entry { cost = entry.cost + size - entry.size; size = size });
        },
        true,
      )

  unfoldable pub adjust : DiagnosticCaptureBudget → String → ℕ → DiagnosticCaptureBudget × Bool
  unfolding adjust_entry
  adjust b event_id size = adjust_entry (get b.pending event_id) b event_id size

  unfoldable pub eligible_entry : Option Pending → Option Window → String → Payload → Bool
  eligible_entry (some entry) (some w) k payload =
      entry.scope == k
      && not w.ambiguous
      && (payload.kind == "recovery" || opt_eqb w.failure_id payload.source_event_id)
  eligible_entry _ _ k payload = false

  unfoldable pub eligible : DiagnosticCaptureBudget → String → Payload → Bool
  unfolding eligible_entry
  eligible b event_id payload =
      eligible_entry (get b.pending event_id) (get b.windows (key json payload)) (key json payload)
        payload

  -- `max(0, value.pending - 1)` is `-` on ℕ.
  abbrev pub drop_from_window : Option Window → Dict String Window → String → Dict String Window
  drop_from_window none windows scope = windows
  drop_from_window (some w) windows scope =
      put windows scope (charged json scope (record w { pending = w.pending - 1 }))

  unfoldable pub release_entry :
      Option Pending → DiagnosticCaptureBudget → String → DiagnosticCaptureBudget
  release_entry none b event_id = b
  release_entry (some entry) b event_id = record {
    pending = remove b.pending event_id;
    held = b.held - entry.cost;
    windows = drop_from_window (get b.windows entry.scope) b.windows entry.scope;
  }

  unfoldable pub release : DiagnosticCaptureBudget → List String → DiagnosticCaptureBudget
  unfolding release_entry
  release b [] = b
  release b (event_id ∷ event_ids) =
      release (release_entry (get b.pending event_id) b event_id) event_ids

  -- `retain(event_ids)`: the pending ids that are not among these are released.
  abbrev pub missing : Dict String Pending → List String → List String
  missing [] event_ids = []
  missing ((id, entry) ∷ pending) event_ids =
      let rest = missing pending event_ids in if contains event_ids id then rest else id ∷ rest

  unfoldable pub retain_only : DiagnosticCaptureBudget → List String → DiagnosticCaptureBudget
  unfolding release
  retain_only b event_ids = release b (missing b.pending event_ids)

  -- The entry moves to its new id, with the difference of the lengths charged.
  unfoldable pub rename :
      DiagnosticCaptureBudget → Pending → String → String → DiagnosticCaptureBudget
  rename b entry original_id event_id = record b {
    pending =
        put (remove b.pending original_id) event_id
          (record entry { cost = entry.cost + count event_id - count original_id });
    held = b.held + count event_id - count original_id;
  }

  unfoldable pub readjust :
      DiagnosticCaptureBudget → String → Payload → ℕ → DiagnosticCaptureBudget × Bool
  unfolding adjust eligible release
  readjust b event_id payload size =
      let (b', adjusted) = adjust b event_id size in
      if adjusted && eligible b' event_id payload
      then (b', true)
      else (release b' (event_id ∷ []), false)

  unfoldable pub replace_entry :
      Option Pending
      → DiagnosticCaptureBudget
      → String
      → String
      → Payload
      → ℕ
      → ℕ
      → DiagnosticCaptureBudget × Bool
  unfolding rename readjust release reserve
  replace_entry none b original_id event_id payload size now =
      reserve json (release b (original_id ∷ [])) event_id payload size now
  replace_entry (some entry) b original_id event_id payload size now =
      if entry.scope == key json payload
        && entry.kind == payload.kind
        && opt_eqb entry.attempt payload.attempt_id
      then if event_id == original_id
        then readjust b event_id payload size
        else if has b.pending event_id
        then (release b (original_id ∷ []), false)
        else readjust (rename b entry original_id event_id) event_id payload size
      else reserve json (release b (original_id ∷ [])) event_id payload size now

  unfoldable pub replace :
      DiagnosticCaptureBudget → String → String → Payload → ℕ → ℕ → DiagnosticCaptureBudget × Bool
  unfolding replace_entry
  replace b original_id event_id payload size now =
      replace_entry (get b.pending original_id) b original_id event_id payload size now
