-- ===== src/Diagnostics/Valid/Registering.antt =====
-- `register_failure` keeps the accounts of the diagnostic budget
-- (src/debugbundle/diagnostic_budget.py).
use debugbundle_python.Prelude.{
  ℕ, ◌+◌, ◌-◌, ◌≤◌, String, ◌≡◌, refl, Option, none, some, true, false, length, arith, string_eq,
  inl, inr, Bool-cases, ltb, or_else, ltb→ge, leb→gt,
}
use debugbundle_python.Prelude.Dict.{get, total}
use debugbundle_python.Prelude.Dict.Laws.{share, vacancy, AllEntries-get, total-ge-share}
use debugbundle_python.Diagnostics.{
  Window, Payload, BudgetJson, DiagnosticCaptureBudget, charged, window_cost, accounted_bytes,
  max_accounted_bytes, base_window, cost_of, no_room, other_failure, key, prune, register_in,
  register_found, register_failure,
}
use debugbundle_python.Diagnostics.Valid.{WindowOk, IsValid}
use debugbundle_python.Diagnostics.Valid.Windows.{put-IsValid, prune-IsValid}

module _ (json : BudgetJson) where
  -- What the window that an operation starts from has, be it stored or new.
  pub record BaseOk (b : DiagnosticCaptureBudget) (previous : Option Window) (now : ℕ)
      : Type 0 where
    pub observations : (base_window previous now).observations ≤ 20
    pub attempts : length (base_window previous now).attempts ≤ 5
    pub pending : (base_window previous now).pending ≡ share (λ (w : Window). w.pending) previous
    pub cost : cost_of previous ≡ share (λ (w : Window). w.cost) previous
    pub paid : cost_of previous ≤ total (λ _ w. w.cost) b.windows

  pub base-BaseOk :
      (b : DiagnosticCaptureBudget) (k : String) (previous : Option Window) (now : ℕ)
      → IsValid json b
      → get b.windows k ≡ previous
      → BaseOk b previous now
  base-BaseOk b k none now h e = record {
    observations = omega arith;
    attempts = omega arith;
    pending = refl;
    cost = refl;
    paid = omega arith;
  }
  base-BaseOk b k (some w) now h e =
      let ok = AllEntries-get (WindowOk json) b.windows k w h.windows.each e in
      let paid : share (λ (w : Window). w.cost) (get b.windows k)
          ≤ total (λ _ w. w.cost) b.windows =
        total-ge-share (λ _ w. w.cost) b.windows k in
      record {
        observations = ok.1;
        attempts = ok.2;
        pending = refl;
        cost = refl;
        paid = rw e at paid;
      }

  pub room_of :
      (b : DiagnosticCaptureBudget) (previous : Option Window)
      → IsValid json b
      → no_room previous b.windows ≡ false
      → length b.windows + vacancy previous ≤ 50
  room_of b none h open_slot = omega (arith, leb→gt _ _ open_slot)
  room_of b (some w) h open_slot = omega (arith, h.windows.room)

  register_in-IsValid :
      (previous : Option Window) (b : DiagnosticCaptureBudget) (k event_id : String) (now : ℕ)
      → IsValid json b
      → get b.windows k ≡ previous
      → IsValid json (register_in json previous b k event_id now).0
  unfolding register_in
  register_in-IsValid previous b k event_id now h e =
      let base = base_window previous now in
      let value = charged json k (record base {
        failure_id = some event_id;
        failure_at = some (or_else base.failure_at now);
      }) in
      let ok = base-BaseOk b k previous now h e in
      elim (Bool-cases (no_room previous b.windows)) [
        | inl full ↦ rw full h
        | inr open_slot ↦
            rw open_slot
              (elim (Bool-cases
                (ltb max_accounted_bytes (accounted_bytes b - cost_of previous + value.cost))) [
                  | inl over ↦ rw over h
                  | inr fits ↦ rw fits (
                      put-IsValid json b k value h (refl, ok.observations, ok.attempts)
                        (rw e (room_of b previous h open_slot)) (rw e ok.pending)
                        (rw e (omega (arith, ltb→ge _ _ fits, ok.paid, ok.cost))))
                ])
      ]

  register_found-IsValid :
      (previous : Option Window) (b : DiagnosticCaptureBudget) (k event_id : String) (now : ℕ)
      → IsValid json b
      → get b.windows k ≡ previous
      → IsValid json (register_found json previous b k event_id now).0
  unfolding register_found
  register_found-IsValid none b k event_id now h e = register_in-IsValid none b k event_id now h e
  register_found-IsValid (some w) b k event_id now h e =
      let ok = AllEntries-get (WindowOk json) b.windows k w h.windows.each e in
      let shorter : window_cost json k (record w { ambiguous = true }) ≤ window_cost json k w =
        json.window_length-ambiguous k w.starts w.failure_at w.failure_id w.attempts w.observations
          w.resource w.ambiguous w.pending in
      elim (Bool-cases (other_failure w.failure_id event_id)) [
        | inl other ↦ rw other (
            put-IsValid json b k (charged json k (record w { ambiguous = true })) h
              (refl, ok.1, ok.2) (rw e (omega (arith, h.windows.room))) (rw e refl)
              (rw e (omega (arith, shorter, ok.0, h.within))))
        | inr same ↦ rw same (register_in-IsValid (some w) b k event_id now h e)
      ]

  pub register_failure-IsValid :
      (b : DiagnosticCaptureBudget) (payload : Payload) (event_id : String) (now : ℕ)
      → IsValid json b
      → IsValid json (register_failure json b payload event_id now).0
  unfolding register_failure
  register_failure-IsValid b payload event_id now h =
      register_found-IsValid _ (prune b now) (key json payload) event_id now
        (prune-IsValid json b now h) refl
