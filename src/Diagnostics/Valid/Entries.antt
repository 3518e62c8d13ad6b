-- ===== src/Diagnostics/Valid/Entries.antt =====
-- Operations that write pending payloads: releasing, adding, and charging one anew
-- (src/debugbundle/diagnostic_budget.py).
use text.Mathlib.TextEquality.{eq_iff}
use debugbundle_python.Prelude.{
  ℕ, ◌+◌, ◌-◌, ◌≤◌, String, ◌≡◌, refl, ◌∙◌, subst, some, List, [], ◌∷◌, arith, one_if, string_eq,
  ◌==◌, ==_refl, inl, inr, Bool-cases, Option-cases, if◌then◌else◌,
}
use debugbundle_python.Prelude.Dict.{get, put, remove, total}
use debugbundle_python.Prelude.Dict.Laws.{
  share, UniqueKeys-remove, AllEntries-remove, AllEntries-get, total-put, total-remove,
}
use debugbundle_python.Diagnostics.{
  Window, Pending, BudgetJson, DiagnosticCaptureBudget, charged, window_cost, accounted_bytes,
}
use debugbundle_python.Diagnostics.Changes.{release_entry, release}
use debugbundle_python.Diagnostics.Valid.{WindowOk, EntriesOk, EntryOk, IsAccounted, in_scope}
use debugbundle_python.Diagnostics.Valid.Windows.{put-WindowsOk, share-put}

module _ (json : BudgetJson) (limit : ℕ) where
  -- A smaller count is no longer to write.
  shrink :
      (k : String) (w : Window)
      → 1 ≤ w.pending
      → window_cost json k (record w { pending = w.pending - 1 }) ≤ window_cost json k w
  shrink k w h =
      let cost_at = λ (n : ℕ). window_cost json k (record w { pending = n }) in
      let e : w.pending - 1 + 1 ≡ w.pending = omega arith in
      subst (λ n. cost_at (w.pending - 1) ≤ cost_at n) e
        (json.window_length-pending k w.starts w.failure_at w.failure_id w.attempts w.observations
          w.resource w.ambiguous (w.pending - 1) 1)

  module _ (b : DiagnosticCaptureBudget) (id : String) (p : Pending) (h : IsAccounted json limit b)
      (found : get b.pending id ≡ some p) where
    in_scope-remove :
        (k : String)
        → in_scope k (remove b.pending id) + one_if (p.scope == k) ≡ in_scope k b.pending
    in_scope-remove k =
        total-remove (λ (_ : String) (q : Pending). one_if (q.scope == k)) b.pending id p found

    -- The scope of a pending payload has its window, which counts it.
    pub scope_window :
        (w : Window) × (get b.windows p.scope ≡ some w) × (1 ≤ w.pending) × WindowOk json p.scope w
    scope_window =
        let tally = h.counted p.scope in
        let least : 1 ≤ in_scope p.scope b.pending =
          ground (arith, in_scope-remove p.scope, ==_refl p.scope) in
        elim (Option-cases (get b.windows p.scope)) [
          | inl missing ↦
              let zero_count : 0 ≡ in_scope p.scope b.pending = rw missing at tally in
              absurd (omega arith)
          | inr (w, here) ↦
              let its_count : w.pending ≡ in_scope p.scope b.pending = rw here at tally in
              (
                w,
                here,
                omega arith,
                AllEntries-get (WindowOk json) b.windows p.scope w h.windows.each here,
              )
        ]

    entries-remove : EntriesOk (remove b.pending id)
    entries-remove = record {
      unique = UniqueKeys-remove b.pending id h.entries.unique;
      each = AllEntries-remove EntryOk b.pending id h.entries.each;
    }

    counted-remove :
        (w : Window)
        → get b.windows p.scope ≡ some w
        → (j : String)
        → (if p.scope == j
            then w.pending - 1
            else share (λ (w : Window). w.pending) (get b.windows j))
          ≡ in_scope j (remove b.pending id)
    counted-remove w here j = elim (Bool-cases (p.scope == j)) [
      | inl same ↦
          let tally : share (λ (w : Window). w.pending) (get b.windows j) ≡ in_scope j b.pending =
            h.counted j in
          let at_j : get b.windows j ≡ some w =
            subst (λ x. get b.windows x ≡ some w) ((eq_iff p.scope j).0 same) here in
          let tally' : w.pending ≡ in_scope j b.pending = rw at_j at tally in
          rw same (ground (arith, in_scope-remove j, same, tally'))
      | inr other ↦ rw other (ground (arith, in_scope-remove j, other, h.counted j))
    ]

    released :
        (w : Window)
        → get b.windows p.scope ≡ some w
        → 1 ≤ w.pending
        → WindowOk json p.scope w
        → IsAccounted json limit (record {
          windows =
              put b.windows p.scope (charged json p.scope (record w { pending = w.pending - 1 }));
          pending = remove b.pending id;
          held = b.held - p.cost;
        })
    released w here some_pending ok =
        let w' = charged json p.scope (record w { pending = w.pending - 1 }) in
        let paid = total-remove (λ (_ : String) (q : Pending). q.cost) b.pending id p found in
        let stored = total-put (λ (_ : String) (v : Window). v.cost) b.windows p.scope w' in
        let stored' : total (λ (_ : String) (v : Window). v.cost) (put b.windows p.scope w')
              + w.cost
            ≡ total (λ (_ : String) (v : Window). v.cost) b.windows + w'.cost =
          rw here at stored in
        record {
          windows =
              put-WindowsOk json b.windows p.scope w' h.windows (refl, ok.1, ok.2)
                (rw here (omega (arith, h.windows.room)));
          entries = entries-remove;
          held = omega (arith, h.held, paid);
          within = omega (arith, h.within, stored', shrink p.scope w some_pending, ok.0);
          counted = λ j. share-put json b.windows p.scope j w' ∙ counted-remove w here j;
        }

    pub release_entry-IsAccounted : IsAccounted json limit (release_entry json (some p) b id)
    unfolding release_entry
    release_entry-IsAccounted =
        let (w, here, some_pending, ok) = scope_window in rw here (released w here some_pending ok)

    -- A release gives back at least what the payload was charged.
    pub release_entry-accounted :
        accounted_bytes (release_entry json (some p) b id) + p.cost ≤ accounted_bytes b
    unfolding release_entry
    release_entry-accounted =
        let (w, here, some_pending, ok) = scope_window in
        let w' = charged json p.scope (record w { pending = w.pending - 1 }) in
        let paid = total-remove (λ (_ : String) (q : Pending). q.cost) b.pending id p found in
        let stored = total-put (λ (_ : String) (v : Window). v.cost) b.windows p.scope w' in
        let stored' : total (λ (_ : String) (v : Window). v.cost) (put b.windows p.scope w')
              + w.cost
            ≡ total (λ (_ : String) (v : Window). v.cost) b.windows + w'.cost =
          rw here at stored in
        rw here (omega (arith, stored', shrink p.scope w some_pending, ok.0, h.held, paid))

  release_one-IsAccounted :
      (b : DiagnosticCaptureBudget) (id : String)
      → IsAccounted json limit b
      → IsAccounted json limit (release_entry json (get b.pending id) b id)
  release_one-IsAccounted b id h = elim (Option-cases (get b.pending id)) [
    | inl absent ↦ rw absent (unfold release_entry in h)
    | inr (p, found) ↦ rw found (release_entry-IsAccounted b id p h found)
  ]

  pub release-IsAccounted :
      (ids : List String) (b : DiagnosticCaptureBudget)
      → IsAccounted json limit b
      → IsAccounted json limit (release json b ids)
  unfolding release
  release-IsAccounted [] b h = h
  release-IsAccounted (id ∷ ids) b h = release-IsAccounted ids _ (release_one-IsAccounted b id h)
