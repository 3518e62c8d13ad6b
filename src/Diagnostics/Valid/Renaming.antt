-- ===== src/Diagnostics/Valid/Renaming.antt =====
-- `replace` under a new id: the entry moves, with the difference of the ids charged
-- (src/debugbundle/diagnostic_budget.py).
use Prim.Native.String.{count}
use text.Mathlib.TextEquality.{eq_iff}
use debugbundle_python.Prelude.{
  ℕ, ◌+◌, ◌-◌, ◌≤◌, String, ◌≡◌, ◌∙◌, subst, none, some, false, arith, one_if, string_eq, ◌==◌, inl,
  inr, Bool-cases,
}
use debugbundle_python.Prelude.Dict.{get, remove, total, get-remove_ne}
use debugbundle_python.Prelude.Dict.Laws.{
  get-put_self, UniqueKeys-remove, AllEntries-get, AllEntries-remove, total-put_new, total-remove,
  total-ge-share,
}
use debugbundle_python.Diagnostics.{
  Pending, BudgetJson, DiagnosticCaptureBudget, accounted_bytes, max_accounted_bytes,
}
use debugbundle_python.Diagnostics.Changes.{rename}
use debugbundle_python.Diagnostics.Valid.{EntryOk, IsAccounted, IsValid}
use debugbundle_python.Diagnostics.Valid.Reserving.{put-EntriesOk}

-- The charge of an entry that moves from one id to another.
abbrev pub moved : Pending → String → String → Pending
moved p original_id event_id = record p { cost = p.cost + count event_id - count original_id }

module _ (json : BudgetJson) where
  module _ (b : DiagnosticCaptureBudget) (original_id event_id : String) (p : Pending)
      (h : IsValid json b) (found : get b.pending original_id ≡ some p)
      (new : get b.pending event_id ≡ none) where
    other_id : (original_id == event_id) ≡ false
    other_id = elim (Bool-cases (original_id == event_id)) [
      | inl same ↦
          let twice : get b.pending event_id ≡ some p =
            subst (λ x. get b.pending x ≡ some p) ((eq_iff original_id event_id).0 same) found in
          absurd (ground (arith, twice))
      | inr other ↦ other
    ]

    gone : get (remove b.pending original_id) event_id ≡ none
    gone = get-remove_ne b.pending original_id event_id other_id ∙ new

    -- A measure of the entries after the move.
    total-moved :
        (f : Pending → ℕ)
        → total (λ _ q. f q) (rename json b p original_id event_id).pending + f p
          ≡ total (λ _ q. f q) b.pending + f (moved p original_id event_id)
    unfolding rename
    total-moved f = omega (
      arith,
      total-remove (λ (_ : String) (q : Pending). f q) b.pending original_id p found,
      total-put_new (λ (_ : String) (q : Pending). f q) (remove b.pending original_id) event_id
          (moved p original_id event_id) gone,
    )

    charge : p.cost ≡ p.size + count original_id + count p.scope + 64
    charge = AllEntries-get EntryOk b.pending original_id p h.entries.each found

    paid : p.cost ≤ total (λ _ q. q.cost) b.pending
    paid = rw found at (total-ge-share (λ (_ : String) (q : Pending). q.cost) b.pending original_id)

    pub rename-IsAccounted :
        IsAccounted json
          (accounted_bytes (rename json b p original_id event_id))
          (rename json b p original_id event_id)
    unfolding rename
    rename-IsAccounted = record {
      windows = h.windows;
      entries =
          put-EntriesOk json (remove b.pending original_id) event_id (moved p original_id event_id)
            (record {
              unique = UniqueKeys-remove b.pending original_id h.entries.unique;
              each = AllEntries-remove EntryOk b.pending original_id h.entries.each;
            })
            (omega (arith, charge));
      held = omega (arith, h.held, charge, paid, total-moved (λ q. q.cost));
      within = omega arith;
      counted = λ k. omega (arith, h.counted k, total-moved (λ q. one_if (q.scope == k)));
    }

    pub rename-accounted :
        accounted_bytes (rename json b p original_id event_id)
        ≤ max_accounted_bytes + (moved p original_id event_id).cost
    unfolding rename
    rename-accounted = omega (arith, h.within, h.held, charge, paid)

    pub get-rename :
        get (rename json b p original_id event_id).pending event_id
        ≡ some (moved p original_id event_id)
    unfolding rename
    get-rename = get-put_self (remove b.pending original_id) event_id (moved p original_id event_id)
