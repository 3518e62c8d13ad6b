-- ===== src/Diagnostics/Valid/Replacing.antt =====
-- `adjust`, `retain` and `replace` keep the accounts of the diagnostic budget
-- (src/debugbundle/diagnostic_budget.py).
use Prim.Native.String.{count}
use text.Mathlib.TextEquality.{eq_iff}
use debugbundle_python.Prelude.{
  ℕ, ◌+◌, ◌-◌, ◌≤◌, String, ◌≡◌, refl, sym, subst, some, Bool, true, false, List, [], ◌∷◌, arith,
  one_if, string_eq, ◌==◌, inl, inr, Bool-cases, Option-cases, if◌then◌else◌, not, ltb, leb, ◌||◌,
  ◌&&◌, ◌⊎◌,
}
use debugbundle_python.Prelude.Dict.{get, put, total, has}
use debugbundle_python.Prelude.Dict.Laws.{AllEntries-get, total-put_old, total-ge-share}
use debugbundle_python.Diagnostics.{
  Pending, Payload, BudgetJson, DiagnosticCaptureBudget, accounted_bytes, max_accounted_bytes, key,
  opt_eqb,
}
use debugbundle_python.Diagnostics.Changes.{
  adjust_entry, adjust, eligible, rename, readjust, replace_entry, replace, release, retain_only,
  missing,
}
use debugbundle_python.Diagnostics.Valid.{EntryOk, IsAccounted, IsValid}
use debugbundle_python.Diagnostics.Valid.Entries.{
  release-IsAccounted, release_entry-IsAccounted, release_entry-accounted,
}
use debugbundle_python.Diagnostics.Valid.Reserving.{put-EntriesOk, reserve-IsValid}
use debugbundle_python.Diagnostics.Valid.Renaming.{
  moved, rename-IsAccounted, rename-accounted, get-rename,
}

module _ (json : BudgetJson) where
  module _ (limit : ℕ) (b : DiagnosticCaptureBudget) (id : String) (p : Pending)
      (h : IsAccounted json limit b) (found : get b.pending id ≡ some p) (size : ℕ) where
    resized : DiagnosticCaptureBudget
    resized = record b {
      held = b.held + size - p.size;
      pending = put b.pending id (record p { cost = p.cost + size - p.size; size = size });
    }

    resized-IsValid : accounted_bytes b + size - p.size ≤ max_accounted_bytes → IsValid json resized
    unfolding resized
    resized-IsValid fits =
        let p' = record p { cost = p.cost + size - p.size; size = size } in
        let charge' : p.cost ≡ p.size + count id + count p.scope + 64 =
          AllEntries-get EntryOk b.pending id p h.entries.each found in
        let paid' : p.cost ≤ total (λ _ q. q.cost) b.pending =
          rw found at (total-ge-share (λ (_ : String) (q : Pending). q.cost) b.pending id) in
        record {
          windows = h.windows;
          entries = put-EntriesOk json b.pending id p' h.entries (omega (arith, charge'));
          held = omega (
            arith,
            h.held,
            charge',
            paid',
            total-put_old (λ (_ : String) (q : Pending). q.cost) b.pending id p' p found,
          );
          within = omega (arith, fits, charge', paid', h.held);
          counted = λ k. omega (
            arith,
            h.counted k,
            total-put_old (λ (_ : String) (q : Pending). one_if (q.scope == k)) b.pending id p' p
                found,
          );
        }

    -- Either the size fits, or nothing changes.
    adjust-cases :
        (IsValid json (adjust json b id size).0 × ((adjust json b id size).1 ≡ true))
        ⊎ (adjust json b id size ≡ (b, false))
    unfolding adjust
    adjust-cases = rw found (
        unfold adjust_entry in
        elim (Bool-cases
          (not (leb size 65_536) || ltb max_accounted_bytes (accounted_bytes b + size - p.size))) [
            | inl refused ↦ inr (rw refused refl)
            | inr going ↦ inl (rw going (unfold resized in resized-IsValid (fits_of going), refl))
          ])
      where
        fits_of :
            (not (leb size 65_536) || ltb max_accounted_bytes (accounted_bytes b + size - p.size))
              ≡ false
            → accounted_bytes b + size - p.size ≤ max_accounted_bytes
        fits_of going = ground arith

    within_limit :
        (b' : DiagnosticCaptureBudget)
        → IsAccounted json limit b'
        → accounted_bytes b' ≤ max_accounted_bytes
        → IsValid json b'
    within_limit b' h' le = record {
      windows = h'.windows;
      entries = h'.entries;
      held = h'.held;
      within = le;
      counted = h'.counted;
    }

    released_alone :
        accounted_bytes b ≤ max_accounted_bytes + p.cost → IsValid json (release json b (id ∷ []))
    unfolding release
    released_alone over = rw found (
        within_limit _ (release_entry-IsAccounted json limit b id p h found)
          (omega (arith, release_entry-accounted json limit b id p h found, over)))

    readjust-IsValid :
        (payload : Payload)
        → accounted_bytes b ≤ max_accounted_bytes + p.cost
        → IsValid json (readjust json b id payload size).0
    unfolding readjust
    readjust-IsValid payload over = elim adjust-cases [
      | inl (v, done) ↦
          either (adjust json b id size).0 v
            ((adjust json b id size).1 && eligible json (adjust json b id size).0 id payload)
      | inr same ↦ rw same (released_alone over)
    ]
      where
        either :
            (b' : DiagnosticCaptureBudget)
            → IsValid json b'
            → (good : Bool)
            → IsValid json (
                let r : DiagnosticCaptureBudget × Bool =
                  if good then (b', true) else (release json b' (id ∷ []), false) in
                r.0)
        either b' v true = v
        either b' v false = release-IsAccounted json max_accounted_bytes (id ∷ []) b' v

  pub adjust-IsValid :
      (b : DiagnosticCaptureBudget) (id : String) (size : ℕ)
      → IsValid json b
      → IsValid json (adjust json b id size).0
  adjust-IsValid b id size h = elim (Option-cases (get b.pending id)) [
    | inl absent ↦ unfold adjust in rw absent (unfold adjust_entry in h)
    | inr (p, found) ↦ elim (adjust-cases max_accounted_bytes b id p h found size) [
      | inl (v, done) ↦ v
      | inr same ↦ rw same h
    ]
  ]

  pub retain_only-IsValid :
      (b : DiagnosticCaptureBudget) (event_ids : List String)
      → IsValid json b
      → IsValid json (retain_only json b event_ids)
  unfolding retain_only
  retain_only-IsValid b event_ids h =
      release-IsAccounted json max_accounted_bytes (missing json b.pending event_ids) b h

  replace_kept :
      (b : DiagnosticCaptureBudget) (original_id event_id : String) (payload : Payload) (size : ℕ)
      (p : Pending)
      → IsValid json b
      → get b.pending original_id ≡ some p
      → IsValid json (
          let r : DiagnosticCaptureBudget × Bool =
            if event_id == original_id
            then readjust json b event_id payload size
            else if has b.pending event_id
            then (release json b (original_id ∷ []), false)
            else readjust json (rename json b p original_id event_id) event_id payload size in
          r.0)
  replace_kept b original_id event_id payload size p h found =
      elim (Bool-cases (event_id == original_id)) [
        | inl same ↦
            let found' : get b.pending event_id ≡ some p =
              subst (λ x. get b.pending x ≡ some p) (sym ((eq_iff event_id original_id).0 same))
                found in
            rw same (
              readjust-IsValid max_accounted_bytes b event_id p h found' size payload
                (omega (arith, h.within)))
        | inr other ↦ rw other (elim (Option-cases (get b.pending event_id)) [
          | inl new ↦ rw new (
              readjust-IsValid _ (rename json b p original_id event_id) event_id
                (moved p original_id event_id)
                (rename-IsAccounted json b original_id event_id p h found new)
                (get-rename json b original_id event_id p h found new) size payload
                (rename-accounted json b original_id event_id p h found new))
          | inr (q, taken) ↦
              rw taken (release-IsAccounted json max_accounted_bytes (original_id ∷ []) b h)
        ])
      ]

  pub replace-IsValid :
      (b : DiagnosticCaptureBudget) (original_id event_id : String) (payload : Payload)
      (size now : ℕ)
      → IsValid json b
      → IsValid json (replace json b original_id event_id payload size now).0
  unfolding replace
  replace-IsValid b original_id event_id payload size now h =
      let fallback =
        reserve-IsValid json (release json b (original_id ∷ [])) event_id payload size now
          (release-IsAccounted json max_accounted_bytes (original_id ∷ []) b h) in
      elim (Option-cases (get b.pending original_id)) [
        | inl absent ↦ rw absent (unfold replace_entry in fallback)
        | inr (p, found) ↦ rw found (
            unfold replace_entry in
            elim (Bool-cases (
              p.scope == key json payload
              && p.kind == payload.kind
              && opt_eqb p.attempt payload.attempt_id)) [
                | inl match_ ↦
                    rw match_ (replace_kept b original_id event_id payload size p h found)
                | inr differs ↦ rw differs fallback
              ])
      ]
