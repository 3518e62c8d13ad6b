-- ===== src/Diagnostics/Valid/Reserving.antt =====
-- `reserve` keeps the accounts of the diagnostic budget (src/debugbundle/diagnostic_budget.py).
use Prim.Native.String.{count}
use text.Mathlib.TextEquality.{eq_iff}
use debugbundle_python.Prelude.{
  ℕ, ◌+◌, ◌-◌, ◌≤◌, String, ◌≡◌, refl, ◌<◌, ap, ◌∙◌, subst, Option, none, some, false, length,
  arith, one_if, string_eq, ◌==◌, inl, inr, Bool-cases, Option-cases, not, ltb, leb, ◌||◌, ltb→ge,
}
use debugbundle_python.Prelude.Dict.{Dict, get, put, total, has}
use debugbundle_python.Prelude.Dict.Laws.{
  share, UniqueKeys-put, AllEntries-put, total-put, total-put_new,
}
use debugbundle_python.Diagnostics.{
  Window, Pending, Payload, BudgetJson, DiagnosticCaptureBudget, charged, accounted_bytes,
  max_accounted_bytes, base_window, cost_of, no_room, is_ambiguous, off_time, attempt_of, key,
  prune, claim, commit_reservation, commit_claim, reserve_found, reserve,
}
use debugbundle_python.Diagnostics.Valid.{EntriesOk, EntryOk, IsValid, in_scope}
use debugbundle_python.Diagnostics.Valid.Windows.{put-WindowsOk, prune-IsValid, share-put}
use debugbundle_python.Diagnostics.Valid.Registering.{base-BaseOk, room_of}

module _ (json : BudgetJson) where
  -- A claim changes neither count, and keeps at most five attempts.
  record ClaimOk (w c : Window) : Type 0 where
    observations : c.observations ≡ w.observations
    pending : c.pending ≡ w.pending
    attempts : length w.attempts ≤ 5 → length c.attempts ≤ 5

  claim-ClaimOk :
      (attempt : Option String) (w c : Window) (payload : Payload) (now : ℕ)
      → claim json attempt w payload now ≡ some c
      → ClaimOk w c
  unfolding claim
  claim-ClaimOk (some a) w c payload now e = ground arith
  claim-ClaimOk none w c payload now e = ground arith

  pub put-EntriesOk :
      (d : Dict String Pending) (id : String) (p : Pending)
      → EntriesOk d
      → EntryOk id p
      → EntriesOk (put d id p)
  put-EntriesOk d id p h ok = record {
    unique = UniqueKeys-put d id p h.unique;
    each = AllEntries-put EntryOk d id p h.each ok;
  }

  counted-put :
      (b : DiagnosticCaptureBudget) (k id : String) (w : Window) (p : Pending)
      → IsValid json b
      → get b.pending id ≡ none
      → p.scope ≡ k
      → w.pending ≡ share (λ (w : Window). w.pending) (get b.windows k) + 1
      → (j : String)
      → share (λ (w : Window). w.pending) (get (put b.windows k w) j)
        ≡ in_scope j (put b.pending id p)
  counted-put b k id w p h new scope tally j =
      let grown =
        total-put_new (λ (_ : String) (q : Pending). one_if (q.scope == j)) b.pending id p new in
      let its : (p.scope == j) ≡ (k == j) = ap (λ x. x == j) scope in
      share-put json b.windows k j w ∙ (elim (Bool-cases (k == j)) [
        | inl same ↦
            let before : share (λ (w : Window). w.pending) (get b.windows k)
                ≡ in_scope j b.pending =
              subst
                (λ x. share (λ (w : Window). w.pending) (get b.windows k) ≡ in_scope x b.pending)
                ((eq_iff k j).0 same) (h.counted k) in
            rw same (ground (arith, grown, its, same, tally, before))
        | inr other ↦ rw other (ground (arith, grown, its, other, h.counted j))
      ])

  module _ (previous : Option Window) (b : DiagnosticCaptureBudget) (k event_id : String)
      (payload : Payload) (size now : ℕ) (h : IsValid json b) (e : get b.windows k ≡ previous)
      (new : get b.pending event_id ≡ none) where
    commit_reservation-IsValid :
        (w : Window)
        → ClaimOk (base_window previous now) w
        → w.observations < 20
        → no_room previous b.windows ≡ false
        → IsValid json (commit_reservation json previous w b k event_id payload size).0
    unfolding commit_reservation
    commit_reservation-IsValid w c few open_slot =
        let ok = base-BaseOk json b k previous now h e in
        let value =
          charged json k
            (record w { pending = w.pending + 1; observations = w.observations + 1 }) in
        let cost = size + count event_id + count k + 64 in
        let entry : Pending = record {
          scope = k;
          kind = payload.kind;
          attempt = attempt_of json payload;
          size = size;
          cost = cost;
        } in
        let tally : value.pending ≡ share (λ (w : Window). w.pending) (get b.windows k) + 1 =
          rw e (omega (arith, c.pending, ok.pending)) in
        let stored : total (λ (_ : String) (v : Window). v.cost) (put b.windows k value)
              + share (λ (w : Window). w.cost) previous
            ≡ total (λ (_ : String) (v : Window). v.cost) b.windows + value.cost =
          rw e at (total-put (λ (_ : String) (v : Window). v.cost) b.windows k value) in
        let held' =
          total-put_new (λ (_ : String) (q : Pending). q.cost) b.pending event_id entry new in
        elim (Bool-cases
          (ltb max_accounted_bytes (accounted_bytes b - cost_of previous + value.cost + cost))) [
            | inl over ↦ rw over h
            | inr fits ↦ rw fits (record {
              windows =
                  put-WindowsOk json b.windows k value h.windows
                    (refl, omega (arith, few), c.attempts ok.attempts)
                    (rw e (room_of json b previous h open_slot));
              entries = put-EntriesOk b.pending event_id entry h.entries refl;
              held = omega (arith, h.held, held');
              within = omega (arith, ltb→ge _ _ fits, stored, ok.paid, ok.cost);
              counted = counted-put b k event_id value entry h new refl tally;
            })
          ]

    commit_claim-IsValid :
        (claimed : Option Window)
        → claim json (attempt_of json payload) (base_window previous now) payload now ≡ claimed
        → (base_window previous now).observations < 20
        → no_room previous b.windows ≡ false
        → IsValid json (commit_claim json previous claimed b k event_id payload size).0
    commit_claim-IsValid none q few open_slot = h
    commit_claim-IsValid (some c) q few open_slot =
        let ok =
          claim-ClaimOk (attempt_of json payload) (base_window previous now) c payload now q in
        commit_reservation-IsValid c ok (omega (arith, ok.observations)) open_slot

  -- The three refusals are all false where the reservation goes on.
  go_on :
      (previous : Option Window) (b : DiagnosticCaptureBudget) (w : Window) (now : ℕ)
      → (no_room previous b.windows || is_ambiguous previous || off_time json w now) ≡ false
      → (no_room previous b.windows ≡ false) × (w.observations < 20)
  go_on previous b w now h = ground arith

  reserve_found-IsValid :
      (previous : Option Window) (b : DiagnosticCaptureBudget) (k event_id : String)
      (payload : Payload) (size now : ℕ)
      → IsValid json b
      → get b.windows k ≡ previous
      → get b.pending event_id ≡ none
      → IsValid json (reserve_found json previous b k event_id payload size now).0
  unfolding reserve_found
  reserve_found-IsValid previous b k event_id payload size now h e new =
      let w = base_window previous now in
      elim (Bool-cases
        (no_room previous b.windows || is_ambiguous previous || off_time json w now)) [
          | inl refused ↦ rw refused h
          | inr going ↦
              let (open_slot, few) = go_on previous b w now going in
              rw going (
                commit_claim-IsValid previous b k event_id payload size now h e new _ refl few
                  open_slot)
        ]

  pub reserve-IsValid :
      (b : DiagnosticCaptureBudget) (event_id : String) (payload : Payload) (size now : ℕ)
      → IsValid json b
      → IsValid json (reserve json b event_id payload size now).0
  unfolding reserve prune
  reserve-IsValid b event_id payload size now h =
      elim (Bool-cases (not (leb size 65_536) || has b.pending event_id)) [
        | inl refused ↦ rw refused h
        | inr going ↦ rw going (
            reserve_found-IsValid _ (prune b now) (key json payload) event_id payload size now
              (prune-IsValid json b now h) refl (absent b.pending event_id size going))
      ]
    where
      absent :
          (d : Dict String Pending) (id : String) (size : ℕ)
          → (not (leb size 65_536) || has d id) ≡ false
          → get d id ≡ none
      absent d id size going = ground (arith, Option-cases (get d id))
