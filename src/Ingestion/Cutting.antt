-- ===== src/Ingestion/Cutting.antt =====
-- What `prefix` and `chunks` cut off
-- (src/debugbundle/ingestion_wire.py).
use mathlib.Core.List.{flatten}
use debugbundle_python.Prelude.{
  ℕ, zero, suc, ◌+◌, ◌≤◌, ◌≡◌, ◌≢◌, refl, ap, some, List, [], ◌∷◌, ◌++◌, length, drop, All, arith,
  nat_eqb, ltb, if◌then◌else◌, ◌∙◌, length-drop, ◌⊎◌, ltb→ge, inl, inr, Bool-cases, Option-cases,
  tests,
}
use debugbundle_python.Transport.{max_body_bytes}
use debugbundle_python.Ingestion.{max_event_bytes, event_bytes, prefix_from, prefix, chunks_from}

module _ {Event : Type 0} (dumps : Event → List ℕ) where
  -- The bytes of the events and of the commas before them, from an index on.
  abbrev pub joined_from : ℕ → List Event → ℕ
  joined_from index [] = 0
  joined_from index (event ∷ events) =
      event_bytes dumps event + (if nat_eqb index 0 then 0 else 1) + joined_from (suc index) events

  abbrev pub IsCut : List Event → List Event → Type 0
  IsCut selected events = selected ++ drop (length selected) events ≡ events

  abbrev cost : ℕ → Event → ℕ
  cost index event = event_bytes dumps event + (if nat_eqb index 0 then 0 else 1)

  -- One round: the loop stops, or takes the event, which fits.
  abbrev Round : ℕ → ℕ → Event → List Event → List Event → Type 0
  Round index size event events selected =
      (rest : List Event) × (selected ≡ event ∷ rest)
      × (prefix_from dumps (suc index) (size + cost index event) events ≡ some rest)
      × (size + cost index event ≤ max_body_bytes)

  Round-of :
      (index size : ℕ) (event : Event) (events selected : List Event)
      → prefix_from dumps index size (event ∷ events) ≡ some selected
      → (selected ≡ []) ⊎ Round index size event events selected
  unfolding prefix_from
  Round-of index size event events selected h =
      elim (Option-cases (prefix_from dumps (suc index) (size + cost index event) events)) [
        | inl bad ↦ inl (ground (arith, bad))
        | inr (rest, good) ↦ elim (Bool-cases (ltb max_body_bytes (size + cost index event))) [
          | inl full ↦ inl (ground (arith, full))
          | inr fits ↦ inr (rest, ground (arith, fits, good), good, omega (tests, ltb→ge _ _ fits))
        ]
      ]

  prefix_from-IsCut :
      (events : List Event) (index size : ℕ) (selected : List Event)
      → prefix_from dumps index size events ≡ some selected
      → IsCut selected events
  prefix_from-IsCut [] index size selected h =
      let empty : selected ≡ [] = unfold prefix_from in ground arith in rw empty refl
  prefix_from-IsCut (event ∷ events) index size selected h =
      elim (Round-of index size event events selected h) [
        | inl stop ↦ rw stop refl
        | inr (rest, e, rec, fits) ↦ rw e (
            ap (◌∷◌ event)
              (prefix_from-IsCut events (suc index) (size + cost index event) rest rec))
      ]

  prefix_from-size :
      (events : List Event) (index size : ℕ) (selected : List Event)
      → prefix_from dumps index size events ≡ some selected
      → size ≤ max_body_bytes
      → size + joined_from index selected ≤ max_body_bytes
  prefix_from-size [] index size selected h le =
      let empty : selected ≡ [] = unfold prefix_from in ground arith in rw empty (omega arith)
  prefix_from-size (event ∷ events) index size selected h le =
      elim (Round-of index size event events selected h) [
        | inl stop ↦ rw stop (omega arith)
        | inr (rest, e, rec, fits) ↦ rw e (
            omega
              (arith, prefix_from-size events (suc index) (size + cost index event) rest rec fits))
      ]

  pub prefix-IsCut :
      (events selected : List Event) → prefix dumps events ≡ some selected → IsCut selected events
  unfolding prefix
  prefix-IsCut events selected h = prefix_from-IsCut events 0 12 selected h

  prefix-size :
      (events selected : List Event)
      → prefix dumps events ≡ some selected
      → 12 + joined_from 0 selected ≤ max_body_bytes
  unfolding prefix
  prefix-size events selected h = prefix_from-size events 0 12 selected h (omega arith)

  abbrev pub AllFit : List Event → Type 0
  AllFit = All (λ event. event_bytes dumps event ≤ max_event_bytes)

  prefix_from-total :
      (events : List Event) (index size : ℕ)
      → AllFit events
      → (selected : List Event) × (prefix_from dumps index size events ≡ some selected)
  unfolding prefix_from
  prefix_from-total [] index size fit = ([], refl)
  prefix_from-total (event ∷ events) index size fit =
      let (rest, rec) = prefix_from-total events (suc index) (size + cost index event) fit.1 in
      elim (Bool-cases (ltb max_body_bytes (size + cost index event))) [
        | inl full ↦ ([], ground (arith, full, rec))
        | inr fits ↦ (event ∷ rest, ground (arith, fits, rec))
      ]

  -- The first event of a request always fits.
  prefix-ne-nil :
      (event : Event) (events : List Event)
      → AllFit (event ∷ events)
      → prefix dumps (event ∷ events) ≢ some []
  unfolding prefix
  prefix-ne-nil event events fit h =
      let (rest, rec) = prefix_from-total events 1 (12 + cost 0 event) fit.1 in
      ground (arith, rec, fit.0)

  cons_of :
      (event : Event) (events selected : List Event)
      → AllFit (event ∷ events)
      → prefix dumps (event ∷ events) ≡ some selected
      → (first : Event) × (rest : List Event) × (prefix dumps (event ∷ events)
          ≡ some (first ∷ rest))
  cons_of event events [] fit h = absurd (prefix-ne-nil event events fit h)
  cons_of event events (first ∷ rest) fit h = (first, rest, h)

  pub prefix-cons :
      (event : Event) (events : List Event)
      → AllFit (event ∷ events)
      → (first : Event) × (selected : List Event) × (prefix dumps (event ∷ events)
          ≡ some (first ∷ selected))
  unfolding prefix
  prefix-cons event events fit =
      let (selected, h) = prefix_from-total (event ∷ events) 0 12 fit in
      cons_of event events selected fit h

  AllFit-drop : (n : ℕ) (events : List Event) → AllFit events → AllFit (drop n events)
  AllFit-drop zero events fit = fit
  AllFit-drop (suc n) [] fit = tt
  AllFit-drop (suc n) (event ∷ events) fit = AllFit-drop n events fit.1

  -- A request: not empty, and at most one byte over the limit (13 bytes stand around the events,
  -- and the loop counts 12).
  abbrev pub IsRequest : List Event → Type 0
  IsRequest selected = (1 ≤ length selected) × (12 + joined_from 0 selected ≤ max_body_bytes)

  abbrev Cuts : List Event → List (List Event) → Type 0
  Cuts events requests = (flatten requests ≡ events) × All IsRequest requests

  pub chunks_from-total :
      (rounds : ℕ) (events : List Event)
      → length events ≤ rounds
      → AllFit events
      → (requests : List (List Event)) × (chunks_from dumps rounds events ≡ some requests)
        × Cuts events requests
  unfolding chunks_from flatten
  chunks_from-total rounds [] le fit = ([], refl, (refl, tt))
  chunks_from-total zero (event ∷ events) le fit = absurd (omega arith)
  chunks_from-total (suc rounds) (event ∷ events) le fit =
      let (first, selected, cut) = prefix-cons event events fit in
      let left = drop (suc (length selected)) (event ∷ events) in
      let (requests, rec, cuts) =
        chunks_from-total rounds left (omega (arith, length-drop (length selected) events))
          (AllFit-drop (suc (length selected)) (event ∷ events) fit) in
      (
        (first ∷ selected) ∷ requests,
        rw (cut, chunks_from) (rw rec refl),
        (
          ap (λ l. (first ∷ selected) ++ l) cuts.0
              ∙ prefix-IsCut (event ∷ events) (first ∷ selected) cut,
          ((omega arith, prefix-size (event ∷ events) (first ∷ selected) cut), cuts.1),
        ),
      )
