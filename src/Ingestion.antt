-- ===== src/Ingestion.antt =====
-- src/debugbundle/ingestion_wire.py: `prefix` and `chunks`, which cut a list of events into request
-- bodies, over the JSON encoder.
pub mod Cutting
pub mod Bodies
pub mod Overshoot
pub mod Fitting
use debugbundle_python.Prelude.{
  ℕ, zero, suc, ◌+◌, ◌-◌, Option, none, some, ◌≡◌, ◌++◌, List, [], ◌∷◌, length, drop, ltb, nat_eqb,
  if◌then◌else◌, ◌>>=◌,
}
use mathlib.Core.Option
use debugbundle_python.Transport.{max_body_bytes}

abbrev pub max_event_bytes : ℕ
max_event_bytes = max_body_bytes - 13

-- The bytes that `json.dumps` puts between and around the events.
abbrev pub opening : List ℕ
opening = b'{' ∷ 0x22 ∷ b'e' ∷ b'v' ∷ b'e' ∷ b'n' ∷ b't' ∷ b's' ∷ 0x22 ∷ b':' ∷ b'[' ∷ []

abbrev pub closing : List ℕ
closing = b']' ∷ b'}' ∷ []

abbrev pub joined {ℓ} : {Event : Type ℓ} → (Event → List ℕ) → List Event → List ℕ
joined dumps [] = []
joined dumps (event ∷ []) = dumps event
joined dumps (event ∷ next ∷ events) = dumps event ++ b',' ∷ joined dumps (next ∷ events)

-- The encoder is the `json` library: `dumps` of one event, `encode_body` of a list of them, and the
-- documented form of a compact object with one array.
pub record JsonEncoder (Event : Type 0) : Type 0 where
  pub dumps : Event → List ℕ
  pub encode_body : List Event → List ℕ
  pub encode_body-form :
      (events : List Event) → encode_body events ≡ opening ++ joined dumps events ++ closing

module _ {Event : Type 0} (dumps : Event → List ℕ) where
  abbrev pub event_bytes : Event → ℕ
  event_bytes event = length (dumps event)

  -- The loop of `prefix` at an index, with the size so far; `none` is the `ValueError`.
  pub prefix_from : ℕ → ℕ → List Event → Option (List Event)
  prefix_from index size [] = some []
  prefix_from index size (event ∷ events) =
      let cost = event_bytes event + (if nat_eqb index 0 then 0 else 1) in
      let rest = prefix_from (suc index) (size + cost) events in
      if ltb max_event_bytes (event_bytes event)
      then none
      else if ltb max_body_bytes (size + cost)
      then some []
      else Option.map (◌∷◌ event) rest

  unfoldable pub prefix : List Event → Option (List Event)
  unfolding prefix_from
  prefix events = prefix_from 0 12 events

  -- `while events:`, with a round left for each event; `none` is the `ValueError`.
  pub chunks_from : ℕ → List Event → Option (List (List Event))
  chunks_from rounds [] = some []
  chunks_from zero (event ∷ events) = none
  chunks_from (suc rounds) (event ∷ events) = elim (prefix (event ∷ events)) [
    | none ↦ none
    | some [] ↦ none
    | some (e ∷ selected) ↦
        Option.map (◌∷◌ (e ∷ selected))
          (chunks_from rounds (drop (suc (length selected)) (event ∷ events)))
  ]

  unfoldable pub chunks : List Event → Option (List (List Event))
  unfolding chunks_from
  chunks events = chunks_from (length events) events
