-- ===== src/Ingestion/Fitting.antt =====
-- `fit_event` of src/debugbundle/ingestion_wire.py: an event that is too large loses its evidence, and
-- then its reference. The outer `none` is the error of a context that is no object.
pub mod Fitted
use debugbundle_python.Prelude.{
  ℕ, ◌≤◌, ◌≡◌, refl, String, Option, none, some, Bool, true, false, ◌&&◌, List, [], ◌∷◌, leb,
  leb→le, if◌then◌else◌, is_some, ◌>>=◌, inl, inr, ◌⊎◌, Bool-cases, Option-cases, arith,
}
use debugbundle_python.Prelude.Int.{pos}
use debugbundle_python.Json.{Json, Fields, int, str, dict, end, field, get, has}
use debugbundle_python.Evidence.{reference}
use debugbundle_python.Evidence.Events.{without, set_field, without_optional}
use debugbundle_python.Ingestion.{max_event_bytes}

-- `{**event.get("context", {}), ...}`
abbrev pub context_of : Fields → Option Fields
context_of event =
    if has event "context"
    then (elim (get event "context") [ dict context ↦ some context | _ ↦ none ])
    else some end

abbrev limit_field : Fields → String → Fields → Fields
limit_field payload key rest =
    if has payload key then field key (str "budget_exceeded") rest else rest

abbrev payload_of : Fields → Fields
payload_of event = elim (get event "payload") [ dict payload ↦ payload | _ ↦ end ]

-- The mark of the fields that an event had and lost.
abbrev evidence_limits : Fields → Json
evidence_limits payload = dict (
    field "version" (int (pos 1)) (
      limit_field payload "exception_evidence"
        (limit_field payload "execution" (limit_field payload "resource_observations" end))))

abbrev pub marked : Fields → Fields → Option Fields
marked event reduced = do
  context ← context_of event
  some (
      set_field reduced "context"
        (dict (set_field context "evidence_limits" (evidence_limits (payload_of event)))))

module _ (event_bytes : Fields → ℕ) where
  abbrev pub fits : Fields → Bool
  fits event = leb (event_bytes event) max_event_bytes

  abbrev pub if_fits : Fields → Option Fields
  if_fits event = if fits event then some event else none

  -- The last attempt: without the reference to evidence.
  abbrev pub without_reference : Fields → Option Fields
  without_reference reduced = elim (get reduced "context") [
    | dict context ↦
        if is_some (reference (get context "evidence_reference"))
        then if_fits
            (set_field reduced "context" (dict (without ("evidence_reference" ∷ []) context)))
        else none
    | _ ↦ none
  ]

  abbrev pub or_else_fits : Fields → Option Fields → Option Fields
  or_else_fits event other = if fits event then some event else other

  -- `fit_event` of an event; `some none` is its `None`.
  unfoldable pub fit_event : Fields → Option (Option Fields)
  unfolding reference without set_field without_optional
  fit_event event = elim (fits event) [
    | true ↦ some (some event)
    | false ↦ elim (without_optional (dict event)) [
      | none ↦ some (without_reference event)
      | some reduced ↦ elim (marked event reduced) [
        | none ↦ none
        | some m ↦ some (or_else_fits m (or_else_fits reduced (without_reference reduced)))
      ]
    ]
  ]
