-- ===== src/Evidence/Delivery.antt =====
-- `EvidenceDelivery`, `add_reference` and `filter_evidence` (src/debugbundle/evidence_delivery.py).
use debugbundle_python.Prelude.{
  ◌≡◌, ◌∙◌, refl, ap, String, Option, none, some, Bool, false, ◌||◌, List, [], ◌∷◌, contains,
  string_eq, ◌==◌, if◌then◌else◌, inl, inr, Bool-cases,
}
use debugbundle_python.Json.{Json, Fields, null, dict, get}
use debugbundle_python.Evidence.{is_text, parse_capabilities}
use debugbundle_python.Evidence.Shapes.{mapping}
use debugbundle_python.Evidence.Payloads.{capture_reference}
use debugbundle_python.Evidence.Events.{without, set_field, strip_unsupported}
use debugbundle_python.Evidence.Events.Stripped.{strip_unsupported-IsStripped}
use debugbundle_python.Operations.{Operation}

-- `EvidenceDelivery`, as the features it starts with, and its `supports`
unfoldable evidence_delivery : Json → List String
unfolding parse_capabilities
evidence_delivery pin = parse_capabilities pin

abbrev supports : List String → String → Bool
supports features feature = contains features feature

abbrev scope_of : Option Operation → Json
scope_of none = null
scope_of (some operation) = dict operation.scope

-- `add_reference`, with the features that the destination supports and the current operation
unfoldable add_reference : List String → Option Operation → Fields → Fields
unfolding capture_reference without set_field
add_reference features operation merged =
    if supports features "recovery_v1" || supports features "resource_observations_v1"
    then (elim (capture_reference (dict merged) (scope_of operation)) [
      | none ↦ merged
      | some selected ↦
          set_field (without ("failure_ref" ∷ "evidence_scope" ∷ []) merged) "evidence_reference"
            (dict selected)
    ])
    else merged

-- The comprehension of `filter_evidence`
abbrev without_exceptions : List String → List String
without_exceptions [] = []
without_exceptions (f ∷ fs) =
    let rest = without_exceptions fs in if f == "exception_evidence_v1" then rest else f ∷ rest

-- `filter_evidence`, with `sdk._capture_exception_evidence` and `sdk._evidence.features`
unfoldable filter_evidence : Bool → List String → Json → Option Fields
unfolding strip_unsupported
filter_evidence capture_exception_evidence features event =
    strip_unsupported event
      (if capture_exception_evidence then features else without_exceptions features)

no_exceptions :
    (fs : List String) → contains (without_exceptions fs) "exception_evidence_v1" ≡ false
unfolding contains
no_exceptions [] = refl
no_exceptions (f ∷ fs) = elim (Bool-cases (f == "exception_evidence_v1")) [
  | inl same ↦ rw same (no_exceptions fs)
  | inr other ↦
      rw other (ap (λ b. (f == "exception_evidence_v1") || b) (no_exceptions fs) ∙ rw other refl)
]

-- Where the SDK does not capture exception evidence, what filter_evidence leaves of an event that is
-- no diagnostic context has neither exception evidence nor an execution, whatever the destination
-- supports.
filter_evidence-off :
    (features : List String) (event : Json) (fields payload out : Fields)
    → mapping event ≡ some fields
    → mapping (get fields "payload") ≡ some payload
    → is_text (get fields "event_type") "diagnostic_context" ≡ false
    → filter_evidence false features event ≡ some out
    → (left : Fields) × (get out "payload" ≡ dict left)
      × (get left "exception_evidence" ≡ null)
      × (get left "execution" ≡ null)
unfolding filter_evidence
filter_evidence-off features event fields payload out one two plain h =
    let s =
      strip_unsupported-IsStripped (without_exceptions features) event fields payload out one two
        plain h in
    let gone = no_exceptions features in
    (
      s.payload_left,
      s.here,
      s.left "exception_evidence" ∙ rw gone refl,
      s.left "execution" ∙ rw gone refl,
    )
