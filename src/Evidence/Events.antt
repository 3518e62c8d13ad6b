-- ===== src/Evidence/Events.antt =====
-- The events of src/debugbundle/evidence_wire.py: whether their evidence is valid, and what is left
-- out of them. An event is a value of JSON, and `none` is `None`.
pub mod Editing
pub mod Stripped
pub mod Again
use debugbundle_python.Prelude.{
  ℕ, String, Option, none, some, Bool, true, false, not, ◌&&◌, ◌||◌, List, [], ◌∷◌, contains, leb,
  string_eq, ◌==◌, if◌then◌else◌, ◌>>=◌, is_some,
}
use debugbundle_python.Json.{Json, Fields, null, str, dict, end, field, get, has}
use debugbundle_python.Evidence.{is_text, reference}
use debugbundle_python.Evidence.Shapes.{WireHost, mapping, one_of}
use debugbundle_python.Evidence.Size.{canonical_size}
use debugbundle_python.Evidence.Payloads.{resources, diagnostic, execution}
use debugbundle_python.Evidence.Graph.{graph}

-- `{key: value for key, value in fields.items() if key not in keys}`
unfoldable pub without : List String → Fields → Fields
without keys end = end
without keys (field k v rest) =
    let kept = without keys rest in if contains keys k then kept else field k v kept

-- `dict(fields, key=value)`
unfoldable pub set_field : Fields → String → Json → Fields
set_field end key value = field key value end
set_field (field k v rest) key value =
    let later = set_field rest key value in if k == key then field k value rest else field k v later

-- `value if key in fields`, as an entry of the additions
abbrev added : Fields → String → Fields → Fields
added payload key rest = if has payload key then field key (get payload key) rest else rest

-- `type(session) is str and bool(session.strip())`
abbrev is_session : (String → String) → Json → Bool
is_session strip (str s) = not (strip s == "")
is_session strip _ = false

abbrev session_of : Json → Json
session_of correlation = elim (mapping correlation) [ none ↦ null | some c ↦ get c "session_id" ]

-- `payload["scope"]["kind"]`
abbrev scope_kind : Json → Json
scope_kind (dict scope) = get scope "kind"
scope_kind _ = null

-- The evidence reference of a context, as an entry of the additions.
abbrev reference_added : Json → Fields
reference_added context = elim (mapping context) [
  | none ↦ end
  | some c ↦ elim (reference (get c "evidence_reference")) [
    | none ↦ end
    | some selected ↦ field "evidence_reference" (dict selected) end
  ]
]

module _ (h : WireHost) where
  -- A field of the loop of `validate_evidence`: it is missing, or allowed and valid.
  abbrev field_ok : Fields → String → Bool → (Json → Bool) → Bool
  field_ok payload key allowed validator =
      not (has payload key) || (allowed && validator (get payload key))

  -- The fields of an exception that may hold evidence.
  unfoldable pub exception_ok : Fields → Fields → Bool
  unfolding graph execution resources reference canonical_size
  exception_ok fields payload =
      let backend = is_text (get fields "event_type") "backend_exception" in
      let frontend = is_text (get fields "event_type") "frontend_exception" in
      let additions =
        added payload "exception_evidence"
          (added payload "execution" (added payload "resource_observations" end)) in
      let selected = added payload "exception_evidence" (
        added payload "execution"
          (added payload "resource_observations" (reference_added (get fields "context")))) in
      field_ok payload "exception_evidence" (backend || frontend) (graph h)
      && field_ok payload "execution" backend (execution h)
      && field_ok payload "resource_observations" frontend (resources h)
      && (elim additions [ end ↦ true | _ ↦ leb (canonical_size h (dict selected)) 32_768 ])

  -- `validate_evidence`
  unfoldable pub validate_evidence : Json → Bool
  unfolding exception_ok diagnostic
  validate_evidence event = elim (mapping event) [
    | none ↦ false
    | some fields ↦ elim (mapping (get fields "payload")) [
      | none ↦ false
      | some payload ↦
          if is_text (get fields "event_type") "diagnostic_context"
          then diagnostic h (dict payload)
            && (not (is_text (scope_kind (get payload "scope")) "page")
                || is_session h.strip (session_of (get fields "correlation")))
          else exception_ok fields payload
    ]
  ]

abbrev pub evidence_fields : List String
evidence_fields = "exception_evidence" ∷ "execution" ∷ "resource_observations" ∷ []

abbrev pub has_any : Fields → List String → Bool
has_any payload [] = false
has_any payload (key ∷ keys) = has payload key || has_any payload keys

-- `without_optional`
unfoldable pub without_optional : Json → Option Fields
unfolding without set_field
without_optional event = do
  fields ← mapping event
  payload ← mapping (get fields "payload")
  if one_of (get fields "event_type") ("backend_exception" ∷ "frontend_exception" ∷ [])
        && has_any payload evidence_fields
      then some (set_field fields "payload" (dict (without evidence_fields payload)))
      else none

-- The feature that a diagnostic payload needs.
abbrev pub feature_of : Fields → String
feature_of payload =
    if is_text (get payload "kind") "recovery" then "recovery_v1" else "resource_observations_v1"

-- The fields of a payload that need a feature which is missing.
abbrev pub unsupported : List String → List String
unsupported features =
    let resource =
      if contains features "resource_observations_v1" then [] else "resource_observations" ∷ [] in
    if contains features "exception_evidence_v1"
    then resource
    else "exception_evidence" ∷ "execution" ∷ resource

-- `candidate["context"] = ...`, where no feature takes a reference
abbrev pub with_context : List String → Fields → Json → Fields
with_context features candidate context =
    if contains features "resource_observations_v1" || contains features "recovery_v1"
    then candidate
    else elim (mapping context) [
      | none ↦ candidate
      | some c ↦
          if is_some (reference (get c "evidence_reference"))
          then set_field candidate "context" (dict (without ("evidence_reference" ∷ []) c))
          else candidate
    ]

-- `strip_unsupported`
unfoldable pub strip_unsupported : Json → List String → Option Fields
unfolding reference without set_field
strip_unsupported event features = do
  fields ← mapping event
  payload ← mapping (get fields "payload")
  if is_text (get fields "event_type") "diagnostic_context"
      then (if contains features (feature_of payload) then some fields else none)
      else some (
          with_context features
            (set_field fields "payload" (dict (without (unsupported features) payload)))
            (get fields "context"))
