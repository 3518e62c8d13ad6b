-- ===== src/Relay/Events.antt =====
-- `_sanitize_event` (src/debugbundle/relay.py).
use debugbundle_python.Prelude.{
  ℕ, zero, suc, String, Option, none, some, Bool, true, false, not, ◌&&◌, ◌||◌, List, [], ◌∷◌,
  string_eq, ◌==◌, if◌then◌else◌, ◌>>=◌,
}
use debugbundle_python.Json.{Json, Fields, null, str, dict, end, field, get, has}
use debugbundle_python.Evidence.Events.{set_field, validate_evidence, without_optional}
use debugbundle_python.BeforeSend.{is_valid_event}
use debugbundle_python.Redaction.Walk.{sanitize_telemetry, has_safe_event_identity}
use debugbundle_python.Relay.{RelayHost}

abbrev browser_sdk_name : String
browser_sdk_name = "@debugbundle/sdk-browser"

-- A text, and one that is not empty
abbrev pub text_of : Json → Option String
text_of (str s) = some s
text_of _ = none

abbrev pub full_text : Json → Option String
full_text (str s) = if s == "" then none else some s
full_text _ = none

abbrev pub object_of : Json → Option Fields
object_of (dict fields) = some fields
object_of _ = none

abbrev override : Option String → String → String
override none value = value
override (some o) value = if o == "" then value else o

abbrev text_or_none : Json → Bool
text_or_none (str s) = true
text_or_none null = true
text_or_none _ = false

-- The entries of a dict that are added one after another
abbrev pub append_fields : Fields → Fields → Fields
append_fields end ys = ys
append_fields (field key value rest) ys = field key value (append_fields rest ys)

abbrev optional : String → Json → Fields
optional key value = if text_or_none value then field key value end else end

abbrev correlation_keys : String → List String
correlation_keys event_type =
    if event_type == "analytics_event"
    then "session_id" ∷ "visitor_id_hash" ∷ "user_id_hash" ∷ "trace_id" ∷ "deploy_id" ∷ []
    else "request_id" ∷ "trace_id" ∷ "session_id" ∷ "user_id_hash" ∷ []

-- The loop over the keys of the correlation
abbrev normalized_correlation : Fields → List String → Fields
normalized_correlation correlation [] = end
normalized_correlation correlation (key ∷ keys) =
    let rest = normalized_correlation correlation keys in
    if has correlation key && text_or_none (get correlation key)
    then field key (get correlation key) rest
    else rest

abbrev correlation_field : Fields → Fields
correlation_field end = end
correlation_field fields = field "correlation" (dict fields) end

abbrev with_correlation : Json → String → Fields
with_correlation (dict correlation) event_type =
    correlation_field (normalized_correlation correlation (correlation_keys event_type))
with_correlation _ event_type = end

abbrev with_context : Json → Fields
with_context (dict context) = field "context" (dict context) end
with_context _ = end

-- The event that is built from the one of the request, before it is sanitized, with its type
unfoldable pub rebuild : Option String → Option String → Fields → Option (String × Fields)
rebuild service_override environment_override event = do
  schema_version ← full_text (get event "schema_version")
  event_id ← full_text (get event "event_id")
  event_type ← text_of (get event "event_type")
  occurred_at ← full_text (get event "occurred_at")
  sdk_version ← full_text (get event "sdk_version")
  service ← object_of (get event "service")
  payload ← object_of (get event "payload")
  service_name ← full_text (get service "name")
  environment ← full_text (get service "environment")
  some (
    event_type,
    append_fields
        (field "schema_version" (str schema_version) (
          field "event_id" (str event_id) (
            field "event_type" (str event_type) (
              field "occurred_at" (str occurred_at) (
                field "sdk_name" (str browser_sdk_name) (
                  field "sdk_version" (str sdk_version) (
                    field "service"
                      (dict (
                        field "name" (str (override service_override service_name)) (
                          field "environment" (str (override environment_override environment)) (
                            append_fields (optional "runtime" (get service "runtime"))
                              (optional "framework" (get service "framework"))))))
                      (field "payload" (dict payload) end))))))))
        (append_fields (with_correlation (get event "correlation") event_type)
          (with_context (get event "context"))),
  )

abbrev pub has_evidence_field : Json → Bool
has_evidence_field (dict payload) =
    has payload "exception_evidence"
    || has payload "execution"
    || has payload "resource_observations"
has_evidence_field _ = false

-- `evidence`: whether the event is held to the validators of evidence
abbrev pub carries_evidence : String → Fields → Bool
carries_evidence event_type event =
    not (event_type == "analytics_event")
    && (event_type == "diagnostic_context" || has_evidence_field (get event "payload"))

-- How the `try` ends: with an `UnsafeTelemetry` and the event as it is by then, with an identity that
-- is not safe, or with the event.
pub data Sanitized : Type 0 where
  unsafe : Fields → Sanitized
  refused : Sanitized
  clean : Fields → Sanitized

abbrev pub sanitize_key : (Fields → Sanitized) → Fields → String → Option Json → Sanitized
sanitize_key rest event key none = unsafe event
sanitize_key rest event key (some value) = rest (set_field event key value)

abbrev pub identified : Sanitized → Fields → Option Bool → Sanitized
identified rest event none = unsafe event
identified rest event (some false) = refused
identified rest event (some true) = rest

module _ (h : RelayHost) where
  abbrev pub valid_event : Fields → Bool
  valid_event event = is_valid_event h.wire h.schemas h.schema (dict event)

  -- The fields that are replaced in the `try`, one after another.
  abbrev pub sanitize_keys : List String → Fields → Sanitized
  sanitize_keys [] event = clean event
  sanitize_keys (key ∷ keys) event =
      sanitize_key (sanitize_keys keys) event key (sanitize_telemetry h.redact [] (get event key))

  -- The body of the `try`
  abbrev pub sanitize_fields : Fields → Sanitized
  sanitize_fields event =
      identified
        (sanitize_keys
          ("payload" ∷ "service" ∷ (if has event "context" then "context" ∷ [] else [])) event)
        event (has_safe_event_identity h.redact [] event)

  -- `fallback`, sanitized again
  abbrev pub retry : (Fields → Option Fields) → Fields → Option Fields
  retry again event = do fallback ← without_optional (dict event); again fallback

  -- What follows the sanitizing, with whether the event carries evidence.
  abbrev pub finish : (Fields → Option Fields) → Bool → Sanitized → Option Fields
  finish again evidence (unsafe event) = if evidence then retry again event else none
  finish again evidence refused = none
  finish again evidence (clean event) =
      if evidence && (not (valid_event event) || not (validate_evidence h.wire (dict event)))
      then retry again event
      else some event

  module _ (service_override environment_override : Option String) where
    abbrev pub sanitize_step : (Fields → Option Fields) → Fields → Option Fields
    sanitize_step again event = do
      (event_type, rebuilt) ← rebuild service_override environment_override event
      if carries_evidence event_type rebuilt && not (valid_event rebuilt)
          then none
          else finish again (carries_evidence event_type rebuilt) (sanitize_fields rebuilt)

    -- `_sanitize_event`; a round is a call, and a call for a fallback is the last.
    unfoldable pub sanitize_rounds : ℕ → Fields → Option Fields
    unfolding rebuild
    sanitize_rounds zero event = none
    sanitize_rounds (suc rounds) event = sanitize_step (sanitize_rounds rounds) event

    unfoldable pub sanitize_event : Fields → Option Fields
    unfolding sanitize_rounds
    sanitize_event event = sanitize_rounds 2 event
