-- ===== src/BeforeSend.antt =====
-- src/debugbundle/before_send.py: the checks on what a hook makes of an event. The hook is a function,
-- so it does not change the event that it is given; it may raise or give any object.
pub mod Checked
use debugbundle_python.Prelude.{
  String, Option, none, some, Bool, true, false, not, ◌&&◌, ◌||◌, List, [], ◌∷◌, string_eq, ◌==◌,
  if◌then◌else◌, contains,
}
use debugbundle_python.Json.{Json, Fields, null, str, dict, get, has}
use debugbundle_python.Evidence.{is_text}
use debugbundle_python.Evidence.Shapes.{WireHost, one_of}
use debugbundle_python.Evidence.Events.{validate_evidence}
use debugbundle_python.CanonicalEvent.{Copied, copied, exhausted, invalid, own_json}
use debugbundle_python.CanonicalEvent.Schema.{SchemaHost}
use debugbundle_python.CanonicalEvent.Compiled.{valid_owned_event}

-- What a hook does: it raises, gives None, a JSON value, or another object.
pub data Answer : Type 0 where
  raised nothing foreign : Answer
  value : Json → Answer

pub data Normalized : Type 0 where
  accepted : Json → Normalized
  rejected withheld : Normalized

abbrev mobile : List String
mobile =
    "@debugbundle/sdk-android" ∷ "@debugbundle/sdk-swift" ∷ "@debugbundle/sdk-react-native" ∷ []

abbrev is_dict : Json → Bool
is_dict (dict fields) = true
is_dict _ = false

-- The field of the payload that an exception of a front end has
abbrev device_field : Fields → String
device_field owned = if one_of (get owned "sdk_name") mobile then "device" else "browser"

abbrev has_object : Json → String → Bool
has_object (dict payload) key = is_dict (get payload key)
has_object _ key = false

-- The condition on a front end. A missing key is an error, which rejects the event.
abbrev pub frontend_ok : Fields → Bool
frontend_ok owned =
    has owned "event_type"
    && (not (is_text (get owned "event_type") "frontend_exception")
        || (has owned "sdk_name" && has_object (get owned "payload") (device_field owned)))

abbrev front_of : Json → Bool
front_of (dict owned) = frontend_ok owned
front_of _ = false

module _ (w : WireHost) (h : SchemaHost) (schema : Json) where
  abbrev judged : Json → Option Bool → Normalized
  judged owned none = withheld
  judged owned (some valid) =
      if valid && validate_evidence w owned && front_of owned then accepted owned else rejected

  abbrev normalized_copy : Copied Json → Normalized
  normalized_copy (copied r n owned) = judged owned (valid_owned_event w h schema owned)
  normalized_copy exhausted = withheld
  normalized_copy invalid = rejected

  -- `_normalized`
  unfoldable pub normalized : Answer → Normalized
  unfolding own_json valid_owned_event validate_evidence
  normalized (value (dict event)) = normalized_copy (own_json w (dict event))
  normalized _ = rejected

  -- `_is_valid_event`
  unfoldable pub is_valid_event : Json → Bool
  unfolding normalized
  is_valid_event event = elim (normalized (value event)) [ accepted owned ↦ true | _ ↦ false ]

  abbrev after_check : Json → Normalized → Option Json × List String
  after_check event (accepted owned) = (some owned, [])
  after_check event withheld = (none, [])
  after_check event rejected = (some event, "before_send_invalid_event" ∷ [])

  abbrev after_hook : Json → Answer → Option Json × List String
  after_hook event raised = (some event, "before_send_failed" ∷ [])
  after_hook event nothing = (none, [])
  after_hook event answer = after_check event (normalized answer)

  -- `apply_before_send`, with the diagnostics that it emits
  unfoldable pub apply_before_send : Json → Option (Json → Answer) → Option Json × List String
  unfolding normalized
  apply_before_send event none = (some event, [])
  apply_before_send event (some hook) = after_hook event (hook event)
