-- ===== src/Evidence/Payloads.antt =====
-- The payloads of src/debugbundle/evidence_wire.py: references, resource observations, diagnostic
-- payloads and executions.
use debugbundle_python.Prelude.{
  ℕ, String, Option, none, some, Bool, true, false, not, ◌&&◌, ◌||◌, List, [], ◌∷◌, length, leb,
  string_eq, if◌then◌else◌, ◌>>=◌, is_some,
}
use debugbundle_python.Json.{Json, Fields, str, int, list, dict, end, field, elements, get, has}
use debugbundle_python.Prelude.Int.{pos}
use debugbundle_python.Evidence.{fresh_uuid, is_hex_uuid, is_version_one, is_text, reference}
use debugbundle_python.Evidence.Shapes.{
  WireHost, mapping, mapping_of, closed_with, one_of, nullable, number, at_least, integer,
  is_directive, text, timestamp, url,
}
use debugbundle_python.Evidence.Size.{canonical_size}

-- `capture_reference(value, default_scope)`
unfoldable pub capture_reference : Json → Json → Option Fields
unfolding reference
capture_reference value default_scope = do
  fields ← mapping value
  reference (
      dict (
        field "version" (int (pos 1)) (
          field "failure_ref" (get fields "failure_ref") (
            field "scope"
              (if has fields "evidence_scope" then get fields "evidence_scope" else default_scope)
              end))))

unfoldable pub all_items : (Json → Bool) → List Json → Bool
all_items test [] = true
all_items test (x ∷ xs) = test x && all_items test xs

abbrev one_to : ℕ → List Json → Bool
one_to maximum xs = leb 1 (length xs) && leb (length xs) maximum

module _ (h : WireHost) where
  abbrev is_timing : Fields → Bool
  is_timing item =
      closed_with item
        ("kind" ∷ "observed_at" ∷ "source_url" ∷ "availability" ∷ "response_status" ∷ "duration_ms"
          ∷ "transfer_size_bytes" ∷ [])
        []
      && one_of (get item "availability")
          ("observed" ∷ "withheld" ∷ "unsupported" ∷ "no_match" ∷ "ambiguous" ∷ "unknown" ∷ [])
      && nullable (λ v. integer v 100 599) (get item "response_status")
      && nullable number (get item "duration_ms")
      && nullable (λ v. at_least v 0) (get item "transfer_size_bytes")

  abbrev is_csp : Fields → Bool
  is_csp item =
      closed_with item
        ("kind" ∷ "observed_at" ∷ "source_url" ∷ "effective_directive" ∷ "disposition"
          ∷ "document_status_code" ∷ [])
        []
      && is_directive (get item "effective_directive")
      && one_of (get item "disposition") ("report" ∷ "enforce" ∷ [])
      && nullable (λ v. integer v 100 599) (get item "document_status_code")

  -- An item of the loop of `resources`.
  unfoldable pub resource_item : Json → Bool
  unfolding timestamp url closed_with integer number at_least is_directive
  resource_item value = elim (mapping_of value 8) [
    | none ↦ false
    | some item ↦
        timestamp h (get item "observed_at")
        && nullable (url h) (get item "source_url")
        && (if is_text (get item "kind") "timing"
            then is_timing item
            else is_text (get item "kind") "csp" && is_csp item)
  ]

  unfoldable pub resource_items : Json → Bool
  unfolding all_items resource_item
  resource_items (list items) =
      one_to 5 (elements items) && all_items resource_item (elements items)
  resource_items _ = false

  unfoldable pub resources : Json → Bool
  unfolding resource_items is_version_one closed_with canonical_size
  resources (dict value) =
      closed_with value ("version" ∷ "items" ∷ []) []
      && is_version_one (get value "version")
      && resource_items (get value "items")
      && leb (canonical_size h (dict value)) 32_768
  resources _ = false

  -- `key not in value or test(value[key])`
  abbrev if_present : Fields → String → (Json → Bool) → Bool
  if_present value key test = not (has value key) || test (get value key)

  abbrev is_recovery : Fields → Bool
  is_recovery value =
      closed_with value ("version" ∷ "kind" ∷ "failure_ref" ∷ "scope" ∷ "attempt_id" ∷ "state" ∷ [])
        ("operation" ∷ "status_code" ∷ "duration_ms" ∷ [])
      && fresh_uuid (get value "attempt_id")
      && one_of (get value "state") (
          "attempt_started" ∷ "attempt_completed" ∷ "attempt_failed" ∷ "recovery_observed"
          ∷ "failure_persisted" ∷ [])
      && if_present value "operation" (λ v. text h v 64)
      && if_present value "status_code" (λ v. integer v 100 599)
      && if_present value "duration_ms" number

  abbrev is_observation : Fields → Bool
  is_observation value =
      is_text (get value "kind") "resource_observation"
      && closed_with value
          ("version" ∷ "kind" ∷ "failure_ref" ∷ "scope" ∷ "source_event_id" ∷ "observations" ∷ [])
          []
      && is_hex_uuid (get value "source_event_id")
      && resources (get value "observations")

  -- `{key: value.get(key) for key in ("version", "failure_ref", "scope")}`
  abbrev reference_part : Fields → Json
  reference_part value = dict (
      field "version" (get value "version")
        (field "failure_ref" (get value "failure_ref") (field "scope" (get value "scope") end)))

  -- `diagnostic(value)`, where the whole value is an object of at most ten keys
  unfoldable pub diagnostic : Json → Bool
  unfolding reference fresh_uuid is_hex_uuid resources text integer number closed_with
  diagnostic value = elim (mapping_of value 10) [
    | none ↦ false
    | some payload ↦
        is_some (reference (reference_part payload))
        && (if is_text (get payload "kind") "recovery"
            then is_recovery payload
            else is_observation payload)
  ]

  -- `payload[key] = value[key]` for a key that the value has
  abbrev copied : Fields → String → Fields → Fields
  copied value key rest = if has value key then field key (get value key) rest else rest

  abbrev append : Fields → Fields → Fields
  append end more = more
  append (field k v rest) more = field k v (append rest more)

  -- `normalise_recovery(value, default_scope)`
  unfoldable pub normalise_recovery : Json → Json → Option Fields
  unfolding capture_reference diagnostic
  normalise_recovery value default_scope = do
    selected ← capture_reference value default_scope
    fields ← mapping value
    let payload = append selected (
        field "kind" (str "recovery") (
          field "attempt_id" (get fields "attempt_id") (
            field "state" (get fields "state") (
              copied fields "operation"
                (copied fields "status_code" (copied fields "duration_ms" end))))))
    if diagnostic (dict payload) then some payload else none

  -- `execution`
  unfoldable pub execution : Json → Bool
  unfolding is_version_one text number closed_with
  execution (dict value) =
      closed_with value ("version" ∷ "kind" ∷ "name" ∷ "elapsed_ms" ∷ "limit_ms" ∷ []) []
      && is_version_one (get value "version")
      && one_of (get value "kind") ("request" ∷ "command" ∷ "job" ∷ "unknown" ∷ [])
      && nullable (λ v. text h v 128) (get value "name")
      && nullable number (get value "elapsed_ms")
      && nullable number (get value "limit_ms")
  execution _ = false
