-- ===== src/Reconcile.antt =====
-- `reconcile_diagnostic` of src/debugbundle/evidence_delivery.py: the diagnostic budget follows the
-- events that enter, replace one another and leave.
pub mod Budget
use debugbundle_python.Prelude.{
  ℕ, String, Option, none, some, Bool, true, false, not, ◌&&◌, ◌||◌, List, [], ◌∷◌, string_eq, ◌==◌,
  contains, if◌then◌else◌,
}
use debugbundle_python.Json.{Json, Fields, end, str, dict, get}
use debugbundle_python.Evidence.{is_text, reference}
use debugbundle_python.Diagnostics
use debugbundle_python.Diagnostics.{Payload, register_failure, reserve}
use debugbundle_python.Diagnostics.Changes.{release, replace}
use debugbundle_python.Sdk.{Sdk, Event, Host, event_type_is, event_id, text_of}

module _ (host : Host) where
  -- `allows_recovery` of evidence_delivery.py
  unfoldable pub allows_recovery : Sdk → Bool
  allows_recovery s =
      s.capture_recovery_observations
      && contains s.evidence "recovery_v1"
      && not (s.capture_policy.preset == "minimal")
      && s.capture_policy.capture_diagnostic_context

  abbrev optional_text : Json → Option String
  optional_text (str s) = some s
  optional_text _ = none

  -- The fields of a payload that the budget reads.
  pub payload_of : Fields → Payload
  payload_of fields = record {
    failure_ref = get fields "failure_ref";
    scope = get fields "scope";
    kind = text_of (get fields "kind");
    attempt_id = optional_text (get fields "attempt_id");
    source_event_id = optional_text (get fields "source_event_id");
  }

  abbrev fields_of : Json → Fields
  fields_of (dict fields) = fields
  fields_of _ = end

  -- The id of an event that is a diagnostic.
  abbrev diagnostic_id : Option Event → Option String
  diagnostic_id none = none
  diagnostic_id (some e) = if event_type_is e "diagnostic_context" then some (event_id e) else none

  abbrev release_original : Option String → Sdk → Sdk
  release_original none s = s
  release_original (some id) s = record s {
    diagnostics = release host.json s.diagnostics (id ∷ []);
  }

  abbrev with_budget : Sdk → Diagnostics.DiagnosticCaptureBudget × Bool → Sdk × Bool
  with_budget s r = (record s { diagnostics = r.0 }, r.1)

  -- A diagnostic event takes the place of its original in the budget, or a place of its own.
  abbrev charge_diagnostic : Sdk → Option String → Event → Payload → ℕ → Sdk × Bool
  charge_diagnostic s none e payload now =
      with_budget s (reserve host.json s.diagnostics (event_id e) payload (host.event_bytes e) now)
  charge_diagnostic s (some id) e payload now =
      with_budget s
        (replace host.json s.diagnostics id (event_id e) payload (host.event_bytes e) now)

  -- `selected = reference(context.get("evidence_reference"))`
  abbrev selected_reference : Json → Option Fields
  selected_reference (dict context) = reference (get context "evidence_reference")
  selected_reference _ = none

  -- The failure of a referenced event is registered; a time that cannot be read is passed over.
  pub register_reference : Option Fields → Option Event → Event → Sdk → Sdk
  unfolding payload_of
  register_reference (some fields) (some original) e s =
      elim (host.parse_time (text_of (get e.fields "occurred_at"))) [
        | none ↦ s
        | some occurred ↦ record s {
          diagnostics =
              (register_failure host.json s.diagnostics (payload_of fields) (event_id e)
                occurred).0;
        }
      ]
  register_reference _ original e s = s

  pub reconcile_with : Sdk → Option Event → Event → ℕ → Sdk × Bool
  unfolding payload_of register_reference allows_recovery
  reconcile_with s original e now =
      let payload = fields_of (get e.fields "payload") in
      if event_type_is e "diagnostic_context"
      then if not (is_text (get payload "kind") "recovery") || not (allows_recovery s)
        then (release_original (diagnostic_id original) s, false)
        else charge_diagnostic s (diagnostic_id original) e (payload_of payload) now
      else (
        register_reference (selected_reference (get e.fields "context")) original e
            (release_original (diagnostic_id original) s),
        true,
      )

  -- `reconcile_diagnostic(sdk, original, replacement)` at a time
  unfoldable pub reconcile_diagnostic : Sdk → Option Event → Option Event → ℕ → Sdk × Bool
  unfolding reconcile_with
  reconcile_diagnostic s original none now = (release_original (diagnostic_id original) s, false)
  reconcile_diagnostic s original (some e) now = reconcile_with s original e now
