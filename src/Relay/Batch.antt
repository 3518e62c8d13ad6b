-- ===== src/Relay/Batch.antt =====
-- The loop of `handle` over the entries of a batch (src/debugbundle/relay.py).
use debugbundle_python.Prelude.{
  ℕ, suc, String, Option, none, some, Bool, false, not, List, [], ◌∷◌, length, contains, string_eq,
  if◌then◌else◌, ◌>>=◌, or_else,
}
use debugbundle_python.Json.{Json, Fields, str, dict, get}
use debugbundle_python.Evidence.Events.{strip_unsupported}
use debugbundle_python.Forward.{is_analytics, prepare_event}
use debugbundle_python.Relay.{RelayHost, Relay}
use debugbundle_python.Relay.Events.{sanitize_event, text_of}
use debugbundle_python.Relay.Delivery.{Env, full}

pub data RelayError : Type 0 where
  bad_content_type bad_json no_batch : RelayError
  not_object invalid_event : ℕ → RelayError
  unsupported : ℕ → String → RelayError

abbrev accepted_event_types : List String
accepted_event_types =
    "frontend_exception" ∷ "error_suppressed" ∷ "frontend_breadcrumb" ∷ "request_event"
    ∷ "probe_event" ∷ "analytics_event" ∷ "diagnostic_context" ∷ []

-- What becomes of one entry of the batch: an event, an error of the entry, or an exception.
pub data Verdict : Type 0 where
  good : Fields → Verdict
  bad : RelayError → Verdict
  raises : Verdict

module _ (env : Env) where
  module _ (h : RelayHost) where
    abbrev verdict_of : ℕ → Option Fields → Verdict
    verdict_of index none = bad (invalid_event index)
    verdict_of index (some event) = good event

    abbrev prepared : ℕ → Option (Option Fields) → Verdict
    prepared index none = raises
    prepared index (some event) = verdict_of index event

    -- The event behind the sanitizing: without what the destination does not support, and cut to size
    -- for it.
    abbrev prepare_for : Relay → ℕ → Fields → Verdict
    prepare_for r index event = elim (full r.project_token) [
      | none ↦ good event
      | some token ↦
          if r.has_forwarder
          then prepared index (prepare_event (λ e. length (env.dumps e)) event token)
          else good event
    ]

    abbrev supported : Relay → Fields → Option Fields
    supported r event =
        if is_analytics event
        then some event
        else strip_unsupported (dict event) r.forwarder.evidence

    abbrev label_of : Json → String
    label_of value = or_else (text_of value) "unknown"

    abbrev accepted_type : Json → Bool
    accepted_type (str t) = contains accepted_event_types t
    accepted_type _ = false

    -- One round of the loop over the batch
    unfoldable pub judge : Relay → ℕ → Json → Verdict
    unfolding sanitize_event strip_unsupported prepare_event
    judge r index (dict candidate) =
        if not (accepted_type (get candidate "event_type"))
        then bad (unsupported index (label_of (get candidate "event_type")))
        else elim (sanitize_event h r.service r.environment candidate) [
          | none ↦ bad (invalid_event index)
          | some event ↦ elim (supported r event) [
            | none ↦ bad (invalid_event index)
            | some kept ↦ prepare_for r index kept
          ]
        ]
    judge r index _ = bad (not_object index)

    abbrev pub put_verdict :
        Verdict → Option (List Fields × List RelayError) → Option (List Fields × List RelayError)
    put_verdict raises rest = none
    put_verdict (good event) rest = do (events, errors) ← rest; some (event ∷ events, errors)
    put_verdict (bad error) rest = do (events, errors) ← rest; some (events, error ∷ errors)

    -- The loop over the batch: the events that are accepted, and the errors; `none` is an exception.
    abbrev pub judge_all : Relay → ℕ → List Json → Option (List Fields × List RelayError)
    judge_all r index [] = some ([], [])
    judge_all r index (candidate ∷ rest) =
        put_verdict (judge r index candidate) (judge_all r (suc index) rest)
