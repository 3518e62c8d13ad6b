-- ===== src/Forward.antt =====
-- src/debugbundle/relay_delivery.py: events are forwarded to the service, or written to files
-- (Forward/Files).
pub mod Files
pub mod Names
pub mod Complete
use debugbundle_python.Prelude.{
  ℕ, suc, ◌+◌, ◌≡◌, String, Option, none, some, Bool, true, false, not, ◌&&◌, ◌||◌, List, [], ◌∷◌,
  ◌++◌, length, leb, ltb, nat_eqb, contains, get_elem?, string_eq, ◌==◌, if◌then◌else◌, ◌>>=◌,
  is_some,
}
use debugbundle_python.Json.{Json, Fields, str, dict, get}
use debugbundle_python.Acknowledgement.{
  AcknowledgementDecision, Kind, acknowledged, legacy, decide_acknowledgement,
}
use debugbundle_python.Evidence.{is_text, features, observe}
use debugbundle_python.Evidence.Events.{set_field, without, strip_unsupported}
use debugbundle_python.CanonicalEvent.Values.{py_equal}
use debugbundle_python.Ingestion.{chunks}
use debugbundle_python.Ingestion.Fitting.{fit_event, fits}
use debugbundle_python.Transport.{TransportResponse}

abbrev pub is_analytics : Fields → Bool
is_analytics event = is_text (get event "event_type") "analytics_event"

-- `attach_project_token`
abbrev pub with_token : String → Fields → Fields
with_token project_token event = set_field event "project_token" (str project_token)

abbrev pub attach_project_token : List Fields → String → List Fields
attach_project_token [] project_token = []
attach_project_token (e ∷ es) project_token =
    with_token project_token e ∷ attach_project_token es project_token

-- `RelayForwardTransport.prepare_event`, with the length of the JSON form of an event; `none` is an
-- exception and `some none` its `None`.
unfoldable pub prepare_event : (Fields → ℕ) → Fields → String → Option (Option Fields)
unfolding set_field without fit_event
prepare_event event_bytes event project_token =
    let owned = with_token project_token event in
    let reduced : Option (Option Fields) =
      if is_analytics event
      then some (if fits event_bytes owned then some owned else none)
      else fit_event event_bytes owned in
    elim reduced [
      | none ↦ none
      | some none ↦ some none
      | some (some e) ↦ some (some (without ("project_token" ∷ []) e))
    ]

-- What a forwarding meets: whether the clock is at the deadline at a reading, the answer of the
-- transport to a call (`none` where it raises, or where the answer is no response), and whether the
-- transport is an `HttpTransport`.
pub record World : Type 0 where
  pub late : ℕ → Bool
  pub answer : ℕ → List Fields → Option TransportResponse
  pub http : Bool

-- The readings and calls so far, the batches that were sent with their answers, the last first, and the features of the
-- destination.
pub record Forwarder : Type 0 where
  pub readings : ℕ
  pub calls : ℕ
  pub sent : List (List Fields × Option TransportResponse)
  pub evidence : List String

abbrev pub is_2xx : ℕ → Bool
is_2xx status = leb 200 status && ltb status 300

abbrev pub is_acknowledged : Kind → Bool
is_acknowledged acknowledged = true
is_acknowledged _ = false

abbrev pub is_legacy : Kind → Bool
is_legacy legacy = true
is_legacy _ = false

module _ (w : World) where
  -- `time.monotonic() >= deadline`
  abbrev pub read_clock : Forwarder → Forwarder × Bool
  read_clock f = (record f { readings = suc f.readings }, w.late f.readings)

  -- `send`, where `none` is an exception
  abbrev pub send : Forwarder → List Fields → Forwarder × Option TransportResponse
  send f batch =
      let (f', late) = read_clock f in
      if late then (f', none) else (
        record f' { calls = suc f'.calls; sent = (batch, w.answer f'.calls batch) ∷ f'.sent },
        w.answer f'.calls batch,
      )

  -- A frontend exception that was refused and that has less to it now, as a retry.
  abbrev pub reduced_of : List String → Fields → Option Fields
  reduced_of evidence original = do
    reduced ← strip_unsupported (dict original) evidence
    if py_equal (dict reduced) (dict original) then none else some reduced

  abbrev pub retries_of : List String → List Fields → List (ℕ × String) → List Fields
  retries_of evidence events [] = []
  retries_of evidence events ((index, reason) ∷ errors) =
      let rest = retries_of evidence events errors in
      elim (get_elem? events index) [
        | none ↦ rest
        | some original ↦
            if (reason == "invalid_event")
              && is_text (get original "event_type") "frontend_exception"
            then (elim (reduced_of evidence original) [ none ↦ rest | some e ↦ e ∷ rest ])
            else rest
      ]

  abbrev pub observed : Forwarder → Json → Bool → Bool → Forwarder
  observed f body required valid = record f {
    evidence = (observe f.evidence body required valid).0;
  }

  -- The second request of `_send_chunk`, after the first accepted some of the events, and its answer.
  abbrev pub retry_answer :
      Bool → ℕ → ℕ → List Fields → Forwarder → Option TransportResponse → Forwarder × (Bool × Bool)
  retry_answer required accepted total batch f none = (f, (false, false))
  retry_answer required accepted total batch f (some r) =
      if not (is_2xx r.status_code)
      then (f, (false, false))
      else (let ack = decide_acknowledgement r.body (length batch) true in
          let complete = is_acknowledged ack.kind && nat_eqb (accepted + ack.accepted) total in
          (observed f r.body required (is_acknowledged ack.kind), (complete, complete)))

  abbrev pub send_retries : Forwarder → Bool → ℕ → ℕ → List Fields → Forwarder × (Bool × Bool)
  send_retries f required accepted total [] = (f, (false, false))
  send_retries f required accepted total (e ∷ es) =
      let (f', response) = send f (e ∷ es) in
      retry_answer required accepted total (e ∷ es) f' response

  -- `_send_chunk` after an answer with a status of success, with its acknowledgement
  abbrev pub after_ack :
      Forwarder → Bool → Bool → List Fields → AcknowledgementDecision → Forwarder × (Bool × Bool)
  after_ack f required lost events ack =
      if is_legacy ack.kind
      then (f, (true, false))
      else if not (is_acknowledged ack.kind)
      then (f, (false, false))
      else if nat_eqb ack.accepted (length events)
      then (f, (true, true))
      else send_retries f required ack.accepted (length events)
          (if lost then retries_of f.evidence events ack.terminal_errors else [])

  abbrev pub after_response :
      Bool → List Fields → Forwarder → Option TransportResponse → Forwarder × (Bool × Bool)
  after_response discover events f none = (f, (false, false))
  after_response discover events f (some r) =
      if not (is_2xx r.status_code)
      then (f, (false, false))
      else (let required = discover || w.http in
          let ack = decide_acknowledgement r.body (length events) required in
          let (evidence, lost) = observe f.evidence r.body required (is_acknowledged ack.kind) in
          after_ack (record f { evidence = evidence }) required lost events ack)

  -- `_send_chunk`: whether it succeeded, and whether each event is acknowledged
  unfoldable pub send_chunk : Forwarder → List Fields → Bool → Forwarder × (Bool × Bool)
  unfolding observe decide_acknowledgement py_equal
  send_chunk f events discover =
      let (f', response) = send f events in after_response discover events f' response

  -- The events of a chunk as the destination takes them; `none` where it takes one not at all.
  abbrev pub select : List String → List Fields → Option (List Fields)
  select evidence [] = some []
  select evidence (e ∷ es) = do
    chosen ← if is_analytics e then some e else strip_unsupported (dict e) evidence
    rest ← select evidence es
    some (chosen ∷ rest)

  abbrev pub both_support : List String → List String → List String
  both_support [] evidence = []
  both_support (f ∷ fs) evidence =
      let rest = both_support fs evidence in if contains evidence f then f ∷ rest else rest

  -- What follows a chunk: the end of the loop, or its rest with the features that are left.
  abbrev pub after_chunk :
      (Forwarder → List String → Bool → Forwarder × (Bool × Bool × Bool))
      → List String
      → Bool
      → Forwarder × (Bool × Bool)
      → Forwarder × (Bool × Bool × Bool)
  after_chunk rest kept complete (f, (success, canonical)) =
      let kept' = both_support kept f.evidence in
      let f' = record f { evidence = kept' } in
      let (f'', late) = read_clock f' in
      if not success
      then (f', (true, false, false))
      else if late
      then (f'', (true, false, false))
      else rest f'' kept' (complete && canonical)

  abbrev pub with_batch :
      (List Fields → Forwarder × (Bool × Bool × Bool))
      → Forwarder
      → Option (List Fields)
      → Forwarder × (Bool × Bool × Bool)
  with_batch go f none = (f, (true, false, false))
  with_batch go f (some batch) = go batch

  -- The loop of `send_verified`, with the features that each chunk left and whether each was complete.
  unfoldable pub send_chunks :
      Bool → List (List Fields) → Forwarder → List String → Bool → Forwarder × (Bool × Bool × Bool)
  unfolding send_chunk
  send_chunks discover [] f kept complete = (f, (true, true, complete))
  send_chunks discover (original ∷ rest) f kept complete =
      let (f1, late) = read_clock f in
      if late
      then (f1, (true, false, false))
      else with_batch
          (λ batch.
            after_chunk (send_chunks discover rest) kept complete (send_chunk f1 batch discover))
          f1 (select f1.evidence original)

  -- `send_verified`: whether a token is configured, success, and whether each event is acknowledged
  unfoldable pub send_verified :
      (Fields → List ℕ) → Forwarder → String → List Fields → Bool → Forwarder × (Bool × Bool × Bool)
  unfolding send_chunks chunks
  send_verified dumps f project_token events discover =
      if project_token == ""
      then (f, (false, false, false))
      else elim (chunks dumps (attach_project_token events project_token)) [
        | none ↦ (f, (true, false, false))
        | some parts ↦ send_chunks discover parts f features true
      ]

  -- `RelayForwardTransport.send`
  unfoldable send_pair :
      (Fields → List ℕ) → Forwarder → String → List Fields → Bool → Forwarder × (Bool × Bool)
  unfolding send_verified
  send_pair dumps f project_token events discover =
      let (f', (configured, success, complete)) =
        send_verified dumps f project_token events discover in
      (f', (configured, success))
