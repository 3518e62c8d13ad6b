-- ===== src/Forward/Complete.antt =====
-- What a success of `send_verified` (src/debugbundle/relay_delivery.py) says of the events.
use mathlib.Core.List.{flatten}
use debugbundle_python.Prelude.{
  ℕ, suc, ◌≡◌, ◌∙◌, refl, sym, ap, subst, ◌⊎◌, inl, inr, String, Option, none, some, Bool, true,
  false, ◌&&◌, ◌||◌, List, [], ◌∷◌, length, All, arith, nat_eqb, Bool-cases, Option-cases,
  if◌then◌else◌, ◌==◌, string_eq,
}
use debugbundle_python.Json.{Fields}
use debugbundle_python.Acknowledgement.{AcknowledgementDecision, decide_acknowledgement}
use debugbundle_python.Evidence.{features, observe}
use debugbundle_python.Ingestion.{JsonEncoder}
use debugbundle_python.Ingestion.Cutting.{AllFit}
use debugbundle_python.Ingestion.Bodies.{chunks-total}
use debugbundle_python.Transport.{TransportResponse}
use debugbundle_python.Forward.{
  World, Forwarder, attach_project_token, is_2xx, is_acknowledged, is_legacy, send, after_ack,
  after_response, retry_answer, send_retries, retries_of, after_chunk, send_chunk, select,
  both_support, send_chunks, send_verified,
}

abbrev pub Sent : Type 0
Sent = List (List Fields × Option TransportResponse)

abbrev pub In : List Fields → TransportResponse → Sent → Type 0
In batch r [] = ⊥
In batch r ((b, answer) ∷ rest) = ((b ≡ batch) × (answer ≡ some r)) ⊎ In batch r rest

-- A batch was sent and answered with a status of success, and its answer accepts events: it is legacy,
-- or an acknowledgement.
pub record IsAnswered (required : Bool) (batch : List Fields) (sent : Sent) : Type 0 where
  pub response : TransportResponse
  pub logged : In batch response sent
  pub success : is_2xx response.status_code ≡ true
  pub taken :
      (is_legacy (decide_acknowledgement response.body (length batch) required).kind
        || is_acknowledged (decide_acknowledgement response.body (length batch) required).kind)
      ≡ true

module _ (w : World) where
  abbrev Grows : Forwarder → Forwarder → Type 0
  Grows f f' =
      (batch : List Fields) (r : TransportResponse) → In batch r f.sent → In batch r f'.sent

  send-Grows : (f : Forwarder) (batch : List Fields) → Grows f (send w f batch).0
  send-Grows f batch b r m = elim (Bool-cases (w.late f.readings)) [
    | inl late ↦ rw late m
    | inr early ↦ rw early (inr m)
  ]

  send-In :
      (f : Forwarder) (batch : List Fields) (r : TransportResponse)
      → (send w f batch).1 ≡ some r
      → In batch r (send w f batch).0.sent
  send-In f batch r e = elim (Bool-cases (w.late f.readings)) [
    | inl late ↦ absurd (ground (arith, late, e))
    | inr early ↦ rw early (inl (refl, rw early at e))
  ]

  retry_answer-sent :
      (required : Bool) (accepted total : ℕ) (batch : List Fields) (f : Forwarder)
      (o : Option TransportResponse)
      → (retry_answer w required accepted total batch f o).0.sent ≡ f.sent
  retry_answer-sent required accepted total batch f none = refl
  retry_answer-sent required accepted total batch f (some r) =
      elim (Bool-cases (is_2xx r.status_code)) [ inl good ↦ rw good refl | inr bad ↦ rw bad refl ]

  send_retries-Grows :
      (f : Forwarder) (required : Bool) (accepted total : ℕ) (batch : List Fields)
      → Grows f (send_retries w f required accepted total batch).0
  send_retries-Grows f required accepted total [] b r m = m
  send_retries-Grows f required accepted total (e ∷ es) b r m =
      subst (In b r)
        (sym (
          retry_answer-sent required accepted total (e ∷ es) (send w f (e ∷ es)).0
            (send w f (e ∷ es)).1))
        (send-Grows f (e ∷ es) b r m)

  after_ack-Grows :
      (f : Forwarder) (required lost : Bool) (events : List Fields) (ack : AcknowledgementDecision)
      → Grows f (after_ack w f required lost events ack).0
  after_ack-Grows f required lost events ack b r m = elim (Bool-cases (is_legacy ack.kind)) [
    | inl old ↦ rw old m
    | inr now ↦ elim (Bool-cases (is_acknowledged ack.kind)) [
      | inr failed ↦ rw (now, failed) m
      | inl good ↦ elim (Bool-cases (nat_eqb ack.accepted (length events))) [
        | inl all_taken ↦ rw (now, good, all_taken) m
        | inr some_left ↦
            rw (now, good, some_left)
              (send_retries-Grows f required ack.accepted (length events)
                (if lost then retries_of w f.evidence events ack.terminal_errors else []) b r m)
      ]
    ]
  ]

  after_ack-taken :
      (f : Forwarder) (required lost : Bool) (events : List Fields) (ack : AcknowledgementDecision)
      → (after_ack w f required lost events ack).1.0 ≡ true
      → (is_legacy ack.kind || is_acknowledged ack.kind) ≡ true
  after_ack-taken f required lost events ack e = elim (Bool-cases (is_legacy ack.kind)) [
    | inl old ↦ rw old refl
    | inr now ↦ elim (Bool-cases (is_acknowledged ack.kind)) [
      | inr failed ↦ absurd (let no : false ≡ true = rw (now, failed) at e in cc)
      | inl good ↦ rw (now, good) refl
    ]
  ]

  -- A chunk that succeeds is answered, and no record of a batch is lost.
  after_response-IsAnswered :
      (discover : Bool) (events : List Fields) (f : Forwarder) (o : Option TransportResponse)
      → ((r : TransportResponse) → o ≡ some r → In events r f.sent)
      → (after_response w discover events f o).1.0 ≡ true
      → IsAnswered (discover || w.http) events (after_response w discover events f o).0.sent
  after_response-IsAnswered discover events f none logged e = absurd (cc)
  after_response-IsAnswered discover events f (some r) logged e =
      elim (Bool-cases (is_2xx r.status_code)) [
        | inr bad ↦ absurd (let no : false ≡ true = rw bad at e in cc)
        | inl good ↦
            let required : Bool = discover || w.http in
            let ack : AcknowledgementDecision =
              decide_acknowledgement r.body (length events) required in
            let seen = observe f.evidence r.body required (is_acknowledged ack.kind) in
            let noted : Forwarder = record f { evidence = seen.0 } in
            let taken : (after_ack w noted required seen.1 events ack).1.0 ≡ true = rw good at e in
            rw good (record {
              response = r;
              logged = after_ack-Grows noted required seen.1 events ack events r (logged r refl);
              success = good;
              taken = after_ack-taken noted required seen.1 events ack taken;
            })
      ]

  after_response-Grows :
      (discover : Bool) (events : List Fields) (f : Forwarder) (o : Option TransportResponse)
      → Grows f (after_response w discover events f o).0
  after_response-Grows discover events f none b r m = m
  after_response-Grows discover events f (some s) b r m = elim (Bool-cases (is_2xx s.status_code)) [
    | inr bad ↦ rw bad m
    | inl good ↦
        let required : Bool = discover || w.http in
        let ack : AcknowledgementDecision =
          decide_acknowledgement s.body (length events) required in
        let seen = observe f.evidence s.body required (is_acknowledged ack.kind) in
        let noted : Forwarder = record f { evidence = seen.0 } in
        rw good (after_ack-Grows noted required seen.1 events ack b r m)
  ]

  send_chunk-Grows :
      (f : Forwarder) (events : List Fields) (discover : Bool)
      → Grows f (send_chunk w f events discover).0
  unfolding send_chunk
  send_chunk-Grows f events discover b r m =
      after_response-Grows discover events (send w f events).0 (send w f events).1 b r
        (send-Grows f events b r m)

  send_chunk-IsAnswered :
      (f : Forwarder) (events : List Fields) (discover : Bool)
      → (send_chunk w f events discover).1.0 ≡ true
      → IsAnswered (discover || w.http) events (send_chunk w f events discover).0.sent
  unfolding send_chunk
  send_chunk-IsAnswered f events discover e =
      after_response-IsAnswered discover events (send w f events).0 (send w f events).1
        (λ r answered. send-In f events r answered) e

  grow-IsAnswered :
      (required : Bool) (batch : List Fields) (f f' : Forwarder)
      → Grows f f'
      → IsAnswered required batch f.sent
      → IsAnswered required batch f'.sent
  grow-IsAnswered required batch f f' grows a = record {
    response = a.response;
    logged = grows batch a.response a.logged;
    success = a.success;
    taken = a.taken;
  }

  -- A chunk whose events, as the destination takes them, were sent and answered.
  abbrev pub PartAnswered : Bool → Sent → List Fields → Type 0
  PartAnswered discover sent part =
      (evidence : List String) × (batch : List Fields) × (select w evidence part ≡ some batch)
      × IsAnswered (discover || w.http) batch sent

  -- How a loop that succeeds goes on: the chunk was sent with success, and then the rest.
  after_chunk-true :
      (rest : Forwarder → List String → Bool → Forwarder × (Bool × Bool × Bool))
      (kept : List String) (complete : Bool) (f : Forwarder) (success canonical : Bool)
      → (after_chunk w rest kept complete (f, (success, canonical))).1.1 ≡ true
      → (success ≡ true)
        × ((f' : Forwarder) × (kept' : List String) × (complete' : Bool) × (f'.sent ≡ f.sent)
            × (after_chunk w rest kept complete (f, (success, canonical))
                ≡ rest f' kept' complete'))
  after_chunk-true rest kept complete f false canonical e = absurd (cc)
  after_chunk-true rest kept complete f true canonical e = elim (Bool-cases (w.late f.readings)) [
    | inl late ↦ absurd (let no : false ≡ true = rw late at e in cc)
    | inr early ↦ (
      refl,
      (
        record f { evidence = both_support w kept f.evidence; readings = suc f.readings },
        both_support w kept f.evidence,
        complete && canonical,
        refl,
        rw early refl,
      ),
    )
  ]

  abbrev Holds : Bool → Forwarder → List (List Fields) → Forwarder × (Bool × Bool × Bool) → Type 0
  Holds discover f parts result = Grows f result.0 × All (PartAnswered discover result.0.sent) parts

  send_chunks-Answered :
      (discover : Bool) (parts : List (List Fields)) (f : Forwarder) (kept : List String)
      (complete : Bool)
      → (send_chunks w discover parts f kept complete).1.1 ≡ true
      → Holds discover f parts (send_chunks w discover parts f kept complete)
  unfolding send_chunks
  send_chunks-Answered discover [] f kept complete e = (λ b r m. m, tt)
  send_chunks-Answered discover (part ∷ parts) f kept complete e =
      elim (Bool-cases (w.late f.readings)) [
        | inl late ↦ absurd (let no : false ≡ true = rw late at e in cc)
        | inr early ↦ elim (Option-cases (select w f.evidence part)) [
          | inl refused ↦ absurd (let no : false ≡ true = rw (early, refused) at e in cc)
          | inr (batch, chosen) ↦
              let f1 : Forwarder = record f { readings = suc f.readings } in
              let res : Forwarder × (Bool × Bool) = send_chunk w f1 batch discover in
              let step : send_chunks w discover (part ∷ parts) f kept complete
                  ≡ after_chunk w (send_chunks w discover parts) kept complete
                      (res.0, (res.1.0, res.1.1)) =
                rw (early, chosen) refl in
              let e1 : (after_chunk w (send_chunks w discover parts) kept complete
                    (res.0, (res.1.0, res.1.1))).1.1
                  ≡ true =
                sym (ap (λ o. o.1.1) step) ∙ e in
              let (ok, (f', kept', complete', same_sent, going)) =
                after_chunk-true (send_chunks w discover parts) kept complete res.0 res.1.0 res.1.1
                  e1 in
              let e2 : (send_chunks w discover parts f' kept' complete').1.1 ≡ true =
                sym (ap (λ o. o.1.1) going) ∙ e1 in
              let (grows, rest) = send_chunks-Answered discover parts f' kept' complete' e2 in
              let answered : IsAnswered (discover || w.http) batch f'.sent =
                subst (IsAnswered (discover || w.http) batch) (sym same_sent)
                  (send_chunk-IsAnswered f1 batch discover ok) in
              let here : PartAnswered discover
                  (send_chunks w discover parts f' kept' complete').0.sent part =
                (
                  f.evidence,
                  batch,
                  chosen,
                  grow-IsAnswered (discover || w.http) batch f'
                      (send_chunks w discover parts f' kept' complete').0 grows answered,
                ) in
              let before : Grows f f' = λ b r m.
                subst (In b r) (sym same_sent) (send_chunk-Grows f1 batch discover b r m) in
              let whole : Holds discover f (part ∷ parts)
                  (send_chunks w discover parts f' kept' complete') =
                (λ b r m. grows b r (before b r m), (here, rest)) in
              subst (Holds discover f (part ∷ parts)) (sym (step ∙ going)) whole
        ]
      ]

  -- Where each event with the token fits a request of its own, and send_verified reports a success:
  -- the chunks put together are the events with the token, in order, and the events of each, as the
  -- destination took them by then, were sent in one request that was answered with a status of
  -- success and an acknowledgement, or a legacy answer.
  pub send_verified-Answered :
      (enc : JsonEncoder Fields) (f : Forwarder) (project_token : String) (events : List Fields)
      (discover : Bool)
      → AllFit enc.dumps (attach_project_token events project_token)
      → (send_verified w enc.dumps f project_token events discover).1.1 ≡ true
      → (parts : List (List Fields)) × (flatten parts ≡ attach_project_token events project_token)
        × All
            (PartAnswered discover
              (send_verified w enc.dumps f project_token events discover).0.sent)
            parts
  unfolding send_verified
  send_verified-Answered enc f project_token events discover fit e =
      elim (Bool-cases (project_token == "")) [
        | inl missing ↦ absurd (let no : false ≡ true = rw missing at e in cc)
        | inr given ↦
            let (parts, cut, whole, sized) =
              chunks-total enc (attach_project_token events project_token) fit in
            let e1 : (send_chunks w discover parts f features true).1.1 ≡ true =
              rw (given, cut) at e in
            (
              parts,
              whole,
              rw (given, cut) (send_chunks-Answered discover parts f features true e1).1,
            )
      ]
