-- ===== src/Flush/Responded.antt =====
-- Each branch of the answer to a batch leaves distinct objects with their sizes
-- (src/debugbundle/flush_delivery.py).
use debugbundle_python.Prelude.{
  ℕ, ◌≡◌, refl, ap, ◌∙◌, String, Option, none, some, Bool, not, ◌||◌, List, ◌++◌, arith, nat_eqb,
  nat_eq, length, drop, All, inl, inr, Bool-cases,
}
use debugbundle_python.Acknowledgement.{
  AcknowledgementDecision, Kind, legacy, protocol_failure, acknowledged, decide_acknowledgement,
}
use debugbundle_python.Acknowledgement.Partition.{IsPartition, decide_acknowledgement-IsPartition}
use debugbundle_python.Evidence.{observe}
use debugbundle_python.Transport.{TransportResponse}
use debugbundle_python.Sdk.{Sdk, Event, Host, schedule_flush_locked}
use debugbundle_python.Queue.Shape.{DistinctIds, Known}
use debugbundle_python.Flush.{
  pick, back_off, is_success, is_acknowledged, after_acknowledged, is_empty,
}
use debugbundle_python.Flush.Settle.{follow, acknowledge, respond}
use debugbundle_python.Flush.Answers.{answered, landed_state, fail-Keeps, drop-append}
use debugbundle_python.Flush.Downgraded.{Shrinks, Differ, downgrade_rejections-Reduced}
use debugbundle_python.Flush.Followed.{
  Followed, SameQueue-Followed, after_acknowledged-SameQueue, whole-Followed, none-Followed,
  if-Followed,
}
use debugbundle_python.Flush.Requeued.{ready, requeued-Followed}

module _ (s : Sdk) (batch trailing : List Event) (split : s.buffer ≡ batch ++ trailing)
    (distinct : DistinctIds s.buffer) (known : Known s.buffer_sizes s.buffer)
    (now monotonic : ℕ) where
  module _ (host : Host) (reduced : Sdk → Event → Option Event)
      (shrinks : All (Shrinks host reduced s.buffer s.buffer_sizes) batch)
      (differ : Differ host reduced s.buffer s.buffer_sizes) where
    acknowledged-Followed :
        (ack : AcknowledgementDecision) (features : List String) (lost : Bool)
        (r : TransportResponse)
        → IsPartition (length batch) ack
        → (a : Sdk) × (follow host reduced acknowledged ack lost
              (record (landed_state s) { evidence = features })
              batch
              r
              now
              monotonic
            ≡ some a)
          × Followed s a
    unfolding follow
    acknowledged-Followed ack features lost r part =
        let found : Sdk = record (landed_state s) { evidence = features } in
        let (t, es, done, red) =
          downgrade_rejections-Reduced host reduced s.buffer s.buffer_sizes differ found batch
            ack.terminal_errors lost (λ i le. omega (arith, part.in_range i le))
            (ready s batch trailing split distinct known host reduced shrinks differ ack part
              features) in
        let more : Bool = not (nat_eqb (length ack.retryable_indices) 0) || not (is_empty es) in
        let u : Sdk = record t {
          buffer = pick batch ack.retryable_indices ++ es ++ drop (length batch) s.buffer;
        } in
        (
          after_acknowledged u ack more r now monotonic,
          rw done refl,
          SameQueue-Followed s u _ (after_acknowledged-SameQueue u ack more r now monotonic) (
              requeued-Followed s batch trailing split distinct known host reduced shrinks differ
                ack part features t es red),
        )

    follow-Followed :
        (ack : AcknowledgementDecision) (features : List String) (lost : Bool) (kind : Kind)
        (r : TransportResponse)
        → (kind ≡ acknowledged → IsPartition (length batch) ack)
        → (a : Sdk) × (follow host reduced kind ack lost
              (record (landed_state s) { evidence = features })
              batch
              r
              now
              monotonic
            ≡ some a)
          × Followed s a
    unfolding follow back_off
    follow-Followed ack features lost protocol_failure r part = (
      _,
      refl,
      whole-Followed s batch trailing split distinct known now _
          (answered split refl refl refl refl refl refl refl),
    )
    follow-Followed ack features lost legacy r part = (
      _,
      refl,
      none-Followed s batch trailing split distinct known now _ (
          answered (ap (drop (length batch)) split ∙ drop-append batch trailing) refl refl refl refl
            refl refl (ground arith)),
    )
    follow-Followed ack features lost acknowledged r part =
        acknowledged-Followed ack features lost r (part refl)

    acknowledge-Followed :
        (http : Bool) (r : TransportResponse)
        → (a : Sdk) × (acknowledge host reduced (landed_state s) batch http r now monotonic
            ≡ some a)
          × Followed s a
    unfolding acknowledge
    acknowledge-Followed http r =
        let ack = decide_acknowledgement r.body (length batch) http in
        let (features, lost) = observe s.evidence r.body http (is_acknowledged ack.kind) in
        follow-Followed ack features lost ack.kind r
          (decide_acknowledgement-IsPartition r.body (length batch) http)

    -- Where what is left of a refused event is a new object that is no longer than the event, the
    -- answer is followed without an error, and leaves distinct objects with their sizes, no more of
    -- them and no more bytes.
    pub respond-Followed :
        (http : Bool) (response : Option TransportResponse)
        → (a : Sdk) × (respond host reduced (landed_state s) batch http response now monotonic
            ≡ some a)
          × Followed s a
    unfolding respond
    respond-Followed http none =
        unfold schedule_flush_locked in
        (
          _,
          refl,
          whole-Followed s batch trailing split distinct known now _
              (answered split refl refl refl refl refl refl refl),
        )
    respond-Followed http (some r) = elim (Bool-cases (is_success r.status_code)) [
      | inl good ↦ rw (good, respond) (acknowledge-Followed http r)
      | inr bad ↦
          rw (bad, respond)
            (
              _,
              refl,
              if-Followed s batch trailing split distinct known now _ _ (
                  fail-Keeps host (λ t e. none) (λ t e. refl) s batch trailing now monotonic split
                    r),
            )
    ]
