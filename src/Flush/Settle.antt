-- ===== src/Flush/Settle.antt =====
-- The branches of the answer to a batch, and its `finally` (src/debugbundle/flush_delivery.py).
use debugbundle_python.Prelude.{
  ℕ, ◌+◌, Option, none, some, Bool, true, false, not, ◌||◌, ◌&&◌, ◌++◌, List, map, length, drop,
  nat_eqb, nat_eq, if◌then◌else◌, ◌>>=◌,
}
use debugbundle_python.Prelude.Int.{pos}
use debugbundle_python.Prelude.Dict.{total}
use debugbundle_python.Diagnostics.Changes.{retain_only}
use debugbundle_python.Acknowledgement.{
  AcknowledgementDecision, Kind, legacy, protocol_failure, acknowledged, decide_acknowledgement,
}
use debugbundle_python.Evidence.{observe}
use debugbundle_python.Transport.{TransportResponse}
use debugbundle_python.Sdk.{Sdk, Event, Host, schedule_flush_locked}
use debugbundle_python.Flush.{
  pick, is_empty, rearm, is_success, is_refused, is_delayed, is_acknowledged, back_off,
  diagnostic_ids, sizes_of, intersect, low_count, wake, downgrade_rejections, after_acknowledged,
}

-- `sdk._buffer = sdk._buffer[len(batch):]`
abbrev pub without_batch : Sdk → List Event → Sdk
without_batch s batch = record s { buffer = drop (length batch) s.buffer; retry_after = 0 }

-- `0.0 if isinstance(transport, HttpTransport) and ...`, less the test of the failures
abbrev pub at_once : Bool → Option TransportResponse → Bool
at_once http none = false
at_once http (some r) = http && is_success r.status_code

-- Any other response.
unfoldable pub fail : Sdk → List Event → TransportResponse → ℕ → ℕ → Sdk
unfolding back_off schedule_flush_locked
fail s batch r now monotonic =
    let failed = record s { consecutive_failures = s.consecutive_failures + 1 } in
    if is_delayed r
    then back_off s r now monotonic
    else if is_refused r.status_code
    then without_batch failed batch
    else schedule_flush_locked failed none monotonic

module _ (host : Host) where
  -- The `finally` block, less its last step.
  unfoldable pub recount : Sdk → Option Sdk
  unfolding sizes_of
  recount s = do
    sizes ← sizes_of s.buffer_sizes s.buffer
    some (record s {
      hook_bypass = intersect s.hook_bypass (map (λ e. e.ident) s.buffer);
      diagnostics = retain_only host.json s.diagnostics (diagnostic_ids s.buffer);
      buffer_sizes = sizes;
      buffer_bytes = total (λ _ size. size) sizes;
      pending_low_priority = pos (low_count s.buffer);
    })

module _ (host : Host) (reduced : Sdk → Event → Option Event) where
  -- The acknowledgement of a batch is followed, by its kind.
  unfoldable pub follow :
      Kind
      → AcknowledgementDecision
      → Bool
      → Sdk
      → List Event
      → TransportResponse
      → ℕ
      → ℕ
      → Option Sdk
  unfolding back_off downgrade_rejections after_acknowledged
  follow protocol_failure ack lost s batch r now monotonic = some (back_off s r now monotonic)
  follow legacy ack lost s batch r now monotonic =
      some (record (without_batch s batch) { last_event_at = some now; consecutive_failures = 0 })
  follow acknowledged ack lost s batch r now monotonic = do
    (s', downgraded) ← downgrade_rejections host reduced s batch ack.terminal_errors lost
    some (
        after_acknowledged
          (record s' {
            buffer = pick batch ack.retryable_indices ++ downgraded ++ drop (length batch) s.buffer;
          })
          ack (not (nat_eqb (length ack.retryable_indices) 0) || not (is_empty downgraded)) r now
          monotonic)

  -- A response of 200 to 299.
  unfoldable pub acknowledge : Sdk → List Event → Bool → TransportResponse → ℕ → ℕ → Option Sdk
  unfolding follow
  acknowledge s batch http r now monotonic =
      let ack = decide_acknowledgement r.body (length batch) http in
      let (features, lost) = observe s.evidence r.body http (is_acknowledged ack.kind) in
      follow ack.kind ack lost (record s { evidence = features }) batch r now monotonic

  unfoldable pub respond : Sdk → List Event → Bool → Option TransportResponse → ℕ → ℕ → Option Sdk
  unfolding acknowledge fail schedule_flush_locked
  respond s batch http none now monotonic = some (
      schedule_flush_locked (record s { consecutive_failures = s.consecutive_failures + 1 }) none
        monotonic)
  respond s batch http (some r) now monotonic = elim (is_success r.status_code) [
    | true ↦ acknowledge s batch http r now monotonic
    | false ↦ some (fail s batch r now monotonic)
  ]

  -- The section under the lock that follows the transport.
  unfoldable pub settle :
      Sdk → ℕ → List Event → Bool → Option TransportResponse → ℕ → ℕ → Option Sdk
  unfolding rearm respond recount wake
  settle s generation batch http response now monotonic =
      let s' = record s { sending = false; inflight_count = 0 } in
      elim (nat_eqb generation s.generation) [
        | false ↦ some (rearm s' monotonic)
        | true ↦ do
          answered ← respond s' batch http response now monotonic
          counted ← recount host answered
          some (wake counted (at_once http response) now monotonic)
      ]
