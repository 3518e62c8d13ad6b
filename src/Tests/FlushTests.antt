-- ===== src/Tests/FlushTests.antt =====
-- Answers to a batch (src/debugbundle/flush_delivery.py).
use debugbundle_python.Prelude.{
  String, ℕ, ◌≢◌, ◌≡◌, refl, Option, none, some, true, false, List, [], ◌∷◌, arith,
}
use debugbundle_python.Prelude.Int.{pos}
use debugbundle_python.Prelude.Dict.{get}
use debugbundle_python.Json.{Json, null, int, list, dict, nil, end, field}
use debugbundle_python.Transport.{TransportResponse}
use debugbundle_python.Sdk.{Event, Sdk}
use debugbundle_python.Queue.Shape.{Known}
use debugbundle_python.Flush.Beginning.{BegunFrom, begin_flush, begin_flush-BegunFrom}
use debugbundle_python.Flush.Settle.{settle}
use debugbundle_python.Flush.Sending.{Sends, select_batch, select_batch-Sends}
use debugbundle_python.Flush.Answers.{kept}
use debugbundle_python.Flush.Retained.{Settled, settle-Settled}
use debugbundle_python.Tests.Fixtures.{host, event, full}

abbrev whole : Sdk → Event → Option Event
whole s e = none

-- The event in flight is accepted.
abbrev accepted : TransportResponse
accepted = record {
  status_code = 202;
  retry_after_ms = null;
  body = dict (
      field "accepted" (int (pos 1))
        (field "rejected" (int (pos 0)) (field "errors" (list nil) end)));
}

abbrev sent : List Event
sent = event 1 "request_event" ∷ []

full-Known : Known full.buffer_sizes full.buffer
unfolding get
full-Known = (refl, (refl, tt))

settle-Settled_example :
    (s : Sdk) × (settle host whole full full.generation sent true (some accepted) 10 20 ≡ some s)
    × Settled (kept sent true (some accepted)) (event 2 "log_event" ∷ []) s
settle-Settled_example =
    settle-Settled host whole full sent (event 2 "log_event" ∷ []) true (some accepted) 10 20
      (λ t e. refl) refl full-Known refl

older : 7 ≢ full.generation
older h = omega arith

abbrev queued : Option Sdk → List Event
queued none = []
queued (some s) = s.buffer

settle_delivers :
    queued (settle host whole full 1 sent true (some accepted) 10 20) ≡ event 2 "log_event" ∷ []
unfolding settle debugbundle_python.Acknowledgement.decide_acknowledgement
    debugbundle_python.Json.has get debugbundle_python.Json.get debugbundle_python.Evidence.observe
settle_delivers = refl

abbrev brief : Event → List ℕ
brief e = e.ident ∷ []

-- Both events fit one request.
select_batch-Sends_example :
    Sends brief full (select_batch brief full full.generation (some full.buffer) true 20)
select_batch-Sends_example =
    select_batch-Sends brief full (event 1 "request_event") (event 2 "log_event" ∷ []) [] true 20
      (omega arith, (omega arith, tt)) refl

abbrev iso : ℕ → String
iso now = "1970-01-01T00:00:00Z"

begin_flush-BegunFrom_example :
    BegunFrom iso
      (record full { sending = false })
      10
      (begin_flush iso (record full { sending = false }) 1_000 10 20)
begin_flush-BegunFrom_example =
    begin_flush-BegunFrom iso (record full { sending = false }) 1_000 10 20
