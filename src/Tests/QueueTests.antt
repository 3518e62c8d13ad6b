-- ===== src/Tests/QueueTests.antt =====
-- Offers to the queue of src/debugbundle/queue_admission.py.
use debugbundle_python.Prelude.{
  ◌≡◌, refl, Option, none, some, Bool, true, false, List, [], ◌∷◌, arith,
}
use debugbundle_python.Prelude.Dict.{get}
use debugbundle_python.Json.{Json, Fields, str, dict, end, field}
use debugbundle_python.Diagnostics.{empty}
use debugbundle_python.Diagnostics.Runs.{run-IsValid}
use debugbundle_python.Sdk.{Event, Sdk, Host}
use debugbundle_python.Queue.{offer_protected_event}
use debugbundle_python.Queue.Shape.{IsSized}
use debugbundle_python.Queue.Results.{OfferOf, offer_protected_event-OfferOf}
use debugbundle_python.Tests.Fixtures.{host, event, full}

full-IsSized : IsSized full 2 1_000
unfolding get
full-IsSized = record {
  distinct = ((refl, tt), (tt, tt));
  known = (refl, (refl, tt));
  bytes = refl;
  few = omega arith;
  within = omega arith;
}

-- An exception takes the place of the log event; the request event is in flight.
offer_protected_event-OfferOf_example :
    OfferOf host 2 1_000 full
      (event 3 "backend_exception")
      500
      (offer_protected_event host full (event 3 "backend_exception") 500 2 1_000 10 20)
unfolding debugbundle_python.Diagnostics.Runs.run
offer_protected_event-OfferOf_example =
    offer_protected_event-OfferOf host 2 1_000 full (event 3 "backend_exception") 500 10 20
      full-IsSized (run-IsValid host.json []) (refl, (refl, tt))

abbrev kept : Option (Sdk × Bool) → List Event × Bool
kept none = ([], false)
kept (some (s, accepted)) = (s.buffer, accepted)

offer_evicts :
    kept (offer_protected_event host full (event 3 "backend_exception") 500 2 1_000 10 20)
    ≡ (event 1 "request_event" ∷ event 3 "backend_exception" ∷ [], true)
unfolding offer_protected_event debugbundle_python.Queue.high_priority_event
    debugbundle_python.Json.get get debugbundle_python.Reconcile.reconcile_diagnostic
    debugbundle_python.Sdk.schedule_flush_locked
offer_evicts = refl
