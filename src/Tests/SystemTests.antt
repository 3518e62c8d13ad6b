-- ===== src/Tests/SystemTests.antt =====
-- A run of the SDK, in which a capture offers an event while a flush is under way
-- (src/debugbundle/flush_delivery.py).
use debugbundle_python.Prelude.{
  ℕ, String, ◌≡◌, refl, Option, none, some, Bool, true, false, List, [], ◌∷◌, arith, All, ◌+◌,
  eq_of_some,
}
use debugbundle_python.Prelude.Dict.{get, put}
use debugbundle_python.Diagnostics.Runs.{run-IsValid}
use debugbundle_python.Sdk.{Sdk, Event}
use debugbundle_python.Queue.Shape.{Fresh}
use debugbundle_python.Flush.Commit.{Commit, commit_flush}
use debugbundle_python.Flush.Commit.Batch.{CommittedFrom, commit_flush-CommittedFrom}
use debugbundle_python.Flush.Downgraded.{Shrinks, Differ}
use debugbundle_python.Flush.Rested.{Resting}
use debugbundle_python.Flush.System.{
  Phase, resting, Setting, begin, commit, offer, finalize, select, Reach, start, later, answer,
}
use debugbundle_python.Flush.System.Phases.{Inv}
use debugbundle_python.Flush.System.Safe.{Reach-Inv}
use debugbundle_python.Flush.System.Errors.{Input, Ends, Reach-Ends, begin_flush_alone}
use debugbundle_python.Tests.Fixtures.{host, event, full}

abbrev g : Setting
g = record {
  host = host;
  policy = record { lower_strip = λ s. s; upper = λ s. s; url_path = some; log_level = "warning" };
  to_iso = λ now. "1970-01-01T00:00:00Z";
  dumps = λ e. e.ident ∷ [];
  reduced = λ s e. some (record e { ident = e.ident + 1_000 });
  max_events = 10;
  max_bytes = 1_000;
}

abbrev queue : Sdk
queue = record full { sending = false; inflight_count = 0 }

queue-Resting : Resting host 10 1_000 queue
unfolding get debugbundle_python.Diagnostics.Runs.run
queue-Resting = record {
  sized = record {
    distinct = ((refl, tt), (tt, tt));
    known = (refl, (refl, tt));
    bytes = omega arith;
    few = omega arith;
    within = omega arith;
  };
  valid = run-IsValid host.json [];
  idle = refl;
  landed = refl;
}

record Run : Type 0 where
  phase : Phase
  sdk : Sdk
  reach : Reach g queue phase sdk

alone :
    (back : List Event)
    → event 4 "error_summary" ∷ event 5 "backend_exception" ∷ [] ≡ event 4 "error_summary" ∷ back
    → Fresh 4 back
alone back here = let e : event 5 "backend_exception" ∷ [] ≡ back = cc in rw (← e) (refl, tt)

-- A flush begins, offers a summary and takes the batch; a capture offers an event, which is not in
-- flight; the hook withholds two events of the batch, and leaves the third another size.
abbrev finalized : Run
unfolding debugbundle_python.Flush.Beginning.begin_flush
    debugbundle_python.Flush.Commit.commit_flush debugbundle_python.Flush.Commit.offer_all
    debugbundle_python.Flush.Commit.offer_pressure debugbundle_python.Queue.offer_protected_event
    debugbundle_python.Queue.high_priority_event debugbundle_python.Json.get get put
    debugbundle_python.Prelude.Dict.remove debugbundle_python.Flush.Finalize.finalize_one
    debugbundle_python.Flush.Finalize.replacement_allowed
    debugbundle_python.Reconcile.reconcile_diagnostic debugbundle_python.Sdk.schedule_flush_locked
finalized = record {
  phase = _;
  sdk = _;
  reach =
      later
        (later
          (later
            (later
              (later (later start (begin 10 20 refl)) (
                commit ((event 4 "error_summary", 50) ∷ []) none 10 20 ((refl, (refl, tt)), tt, tt)
                  tt refl))
              (offer (event 5 "backend_exception") 70 11 21 (refl, (refl, (refl, tt))) refl))
            (finalize none 12 refl (λ back here. tt) refl))
          (finalize none 13 refl (λ back here. tt) refl))
        (finalize (some (event 4 "error_summary", 110)) 14 refl
          (λ back here. (alone back here, (true, refl))) refl);
}

-- What is left of the batch is sent.
abbrev sent : Run
unfolding debugbundle_python.Flush.Beginning.begin_flush
    debugbundle_python.Flush.Commit.commit_flush debugbundle_python.Flush.Commit.offer_all
    debugbundle_python.Flush.Commit.offer_pressure debugbundle_python.Queue.offer_protected_event
    debugbundle_python.Queue.high_priority_event debugbundle_python.Json.get get put
    debugbundle_python.Prelude.Dict.remove debugbundle_python.Flush.Finalize.finalize_one
    debugbundle_python.Flush.Finalize.replacement_allowed
    debugbundle_python.Reconcile.reconcile_diagnostic debugbundle_python.Sdk.schedule_flush_locked
    finalized debugbundle_python.Flush.Sending.select_batch debugbundle_python.Ingestion.prefix
sent = record { phase = _; sdk = _; reach = later finalized.reach (select true 30 refl) }

-- What is left of the event that was sent is a new object of 100 bytes.
smaller :
    All
      (Shrinks g.host g.reduced sent.sdk.buffer sent.sdk.buffer_sizes)
      (event 4 "error_summary" ∷ [])
unfolding debugbundle_python.Flush.Beginning.begin_flush
    debugbundle_python.Flush.Commit.commit_flush debugbundle_python.Flush.Commit.offer_all
    debugbundle_python.Flush.Commit.offer_pressure debugbundle_python.Queue.offer_protected_event
    debugbundle_python.Queue.high_priority_event debugbundle_python.Json.get get put
    debugbundle_python.Prelude.Dict.remove debugbundle_python.Flush.Finalize.finalize_one
    debugbundle_python.Flush.Finalize.replacement_allowed
    debugbundle_python.Reconcile.reconcile_diagnostic debugbundle_python.Sdk.schedule_flush_locked
    finalized debugbundle_python.Flush.Sending.select_batch debugbundle_python.Ingestion.prefix sent
smaller = (
  λ t e red.
      let same : record (event 4 "error_summary") { ident = 1_004 } ≡ e = eq_of_some red in
      rw (← same) ((refl, (refl, tt)), omega arith),
  tt,
)

differ : Differ g.host g.reduced sent.sdk.buffer sent.sdk.buffer_sizes
differ t t' x y e f other one two = ground (arith, other, one, two)

-- No answer comes, and the batch stays.
abbrev answered : Run
unfolding debugbundle_python.Flush.Beginning.begin_flush
    debugbundle_python.Flush.Commit.commit_flush debugbundle_python.Flush.Commit.offer_all
    debugbundle_python.Flush.Commit.offer_pressure debugbundle_python.Queue.offer_protected_event
    debugbundle_python.Queue.high_priority_event debugbundle_python.Json.get get put
    debugbundle_python.Prelude.Dict.remove debugbundle_python.Flush.Finalize.finalize_one
    debugbundle_python.Flush.Finalize.replacement_allowed
    debugbundle_python.Reconcile.reconcile_diagnostic debugbundle_python.Sdk.schedule_flush_locked
    finalized debugbundle_python.Flush.Sending.select_batch debugbundle_python.Ingestion.prefix sent
    debugbundle_python.Flush.Settle.settle
answered = record {
  phase = resting;
  sdk = _;
  reach = later sent.reach (answer none 40 41 smaller differ refl);
}

Reach-Inv_example : Inv g sent.phase sent.sdk
Reach-Inv_example = Reach-Inv g queue sent.sdk sent.phase queue-Resting sent.reach

-- The transport gives no answer.
abbrev silence : Input g sent.phase sent.sdk
unfolding debugbundle_python.Flush.Beginning.begin_flush
    debugbundle_python.Flush.Commit.commit_flush debugbundle_python.Flush.Commit.offer_all
    debugbundle_python.Flush.Commit.offer_pressure debugbundle_python.Queue.offer_protected_event
    debugbundle_python.Queue.high_priority_event debugbundle_python.Json.get get put
    debugbundle_python.Prelude.Dict.remove debugbundle_python.Flush.Finalize.finalize_one
    debugbundle_python.Flush.Finalize.replacement_allowed
    debugbundle_python.Reconcile.reconcile_diagnostic debugbundle_python.Sdk.schedule_flush_locked
    finalized debugbundle_python.Flush.Sending.select_batch debugbundle_python.Ingestion.prefix sent
    debugbundle_python.Flush.Settle.settle
silence = record { response = none; now = 40; monotonic = 41; shrinks = smaller; differ = differ }

Reach-Ends_example : Ends g sent.phase sent.sdk silence
Reach-Ends_example = Reach-Ends g queue sent.sdk sent.phase silence queue-Resting sent.reach

-- The next flush begins where the last has ended.
begin_flush_alone_example : ◌≡◌ {A = Phase} resting resting
unfolding debugbundle_python.Flush.Beginning.begin_flush
    debugbundle_python.Flush.Commit.commit_flush debugbundle_python.Flush.Commit.offer_all
    debugbundle_python.Flush.Commit.offer_pressure debugbundle_python.Queue.offer_protected_event
    debugbundle_python.Queue.high_priority_event debugbundle_python.Json.get get put
    debugbundle_python.Prelude.Dict.remove debugbundle_python.Flush.Finalize.finalize_one
    debugbundle_python.Flush.Finalize.replacement_allowed
    debugbundle_python.Reconcile.reconcile_diagnostic debugbundle_python.Sdk.schedule_flush_locked
    finalized debugbundle_python.Flush.Sending.select_batch debugbundle_python.Ingestion.prefix sent
    debugbundle_python.Flush.Settle.settle answered debugbundle_python.Suppression.drain_aggregates
begin_flush_alone_example =
    begin_flush_alone g queue answered.sdk _ resting [] 0 10_000 10_001 queue-Resting answered.reach
      refl

commit_flush-CommittedFrom_example :
    (c : Commit) × (commit_flush host 10 1_000 queue 1
        ((event 4 "error_summary", 50) ∷ [])
        none
        0
        10
        10
        20
      ≡ some c)
    × CommittedFrom host 10 1_000 queue c
commit_flush-CommittedFrom_example =
    commit_flush-CommittedFrom host 10 1_000 queue 1 ((event 4 "error_summary", 50) ∷ []) none 0 10
      10 20 queue-Resting.sized queue-Resting.valid refl ((refl, (refl, tt)), tt, tt) tt
