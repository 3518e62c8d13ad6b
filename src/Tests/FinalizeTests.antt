-- ===== src/Tests/FinalizeTests.antt =====
-- Runs of src/debugbundle/delivery_hooks.py, and levels of log events.
use debugbundle_python.Prelude.{
  String, ◌≡◌, refl, Option, some, true, List, [], ◌∷◌, string_eq, arith,
}
use debugbundle_python.Prelude.Dict.{get}
use debugbundle_python.Json.{null}
use debugbundle_python.Diagnostics.Runs.{run-IsValid}
use debugbundle_python.Queue.Shape.{IsSized}
use debugbundle_python.Sdk.{Sdk, Event}
use debugbundle_python.Flush.Finalize.{PolicyHost, Round, finalize_batch, replacement_allowed}
use debugbundle_python.Flush.Batches.{RoundsOk, IsFinalized, finalize_batch-IsFinalized}
use debugbundle_python.Tests.Fixtures.{host, event, full}

abbrev same : String → String
same s = s

abbrev p : PolicyHost
p = record { lower_strip = same; upper = same; url_path = some; log_level = "warning" }

full-IsSized : IsSized full 10 1_000
unfolding get
full-IsSized = record {
  distinct = ((refl, tt), (tt, tt));
  known = (refl, (refl, tt));
  bytes = omega arith;
  few = omega arith;
  within = omega arith;
}

-- The hook leaves another event for the first one.
abbrev round : Round host p
round = record {
  original = event 1 "request_event";
  replacement = some (event 3 "backend_exception", 90);
  meanwhile = λ s. s;
  now = 5;
}

allowed : replacement_allowed host p full (event 3 "backend_exception") ≡ some true
unfolding replacement_allowed debugbundle_python.Json.get get
allowed = refl

rounds_ok : RoundsOk host p 10 1_000 full 1 [] (round ∷ [])
rounds_ok = λ present. (
  record { sized = λ h. h; valid = λ h. h; heads = λ tail here. (tail, here) },
  λ back here.
      let e : event 2 "log_event" ∷ [] ≡ back = cc in (rw (← e) (refl, tt), (true, allowed)),
  λ s' kept done. tt,
)

finalize_batch-IsFinalized_example :
    (s' : Sdk) × (result : Option (List Event)) × (finalize_batch host p full 1 1_000 0 (round ∷ [])
      ≡ some (s', result))
    × IsFinalized host p 10 1_000 [] s' result
unfolding debugbundle_python.Diagnostics.Runs.run
finalize_batch-IsFinalized_example =
    finalize_batch-IsFinalized host p 10 1_000 full 1 [] (event 2 "log_event" ∷ []) (round ∷ [])
      full-IsSized (run-IsValid host.json []) refl rounds_ok
