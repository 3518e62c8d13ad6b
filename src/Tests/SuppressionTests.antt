-- ===== src/Tests/SuppressionTests.antt =====
-- Runs of src/debugbundle/suppression.py.
use debugbundle_python.Prelude.{
  ℕ, ◌+◌, ◌≤◌, ◌-◌, ◌/◌, String, ◌≡◌, refl, none, some, true, false, List, [], ◌∷◌, arith, sum_map,
}
use debugbundle_python.Prelude.Dict.{get}
use debugbundle_python.Suppression.{
  SuppressionState, Tracker, observe, should_capture, drain_aggregates,
}
use debugbundle_python.Suppression.Bound.{IsConsistent, IsValid, should_capture-IsValid}
use debugbundle_python.Suppression.Rate.{captures, captures_rate}
use debugbundle_python.Suppression.Aggregates.{
  pending, drain_aggregates-conserves, drain_aggregates-whole,
}

abbrev plain : String → String
plain key = key

abbrev iso : ℕ → String
iso now = "1970-01-01T00:00:00.000Z"

abbrev burst : List (String × ℕ)
burst = ("boom", 100) ∷ ("boom", 200) ∷ ("other", 250) ∷ ("boom", 300) ∷ ("boom", 400) ∷ []

-- Two events of a state are suppressed and not reported.
abbrev waiting : SuppressionState
waiting = record {
  window_started_at = 100;
  emitted_count = 3;
  pending_suppressed_count = 2;
  pending_first_seen_at = some 100;
  pending_last_seen_at = some 500;
  last_aggregate_emitted_at = none;
  loop_window_started_at = 100;
  loop_hit_count = 5;
  suppression_mode = false;
  last_seen_at = 500;
}

abbrev looping : SuppressionState
looping = record waiting { suppression_mode = true }

abbrev tracker : Tracker
tracker = ("boom", waiting) ∷ []

waiting-IsConsistent : IsConsistent waiting
waiting-IsConsistent = record { emitted = omega arith; first = refl; last = refl }

tracker-IsValid : IsValid tracker
unfolding get
tracker-IsValid = record {
  bounded = omega arith;
  unique = (refl, tt);
  consistent = (waiting-IsConsistent, tt);
}

observe_suppresses : (observe waiting 600).1 ≡ false
unfolding observe
observe_suppresses = refl

captures_rate_example : captures plain "boom" [] burst ≤ 3 + (400 - 0) / 10_000
unfolding get
captures_rate_example =
    captures_rate plain "boom" burst [] 0 400 (omega arith) refl
      (omega arith, (omega arith, (omega arith, (omega arith, (omega arith, omega arith)))))

should_capture-IsValid_example : IsValid (should_capture plain tracker "boom" 600).0
should_capture-IsValid_example = should_capture-IsValid plain tracker "boom" 600 tracker-IsValid

drain_aggregates-conserves_example :
    sum_map (λ a. a.suppressed_count) (drain_aggregates iso tracker 600).0
      + pending (drain_aggregates iso tracker 600).1
    ≡ pending tracker
drain_aggregates-conserves_example = drain_aggregates-conserves iso tracker 600

drain_aggregates-whole_example : pending (drain_aggregates iso tracker 600).1 ≡ 0
drain_aggregates-whole_example =
    drain_aggregates-whole iso tracker 600 ((waiting-IsConsistent, refl), tt)
