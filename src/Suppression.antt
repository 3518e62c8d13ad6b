-- ===== src/Suppression.antt =====
-- src/debugbundle/suppression.py: duplicate and loop suppression for each event fingerprint.
-- Times are milliseconds. `now - t` stops at 0 where the clock went back, and the source's tests
-- compare the difference with positive limits, so they come out the same.
pub mod Bound
pub mod Rate
pub mod Aggregates
use debugbundle_python.Prelude.{
  ℕ, ◌+◌, ◌-◌, String, Option, none, some, Bool, true, false, not, ◌&&◌, ◌||◌, List, [], ◌∷◌,
  length, ltb, leb, nat_eqb, string_eq, if◌then◌else◌,
}
use debugbundle_python.Prelude.Dict.{Dict, get, put, remove}

abbrev pub duplicate_window : ℕ
duplicate_window = 30_000

abbrev pub loop_window : ℕ
loop_window = 2_000

abbrev pub loop_threshold : ℕ
loop_threshold = 10

abbrev pub loop_reset_after : ℕ
loop_reset_after = 60_000

abbrev pub loop_checkpoint : ℕ
loop_checkpoint = 30_000

abbrev pub max_normal_events_per_window : ℕ
max_normal_events_per_window = 3

abbrev pub max_tracked_fingerprints : ℕ
max_tracked_fingerprints = 2_048

pub record SuppressionState : Type 0 where
  pub window_started_at : ℕ
  pub emitted_count : ℕ
  pub pending_suppressed_count : ℕ
  pub pending_first_seen_at : Option ℕ
  pub pending_last_seen_at : Option ℕ
  pub last_aggregate_emitted_at : Option ℕ
  pub loop_window_started_at : ℕ
  pub loop_hit_count : ℕ
  pub suppression_mode : Bool
  pub last_seen_at : ℕ

-- `SuppressionState(window_started_at=now, loop_window_started_at=now, last_seen_at=now)`
abbrev pub fresh : ℕ → SuppressionState
fresh now = record {
  window_started_at = now;
  emitted_count = 0;
  pending_suppressed_count = 0;
  pending_first_seen_at = none;
  pending_last_seen_at = none;
  last_aggregate_emitted_at = none;
  loop_window_started_at = now;
  loop_hit_count = 0;
  suppression_mode = false;
  last_seen_at = now;
}

-- `_states`, oldest use first
abbrev pub Tracker : Type 0
Tracker = Dict String SuppressionState

-- `popitem(last=False)`
pub pop_oldest : Tracker → Tracker
pop_oldest [] = []
pop_oldest (e ∷ rest) = rest

-- The state of a fingerprint, and the other states: the lookup, the eviction, `move_to_end`.
pub claim_found : Option SuppressionState → Tracker → String → ℕ → Tracker × SuppressionState
unfolding pop_oldest
claim_found none t fingerprint now =
    (if leb max_tracked_fingerprints (length t) then pop_oldest t else t, fresh now)
claim_found (some state) t fingerprint now = (remove t fingerprint, state)

pub claim : Tracker → String → ℕ → Tracker × SuppressionState
unfolding claim_found
claim t fingerprint now = claim_found (get t fingerprint) t fingerprint now

-- The three resets that come before the hit is counted.
pub reset_loop : SuppressionState → ℕ → SuppressionState
reset_loop s now =
    if s.suppression_mode && leb loop_reset_after (now - s.last_seen_at) then fresh now else s

pub roll_window : SuppressionState → ℕ → SuppressionState
roll_window s now =
    if leb duplicate_window (now - s.window_started_at)
    then record s { window_started_at = now; emitted_count = 0 }
    else s

pub roll_loop_window : SuppressionState → ℕ → SuppressionState
roll_loop_window s now =
    if leb loop_window (now - s.loop_window_started_at)
    then record s { loop_window_started_at = now; loop_hit_count = 0 }
    else s

pub mark_suppressed : SuppressionState → ℕ → SuppressionState
mark_suppressed s now = record s {
  pending_first_seen_at =
      if nat_eqb s.pending_suppressed_count 0
      then some s.window_started_at
      else s.pending_first_seen_at;
  pending_suppressed_count = s.pending_suppressed_count + 1;
  pending_last_seen_at = some now;
}

pub count_hit : SuppressionState → ℕ → SuppressionState
count_hit s now =
    let hits = s.loop_hit_count + 1 in
    record s {
      loop_hit_count = hits;
      last_seen_at = now;
      suppression_mode = if ltb loop_threshold hits then true else s.suppression_mode;
    }

pub decide : SuppressionState → ℕ → SuppressionState × Bool
unfolding mark_suppressed
decide s now =
    if s.suppression_mode
    then (mark_suppressed s now, false)
    else if ltb s.emitted_count max_normal_events_per_window
    then (record s { emitted_count = s.emitted_count + 1 }, true)
    else (mark_suppressed s now, false)

-- One call, on the state of its fingerprint.
unfoldable pub observe : SuppressionState → ℕ → SuppressionState × Bool
unfolding reset_loop roll_window roll_loop_window count_hit decide
observe s now =
    decide (count_hit (roll_loop_window (roll_window (reset_loop s now) now) now) now) now

-- `sha256(key.encode("utf-8")).hexdigest()` is not the program's: any function on texts.
module _ (sha256 : String → String) where
  unfoldable pub should_capture : Tracker → String → ℕ → Tracker × Bool
  unfolding claim observe
  should_capture t key now =
      let fingerprint = sha256 key in
      let (others, state) = claim t fingerprint now in
      let (state', captured) = observe state now in (put others fingerprint state', captured)

pub record Aggregate : Type 0 where
  pub fingerprint : String
  pub suppressed_count : ℕ
  pub first_seen : String
  pub last_seen : String
  pub window_seconds : ℕ

-- The checkpoint test of a loop: less than `LOOP_CHECKPOINT_SECONDS` since the last aggregate.
pub awaits_checkpoint : Option ℕ → Bool → ℕ → Bool
awaits_checkpoint none mode now = false
awaits_checkpoint (some emitted_at) mode now = mode && ltb (now - emitted_at) loop_checkpoint

pub keep_aggregate : Option Aggregate → List Aggregate → List Aggregate
keep_aggregate none l = l
keep_aggregate (some a) l = a ∷ l

-- `_to_iso` formats by the `datetime` library.
module _ (to_iso : ℕ → String) where
  -- The loop's body; `none` is `continue`.
  pub drain_state_from :
      Option ℕ → Option ℕ → String → SuppressionState → ℕ → Option Aggregate × SuppressionState
  unfolding awaits_checkpoint
  drain_state_from (some first) (some last) key s now =
      if nat_eqb s.pending_suppressed_count 0
        || awaits_checkpoint s.last_aggregate_emitted_at s.suppression_mode now
      then (none, s)
      else (
        some (record {
          fingerprint = key;
          suppressed_count = s.pending_suppressed_count;
          first_seen = to_iso first;
          last_seen = to_iso last;
          window_seconds = 30;
        }),
        record s {
          pending_suppressed_count = 0;
          pending_first_seen_at = none;
          pending_last_seen_at = none;
          last_aggregate_emitted_at = some now;
        },
      )
  drain_state_from _ _ key s now = (none, s)

  pub drain_state : String → SuppressionState → ℕ → Option Aggregate × SuppressionState
  unfolding drain_state_from
  drain_state key s now = drain_state_from s.pending_first_seen_at s.pending_last_seen_at key s now

  unfoldable pub drain_aggregates : Tracker → ℕ → List Aggregate × Tracker
  unfolding drain_state keep_aggregate
  drain_aggregates [] now = ([], [])
  drain_aggregates ((key, s) ∷ t) now =
      let (a, s') = drain_state key s now in
      let (rest, t') = drain_aggregates t now in (keep_aggregate a rest, (key, s') ∷ t')
