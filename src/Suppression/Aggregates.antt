-- ===== src/Suppression/Aggregates.antt =====
-- `drain_aggregates`: what was suppressed is reported once (src/debugbundle/suppression.py).
use debugbundle_python.Prelude.{
  length, ◌-◌, leb, ◌&&◌, one_if, ℕ, ◌+◌, ◌≤◌, String, ◌≡◌, refl, none, true, false, List, [], ◌∷◌,
  arith, string_eq, sum_map, All,
}
use debugbundle_python.Prelude.Dict.{get, UniqueKeys, AllEntries, total}
use debugbundle_python.Suppression.{
  loop_reset_after, SuppressionState, Tracker, Aggregate, observe, drain_state, keep_aggregate,
  drain_aggregates,
}
use debugbundle_python.Suppression.Bound.{IsConsistent, IsValid}

-- The events that are suppressed and not yet reported.
abbrev pub pending : Tracker → ℕ
pending = total (λ _ s. s.pending_suppressed_count)

module _ (to_iso : ℕ → String) where
  drain_state-count :
      (k : String) (s : SuppressionState) (now : ℕ) (l : List Aggregate)
      → sum_map (λ a. a.suppressed_count) (keep_aggregate (drain_state to_iso k s now).0 l)
          + (drain_state to_iso k s now).1.pending_suppressed_count
        ≡ sum_map (λ a. a.suppressed_count) l + s.pending_suppressed_count
  unfolding drain_state keep_aggregate
  drain_state-count k s now l = ground arith

  -- What the aggregates of a drain report and what stays pending add up to what was pending.
  pub drain_aggregates-conserves :
      (t : Tracker) (now : ℕ)
      → sum_map (λ a. a.suppressed_count) (drain_aggregates to_iso t now).0
          + pending (drain_aggregates to_iso t now).1
        ≡ pending t
  unfolding drain_aggregates
  drain_aggregates-conserves [] now = refl
  drain_aggregates-conserves ((k, s) ∷ t) now = omega (
    arith,
    drain_state-count k s now (drain_aggregates to_iso t now).0,
    drain_aggregates-conserves t now,
  )

  drain_state-IsConsistent :
      (k : String) (s : SuppressionState) (now : ℕ)
      → IsConsistent s
      → IsConsistent (drain_state to_iso k s now).1
  unfolding drain_state
  drain_state-IsConsistent k s now h = ground arith

  -- A state out of suppression mode is drained whole.
  drain_state-whole :
      (k : String) (s : SuppressionState) (now : ℕ)
      → IsConsistent s
      → s.suppression_mode ≡ false
      → (drain_state to_iso k s now).1.pending_suppressed_count ≡ 0
  unfolding drain_state
  drain_state-whole k s now h off = ground arith

  drain_state_again :
      (k : String) (s : SuppressionState) (now : ℕ)
      → drain_state to_iso k (drain_state to_iso k s now).1 now
        ≡ (none, (drain_state to_iso k s now).1)
  unfolding drain_state
  drain_state_again k s now = ground arith

  -- A second drain at the same time reports nothing and changes nothing.
  drain_aggregates_idem :
      (t : Tracker) (now : ℕ)
      → drain_aggregates to_iso (drain_aggregates to_iso t now).1 now
        ≡ ([], (drain_aggregates to_iso t now).1)
  unfolding drain_aggregates
  drain_aggregates_idem [] now = refl
  drain_aggregates_idem ((k, s) ∷ t) now =
      rw (drain_state_again k s now, drain_aggregates_idem t now) (unfold keep_aggregate in refl)

  -- Where every state is consistent and out of suppression mode, a drain leaves nothing pending.
  pub drain_aggregates-whole :
      (t : Tracker) (now : ℕ)
      → AllEntries (λ _ s. IsConsistent s × (s.suppression_mode ≡ false)) t
      → pending (drain_aggregates to_iso t now).1 ≡ 0
  unfolding drain_aggregates
  drain_aggregates-whole [] now h = refl
  drain_aggregates-whole ((k, s) ∷ t) now h =
      omega (arith, drain_state-whole k s now h.0.0 h.0.1, drain_aggregates-whole t now h.1)

  -- No aggregate reports zero events.
  keep_aggregate-positive :
      (k : String) (s : SuppressionState) (now : ℕ) (l : List Aggregate)
      → All (λ a. 1 ≤ a.suppressed_count) l
      → All (λ a. 1 ≤ a.suppressed_count) (keep_aggregate (drain_state to_iso k s now).0 l)
  unfolding drain_state keep_aggregate
  keep_aggregate-positive k s now l h = ground arith

  drain_aggregates_absent :
      (t : Tracker) (now : ℕ) (k : String)
      → get t k ≡ none
      → get (drain_aggregates to_iso t now).1 k ≡ none
  unfolding drain_aggregates get
  drain_aggregates_absent [] now k h = refl
  drain_aggregates_absent ((j, s) ∷ t) now k h = ground (arith, drain_aggregates_absent t now k)

  drain_aggregates-entries :
      (t : Tracker) (now : ℕ)
      → UniqueKeys t
      → AllEntries (λ _ s. IsConsistent s) t
      → UniqueKeys (drain_aggregates to_iso t now).1
        × AllEntries (λ _ s. IsConsistent s) (drain_aggregates to_iso t now).1
        × (length (drain_aggregates to_iso t now).1 ≡ length t)
        × All (λ a. 1 ≤ a.suppressed_count) (drain_aggregates to_iso t now).0
  unfolding drain_aggregates
  drain_aggregates-entries [] now u c = (tt, tt, refl, tt)
  drain_aggregates-entries ((k, s) ∷ t) now u c =
      let (unique, consistent, size, positive) = drain_aggregates-entries t now u.1 c.1 in
      (
        (drain_aggregates_absent t now k u.0, unique),
        (drain_state-IsConsistent k s now c.0, consistent),
        omega (arith, size),
        keep_aggregate-positive k s now (drain_aggregates to_iso t now).0 positive,
      )

  -- A drain keeps the tracker valid, and each aggregate reports at least one event.
  drain_aggregates-IsValid :
      (t : Tracker) (now : ℕ)
      → IsValid t
      → IsValid (drain_aggregates to_iso t now).1
        × All (λ a. 1 ≤ a.suppressed_count) (drain_aggregates to_iso t now).0
  drain_aggregates-IsValid t now v =
      let (unique, consistent, size, positive) =
        drain_aggregates-entries t now v.unique v.consistent in
      (
        record {
          bounded = omega (arith, size, v.bounded);
          unique = unique;
          consistent = consistent;
        },
        positive,
      )

-- A call that does not end a loop is either captured or adds one to the pending count, never both.
observe_counts :
    (s : SuppressionState) (now : ℕ)
    → (s.suppression_mode && leb loop_reset_after (now - s.last_seen_at)) ≡ false
    → (observe s now).0.pending_suppressed_count + one_if (observe s now).1
      ≡ s.pending_suppressed_count + 1
unfolding observe
observe_counts s now h = ground arith

-- A call that ends a loop is captured, and leaves the state out of suppression mode with nothing
-- pending, whatever was pending before.
observe_forgets :
    (s : SuppressionState) (now : ℕ)
    → s.suppression_mode ≡ true
    → s.last_seen_at + loop_reset_after ≤ now
    → ((observe s now).1 ≡ true)
      × ((observe s now).0.pending_suppressed_count ≡ 0)
      × ((observe s now).0.suppression_mode ≡ false)
unfolding observe
observe_forgets s now mode late = ground arith
