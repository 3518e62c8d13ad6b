-- ===== src/Flush/Beginning.antt =====
-- The first section of `flush_sdk` (src/debugbundle/flush_delivery.py): whether a flush begins, and
-- what it takes with it.
use debugbundle_python.Prelude.{
  ℕ, ◌+◌, ◌-◌, ◌≤◌, ◌≡◌, refl, String, none, some, Bool, true, false, not, ◌&&◌, ◌||◌, List, length,
  ltb, leb, nat_eqb, is_some, sum_map, if◌then◌else◌, arith, inl, inr, Bool-cases, ltb→ge,
}
use debugbundle_python.Suppression.{Aggregate, drain_aggregates}
use debugbundle_python.Suppression.Aggregates.{pending, drain_aggregates-conserves}
use debugbundle_python.Sdk.{Sdk, schedule_flush_locked}
use debugbundle_python.Sdk.Timing.{TimerOnly, schedule_flush_locked-TimerOnly}

-- The flush returns, or goes on with the suppressed events to report and the drops to report.
pub data Begin : Type 0 where
  idle : Sdk → Begin
  started : Sdk → List Aggregate → ℕ → Begin

-- `not sdk._enabled or sdk._transport is None or sdk._sending`
abbrev pub may_not_flush : Sdk → Bool
may_not_flush s = not s.enabled || not (is_some s.transport) || s.sending

abbrev pub pressure_count : Sdk → ℕ → ℕ → ℕ
pressure_count s now max_events =
    if not (nat_eqb s.pressure_drops 0)
      && leb 60_000 (now - s.last_pressure_report_at)
      && ltb (length s.buffer) max_events
    then s.pressure_drops
    else 0

module _ (to_iso : ℕ → String) where
  unfoldable pub begin_flush : Sdk → ℕ → ℕ → ℕ → Begin
  unfolding schedule_flush_locked
  begin_flush s max_events now monotonic = elim (may_not_flush s) [
    | true ↦ idle s
    | false ↦ elim (ltb now s.retry_after) [
      | true ↦
          idle (
            schedule_flush_locked (record s { timer = none }) (some (s.retry_after - now))
              monotonic)
      | false ↦
          started
            (record s {
              timer = none;
              sending = true;
              suppression = (drain_aggregates to_iso s.suppression now).1;
            })
            (drain_aggregates to_iso s.suppression now).0 (pressure_count s now max_events)
    ]
  ]

  -- What may come of a beginning.
  abbrev pub BegunFrom : Sdk → ℕ → Begin → Type 0
  BegunFrom s now (idle s') = TimerOnly s s'
  BegunFrom s now (started s' aggregates drops) =
      (s.enabled ≡ true)
      × (is_some s.transport ≡ true)
      × (s.sending ≡ false)
      × (s.retry_after ≤ now)
      × (s'.sending ≡ true)
      × (s'.timer ≡ none)
      × (s'.buffer ≡ s.buffer)
      × (drops ≤ s.pressure_drops)
      × (sum_map (λ a. a.suppressed_count) aggregates + pending s'.suppression
          ≡ pending s.suppression)
      × (s' ≡ record s { timer = none; sending = true; suppression = s'.suppression })

  -- A flush that does not begin changes the timer alone; one that begins found the SDK enabled with
  -- a transport, no flush under way and no wait left, marks itself as under way, clears the timer,
  -- leaves the queue, reports no more drops than there were, and takes along the suppressed events
  -- so that those it reports and those still pending add up to what was pending.
  pub begin_flush-BegunFrom :
      (s : Sdk) (max_events now monotonic : ℕ)
      → BegunFrom s now (begin_flush s max_events now monotonic)
  unfolding begin_flush
  begin_flush-BegunFrom s max_events now monotonic = elim (Bool-cases (may_not_flush s)) [
    | inl not_now ↦ rw (not_now, begin_flush) refl
    | inr free ↦ elim (Bool-cases (ltb now s.retry_after)) [
      | inl early ↦
          rw (free, begin_flush)
            (rw early (
              schedule_flush_locked-TimerOnly (record s { timer = none })
                (some (s.retry_after - now)) monotonic))
      | inr ready ↦
          rw (free, begin_flush)
            (rw ready (
              ground (arith, free),
              ground (arith, free),
              ground (arith, free),
              ltb→ge _ _ ready,
              refl,
              refl,
              refl,
              ground arith,
              drain_aggregates-conserves to_iso s.suppression now,
              refl,
            ))
    ]
  ]

  -- While a flush is under way, no other begins, and nothing changes.
  pub begin_flush_busy :
      (s : Sdk) (max_events now monotonic : ℕ)
      → s.sending ≡ true
      → begin_flush s max_events now monotonic ≡ idle s
  unfolding begin_flush
  begin_flush_busy s max_events now monotonic busy =
      let no : may_not_flush s ≡ true = ground (arith, busy) in rw (no, begin_flush) refl
