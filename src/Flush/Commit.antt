-- ===== src/Flush/Commit.antt =====
-- The section of `flush_sdk` that commits the queue (src/debugbundle/flush_delivery.py): the summaries
-- are offered, and what is queued then is the batch.
pub mod Grown
pub mod Batch
use debugbundle_python.Prelude.{
  ℕ, ◌+◌, ◌-◌, ◌≤◌, ◌≡◌, refl, sym, subst, Option, none, some, Bool, true, false, ◌&&◌, List, [],
  ◌∷◌, ◌++◌, length, arith, ltb, leb, nat_eqb, nat_eq, ◌==◌, ◌>>=◌, if◌then◌else◌, inl, inr,
  Bool-cases, Option-cases, either,
}
use debugbundle_python.Prelude.Int.{pos}
use debugbundle_python.Diagnostics.Valid.{IsValid}
use debugbundle_python.Queue.{offer_protected_event}
use debugbundle_python.Queue.Shape.{Fresh, IsSized}
use debugbundle_python.Queue.Offers.{Still}
use debugbundle_python.Queue.Results.{OfferOf, offer_protected_event-OfferOf}
use debugbundle_python.Sdk.{
  Sdk, Event, Host, schedule_flush_locked, schedule_pressure_report_locked,
}
use debugbundle_python.Flush.{is_empty, rearm}

-- The flush returns, or goes on with a batch.
pub data Commit : Type 0 where
  returned : Sdk → Commit
  committed : Sdk → List Event → Commit

-- `batch = list(sdk._buffer)` with its marks, where the queue is not empty
abbrev pub take_batch : Sdk → ℕ → ℕ → List Event → Commit
take_batch s now monotonic [] =
    returned (schedule_pressure_report_locked (record s { sending = false }) now monotonic)
take_batch s now monotonic (e ∷ es) =
    committed (record s { inflight_count = length (e ∷ es); pending_low_priority = pos 0 }) (e ∷ es)

-- The drops of `count` are reported, where the report was queued.
abbrev pub reported_drops : Sdk → ℕ → ℕ → Bool → Sdk
reported_drops s count begun_at false = s
reported_drops s count begun_at true = record s {
  pressure_drops = s.pressure_drops - count;
  last_pressure_report_at = begun_at;
}

module _ (host : Host) (max_events max_bytes : ℕ) where
  -- The loop over the aggregates, each with its bytes
  unfoldable pub offer_all : Sdk → List (Event × ℕ) → ℕ → ℕ → Option Sdk
  unfolding offer_protected_event
  offer_all s [] now monotonic = some s
  offer_all s ((e, bytes) ∷ rest) now monotonic = do
    (s', accepted) ← offer_protected_event host s e bytes max_events max_bytes now monotonic
    offer_all s' rest now monotonic

  -- The report on pressure, which is offered only where it fits as it is.
  unfoldable pub offer_pressure : Sdk → Option (Event × ℕ) → ℕ → ℕ → ℕ → ℕ → Option Sdk
  unfolding offer_protected_event
  offer_pressure s none count begun_at now monotonic = some s
  offer_pressure s (some (e, bytes)) count begun_at now monotonic =
      if ltb (length s.buffer) max_events && leb (s.buffer_bytes + bytes) max_bytes
      then (do
        (s', accepted) ← offer_protected_event host s e bytes max_events max_bytes now monotonic
        some (reported_drops s' count begun_at accepted))
      else some s

  -- The section under the lock, for a flush of `generation` that began at `begun_at` with `count` drops
  -- to report; `none` would be a `KeyError`.
  unfoldable pub commit_flush :
      Sdk → ℕ → List (Event × ℕ) → Option (Event × ℕ) → ℕ → ℕ → ℕ → ℕ → Option Commit
  unfolding offer_all offer_pressure rearm schedule_pressure_report_locked
  commit_flush s generation aggregates pressure count begun_at now monotonic =
      if nat_eqb generation s.generation
      then (do
        offered ← offer_all s aggregates now monotonic
        told ← offer_pressure offered pressure count begun_at now monotonic
        some (take_batch told now monotonic told.buffer))
      else some (returned (rearm (record s { sending = false; inflight_count = 0 }) monotonic))
