-- ===== src/Flush/Commit/Batch.antt =====
-- What the section that commits the queue leaves (src/debugbundle/flush_delivery.py).
use debugbundle_python.Prelude.{
  ℕ, ◌≡◌, refl, ap, sym, subst, ◌∙◌, Option, none, some, false, List, [], ◌∷◌, length, nat_eqb,
  nat_eq, inl, inr, Bool-cases,
}
use debugbundle_python.Diagnostics.Valid.{IsValid}
use debugbundle_python.Queue.Shape.{Fresh, IsSized, IsSized-same}
use debugbundle_python.Sdk.{Sdk, Event, Host, schedule_pressure_report_locked}
use debugbundle_python.Sdk.Timing.{
  TimerOnly, if-TimerOnly, schedule_flush_locked-TimerOnly,
  schedule_pressure_report_locked-TimerOnly,
}
use debugbundle_python.Flush.{is_empty, rearm}
use debugbundle_python.Flush.Commit.{Commit, returned, committed, take_batch, commit_flush}
use debugbundle_python.Flush.Commit.Grown.{
  Apart, AllNew, NewReport, Grown, Grown-trans, offer_all-Grown, offer_pressure-Grown,
}

module _ (host : Host) (max_events max_bytes : ℕ) where
  -- What the section leaves: a batch that is the whole queue, which is not empty, and is in flight; or
  -- no flush under way.
  abbrev pub CommittedFrom : Sdk → Commit → Type 0
  CommittedFrom s (returned s') =
      IsSized s' max_events max_bytes
      × IsValid host.json s'.diagnostics
      × (s'.sending ≡ false)
      × (s'.inflight_count ≡ 0)
      × (s'.generation ≡ s.generation)
  CommittedFrom s (committed s' batch) =
      Grown host max_events max_bytes (record s { inflight_count = length batch }) s'
      × (batch ≡ s'.buffer)
      × (is_empty batch ≡ false)

  TimerOnly-IsSized :
      (s s' : Sdk)
      → TimerOnly s s'
      → IsSized s max_events max_bytes
      → IsSized s' max_events max_bytes
  TimerOnly-IsSized s s' only h =
      subst (λ x. IsSized x max_events max_bytes) (sym only)
        (IsSized-same s (record s { timer = s'.timer }) max_events max_bytes refl refl refl h)

  returned-CommittedFrom :
      (s t t' : Sdk)
      → TimerOnly t t'
      → IsSized t max_events max_bytes
      → IsValid host.json t.diagnostics
      → t.sending ≡ false
      → t.inflight_count ≡ 0
      → t.generation ≡ s.generation
      → CommittedFrom s (returned t')
  returned-CommittedFrom s t t' only h v idle landed same = (
    TimerOnly-IsSized t t' only h,
    subst (λ x. IsValid host.json x.diagnostics) (sym only) v,
    ap {A = Sdk} (λ x. x.sending) only ∙ idle,
    ap {A = Sdk} (λ x. x.inflight_count) only ∙ landed,
    ap {A = Sdk} (λ x. x.generation) only ∙ same,
  )

  take_batch-CommittedFrom :
      (s t : Sdk) (now monotonic : ℕ) (es : List Event)
      → Grown host max_events max_bytes s t
      → s.inflight_count ≡ 0
      → es ≡ t.buffer
      → CommittedFrom s (take_batch t now monotonic es)
  take_batch-CommittedFrom s t now monotonic [] g none_sent here =
      let u : Sdk = record t { sending = false } in
      returned-CommittedFrom s u (schedule_pressure_report_locked u now monotonic)
        (schedule_pressure_report_locked-TimerOnly u now monotonic)
        (IsSized-same t u max_events max_bytes refl refl refl g.sized) g.valid refl
        (g.inflight ∙ none_sent) g.generation
  take_batch-CommittedFrom s t now monotonic (e ∷ es) g none_sent here = (
    record {
      sized = IsSized-same t _ max_events max_bytes refl refl refl g.sized;
      valid = g.valid;
      inflight = refl;
      generation = g.generation;
      sending = g.sending;
      timer = g.timer;
      high = g.high;
    },
    here,
    refl,
  )

  -- On a sized queue with a valid budget and no event in flight, and for new objects, the section
  -- that commits the queue ends without an error. It leaves a batch that is the whole queue, which
  -- is not empty, and is in flight, and then the queue is sized within its limits, no fewer events
  -- of high priority are queued than before, and the other marks of the flush stay; or it leaves no
  -- flush under way and a sized queue with a valid budget.
  pub commit_flush-CommittedFrom :
      (s : Sdk) (generation : ℕ) (aggregates : List (Event × ℕ)) (pressure : Option (Event × ℕ))
      (count begun_at now monotonic : ℕ)
      → IsSized s max_events max_bytes
      → IsValid host.json s.diagnostics
      → s.inflight_count ≡ 0
      → AllNew aggregates s.buffer
      → NewReport host max_events max_bytes pressure aggregates s.buffer
      → (c : Commit) × (commit_flush host max_events max_bytes s generation aggregates pressure
            count begun_at now monotonic
          ≡ some c)
        × CommittedFrom s c
  unfolding commit_flush rearm
  commit_flush-CommittedFrom s generation aggregates pressure count begun_at now monotonic h v
        landed new new_report =
      elim (Bool-cases (nat_eqb generation s.generation)) [
        | inr over ↦
            let u : Sdk = record s { sending = false; inflight_count = 0 } in
            (
              returned (rearm u monotonic),
              rw over refl,
              returned-CommittedFrom s u (rearm u monotonic)
                  (if-TimerOnly (is_empty s.buffer) u u _ refl
                    (schedule_flush_locked-TimerOnly u none monotonic))
                  (IsSized-same s u max_events max_bytes refl refl refl h) v refl refl refl,
            )
        | inl same ↦
            let (t, done, grown, fresh) =
              offer_all-Grown host max_events max_bytes s aggregates now monotonic h v new in
            let (u, told, grown') =
              offer_pressure-Grown host max_events max_bytes t pressure count begun_at now monotonic
                grown.sized grown.valid (still_new pressure t fresh new_report) in
            (
              take_batch u now monotonic u.buffer,
              rw (same, done, told) refl,
              take_batch-CommittedFrom s u now monotonic u.buffer
                  (Grown-trans host max_events max_bytes s t u grown grown') landed refl,
            )
      ]
    where
      still_new :
          (pressure : Option (Event × ℕ)) (t : Sdk)
          → ((i : ℕ) → Apart i aggregates → Fresh i s.buffer → Fresh i t.buffer)
          → NewReport host max_events max_bytes pressure aggregates s.buffer
          → NewReport host max_events max_bytes pressure [] t.buffer
      still_new none t fresh new = tt
      still_new (some (e, bytes)) t fresh new = (tt, fresh e.ident new.0 new.1)
