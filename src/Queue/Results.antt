-- ===== src/Queue/Results.antt =====
-- What `offer_protected_event` returns (src/debugbundle/queue_admission.py).
use debugbundle_python.Prelude.{
  ℕ, zero, suc, ◌≤◌, ◌≡◌, refl, ◌∙◌, subst, Option, none, some, Bool, true, false, List, [], ◌∷◌,
  length, arith, nat_eq, take, drop, inl, inr, Bool-cases, ltb, ltb→lt, tests,
}
use debugbundle_python.Diagnostics.Valid.{IsValid}
use debugbundle_python.Sdk.{Sdk, Event, Host, event_type_is}
use debugbundle_python.Queue.{
  high_priority_event, is_full, make_room, dropped, enqueue, offer_protected_event,
}
use debugbundle_python.Queue.Shape.{Fresh, IsSized}
use debugbundle_python.Queue.Eviction.{AllHigh}
use debugbundle_python.Queue.Admission.{Left, RoomOf, Left-refl, Left-dropped, make_room-RoomOf}
use debugbundle_python.Reconcile.Budget.{reconcile_diagnostic_accepts}
use debugbundle_python.Queue.Offers.{Offered, enqueue-Offered}

module _ (host : Host) (max_events max_bytes : ℕ) where
  -- The state after an offer; and where an event of high priority that fits was refused, no event
  -- that could have made way is left.
  abbrev pub OfferOf : Sdk → Event → ℕ → Option (Sdk × Bool) → Type 0
  OfferOf s e bytes none = ⊥
  OfferOf s e bytes (some (s', accepted)) =
      Offered host max_events max_bytes s e s' accepted
      × (accepted ≡ false
          → bytes ≤ max_bytes
          → high_priority_event e ≡ true
          → event_type_is e "diagnostic_context" ≡ false
          → AllHigh (drop s'.inflight_count s'.buffer))

  flight_length :
      (k : ℕ) (es es' : List Event) → k ≤ length es → take k es' ≡ take k es → k ≤ length es'
  flight_length zero es es' le same = omega arith
  flight_length (suc k) [] es' le same = absurd (omega arith)
  flight_length (suc k) (x ∷ es) [] le same = absurd (ground arith)
  flight_length (suc k) (x ∷ es) (y ∷ es') le same =
      omega (arith, flight_length k es es' (omega arith) (ground (arith, same)))

  -- An offer that follows the loop.
  Offered-Left :
      (s t u : Sdk) (e : Event) (accepted : Bool)
      → Left host max_events max_bytes s t
      → Offered host max_events max_bytes t e u accepted
      → Offered host max_events max_bytes s e u accepted
  Offered-Left s t u e accepted l o = record {
    sized = o.sized;
    valid = o.valid;
    inflight = o.inflight ∙ l.kept.inflight;
    flight = λ le.
        subst (λ n. n ≤ length t.buffer → take n u.buffer ≡ take n t.buffer) l.kept.inflight
          o.flight (flight_length s.inflight_count s.buffer t.buffer le l.kept.flight)
        ∙ l.kept.flight;
    high = omega (arith, o.high, l.kept.high);
    queued = o.queued;
    still = record {
      generation = o.still.generation ∙ l.kept.same_generation;
      sending = o.still.sending ∙ l.kept.same_sending;
      timer = λ on. o.still.timer (l.kept.same_sending ∙ on) ∙ l.kept.same_timer;
      fresh = λ i apart others. o.still.fresh i apart (l.kept.fresh i others);
    };
  }

  dropped-Offered :
      (s t : Sdk) (e : Event)
      → Left host max_events max_bytes s t
      → Offered host max_events max_bytes s e t false
  dropped-Offered s t e l = record {
    sized = l.sized;
    valid = l.valid;
    inflight = l.kept.inflight;
    flight = λ le. l.kept.flight;
    high = omega (arith, l.kept.high);
    queued = λ refused. cc;
    still = record {
      generation = l.kept.same_generation;
      sending = l.kept.same_sending;
      timer = λ on. l.kept.same_timer;
      fresh = λ i apart others. l.kept.fresh i others;
    };
  }

  enqueue_accepts :
      (s : Sdk) (e : Event) (bytes : ℕ) (under_pressure : Bool) (now monotonic : ℕ)
      → event_type_is e "diagnostic_context" ≡ false
      → (enqueue host s e bytes under_pressure now monotonic).1 ≡ true
  unfolding enqueue
  enqueue_accepts s e bytes under_pressure now monotonic other =
      rw (reconcile_diagnostic_accepts host s none e now other) refl

  after_room :
      (s : Sdk) (e : Event) (bytes now monotonic : ℕ)
      → Fresh e.ident s.buffer
      → (o : Option (Sdk × Bool))
      → RoomOf host max_events max_bytes s (high_priority_event e) bytes o
      → OfferOf s e bytes (elim o [
        | none ↦ none
        | some (s', room) ↦ elim room [
          | true ↦
              some (enqueue host s' e bytes (is_full s bytes max_events max_bytes) now monotonic)
          | false ↦ some (s', false)
        ]
      ])
  after_room s e bytes now monotonic f none r = r
  after_room s e bytes now monotonic f (some (s', true)) (l, room) =
      let pressed = is_full s bytes max_events max_bytes in
      let t = enqueue host s' e bytes pressed now monotonic in
      (
        Offered-Left s s' t.0 e t.1 l (
            enqueue-Offered host max_events max_bytes s' e bytes pressed now monotonic l.sized
              (l.kept.fresh e.ident f) room l.valid),
        λ refused fits high other.
            absurd
              (ground (arith, refused, enqueue_accepts s' e bytes pressed now monotonic other)),
      )
  after_room s e bytes now monotonic f (some (s', false)) (l, why) = (
    dropped-Offered s s' e l,
    λ refused fits high other. elim why [
      | inl low ↦ absurd (ground (arith, low, high))
      | inr all_high ↦ all_high
    ],
  )

  -- On a sized queue, a valid budget and an event object that is not queued, an offer ends without
  -- an error or running out of rounds; the queue keeps its limits and its byte count, the events in
  -- flight stay where they are, no queued event of high priority is lost, an accepted event is
  -- queued, and an event of high priority that fits and is no diagnostic is refused only where no
  -- event of low priority is left that is not in flight.
  pub offer_protected_event-OfferOf :
      (s : Sdk) (e : Event) (bytes now monotonic : ℕ)
      → IsSized s max_events max_bytes
      → IsValid host.json s.diagnostics
      → Fresh e.ident s.buffer
      → OfferOf s e bytes (offer_protected_event host s e bytes max_events max_bytes now monotonic)
  unfolding offer_protected_event
  offer_protected_event-OfferOf s e bytes now monotonic h v f =
      elim (Bool-cases (ltb max_bytes bytes)) [
        | inl large ↦ rw large (
          dropped-Offered s (dropped s) e (
              Left-dropped host max_events max_bytes s s
                (Left-refl host max_events max_bytes s h v)),
          λ refused fits high other. absurd (omega (tests, ltb→lt max_bytes bytes large)),
        )
        | inr small ↦ rw small (
            after_room s e bytes now monotonic f
              (make_room host (suc (length s.buffer)) s (high_priority_event e) bytes max_events
                max_bytes)
              (make_room-RoomOf host max_events max_bytes (suc (length s.buffer)) s
                (high_priority_event e) bytes (omega arith) h v))
      ]
