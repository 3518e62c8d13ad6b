-- ===== src/Queue/Offers.antt =====
-- `offer_protected_event`: the limits hold, nothing in flight moves, and no event of high priority
-- is lost (src/debugbundle/queue_admission.py).
use debugbundle_python.Prelude.{
  ℕ, ◌+◌, ◌≤◌, ◌≡◌, refl, ap, sym, ◌∙◌, subst, Option, none, some, Bool, true, false, List, ◌∷◌,
  ◌++◌, length, arith, nat_eq, ◌==◌, sum_map, one_if, is_some, take, if◌then◌else◌, leb,
}
use debugbundle_python.Prelude.Dict.{get}
use debugbundle_python.Prelude.Dict.Laws.{get-put_self}
use debugbundle_python.Diagnostics.Valid.{IsValid}
use debugbundle_python.Sdk.{Sdk, Event, Host, schedule_flush_locked}
use debugbundle_python.Reconcile.{reconcile_diagnostic}
use debugbundle_python.Reconcile.Budget.{Writes, reconcile_diagnostic-Writes}
use debugbundle_python.Queue.{high_priority_event, is_full, placed, charged, enqueue}
use debugbundle_python.Queue.Shape.{
  Fresh, DistinctIds, size_at, Known, IsSized, high_count, sum_map-length, sizes-put, All-insert,
  sum_map-middle, DistinctIds-insert,
}
use debugbundle_python.Sdk.Timing.{
  TimerOnly, schedule_flush_locked-TimerOnly, schedule_flush_locked_waits,
}
use debugbundle_python.Queue.Placing.{Placed, placed-Placed}

abbrev pub InQueue : Event → List Event → Type 0
InQueue e es = (front : List Event) × (back : List Event) × (es ≡ front ++ e ∷ back)

-- An offer changes neither the marks of a flush nor its timer, and queues no other object.
pub record Still (e : Event) (s s' : Sdk) : Type 0 where
  pub generation : s'.generation ≡ s.generation
  pub sending : s'.sending ≡ s.sending
  pub timer : s.sending ≡ true → s'.timer ≡ s.timer
  pub fresh : (i : ℕ) → (e.ident == i) ≡ false → Fresh i s.buffer → Fresh i s'.buffer

module _ (host : Host) (max_events max_bytes : ℕ) where
  -- What an offer leaves behind: the limits, the events in flight, and the count of the events of
  -- high priority, one more if such an event was accepted.
  pub record Offered (s : Sdk) (e : Event) (s' : Sdk) (accepted : Bool) : Type 0 where
    pub sized : IsSized s' max_events max_bytes
    pub valid : IsValid host.json s'.diagnostics
    pub inflight : s'.inflight_count ≡ s.inflight_count
    pub flight :
        s.inflight_count ≤ length s.buffer
        → take s.inflight_count s'.buffer ≡ take s.inflight_count s.buffer
    pub high :
        high_count s'.buffer
        ≡ high_count s.buffer + (if accepted then one_if (high_priority_event e) else 0)
    pub queued : accepted ≡ true → InQueue e s'.buffer
    pub still : Still e s s'

  module _ (s : Sdk) (e : Event) (bytes : ℕ) (under_pressure : Bool)
      (h : IsSized s max_events max_bytes) (f : Fresh e.ident s.buffer)
      (room : is_full s bytes max_events max_bytes ≡ false)
      (v : IsValid host.json s.diagnostics) where
    abbrev q : Sdk
    q = charged (placed s e (high_priority_event e) under_pressure) e bytes

    spot : Placed s.inflight_count s.buffer e q.buffer
    spot = placed-Placed s e (high_priority_event e) under_pressure

    fresh_apart : Fresh e.ident (spot.front ++ spot.back)
    fresh_apart = subst (Fresh e.ident) spot.before f

    measured : (g : Event → ℕ) → sum_map g q.buffer ≡ g e + sum_map g s.buffer
    measured g =
        ap (sum_map g) spot.after
        ∙ sum_map-middle g spot.front e spot.back
        ∙ ap (λ es. g e + sum_map g es) (sym spot.before)

    stored : get q.buffer_sizes e.ident ≡ some bytes
    stored = get-put_self s.buffer_sizes e.ident bytes

    charged-IsSized : IsSized q max_events max_bytes
    charged-IsSized =
        let (same, keep) = sizes-put s.buffer_sizes e.ident bytes s.buffer f in
        let its : size_at q.buffer_sizes e ≡ bytes = rw stored refl in
        let known' : Known q.buffer_sizes (spot.front ++ spot.back) =
          subst (Known q.buffer_sizes) spot.before (keep h.known) in
        record {
          distinct = subst DistinctIds (sym spot.after) (
              DistinctIds-insert spot.front e spot.back fresh_apart
                (subst DistinctIds spot.before h.distinct));
          known = subst (Known q.buffer_sizes) (sym spot.after) (
              All-insert (λ x. is_some (get q.buffer_sizes x.ident) ≡ true) spot.front e spot.back
                (rw stored refl) known');
          bytes = omega (arith, h.bytes, measured (size_at q.buffer_sizes), its, same);
          few =
              ground
                (arith, room, measured (λ x. 1), sum_map-length s.buffer, sum_map-length q.buffer);
          within = ground (arith, room);
        }

    charged-Offered : Offered s e q true
    charged-Offered = record {
      sized = charged-IsSized;
      valid = v;
      inflight = refl;
      flight = spot.flight;
      high = omega (arith, measured (λ x. one_if (high_priority_event x)));
      queued = λ _. (spot.front, spot.back, spot.after);
      still = record {
        generation = refl;
        sending = refl;
        timer = λ on. refl;
        fresh = λ i apart others. subst (Fresh i) (sym spot.after) (
            All-insert (λ x. (x.ident == i) ≡ false) spot.front e spot.back apart
              (subst (Fresh i) spot.before others));
      };
    }

  Offered-timer :
      (s t t' : Sdk) (e : Event) (accepted : Bool)
      → Offered s e t accepted
      → TimerOnly t t'
      → (t.sending ≡ true → t'.timer ≡ t.timer)
      → Offered s e t' accepted
  Offered-timer s t t' e accepted o only kept_timer =
      subst (λ x. Offered s e x accepted) (sym only)
        (record {
          sized = record {
            distinct = o.sized.distinct;
            known = o.sized.known;
            bytes = o.sized.bytes;
            few = o.sized.few;
            within = o.sized.within;
          };
          valid = o.valid;
          inflight = o.inflight;
          flight = o.flight;
          high = o.high;
          queued = o.queued;
          still = record {
            generation = o.still.generation;
            sending = o.still.sending;
            timer = λ on. kept_timer (o.still.sending ∙ on) ∙ o.still.timer on;
            fresh = o.still.fresh;
          };
        })

  -- The same limits where the budget alone is another.
  IsSized-Writes :
      (s s' : Sdk)
      → IsSized s max_events max_bytes
      → Writes host s s'
      → IsSized s' max_events max_bytes
  IsSized-Writes s s' h w =
      subst (λ x. IsSized x max_events max_bytes) (sym w.only)
        (record {
          distinct = h.distinct;
          known = h.known;
          bytes = h.bytes;
          few = h.few;
          within = h.within;
        })

  Offered-Writes :
      (s s' t : Sdk) (e : Event) (accepted : Bool)
      → Writes host s s'
      → Offered s' e t accepted
      → Offered s e t accepted
  Offered-Writes s s' t e accepted w o =
      let inflight = ap {A = Sdk} (λ x. x.inflight_count) w.only in
      let buffer = ap {A = Sdk} (λ x. x.buffer) w.only in
      record {
        sized = o.sized;
        valid = o.valid;
        inflight = o.inflight ∙ inflight;
        flight =
            subst (λ n. n ≤ length s.buffer → take n t.buffer ≡ take n s.buffer) inflight
              (subst
                (λ b.
                  s'.inflight_count ≤ length b
                  → take s'.inflight_count t.buffer ≡ take s'.inflight_count b)
                buffer o.flight);
        high =
            o.high
            ∙ ap (λ b. high_count b + (if accepted then one_if (high_priority_event e) else 0))
                buffer;
        queued = o.queued;
        still = record {
          generation = o.still.generation ∙ ap {A = Sdk} (λ x. x.generation) w.only;
          sending = o.still.sending ∙ ap {A = Sdk} (λ x. x.sending) w.only;
          timer = λ on.
              o.still.timer (ap {A = Sdk} (λ x. x.sending) w.only ∙ on)
              ∙ ap {A = Sdk} (λ x. x.timer) w.only;
          fresh = λ i apart others. o.still.fresh i apart (subst (Fresh i) (sym buffer) others);
        };
      }

  refused-Offered :
      (s s' : Sdk) (e : Event)
      → IsSized s max_events max_bytes
      → Writes host s s'
      → Offered s e s' false
  refused-Offered s s' e h w =
      let inflight = ap {A = Sdk} (λ x. x.inflight_count) w.only in
      let buffer = ap {A = Sdk} (λ x. x.buffer) w.only in
      record {
        sized = IsSized-Writes s s' h w;
        valid = w.valid;
        inflight = inflight;
        flight = λ le. ap (take s.inflight_count) buffer;
        high = omega (arith, ap high_count buffer);
        queued = λ refused. cc;
        still = record {
          generation = ap {A = Sdk} (λ x. x.generation) w.only;
          sending = ap {A = Sdk} (λ x. x.sending) w.only;
          timer = λ on. ap {A = Sdk} (λ x. x.timer) w.only;
          fresh = λ i apart others. subst (Fresh i) (sym buffer) others;
        };
      }

module _ (host : Host) (max_events max_bytes : ℕ) where
  pub either-Offered :
      (s t u : Sdk) (e : Event) (b : Bool)
      → (b ≡ true → Offered host max_events max_bytes s e t true)
      → (b ≡ false → Offered host max_events max_bytes s e u false)
      → Offered host max_events max_bytes s e
          (let r : Sdk × Bool = if b then (t, true) else (u, false) in r.0)
          (let r : Sdk × Bool = if b then (t, true) else (u, false) in r.1)
  either-Offered s t u e true p q = p refl
  either-Offered s t u e false p q = q refl

  pub enqueue-Offered :
      (s : Sdk) (e : Event) (bytes : ℕ) (under_pressure : Bool) (now monotonic : ℕ)
      → IsSized s max_events max_bytes
      → Fresh e.ident s.buffer
      → is_full s bytes max_events max_bytes ≡ false
      → IsValid host.json s.diagnostics
      → Offered host max_events max_bytes s e
          (enqueue host s e bytes under_pressure now monotonic).0
          (enqueue host s e bytes under_pressure now monotonic).1
  unfolding enqueue
  enqueue-Offered s e bytes under_pressure now monotonic h f room v =
      let s' = (reconcile_diagnostic host s none (some e) now).0 in
      let w = reconcile_diagnostic-Writes host s none (some e) now v in
      let buffer = ap {A = Sdk} (λ x. x.buffer) w.only in
      let room' : is_full s' bytes max_events max_bytes ≡ false =
        subst (λ x. is_full x bytes max_events max_bytes ≡ false) (sym w.only) room in
      let q = charged (placed s' e (high_priority_event e) under_pressure) e bytes in
      let put_in =
        charged-Offered host max_events max_bytes s' e bytes under_pressure
          (IsSized-Writes host max_events max_bytes s s' h w) (subst (Fresh e.ident) (sym buffer) f)
          room' w.valid in
      let delay : Option ℕ = if leb q.batch_size (length q.buffer) then some 0 else none in
      either-Offered s (schedule_flush_locked q delay monotonic) s' e
        (reconcile_diagnostic host s none (some e) now).1
        (λ _.
          Offered-Writes host max_events max_bytes s s' (schedule_flush_locked q delay monotonic) e
            true w
            (Offered-timer host max_events max_bytes s' q (schedule_flush_locked q delay monotonic)
              e true put_in (schedule_flush_locked-TimerOnly q delay monotonic)
              (schedule_flush_locked_waits q delay monotonic)))
        (λ _. refused-Offered host max_events max_bytes s s' e h w)
