-- ===== src/Flush/System/Moves.antt =====
-- What holds in each phase of a flush, and what the steps other than the answer keep of it
-- (src/debugbundle/flush_delivery.py).
use debugbundle_python.Prelude.{
  ℕ, zero, suc, ◌+◌, ◌-◌, ◌≤◌, ◌≡◌, refl, ap, sym, ◌∙◌, Option, none, some, Bool, true, false, List,
  [], ◌∷◌, ◌++◌, length, length-append, take, drop, arith, nat_eqb, nat_eq, ==_refl, eq_of_some,
  inl, inr, Option-cases,
}
use mathlib.Core.List.{append_assoc, append-nil}
use debugbundle_python.Diagnostics.Valid.{IsValid}
use debugbundle_python.Sdk.{Sdk, Event, Host}
use debugbundle_python.Sdk.Timing.{if-TimerOnly, schedule_flush_locked-TimerOnly}
use debugbundle_python.Queue.Shape.{IsSized, IsSized-same}
use debugbundle_python.Queue.Offers.{Offered}
use debugbundle_python.Ingestion.Cutting.{prefix-IsCut}
use debugbundle_python.Flush.{rearm, is_empty}
use debugbundle_python.Flush.Rested.{Resting, Resting-timer}
use debugbundle_python.Flush.Sending.{
  Next, stop, send, raised, leave, reserved, wire_batch, select_batch,
}
use debugbundle_python.Flush.Finalized.{Step, in_place}

take-append : (xs ys : List Event) → take (length xs) (xs ++ ys) ≡ xs
take-append [] ys = refl
take-append (x ∷ xs) ys = ap (◌∷◌ x) (take-append xs ys)

append-drop : (n : ℕ) (xs : List Event) → take n xs ++ drop n xs ≡ xs
append-drop zero xs = refl
append-drop (suc n) [] = refl
append-drop (suc n) (x ∷ xs) = ap (◌∷◌ x) (append-drop n xs)

-- A batch stands at the head of a queue.
abbrev pub IsHead : List Event → List Event → Type 0
IsHead batch buffer = (tail : List Event) × (buffer ≡ batch ++ tail)

-- Whatever leaves as many events at the head as the batch has leaves the batch there.
IsHead-flight :
    (batch buffer buffer' : List Event) (n : ℕ)
    → n ≡ length batch
    → (n ≤ length buffer → take n buffer' ≡ take n buffer)
    → IsHead batch buffer
    → IsHead batch buffer'
IsHead-flight batch buffer buffer' n same flight (tail, here) =
    let enough : n ≤ length buffer =
      omega (arith, same, ap (length {0}) here, length-append batch tail) in
    let kept : take n buffer' ≡ batch =
      flight enough
      ∙ ap (take n) here
      ∙ ap (λ k. take k (batch ++ tail)) same
      ∙ take-append batch tail in
    (drop n buffer', sym (append-drop n buffer') ∙ ap (λ front. front ++ drop n buffer') kept)

module _ (host : Host) (max_events max_bytes : ℕ) where
  -- A flush of `generation` is under way, with `n` events in flight: its marks are set, no timer
  -- is, and the queue is sized within its limits, with a valid budget.
  pub record Busy (s : Sdk) (generation n : ℕ) : Type 0 where
    pub sized : IsSized s max_events max_bytes
    pub valid : IsValid host.json s.diagnostics
    pub sending : s.sending ≡ true
    pub timer : s.timer ≡ none
    pub flight : s.inflight_count ≡ n
    pub same : s.generation ≡ generation

  pub offer-Busy :
      (s s' : Sdk) (e : Event) (accepted : Bool) (generation n : ℕ)
      → Offered host max_events max_bytes s e s' accepted
      → Busy s generation n
      → Busy s' generation n
  offer-Busy s s' e accepted generation n o b = record {
    sized = o.sized;
    valid = o.valid;
    sending = o.still.sending ∙ b.sending;
    timer = o.still.timer b.sending ∙ b.timer;
    flight = o.inflight ∙ b.flight;
    same = o.still.generation ∙ b.same;
  }

  pub offer-IsHead :
      (s s' : Sdk) (e : Event) (accepted : Bool) (generation : ℕ) (batch : List Event)
      → Offered host max_events max_bytes s e s' accepted
      → Busy s generation (length batch)
      → IsHead batch s.buffer
      → IsHead batch s'.buffer
  offer-IsHead s s' e accepted generation batch o b head =
      IsHead-flight batch s.buffer s'.buffer s.inflight_count b.flight o.flight head

  pub offer-Resting :
      (s s' : Sdk) (e : Event) (accepted : Bool)
      → Offered host max_events max_bytes s e s' accepted
      → Resting host max_events max_bytes s
      → Resting host max_events max_bytes s'
  offer-Resting s s' e accepted o r = record {
    sized = o.sized;
    valid = o.valid;
    idle = o.still.sending ∙ r.idle;
    landed = o.inflight ∙ r.landed;
  }

  length-kept :
      (front : List Event) (kept : Option Event) (rest : List Event)
      → length ((front ++ in_place kept []) ++ rest)
        ≡ length front + (elim kept [ none ↦ 0 | some e ↦ 1 ]) + length rest
  length-kept front none rest =
      omega (arith, length-append (front ++ []) rest, length-append front [])
  length-kept front (some e) rest =
      omega (arith, length-append (front ++ e ∷ []) rest, length-append front (e ∷ []))

  -- A finalized event: as many events are in flight as are left of the batch.
  pub finalize-Busy :
      (s s' : Sdk) (generation : ℕ) (front rest back : List Event) (original : Event)
      (kept : Option Event)
      → Step host max_events max_bytes front back s s' kept
      → Busy s generation (length (front ++ original ∷ rest))
      → Busy s' generation (length ((front ++ in_place kept []) ++ rest))
  finalize-Busy s s' generation front rest back original kept step b = record {
    sized = step.sized;
    valid = step.valid;
    sending = step.sending ∙ b.sending;
    timer = step.timer ∙ b.timer;
    flight = count kept (step.flight) ∙ sym (length-kept front kept rest);
    same = step.generation ∙ b.same;
  }
    where
      count :
          (kept : Option Event)
          → s'.inflight_count
            ≡ (elim kept [ none ↦ s.inflight_count - 1 | some e ↦ s.inflight_count ])
          → s'.inflight_count ≡ length front + (elim kept [ none ↦ 0 | some e ↦ 1 ]) + length rest
      count none e = omega (arith, e, b.flight, length-append front (original ∷ rest))
      count (some x) e = omega (arith, e, b.flight, length-append front (original ∷ rest))

  pub finalize-IsHead :
      (s s' : Sdk) (front rest tail : List Event) (kept : Option Event)
      → Step host max_events max_bytes front (rest ++ tail) s s' kept
      → IsHead ((front ++ in_place kept []) ++ rest) s'.buffer
  finalize-IsHead s s' front rest tail none step = (
    tail,
    step.buffer
        ∙ sym (append_assoc front rest tail)
        ∙ ap (λ f. (f ++ rest) ++ tail) (sym (append-nil front)),
  )
  finalize-IsHead s s' front rest tail (some e) step = (
    tail,
    step.buffer
        ∙ sym (append_assoc front (e ∷ []) (rest ++ tail))
        ∙ sym (append_assoc (front ++ e ∷ []) rest tail),
  )

  -- A flush that ends early
  rearm-Resting :
      (s : Sdk) (generation n monotonic : ℕ)
      → Busy s generation n
      → Resting host max_events max_bytes
          (rearm (record s { sending = false; inflight_count = 0 }) monotonic)
  unfolding rearm
  rearm-Resting s generation n monotonic b =
      let u : Sdk = record s { sending = false; inflight_count = 0 } in
      Resting-timer host max_events max_bytes u (rearm u monotonic)
        (if-TimerOnly (is_empty u.buffer) u u _ refl
          (schedule_flush_locked-TimerOnly u none monotonic))
        (record {
          sized = IsSized-same s u max_events max_bytes refl refl refl b.sized;
          valid = b.valid;
          idle = refl;
          landed = refl;
        })

-- A batch that is sent is the front of the finalized events.
wire_batch-prefix :
    (dumps : Event → List ℕ) (http : Bool) (front batch : List Event)
    → wire_batch dumps http front ≡ some batch
    → (unsent : List Event) × (batch ++ unsent ≡ front)
wire_batch-prefix dumps true front batch e = (_, prefix-IsCut dumps front batch e)
wire_batch-prefix dumps false front batch e = ([], append-nil batch ∙ sym (eq_of_some e))

module _ (host : Host) (max_events max_bytes : ℕ) (dumps : Event → List ℕ) where
  -- What the section that selects a batch leaves.
  abbrev pub SelectedFrom : ℕ → Next → Type 0
  SelectedFrom generation raised = Unit
  SelectedFrom generation (stop s') = Resting host max_events max_bytes s'
  SelectedFrom generation (send s' batch) =
      Busy host max_events max_bytes s' generation (length batch) × IsHead batch s'.buffer

  reserved-Busy :
      (s : Sdk) (http : Bool) (finalized batch : List Event) (generation n : ℕ)
      → Busy host max_events max_bytes s generation n
      → Busy host max_events max_bytes (reserved s http finalized batch) generation (length batch)
  reserved-Busy s http finalized batch generation n b = record {
    sized =
        IsSized-same s (reserved s http finalized batch) max_events max_bytes refl refl refl
          b.sized;
    valid = b.valid;
    sending = b.sending;
    timer = b.timer;
    flight = refl;
    same = b.same;
  }

  chosen-SelectedFrom :
      (s : Sdk) (generation n monotonic : ℕ) (http : Bool) (front : List Event)
      → Busy host max_events max_bytes s generation n
      → IsHead front s.buffer
      → (batch : List Event) (unsent : List Event) → batch ++ unsent ≡ front
      → SelectedFrom generation (elim batch [
        | [] ↦ leave (reserved s http front []) monotonic
        | first ∷ rest ↦ send (reserved s http front (first ∷ rest)) (first ∷ rest)
      ])
  chosen-SelectedFrom s generation n monotonic http front b (tail, here) [] unsent cut =
      rearm-Resting host max_events max_bytes (reserved s http front []) generation 0 monotonic
        (reserved-Busy s http front [] generation n b)
  chosen-SelectedFrom s generation n monotonic http front b (tail, here) (e ∷ es) unsent cut = (
    reserved-Busy s http front (e ∷ es) generation n b,
    (unsent ++ tail, here ∙ ap (λ f. f ++ tail) (sym cut) ∙ append_assoc (e ∷ es) unsent tail),
  )

  pub select_batch-SelectedFrom :
      (s : Sdk) (generation n monotonic : ℕ) (http : Bool) (front : List Event)
      → Busy host max_events max_bytes s generation n
      → IsHead front s.buffer
      → SelectedFrom generation (select_batch dumps s generation (some front) http monotonic)
  unfolding select_batch
  select_batch-SelectedFrom s generation n monotonic http front b head =
      elim (Option-cases (wire_batch dumps http front)) [
        | inl none_fits ↦ rw (none_fits, SelectedFrom) tt
        | inr (batch, cut) ↦
            let same : nat_eqb generation s.generation ≡ true =
              ap (nat_eqb generation) b.same ∙ ==_refl generation in
            let (unsent, whole) = wire_batch-prefix dumps http front batch cut in
            rw (cut, same, SelectedFrom)
              (chosen-SelectedFrom s generation n monotonic http front b head batch unsent whole)
      ]
