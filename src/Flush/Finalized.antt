-- ===== src/Flush/Finalized.antt =====
-- A finalized batch is the head of the queue, which keeps its shape (src/debugbundle/delivery_hooks.py).
use debugbundle_python.Prelude.{
  ℕ, suc, ◌+◌, ◌-◌, ◌≤◌, ◌≡◌, ◌∙◌, refl, sym, ap, subst, Option, none, some, Bool, true, false,
  List, [], ◌∷◌, ◌++◌, length, arith, leb, nat_eq, sum_map, is_some, leb→le,
}
use debugbundle_python.Prelude.Dict.{Dict, get, put, remove}
use debugbundle_python.Prelude.Dict.Laws.{get-put_self}
use debugbundle_python.Diagnostics.Valid.{IsValid}
use debugbundle_python.Queue.Shape.{
  Fresh, DistinctIds, size_at, Known, IsSized, sizes-put, sizes-remove, All-middle, All-insert,
  sum_map-middle, DistinctIds-middle, DistinctIds-insert,
}
use debugbundle_python.Reconcile.{reconcile_diagnostic}
use debugbundle_python.Reconcile.Budget.{Writes, reconcile_diagnostic-Writes}
use debugbundle_python.Sdk.{Sdk, Event, Host}
use debugbundle_python.Flush.Finalize.{
  set_at, pop_at, PolicyHost, accept, accepted, withhold, withheld, finalize_one,
  replacement_allowed, conclude,
}

set_at-append :
    (front : List Event) (original e : Event) (back : List Event)
    → set_at (front ++ original ∷ back) (length front) e ≡ some (front ++ e ∷ back)
set_at-append [] original e back = refl
set_at-append (x ∷ front) original e back = rw (set_at-append front original e back) refl

pop_at-append :
    (front : List Event) (original : Event) (back : List Event)
    → pop_at (front ++ original ∷ back) (length front) ≡ some (front ++ back)
pop_at-append [] original back = refl
pop_at-append (x ∷ front) original back = rw (pop_at-append front original back) refl

length-middle :
    (front : List Event) (e : Event) (back : List Event)
    → length (front ++ e ∷ back) ≡ suc (length (front ++ back))
length-middle [] e back = refl
length-middle (x ∷ front) e back = ap suc (length-middle front e back)

-- The queue without one of its events.
module _ (s : Sdk) (max_events max_bytes : ℕ) (front back : List Event) (original : Event) (old : ℕ)
    (here : s.buffer ≡ front ++ original ∷ back) (sized : IsSized s max_events max_bytes)
    (known : get s.buffer_sizes original.ident ≡ some old) where
  abbrev others : List Event
  others = front ++ back

  abbrev left_sizes : Dict ℕ ℕ
  left_sizes = remove s.buffer_sizes original.ident

  apart : Fresh original.ident others × DistinctIds others
  apart = DistinctIds-middle front original back (rw here at sized.distinct)

  others-Known : Known left_sizes others
  others-Known =
      (sizes-remove s.buffer_sizes original.ident others apart.0).1
        (All-middle (λ e. is_some (get s.buffer_sizes e.ident) ≡ true) front original back
          (rw here at sized.known)).1

  others-bytes : s.buffer_bytes ≡ old + sum_map (size_at left_sizes) others
  others-bytes =
      let same = (sizes-remove s.buffer_sizes original.ident others apart.0).0 in
      let whole = sum_map-middle (size_at s.buffer_sizes) front original back in
      let at : size_at s.buffer_sizes original ≡ old = rw known refl in
      sized.bytes ∙ ap (sum_map (size_at s.buffer_sizes)) here ∙ omega (arith, same, whole, at)

  others-few : suc (length others) ≤ max_events
  others-few =
      let size : length (front ++ original ∷ back) ≡ suc (length others) =
        length-middle front original back in
      omega (arith, sized.few, ap length here, size)

  -- The queue where the event has left.
  abbrev left_state : Sdk
  left_state = record s {
    buffer = others;
    buffer_sizes = left_sizes;
    buffer_bytes = s.buffer_bytes - old;
  }

  left-IsSized : IsSized left_state max_events max_bytes
  left-IsSized = record {
    distinct = apart.1;
    known = others-Known;
    bytes = omega (arith, others-bytes);
    few = omega (arith, others-few);
    within = omega (arith, sized.within);
  }

  -- The queue where another event has taken its place.
  abbrev placed_state : Event → ℕ → Sdk
  placed_state e bytes = record s {
    buffer = front ++ e ∷ back;
    buffer_sizes = put left_sizes e.ident bytes;
    buffer_bytes = s.buffer_bytes + bytes - old;
  }

  placed-IsSized :
      (e : Event) (bytes : ℕ)
      → Fresh e.ident others
      → s.buffer_bytes + bytes ≤ max_bytes + old
      → IsSized (placed_state e bytes) max_events max_bytes
  placed-IsSized e bytes fresh fits =
      let (same, keep) = sizes-put left_sizes e.ident bytes others fresh in
      let own = get-put_self left_sizes e.ident bytes in
      let whole = sum_map-middle (size_at (put left_sizes e.ident bytes)) front e back in
      let at : size_at (put left_sizes e.ident bytes) e ≡ bytes = rw own refl in
      record {
        distinct = DistinctIds-insert front e back fresh apart.1;
        known =
            All-insert (λ x. is_some (get (put left_sizes e.ident bytes) x.ident) ≡ true) front e
              back (rw own refl) (keep others-Known);
        bytes = omega (arith, others-bytes, same, whole, at);
        few = omega (arith, others-few, length-middle front e back);
        within = omega (arith, fits);
      }

abbrev pub in_place : Option Event → List Event → List Event
in_place none back = back
in_place (some e) back = e ∷ back

-- The queue after an event was finalized: what was kept of it stands in its place.
pub record Step (host : Host) (max_events max_bytes : ℕ) (front back : List Event) (s s' : Sdk)
    (kept : Option Event) : Type 0 where
  pub buffer : s'.buffer ≡ front ++ in_place kept back
  pub sized : IsSized s' max_events max_bytes
  pub valid : IsValid host.json s'.diagnostics
  pub flight :
      s'.inflight_count ≡ (elim kept [ none ↦ s.inflight_count - 1 | some e ↦ s.inflight_count ])
  pub generation : s'.generation ≡ s.generation
  pub sending : s'.sending ≡ s.sending
  pub timer : s'.timer ≡ s.timer

module _ (host : Host) (p : PolicyHost) (max_events max_bytes : ℕ) (front back : List Event)
    (original : Event) (old : ℕ) where
  -- The event is at its place in a sized queue.
  pub record IsAt (s : Sdk) : Type 0 where
    pub here : s.buffer ≡ front ++ original ∷ back
    pub sized : IsSized s max_events max_bytes
    pub known : get s.buffer_sizes original.ident ≡ some old
    pub valid : IsValid host.json s.diagnostics

  IsAt-Writes : (s s' : Sdk) → IsAt s → Writes host s s' → IsAt s'
  IsAt-Writes s s' at w = record {
    here = ap (λ (x : Sdk). x.buffer) w.only ∙ at.here;
    sized =
        subst (λ x. IsSized x max_events max_bytes) (sym w.only)
          (record {
            distinct = at.sized.distinct;
            known = at.sized.known;
            bytes = at.sized.bytes;
            few = at.sized.few;
            within = at.sized.within;
          });
    known = ap (λ (x : Sdk). get x.buffer_sizes original.ident) w.only ∙ at.known;
    valid = w.valid;
  }

  abbrev pub Ends : Sdk → Option (Sdk × Option Event) → Type 0
  Ends s result =
      (s' : Sdk) × (kept : Option Event) × (result ≡ some (s', kept))
      × Step host max_events max_bytes front back s s' kept

  accept-Step :
      (s : Sdk) (e : Event) (bytes : ℕ)
      → IsAt s
      → Fresh e.ident (front ++ back)
      → s.buffer_bytes + bytes ≤ max_bytes + old
      → Ends s (accept host p s (length front) original old e bytes)
  accept-Step s e bytes at fresh fits =
      let place : set_at s.buffer (length front) e ≡ some (front ++ e ∷ back) =
        ap (λ b. set_at b (length front) e) at.here ∙ set_at-append front original e back in
      let q =
        placed-IsSized s max_events max_bytes front back original old at.here at.sized at.known e
          bytes fresh fits in
      (
        accepted host p s original old e bytes (front ++ e ∷ back),
        some e,
        rw (place, accept) refl,
        record {
          buffer = refl;
          sized = record {
            distinct = q.distinct;
            known = q.known;
            bytes = q.bytes;
            few = q.few;
            within = q.within;
          };
          valid = at.valid;
          flight = refl;
          generation = refl;
          sending = refl;
          timer = refl;
        },
      )

  withhold-Step :
      (s : Sdk) (pressed : Bool) (now : ℕ)
      → IsAt s
      → Ends s (withhold host p s (length front) original old pressed now)
  withhold-Step s pressed now at =
      let r = (reconcile_diagnostic host s (some original) none now).0 in
      let w = reconcile_diagnostic-Writes host s (some original) none now at.valid in
      let at' = IsAt-Writes s r at w in
      let place : pop_at r.buffer (length front) ≡ some (front ++ back) =
        ap (λ b. pop_at b (length front)) at'.here ∙ pop_at-append front original back in
      let q =
        left-IsSized r max_events max_bytes front back original old at'.here at'.sized at'.known in
      (
        withheld host p r original old pressed (front ++ back),
        none,
        rw (place, withhold) refl,
        record {
          buffer = refl;
          sized = record {
            distinct = q.distinct;
            known = q.known;
            bytes = q.bytes;
            few = q.few;
            within = q.within;
          };
          valid = at'.valid;
          flight = ap (λ (x : Sdk). x.inflight_count - 1) w.only;
          generation = ap (λ (x : Sdk). x.generation) w.only;
          sending = ap (λ (x : Sdk). x.sending) w.only;
          timer = ap (λ (x : Sdk). x.timer) w.only;
        },
      )

  -- A step from a state where another budget stands is a step from the first.
  Ends-Writes :
      (s s' : Sdk) (result : Option (Sdk × Option Event))
      → Writes host s s'
      → Ends s' result
      → Ends s result
  Ends-Writes s s' result w (t, kept, e, step) = (
    t,
    kept,
    e,
    record {
      buffer = step.buffer;
      sized = step.sized;
      valid = step.valid;
      flight =
          step.flight
          ∙ ap
              (λ (x : Sdk). (elim kept [ none ↦ x.inflight_count - 1 | some e ↦ x.inflight_count ]))
              w.only;
      generation = step.generation ∙ ap (λ (x : Sdk). x.generation) w.only;
      sending = step.sending ∙ ap (λ (x : Sdk). x.sending) w.only;
      timer = step.timer ∙ ap (λ (x : Sdk). x.timer) w.only;
    },
  )

  -- The replacement is no other queued object, and it is known whether it is allowed.
  abbrev pub IsReplacement : Sdk → Option (Event × ℕ) → Type 0
  IsReplacement s none = Unit
  IsReplacement s (some (e, bytes)) =
      Fresh e.ident (front ++ back) × ((ok : Bool) × (replacement_allowed host p s e ≡ some ok))

  conclude-Step :
      (s : Sdk) (e : Event) (bytes now : ℕ) (ok fits : Bool) (r : Sdk × Bool)
      → IsAt s
      → Fresh e.ident (front ++ back)
      → (fits ≡ true → s.buffer_bytes + bytes ≤ max_bytes + old)
      → Writes host s r.0
      → Ends s (conclude host p s (length front) original old e bytes now ok fits r)
  conclude-Step s e bytes now false fits r at fresh room w = withhold-Step s false now at
  conclude-Step s e bytes now true false r at fresh room w = withhold-Step s true now at
  conclude-Step s e bytes now true true (r, true) at fresh room w =
      let le : r.buffer_bytes + bytes ≤ max_bytes + old =
        omega (arith, room refl, ap (λ (x : Sdk). x.buffer_bytes) w.only) in
      Ends-Writes s r _ w (accept-Step r e bytes (IsAt-Writes s r at w) fresh le)
  conclude-Step s e bytes now true true (r, false) at fresh room w =
      Ends-Writes s r _ w (withhold-Step r false now (IsAt-Writes s r at w))

  pub finalize_one-Step :
      (s : Sdk) (replacement : Option (Event × ℕ)) (now : ℕ)
      → IsAt s
      → IsReplacement s replacement
      → Ends s (finalize_one host p s (length front) original replacement max_bytes now)
  unfolding finalize_one
  finalize_one-Step s none now at it =
      subst (Ends s) (sym (rw (at.known, finalize_one) refl)) (withhold-Step s false now at)
  finalize_one-Step s (some (e, bytes)) now at (fresh, (ok, known)) =
      subst (Ends s) (sym (rw (at.known, finalize_one) (rw known refl))) (
        conclude-Step s e bytes now ok (leb (s.buffer_bytes + bytes) (max_bytes + old))
          (reconcile_diagnostic host s (some original) (some e) now) at fresh
          (λ fits. leb→le _ _ fits)
          (reconcile_diagnostic-Writes host s (some original) (some e) now at.valid))
