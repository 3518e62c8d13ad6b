-- ===== src/Queue/Eviction.antt =====
-- `evict_low_priority` and the loop that makes room (src/debugbundle/queue_admission.py).
use debugbundle_python.Prelude.{
  ℕ, zero, suc, ◌+◌, ◌-◌, ◌≡◌, refl, ap, sym, ◌∙◌, subst, Option, none, some, Bool, true, false,
  List, [], ◌∷◌, ◌++◌, length, arith, nat_eq, ◌==◌, sum_map, All, one_if, is_some, take, drop, inl,
  inr, Bool-cases, Option-cases, min,
}
use debugbundle_python.Prelude.Int.{pos, ◌-ℤ◌}
use debugbundle_python.Prelude.Dict.{get, remove}
use debugbundle_python.Diagnostics.Valid.{IsValid}
use debugbundle_python.Diagnostics.Valid.Entries.{release-IsAccounted}
use debugbundle_python.Sdk.{Sdk, Event, Host, event_type_is, event_id}
use debugbundle_python.Queue.{
  high_priority_event, pop_low, evict_found, evict_low_priority, diagnostics_without, discard,
  max_drops,
}
use debugbundle_python.Queue.Shape.{
  Fresh, DistinctIds, size_at, Known, IsSized, high_count, sizes-remove, All-middle, sum_map-length,
  sum_map-middle, DistinctIds-middle,
}

abbrev pub AllHigh : List Event → Type 0
AllHigh = All (λ e. high_priority_event e ≡ true)

-- The buffer around the event that `pop_low` takes.
record Popped (k : ℕ) (es : List Event) (e : Event) (rest : List Event) : Type 0 where
  front : List Event
  back : List Event
  before : es ≡ front ++ e ∷ back
  after : rest ≡ front ++ back
  low : high_priority_event e ≡ false
  flight : take k rest ≡ take k es

Popped-cons :
    {k j : ℕ} {es rest : List Event} {e : Event} (x : Event)
    → Popped k es e rest
    → take j (x ∷ rest) ≡ take j (x ∷ es)
    → Popped j (x ∷ es) e (x ∷ rest)
Popped-cons x p t = record {
  front = x ∷ p.front;
  back = p.back;
  before = ap (◌∷◌ x) p.before;
  after = ap (◌∷◌ x) p.after;
  low = p.low;
  flight = t;
}

abbrev PoppedOf : ℕ → List Event → Option (Event × List Event) → Type 0
PoppedOf k es none = AllHigh (drop k es)
PoppedOf k es (some (e, rest)) = Popped k es e rest

-- `pop_low` takes the event out of the middle, past the events in flight; or finds none.
pop_low-PoppedOf : (k : ℕ) (es : List Event) → PoppedOf k es (pop_low k es)
unfolding pop_low
pop_low-PoppedOf zero [] = tt
pop_low-PoppedOf (suc k) [] = tt
pop_low-PoppedOf (suc k) (x ∷ es) = past (pop_low k es) (pop_low-PoppedOf k es)
  where
    past :
        (o : Option (Event × List Event))
        → PoppedOf k es o
        → PoppedOf (suc k) (x ∷ es) (elim o [ none ↦ none | some (e, rest) ↦ some (e, x ∷ rest) ])
    past none p = p
    past (some (e, rest)) p = Popped-cons x p (ap (◌∷◌ x) p.flight)
pop_low-PoppedOf zero (x ∷ es) =
    decided (high_priority_event x) refl (pop_low zero es) (pop_low-PoppedOf zero es)
  where
    decided :
        (b : Bool)
        → high_priority_event x ≡ b
        → (o : Option (Event × List Event)) → PoppedOf zero es o
        → PoppedOf zero (x ∷ es) (elim b [
          | true ↦ elim o [ none ↦ none | some (e, rest) ↦ some (e, x ∷ rest) ]
          | false ↦ some (x, es)
        ])
    decided true high none p = (high, p)
    decided true high (some (e, rest)) p = Popped-cons x p refl
    decided false low o p = record {
      front = [];
      back = es;
      before = refl;
      after = refl;
      low = low;
      flight = refl;
    }

-- What an eviction leaves as it was: the events in flight, and all events of high priority.
pub record Kept (s s' : Sdk) : Type 0 where
  pub inflight : s'.inflight_count ≡ s.inflight_count
  pub flight : take s.inflight_count s'.buffer ≡ take s.inflight_count s.buffer
  pub high : high_count s'.buffer ≡ high_count s.buffer
  pub fresh : (i : ℕ) → Fresh i s.buffer → Fresh i s'.buffer
  pub same_generation : s'.generation ≡ s.generation
  pub same_sending : s'.sending ≡ s.sending
  pub same_timer : s'.timer ≡ s.timer

pub Kept-refl : (s : Sdk) → Kept s s
Kept-refl s = record {
  inflight = refl;
  flight = refl;
  high = refl;
  fresh = λ i f. f;
  same_generation = refl;
  same_sending = refl;
  same_timer = refl;
}

pub Kept-trans : {s t u : Sdk} → Kept s t → Kept t u → Kept s u
Kept-trans {s} {t} {u} a b = record {
  inflight = b.inflight ∙ a.inflight;
  flight = subst (λ n. take n u.buffer ≡ take n t.buffer) a.inflight b.flight ∙ a.flight;
  high = b.high ∙ a.high;
  fresh = λ i f. b.fresh i (a.fresh i f);
  same_generation = b.same_generation ∙ a.same_generation;
  same_sending = b.same_sending ∙ a.same_sending;
  same_timer = b.same_timer ∙ a.same_timer;
}

module _ (host : Host) (max_events max_bytes : ℕ) where
  -- A successful eviction.
  pub record Evicted (s s' : Sdk) : Type 0 where
    pub sized : IsSized s' max_events max_bytes
    pub kept : Kept s s'
    pub shorter : length s.buffer ≡ suc (length s'.buffer)
    pub valid : IsValid host.json s'.diagnostics

  abbrev pub EvictedOf : Sdk → Option (Sdk × Bool) → Type 0
  EvictedOf s none = ⊥
  EvictedOf s (some (s', true)) = Evicted s s'
  EvictedOf s (some (s', false)) = (s' ≡ s) × AllHigh (drop s.inflight_count s.buffer)

  diagnostics_without-IsValid :
      (s : Sdk) (e : Event)
      → IsValid host.json s.diagnostics
      → IsValid host.json (diagnostics_without host s e)
  diagnostics_without-IsValid s e v = elim (Bool-cases (event_type_is e "diagnostic_context")) [
    | inl diagnostic ↦
        rw diagnostic (release-IsAccounted host.json _ (event_id e ∷ []) s.diagnostics v)
    | inr other ↦ rw other v
  ]

  module _ (s : Sdk) (e : Event) (rest : List Event) (h : IsSized s max_events max_bytes)
      (p : Popped s.inflight_count s.buffer e rest) where
    apart : Fresh e.ident (p.front ++ p.back) × DistinctIds (p.front ++ p.back)
    apart = DistinctIds-middle p.front e p.back (subst DistinctIds p.before h.distinct)

    Known-all :
        (is_some (get s.buffer_sizes e.ident) ≡ true) × Known s.buffer_sizes (p.front ++ p.back)
    Known-all =
        All-middle (λ x. is_some (get s.buffer_sizes x.ident) ≡ true) p.front e p.back
          (subst (Known s.buffer_sizes) p.before h.known)

    measured : (f : Event → ℕ) → sum_map f s.buffer ≡ f e + sum_map f (p.front ++ p.back)
    measured f = ap (sum_map f) p.before ∙ sum_map-middle f p.front e p.back

    without :
        (size : ℕ)
        → get s.buffer_sizes e.ident ≡ some size
        → IsSized
            (record s {
              buffer = p.front ++ p.back;
              buffer_bytes = s.buffer_bytes - size;
              buffer_sizes = remove s.buffer_sizes e.ident;
            })
            max_events
            max_bytes
    without size found =
        let (same, keep) = sizes-remove s.buffer_sizes e.ident (p.front ++ p.back) apart.0 in
        let its : size_at s.buffer_sizes e ≡ size = rw found refl in
        record {
          distinct = apart.1;
          known = keep Known-all.1;
          bytes = omega (arith, h.bytes, measured (size_at s.buffer_sizes), its, same);
          few = omega (
            arith,
            h.few,
            measured (λ x. 1),
            sum_map-length s.buffer,
            sum_map-length (p.front ++ p.back),
          );
          within = omega (arith, h.within);
        }

    -- The state that the loop's body leaves, on a buffer.
    abbrev evicted_state : ℕ → List Event → Sdk
    evicted_state size left = record s {
      buffer = left;
      hook_bypass = discard s.hook_bypass e.ident;
      diagnostics = diagnostics_without host s e;
      buffer_bytes = s.buffer_bytes - size;
      buffer_sizes = remove s.buffer_sizes e.ident;
      pending_low_priority = s.pending_low_priority -ℤ pos 1;
      pressure_drops = min max_drops (s.pressure_drops + 1);
    }

    evicted_state-Evicted :
        (size : ℕ)
        → get s.buffer_sizes e.ident ≡ some size
        → IsValid host.json s.diagnostics
        → Evicted s (evicted_state size rest)
    evicted_state-Evicted size found v =
        let w = without size found in
        record {
          sized =
              subst (λ left. IsSized (evicted_state size left) max_events max_bytes) (sym p.after)
                (record {
                  distinct = w.distinct;
                  known = w.known;
                  bytes = w.bytes;
                  few = w.few;
                  within = w.within;
                });
          kept = record {
            inflight = refl;
            flight = p.flight;
            high =
                ap high_count p.after
                ∙ ground (arith, measured (λ x. one_if (high_priority_event x)), p.low);
            fresh = λ i f.
                subst (Fresh i) (sym p.after)
                  (All-middle (λ x. (x.ident == i) ≡ false) p.front e p.back
                    (subst (Fresh i) p.before f)).1;
            same_generation = refl;
            same_sending = refl;
            same_timer = refl;
          };
          shorter = omega (
            arith,
            measured (λ x. 1),
            sum_map-length s.buffer,
            sum_map-length (p.front ++ p.back),
            ap (length {0}) p.after,
          );
          valid = diagnostics_without-IsValid s e v;
        }

    found_size : (size : ℕ) × (get s.buffer_sizes e.ident ≡ some size)
    found_size = elim (Option-cases (get s.buffer_sizes e.ident)) [
      | inl missing ↦ absurd (ground (arith, Known-all.0, missing))
      | inr there ↦ there
    ]

  evict_found-EvictedOf :
      (s : Sdk) (o : Option (Event × List Event))
      → IsSized s max_events max_bytes
      → IsValid host.json s.diagnostics
      → PoppedOf s.inflight_count s.buffer o
      → EvictedOf s (evict_found host o s)
  unfolding evict_found
  evict_found-EvictedOf s none h v p = (refl, p)
  evict_found-EvictedOf s (some (e, rest)) h v p =
      let (size, found) = found_size s e rest h p in
      rw found (evicted_state-Evicted s e rest h p size found v)

  pub evict_low_priority-EvictedOf :
      (s : Sdk)
      → IsSized s max_events max_bytes
      → IsValid host.json s.diagnostics
      → EvictedOf s (evict_low_priority host s)
  unfolding evict_low_priority
  evict_low_priority-EvictedOf s h v =
      evict_found-EvictedOf s (pop_low s.inflight_count s.buffer) h v
        (pop_low-PoppedOf s.inflight_count s.buffer)
