-- ===== src/Flush/Rested.antt =====
-- The answer to a batch leaves a queue as a flush found it: sized, within its limits, and with a valid
-- budget (src/debugbundle/flush_delivery.py).
use debugbundle_python.Prelude.{
  ℕ, ◌≤◌, ◌≡◌, refl, ap, sym, subst, ◌∙◌, Option, none, some, Bool, false, List, [], ◌∷◌, ◌++◌,
  length, arith, nat_eq, sum_map, All, inl, inr, Option-cases, eq_of_some,
}
use debugbundle_python.Prelude.Dict.{Dict, get, put, total, get-put}
use debugbundle_python.Prelude.Dict.Laws.{total-put_new, get-put_self}
use debugbundle_python.Diagnostics.Valid.{IsValid}
use debugbundle_python.Diagnostics.Valid.Replacing.{retain_only-IsValid}
use debugbundle_python.Transport.{TransportResponse}
use debugbundle_python.Sdk.{Sdk, Event, Host}
use debugbundle_python.Sdk.Timing.{TimerOnly}
use debugbundle_python.Queue.Shape.{
  Fresh, DistinctIds, size_at, Known, IsSized, IsSized-same, sizes-put,
}
use debugbundle_python.Flush.{sizes_of, wake, diagnostic_ids}
use debugbundle_python.Flush.Settle.{at_once, recount, settle}
use debugbundle_python.Flush.Retained.{sizes_of-total, wake-TimerOnly, settle-respond}
use debugbundle_python.Flush.Downgraded.{Shrinks, Differ}
use debugbundle_python.Flush.Responded.{respond-Followed}

-- What the collected sizes add up to
record Collected (sizes sizes' : Dict ℕ ℕ) (es : List Event) : Type 0 where
  whole : total (λ _ size. size) sizes' ≡ sum_map (size_at sizes) es
  each : sum_map (size_at sizes') es ≡ sum_map (size_at sizes) es
  only : (i : ℕ) → Fresh i es → get sizes' i ≡ none

sizes_of-Collected :
    (sizes sizes' : Dict ℕ ℕ) (es : List Event)
    → DistinctIds es
    → Known sizes es
    → sizes_of sizes es ≡ some sizes'
    → Collected sizes sizes' es
unfolding sizes_of get
sizes_of-Collected sizes sizes' [] d k e =
    let same : sizes' ≡ [] = ground arith in
    record { whole = rw same refl; each = refl; only = λ i f. rw same refl }
sizes_of-Collected sizes sizes' (e ∷ es) d k done =
    let (rest, found, known) = sizes_of-total sizes es k.1 in
    let c = sizes_of-Collected sizes rest es d.1 k.1 found in
    elim (Option-cases (get sizes e.ident)) [
      | inl missing ↦ absurd (ground (arith, missing, k.0))
      | inr (v, size) ↦
          let made : sizes_of sizes (e ∷ es) ≡ some (put rest e.ident v) = rw (size, found) refl in
          let same : sizes' ≡ put rest e.ident v = eq_of_some (sym done ∙ made) in
          let (others, _) = sizes-put rest e.ident v es d.0 in
          let added = total-put_new (λ _ size. size) rest e.ident v (c.only e.ident d.0) in
          let own : size_at (put rest e.ident v) e ≡ v = rw (get-put_self rest e.ident v) refl in
          let old : size_at sizes e ≡ v = rw size refl in
          record {
            whole = rw same (omega (arith, added, c.whole, old));
            each =
                ap (λ z. sum_map (size_at z) (e ∷ es)) same
                ∙ omega (arith, own, old, others, c.each);
            only = λ i f. rw same (ground (arith, get-put rest e.ident v i, f.0, c.only i f.1));
          }
    ]

module _ (host : Host) (max_events max_bytes : ℕ) where
  -- A state in which no flush is under way
  pub record Resting (s : Sdk) : Type 0 where
    pub sized : IsSized s max_events max_bytes
    pub valid : IsValid host.json s.diagnostics
    pub idle : s.sending ≡ false
    pub landed : s.inflight_count ≡ 0

  pub Resting-timer : (s s' : Sdk) → TimerOnly s s' → Resting s → Resting s'
  Resting-timer s s' only r = subst Resting (sym only) (record {
    sized =
        IsSized-same s (record s { timer = s'.timer }) max_events max_bytes refl refl refl r.sized;
    valid = r.valid;
    idle = r.idle;
    landed = r.landed;
  })

  -- The `finally` block on a state whose collected sizes are those of its queue
  recount-Resting :
      (a : Sdk) (sizes : Dict ℕ ℕ)
      → sizes_of a.buffer_sizes a.buffer ≡ some sizes
      → DistinctIds a.buffer
      → Known sizes a.buffer
      → total (λ _ n. n) sizes ≡ sum_map (size_at sizes) a.buffer
      → length a.buffer ≤ max_events
      → total (λ _ n. n) sizes ≤ max_bytes
      → IsValid host.json a.diagnostics
      → a.sending ≡ false
      → a.inflight_count ≡ 0
      → (u : Sdk) × (recount host a ≡ some u) × Resting u × (u.generation ≡ a.generation)
  unfolding recount
  recount-Resting a sizes collected d k whole few within v idle landed = rw collected (
    _,
    refl,
    record {
      sized = record { distinct = d; known = k; bytes = whole; few = few; within = within };
      valid = retain_only-IsValid host.json a.diagnostics (diagnostic_ids a.buffer) v;
      idle = idle;
      landed = landed;
    },
    refl,
  )

  -- Where the batch is the head of a sized queue with a valid budget and no timer is set, and what is
  -- left of a refused event is a new object that is no longer than the event, the answer is followed
  -- without an error, and leaves such a queue, within the same limits, with no flush under way.
  pub settle-Resting :
      (reduced : Sdk → Event → Option Event) (s : Sdk) (batch trailing : List Event) (http : Bool)
      (response : Option TransportResponse) (now monotonic : ℕ)
      → s.buffer ≡ batch ++ trailing
      → IsSized s max_events max_bytes
      → IsValid host.json s.diagnostics
      → s.timer ≡ none
      → All (Shrinks host reduced s.buffer s.buffer_sizes) batch
      → Differ host reduced s.buffer s.buffer_sizes
      → (s' : Sdk) × (settle host reduced s s.generation batch http response now monotonic
          ≡ some s')
        × Resting s'
        × (s'.generation ≡ s.generation)
  settle-Resting reduced s batch trailing http response now monotonic split h v off shrinks differ =
      let (a, answer, f) =
        respond-Followed s batch trailing split h.distinct h.known now monotonic host reduced
          shrinks differ http response in
      let (sizes, collected, known) = sizes_of-total a.buffer_sizes a.buffer f.known in
      let c = sizes_of-Collected a.buffer_sizes sizes a.buffer f.distinct f.known collected in
      let (u, counted, rested, same) =
        recount-Resting a sizes collected f.distinct known (c.whole ∙ sym c.each)
          (omega (arith, h.few, f.fewer)) (omega (arith, h.within, h.bytes, c.whole, f.lighter))
          (subst (IsValid host.json) (sym f.budget) v) f.idle f.landed in
      let woken = wake-TimerOnly u (at_once http response) now monotonic in
      (
        wake u (at_once http response) now monotonic,
        settle-respond host reduced s a u batch http response now monotonic off answer counted,
        Resting-timer u _ woken rested,
        ap {A = Sdk} (λ x. x.generation) woken ∙ same ∙ f.generation,
      )
