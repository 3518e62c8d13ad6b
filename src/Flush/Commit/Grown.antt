-- ===== src/Flush/Commit/Grown.antt =====
-- What the offers of the section that commits the queue leave (src/debugbundle/flush_delivery.py).
use debugbundle_python.Prelude.{
  ℕ, ◌+◌, ◌≤◌, ◌≡◌, refl, ◌∙◌, Option, none, some, Bool, true, false, ◌&&◌, List, [], ◌∷◌, length,
  arith, ltb, leb, nat_eq, ◌==◌, All, inl, inr, Bool-cases,
}
use debugbundle_python.Diagnostics.Valid.{IsValid}
use debugbundle_python.Queue.{offer_protected_event}
use debugbundle_python.Queue.Shape.{Fresh, IsSized, IsSized-same, high_count}
use debugbundle_python.Queue.Offers.{Offered}
use debugbundle_python.Queue.Results.{OfferOf, offer_protected_event-OfferOf}
use debugbundle_python.Sdk.{Sdk, Event, Host}
use debugbundle_python.Flush.Commit.{reported_drops, offer_all, offer_pressure}

-- The object `i` is none of those that are offered.
abbrev pub Apart : ℕ → List (Event × ℕ) → Type 0
Apart i = All (λ offer. (offer.0.ident == i) ≡ false)

-- The objects that are offered are new, and different from each other.
abbrev pub AllNew : List (Event × ℕ) → List Event → Type 0
AllNew [] es = Unit
AllNew ((e, bytes) ∷ rest) es =
    Fresh e.ident es × All (λ offer. (e.ident == offer.0.ident) ≡ false) rest × AllNew rest es

module _ (host : Host) (max_events max_bytes : ℕ) where
  -- A queue that has grown by offers, which leave the marks of a flush under way and its timer.
  pub record Grown (s s' : Sdk) : Type 0 where
    pub sized : IsSized s' max_events max_bytes
    pub valid : IsValid host.json s'.diagnostics
    pub inflight : s'.inflight_count ≡ s.inflight_count
    pub generation : s'.generation ≡ s.generation
    pub sending : s'.sending ≡ s.sending
    pub timer : s.sending ≡ true → s'.timer ≡ s.timer
    pub high : high_count s.buffer ≤ high_count s'.buffer

  Grown-refl :
      (s : Sdk) → IsSized s max_events max_bytes → IsValid host.json s.diagnostics → Grown s s
  Grown-refl s h v = record {
    sized = h;
    valid = v;
    inflight = refl;
    generation = refl;
    sending = refl;
    timer = λ on. refl;
    high = omega arith;
  }

  pub Grown-trans : (s t u : Sdk) → Grown s t → Grown t u → Grown s u
  Grown-trans s t u a b = record {
    sized = b.sized;
    valid = b.valid;
    inflight = b.inflight ∙ a.inflight;
    generation = b.generation ∙ a.generation;
    sending = b.sending ∙ a.sending;
    timer = λ on. b.timer (a.sending ∙ on) ∙ a.timer on;
    high = omega (arith, a.high, b.high);
  }

  Offered-Grown :
      (s s' : Sdk) (e : Event) (accepted : Bool)
      → Offered host max_events max_bytes s e s' accepted
      → Grown s s'
  Offered-Grown s s' e accepted o = record {
    sized = o.sized;
    valid = o.valid;
    inflight = o.inflight;
    generation = o.still.generation;
    sending = o.still.sending;
    timer = o.still.timer;
    high = omega (arith, o.high);
  }

  -- An offer ends, with what `Offered` says.
  pub offer-Offered :
      (s : Sdk) (e : Event) (bytes now monotonic : ℕ)
      → IsSized s max_events max_bytes
      → IsValid host.json s.diagnostics
      → Fresh e.ident s.buffer
      → (s' : Sdk) × (accepted : Bool) × (offer_protected_event host s e bytes max_events max_bytes
            now monotonic
          ≡ some (s', accepted))
        × Offered host max_events max_bytes s e s' accepted
  offer-Offered s e bytes now monotonic h v f =
      ended (offer_protected_event host s e bytes max_events max_bytes now monotonic)
        (offer_protected_event-OfferOf host max_events max_bytes s e bytes now monotonic h v f)
    where
      ended :
          (o : Option (Sdk × Bool))
          → OfferOf host max_events max_bytes s e bytes o
          → (s' : Sdk) × (accepted : Bool) × (o ≡ some (s', accepted))
            × Offered host max_events max_bytes s e s' accepted
      ended none r = absurd r
      ended (some (s', accepted)) (o, why) = (s', accepted, refl, o)

  AllNew-later :
      (e : Event) (s s' : Sdk) (accepted : Bool) (rest : List (Event × ℕ))
      → Offered host max_events max_bytes s e s' accepted
      → All (λ offer. (e.ident == offer.0.ident) ≡ false) rest
      → AllNew rest s.buffer
      → AllNew rest s'.buffer
  AllNew-later e s s' accepted [] o other new = tt
  AllNew-later e s s' accepted ((x, bytes) ∷ rest) o other new = (
    o.still.fresh x.ident other.0 new.0,
    new.1,
    AllNew-later e s s' accepted rest o other.1 new.2,
  )

  pub offer_all-Grown :
      (s : Sdk) (aggregates : List (Event × ℕ)) (now monotonic : ℕ)
      → IsSized s max_events max_bytes
      → IsValid host.json s.diagnostics
      → AllNew aggregates s.buffer
      → (s' : Sdk) × (offer_all host max_events max_bytes s aggregates now monotonic ≡ some s')
        × Grown s s'
        × ((i : ℕ) → Apart i aggregates → Fresh i s.buffer → Fresh i s'.buffer)
  unfolding offer_all
  offer_all-Grown s [] now monotonic h v new = (s, refl, Grown-refl s h v, λ i apart f. f)
  offer_all-Grown s ((e, bytes) ∷ rest) now monotonic h v (new, other, later) =
      let (t, accepted, done, o) = offer-Offered s e bytes now monotonic h v new in
      let (u, done', grown, fresh) =
        offer_all-Grown t rest now monotonic o.sized o.valid
          (AllNew-later e s t accepted rest o other later) in
      (
        u,
        rw done done',
        Grown-trans s t u (Offered-Grown s t e accepted o) grown,
        λ i apart f. fresh i apart.1 (o.still.fresh i apart.0 f),
      )

  reported_drops-Grown :
      (s t : Sdk) (count begun_at : ℕ) (accepted : Bool)
      → Grown s t
      → Grown s (reported_drops t count begun_at accepted)
  reported_drops-Grown s t count begun_at false g = g
  reported_drops-Grown s t count begun_at true g = record {
    sized =
        IsSized-same t (reported_drops t count begun_at true) max_events max_bytes refl refl refl
          g.sized;
    valid = g.valid;
    inflight = g.inflight;
    generation = g.generation;
    sending = g.sending;
    timer = g.timer;
    high = g.high;
  }

  -- The object of the report, where there is one, is new.
  abbrev pub NewReport : Option (Event × ℕ) → List (Event × ℕ) → List Event → Type 0
  NewReport none aggregates es = Unit
  NewReport (some (e, bytes)) aggregates es = Apart e.ident aggregates × Fresh e.ident es

  pub offer_pressure-Grown :
      (s : Sdk) (pressure : Option (Event × ℕ)) (count begun_at now monotonic : ℕ)
      → IsSized s max_events max_bytes
      → IsValid host.json s.diagnostics
      → NewReport pressure [] s.buffer
      → (s' : Sdk) × (offer_pressure host max_events max_bytes s pressure count begun_at now
            monotonic
          ≡ some s')
        × Grown s s'
  unfolding offer_pressure
  offer_pressure-Grown s none count begun_at now monotonic h v new = (s, refl, Grown-refl s h v)
  offer_pressure-Grown s (some (e, bytes)) count begun_at now monotonic h v new =
      elim (Bool-cases
        (ltb (length s.buffer) max_events && leb (s.buffer_bytes + bytes) max_bytes)) [
          | inr full ↦ (s, rw full refl, Grown-refl s h v)
          | inl fits ↦
              let (t, accepted, done, o) = offer-Offered s e bytes now monotonic h v new.1 in
              (
                reported_drops t count begun_at accepted,
                rw (fits, done) refl,
                reported_drops-Grown s t count begun_at accepted (Offered-Grown s t e accepted o),
              )
        ]
