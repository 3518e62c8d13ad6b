-- ===== src/Queue/Placing.antt =====
-- Where `offer_protected_event` puts an event (src/debugbundle/queue_admission.py).
use mathlib.Core.List.{append-nil}
use debugbundle_python.Prelude.{
  ℕ, zero, suc, ◌≤◌, ◌≡◌, refl, ap, sym, Bool, List, [], ◌∷◌, ◌++◌, length, arith, nat_eq, take,
  inl, inr, Bool-cases, not, ◌&&◌, ◌||◌,
}
use debugbundle_python.Sdk.{Sdk, Event, event_type_is}
use debugbundle_python.Queue.{high_priority_event, insert_high, placed}

-- An event among the others, behind those in flight.
pub record Placed (k : ℕ) (es : List Event) (e : Event) (es' : List Event) : Type 0 where
  pub front : List Event
  pub back : List Event
  pub before : es ≡ front ++ back
  pub after : es' ≡ front ++ e ∷ back
  pub flight : k ≤ length es → take k es' ≡ take k es

insert_high-Placed : (k : ℕ) (e : Event) (es : List Event) → Placed k es e (insert_high k e es)
unfolding insert_high
insert_high-Placed zero e [] = record {
  front = [];
  back = [];
  before = refl;
  after = refl;
  flight = λ le. refl;
}
insert_high-Placed (suc k) e [] = record {
  front = [];
  back = [];
  before = refl;
  after = refl;
  flight = λ le. absurd (omega arith);
}
insert_high-Placed (suc k) e (x ∷ es) =
    let p = insert_high-Placed k e es in
    record {
      front = x ∷ p.front;
      back = p.back;
      before = ap (◌∷◌ x) p.before;
      after = ap (◌∷◌ x) p.after;
      flight = λ le. ap (◌∷◌ x) (p.flight (omega arith));
    }
insert_high-Placed zero e (x ∷ es) = elim (Bool-cases (high_priority_event x)) [
  | inl high ↦
      let p = insert_high-Placed zero e es in
      rw high (record {
        front = x ∷ p.front;
        back = p.back;
        before = ap (◌∷◌ x) p.before;
        after = ap (◌∷◌ x) p.after;
        flight = λ le. refl;
      })
  | inr low ↦
      rw low
        (record { front = []; back = x ∷ es; before = refl; after = refl; flight = λ le. refl })
]

take-append : (k : ℕ) (es fs : List Event) → k ≤ length es → take k (es ++ fs) ≡ take k es
take-append zero es fs le = refl
take-append (suc k) [] fs le = absurd (omega arith)
take-append (suc k) (x ∷ es) fs le = ap (◌∷◌ x) (take-append k es fs (omega arith))

append-Placed : (k : ℕ) (e : Event) (es : List Event) → Placed k es e (es ++ e ∷ [])
append-Placed k e es = record {
  front = es;
  back = [];
  before = sym (append-nil es);
  after = refl;
  flight = take-append k es (e ∷ []);
}

pub placed-Placed :
    (s : Sdk) (e : Event) (high under_pressure : Bool)
    → Placed s.inflight_count s.buffer e (placed s e high under_pressure).buffer
placed-Placed s e high under_pressure =
    elim (Bool-cases (high && (not (event_type_is e "request_event") || under_pressure))) [
      | inl first ↦ rw first (insert_high-Placed s.inflight_count e s.buffer)
      | inr last ↦ rw last (append-Placed s.inflight_count e s.buffer)
    ]
