-- ===== src/Queue/Shape.antt =====
-- The shape of the queue: distinct objects, each with its size, and their bytes
-- (src/debugbundle/queue_admission.py).
use debugbundle_python.Prelude.{
  ℕ, ◌+◌, ◌≤◌, ◌≡◌, refl, true, false, List, [], ◌∷◌, ◌++◌, length, arith, nat_eq, ◌==◌, sum_map,
  All, one_if, or_else, is_some,
}
use debugbundle_python.Prelude.Dict.{Dict, get, put, remove, get-put, get-remove_ne}
use debugbundle_python.Sdk.{Sdk, Event}
use debugbundle_python.Queue.{high_priority_event}

-- No event of the list is the object `i`.
abbrev pub Fresh : ℕ → List Event → Type 0
Fresh i = All (λ e. (e.ident == i) ≡ false)

abbrev pub DistinctIds : List Event → Type 0
DistinctIds [] = Unit
DistinctIds (e ∷ es) = Fresh e.ident es × DistinctIds es

abbrev pub size_at : Dict ℕ ℕ → Event → ℕ
size_at sizes e = or_else (get sizes e.ident) 0

abbrev pub Known : Dict ℕ ℕ → List Event → Type 0
Known sizes = All (λ e. is_some (get sizes e.ident) ≡ true)

-- The queue of a state is within its limits, and its bytes are the sum of the recorded sizes.
pub record IsSized (s : Sdk) (max_events max_bytes : ℕ) : Type 0 where
  pub distinct : DistinctIds s.buffer
  pub known : Known s.buffer_sizes s.buffer
  pub bytes : s.buffer_bytes ≡ sum_map (size_at s.buffer_sizes) s.buffer
  pub few : length s.buffer ≤ max_events
  pub within : s.buffer_bytes ≤ max_bytes

-- The same queue in another state
pub IsSized-same :
    (s s' : Sdk) (max_events max_bytes : ℕ)
    → s'.buffer ≡ s.buffer
    → s'.buffer_sizes ≡ s.buffer_sizes
    → s'.buffer_bytes ≡ s.buffer_bytes
    → IsSized s max_events max_bytes
    → IsSized s' max_events max_bytes
IsSized-same s s' max_events max_bytes buffer sizes bytes h = record {
  distinct = rw buffer h.distinct;
  known = rw (buffer, sizes) h.known;
  bytes = rw (buffer, sizes, bytes) h.bytes;
  few = rw buffer h.few;
  within = rw bytes h.within;
}

-- The events of high priority.
abbrev pub high_count : List Event → ℕ
high_count = sum_map (λ e. one_if (high_priority_event e))

pub sizes-put :
    (sizes : Dict ℕ ℕ) (i v : ℕ) (es : List Event)
    → Fresh i es
    → (sum_map (size_at (put sizes i v)) es ≡ sum_map (size_at sizes) es)
      × (Known sizes es → Known (put sizes i v) es)
sizes-put sizes i v [] f = (refl, λ k. tt)
sizes-put sizes i v (e ∷ es) f =
    let (same, keep) = sizes-put sizes i v es f.1 in
    let at_e : get (put sizes i v) e.ident ≡ get sizes e.ident =
      ground (arith, get-put sizes i v e.ident, f.0) in
    (rw (at_e, same) refl, λ k. (rw at_e k.0, keep k.1))

pub sizes-remove :
    (sizes : Dict ℕ ℕ) (i : ℕ) (es : List Event)
    → Fresh i es
    → (sum_map (size_at (remove sizes i)) es ≡ sum_map (size_at sizes) es)
      × (Known sizes es → Known (remove sizes i) es)
sizes-remove sizes i [] f = (refl, λ k. tt)
sizes-remove sizes i (e ∷ es) f =
    let (same, keep) = sizes-remove sizes i es f.1 in
    let at_e : get (remove sizes i) e.ident ≡ get sizes e.ident =
      get-remove_ne sizes i e.ident (ground (arith, f.0)) in
    (rw (at_e, same) refl, λ k. (rw at_e k.0, keep k.1))

-- What a predicate on all events says when one is taken out of the middle, or put there.
pub All-middle {μ} :
    (P : Event → Type μ) (front : List Event) (e : Event) (back : List Event)
    → All P (front ++ e ∷ back)
    → P e × All P (front ++ back)
All-middle P [] e back a = a
All-middle P (x ∷ front) e back a =
    let rest = All-middle P front e back a.1 in (rest.0, (a.0, rest.1))

pub All-insert {μ} :
    (P : Event → Type μ) (front : List Event) (e : Event) (back : List Event)
    → P e
    → All P (front ++ back)
    → All P (front ++ e ∷ back)
All-insert P [] e back p a = (p, a)
All-insert P (x ∷ front) e back p a = (a.0, All-insert P front e back p a.1)

pub sum_map-middle :
    (f : Event → ℕ) (front : List Event) (e : Event) (back : List Event)
    → sum_map f (front ++ e ∷ back) ≡ f e + sum_map f (front ++ back)
sum_map-middle f [] e back = refl
sum_map-middle f (x ∷ front) e back = omega (arith, sum_map-middle f front e back)

pub DistinctIds-middle :
    (front : List Event) (e : Event) (back : List Event)
    → DistinctIds (front ++ e ∷ back)
    → Fresh e.ident (front ++ back) × DistinctIds (front ++ back)
DistinctIds-middle [] e back d = d
DistinctIds-middle (x ∷ front) e back d =
    let rest = DistinctIds-middle front e back d.1 in
    let out = All-middle (λ y. (y.ident == x.ident) ≡ false) front e back d.0 in
    ((ground (arith, out.0), rest.0), (out.1, rest.1))

pub DistinctIds-insert :
    (front : List Event) (e : Event) (back : List Event)
    → Fresh e.ident (front ++ back)
    → DistinctIds (front ++ back)
    → DistinctIds (front ++ e ∷ back)
DistinctIds-insert [] e back f d = (f, d)
DistinctIds-insert (x ∷ front) e back f d = (
  All-insert (λ y. (y.ident == x.ident) ≡ false) front e back (ground (arith, f.0)) d.0,
  DistinctIds-insert front e back f.1 d.1,
)

pub sum_map-length : (es : List Event) → sum_map (λ x. 1) es ≡ length es
sum_map-length [] = refl
sum_map-length (x ∷ es) = omega (arith, sum_map-length es)
