-- ===== src/Flush/Downgraded.antt =====
-- What `downgrade_rejections` (src/debugbundle/evidence_delivery.py) leaves of the events that were
-- refused: smaller events that are new objects, each with its size.
use debugbundle_python.Prelude.{
  ℕ, ◌+◌, ◌-◌, ◌≤◌, ◌≡◌, refl, sym, subst, ◌∙◌, String, Option, some, Bool, true, false, not, ◌||◌,
  List, [], ◌∷◌, arith, nat_eq, ◌==◌, sum_map, length, get_elem?, All, string_eq, ◌⊎◌, inl, inr,
  Bool-cases, Option-cases,
}
use debugbundle_python.Prelude.Dict.{Dict, get, put, remove, get-put, get-remove_ne}
use debugbundle_python.Prelude.Dict.Laws.{get-put_self}
use debugbundle_python.Acknowledgement.Partition.{reported}
use debugbundle_python.Sdk.{Sdk, Event, Host, event_type_is}
use debugbundle_python.Queue.Shape.{Fresh, DistinctIds, Known, size_at}
use debugbundle_python.Flush.{pick, downgrade_one, downgrade_all, downgrade_rejections}
use debugbundle_python.Flush.Answers.{found_in_range}

abbrev pub indices_of : List (ℕ × String) → List ℕ
indices_of [] = []
indices_of ((i, reason) ∷ errors) = i ∷ indices_of errors

module _ (host : Host) (reduced : Sdk → Event → Option Event) (buffer : List Event)
    (sizes : Dict ℕ ℕ) where
  abbrev downgradable : Event → String → Bool
  downgradable x reason = not (
      not (reason == "invalid_event")
      || not (event_type_is x "backend_exception" || event_type_is x "frontend_exception"))

  -- What is left of an event is no queued object, and no longer than the event was.
  abbrev pub Shrinks : Event → Type 0
  Shrinks x =
      (t : Sdk) (e : Event)
      → reduced t x ≡ some e
      → Fresh e.ident buffer × (host.event_bytes e ≤ size_at sizes x)

  -- What is left of different events are different objects.
  abbrev pub Differ : Type 0
  Differ =
      (t t' : Sdk) (x y e f : Event)
      → (x.ident == y.ident) ≡ false
      → reduced t x ≡ some e
      → reduced t' y ≡ some f
      → (e.ident == f.ident) ≡ false

  -- The events `es` are what is left of some of the events `xs`.
  pub record Reduced (xs : List Event) (s s' : Sdk) (es : List Event) : Type 0 where
    pub only : s' ≡ record s {
      buffer_bytes = s'.buffer_bytes;
      buffer_sizes = s'.buffer_sizes;
      hook_bypass = s'.hook_bypass;
    }
    pub new : All (λ e. Fresh e.ident buffer) es
    pub distinct : DistinctIds es
    pub known : Known s'.buffer_sizes es
    pub lighter : sum_map (size_at s'.buffer_sizes) es ≤ sum_map (size_at sizes) xs
    pub fewer : length es ≤ length xs
    pub untouched : (j : ℕ) → Fresh j xs → Fresh j es → get s'.buffer_sizes j ≡ get s.buffer_sizes j
    pub apart : (t : Sdk) (x e : Event) → Fresh x.ident xs → reduced t x ≡ some e → Fresh e.ident es

  Reduced-none : (xs : List Event) (s : Sdk) → Reduced xs s s []
  Reduced-none xs s = record {
    only = refl;
    new = tt;
    distinct = tt;
    known = tt;
    lighter = omega arith;
    fewer = omega arith;
    untouched = λ j f g. refl;
    apart = λ t x e f r. tt;
  }

  -- An event of which nothing is left
  Reduced-skip :
      (y : Event) (xs es : List Event) (s s' : Sdk) → Reduced xs s s' es → Reduced (y ∷ xs) s s' es
  Reduced-skip y xs es s s' r = record {
    only = r.only;
    new = r.new;
    distinct = r.distinct;
    known = r.known;
    lighter = omega (arith, r.lighter);
    fewer = omega (arith, r.fewer);
    untouched = λ j f g. r.untouched j f.1 g;
    apart = λ t x e f red. r.apart t x e f.1 red;
  }

  module _ (differ : Differ) where
    -- The state after one event was reduced.
    abbrev reduced_state : Sdk → Event → Event → ℕ → Sdk
    reduced_state s y e old = record s {
      buffer_bytes = s.buffer_bytes + host.event_bytes e - old;
      buffer_sizes = put (remove s.buffer_sizes y.ident) e.ident (host.event_bytes e);
      hook_bypass = e.ident ∷ s.hook_bypass;
    }

    get-reduced_state :
        (s : Sdk) (y e : Event) (old j : ℕ)
        → (y.ident == j) ≡ false
        → (e.ident == j) ≡ false
        → get (reduced_state s y e old).buffer_sizes j ≡ get s.buffer_sizes j
    get-reduced_state s y e old j other new =
        let kept = get-remove_ne s.buffer_sizes y.ident j (ground (arith, other)) in
        ground
          (arith, get-put (remove s.buffer_sizes y.ident) e.ident (host.event_bytes e) j, new, kept)

    Reduced-take :
        (y e : Event) (xs es : List Event) (s s' : Sdk) (old : ℕ)
        → reduced s y ≡ some e
        → Shrinks y
        → Fresh y.ident xs
        → Fresh e.ident xs
        → Reduced xs (reduced_state s y e old) s' es
        → Reduced (y ∷ xs) s s' (e ∷ es)
    Reduced-take y e xs es s s' old red shrinks y_apart e_apart r =
        let (fresh, light) = shrinks s e red in
        let others : Fresh e.ident es = r.apart s y e y_apart red in
        let at_e : get s'.buffer_sizes e.ident ≡ some (host.event_bytes e) =
          r.untouched e.ident e_apart others
          ∙ get-put_self (remove s.buffer_sizes y.ident) e.ident (host.event_bytes e) in
        let own : size_at s'.buffer_sizes e ≡ host.event_bytes e = rw at_e refl in
        record {
          only = r.only;
          new = (fresh, r.new);
          distinct = (others, r.distinct);
          known = (rw at_e refl, r.known);
          lighter = omega (arith, own, light, r.lighter);
          fewer = omega (arith, r.fewer);
          untouched = λ j f g. r.untouched j f.1 g.1 ∙ get-reduced_state s y e old j f.0 g.0;
          apart = λ t x f_e f red'. (differ s t y x e f_e f.0 red red', r.apart t x f_e f.1 red');
        }

    -- The sizes of the events that are left to look at stay.
    abbrev pub Same : Dict ℕ ℕ → List Event → Type 0
    Same now xs = All (λ z. get now z.ident ≡ get sizes z.ident) xs

    pub Same-refl : (xs : List Event) → Same sizes xs
    Same-refl [] = tt
    Same-refl (x ∷ xs) = (refl, Same-refl xs)

    Same-reduced_state :
        (s : Sdk) (y e : Event) (old : ℕ) (xs : List Event)
        → Fresh y.ident xs
        → Fresh e.ident xs
        → Same s.buffer_sizes xs
        → Same (reduced_state s y e old).buffer_sizes xs
    Same-reduced_state s y e old [] f g h = tt
    Same-reduced_state s y e old (z ∷ xs) f g h = (
      get-reduced_state s y e old z.ident (ground (arith, f.0)) (ground (arith, g.0)) ∙ h.0,
      Same-reduced_state s y e old xs f.1 g.1 h.1,
    )

    downgrade_one-cases :
        (s : Sdk) (batch : List Event) (i : ℕ) (reason : String) (y : Event) (old : ℕ)
        → get_elem? batch i ≡ some y
        → get s.buffer_sizes y.ident ≡ some old
        → (downgrade_one host reduced s batch (i, reason) ≡ some (s, []))
          ⊎ ((e : Event) × (reduced s y ≡ some e)
              × (downgrade_one host reduced s batch (i, reason)
                  ≡ some (reduced_state s y e old, e ∷ [])))
    unfolding downgrade_one
    downgrade_one-cases s batch i reason y old found size = elim (Option-cases (reduced s y)) [
      | inl same ↦ inl (rw (found, same) (ground arith))
      | inr (e, red) ↦ elim (Bool-cases (downgradable y reason)) [
        | inl may ↦ inr (e, red, rw (found, red, size) (ground (arith, may)))
        | inr never ↦ inl (rw (found, red, size) (ground (arith, never)))
      ]
    ]

    -- What the loop relies on, for the events that are left to look at.
    abbrev pub Ready : Sdk → List Event → Type 0
    Ready s xs =
        DistinctIds xs
        × Known sizes xs
        × Same s.buffer_sizes xs
        × All Shrinks xs
        × ((j : ℕ) → Fresh j buffer → Fresh j xs)

    abbrev pub Done : Sdk → List Event → Option (Sdk × List Event) → Type 0
    Done s xs result =
        (s' : Sdk) × (es : List Event) × (result ≡ some (s', es)) × Reduced xs s s' es

    downgrade_all-cons :
        (s : Sdk) (batch : List Event) (i : ℕ) (reason : String) (errors : List (ℕ × String))
        (y : Event) (xs : List Event)
        → get_elem? batch i ≡ some y
        → Ready s (y ∷ xs)
        → ((t : Sdk) → Ready t xs → Done t xs (downgrade_all host reduced t batch errors))
        → Done s (y ∷ xs) (downgrade_all host reduced s batch ((i, reason) ∷ errors))
    unfolding downgrade_all
    downgrade_all-cons s batch i reason errors y xs found (d, k, same, shrink, inside) rest =
        elim (Option-cases (get sizes y.ident)) [
          | inl missing ↦ absurd (ground (arith, missing, k.0))
          | inr (old, size) ↦
              elim (downgrade_one-cases s batch i reason y old found (same.0 ∙ size)) [
                | inl skipped ↦
                    let (s', es, done, r) =
                      rest s (d.1, k.1, same.1, shrink.1, λ j f. (inside j f).1) in
                    (s', es, rw (skipped, done) refl, Reduced-skip y xs es s s' r)
                | inr (e, red, taken) ↦
                    let e_apart : Fresh e.ident xs = (inside e.ident (shrink.0 s e red).0).1 in
                    let s1 : Sdk = reduced_state s y e old in
                    let (s', es, done, r) = rest s1 (
                      d.1,
                      k.1,
                      Same-reduced_state s y e old xs d.0 e_apart same.1,
                      shrink.1,
                      λ j f. (inside j f).1,
                    ) in
                    (
                      s',
                      e ∷ es,
                      rw (taken, done) refl,
                      Reduced-take y e xs es s s' old red shrink.0 d.0 e_apart r,
                    )
              ]
        ]

    downgrade_all-Reduced :
        (s : Sdk) (batch : List Event) (errors : List (ℕ × String))
        → ((i : ℕ) → length batch ≤ i → reported i errors ≡ 0)
        → Ready s (pick batch (indices_of errors))
        → Done s (pick batch (indices_of errors)) (downgrade_all host reduced s batch errors)
    unfolding downgrade_all
    downgrade_all-Reduced s batch [] below ready = (s, [], refl, Reduced-none [] s)
    downgrade_all-Reduced s batch ((i, reason) ∷ errors) below ready =
        elim (Option-cases (get_elem? batch i)) [
          | inl out ↦ absurd (ground (arith, out, found_in_range batch i (ground (arith, below i))))
          | inr (y, found) ↦
              let rest : List Event = pick batch (indices_of errors) in
              let here : pick batch (i ∷ indices_of errors) ≡ y ∷ rest = rw (found, pick) refl in
              subst (λ xs. Done s xs (downgrade_all host reduced s batch ((i, reason) ∷ errors)))
                (sym here)
                (downgrade_all-cons s batch i reason errors y rest found
                  (subst (Ready s) here ready)
                  (λ t. downgrade_all-Reduced t batch errors (λ j le. omega (arith, below j le))))
        ]

    -- For a batch of which no index is out of range, the refused events that are in the queue with
    -- their sizes are followed without an error.
    pub downgrade_rejections-Reduced :
        (s : Sdk) (batch : List Event) (errors : List (ℕ × String)) (lost : Bool)
        → ((i : ℕ) → length batch ≤ i → reported i errors ≡ 0)
        → Ready s (pick batch (indices_of errors))
        → Done s
            (pick batch (indices_of errors))
            (downgrade_rejections host reduced s batch errors lost)
    unfolding downgrade_rejections
    downgrade_rejections-Reduced s batch errors true below ready =
        downgrade_all-Reduced s batch errors below ready
    downgrade_rejections-Reduced s batch errors false below ready = (s, [], refl, Reduced-none _ s)
