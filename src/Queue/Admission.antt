-- ===== src/Queue/Admission.antt =====
-- The loop of `offer_protected_event` that makes room (src/debugbundle/queue_admission.py).
use debugbundle_python.Prelude.{
  ℕ, zero, suc, ◌<◌, ◌≡◌, refl, sym, subst, Option, none, some, Bool, true, false, length, arith,
  nat_eq, drop, inl, inr, ◌⊎◌,
}
use debugbundle_python.Diagnostics.Valid.{IsValid}
use debugbundle_python.Sdk.{Sdk, Host}
use debugbundle_python.Queue.{evict_low_priority, is_full, make_room, dropped}
use debugbundle_python.Queue.Shape.{IsSized}
use debugbundle_python.Queue.Eviction.{
  AllHigh, Kept, Kept-refl, Kept-trans, EvictedOf, evict_low_priority-EvictedOf,
}

module _ (host : Host) (max_events max_bytes : ℕ) where
  -- What the loop that makes room leaves behind.
  pub record Left (s s' : Sdk) : Type 0 where
    pub sized : IsSized s' max_events max_bytes
    pub kept : Kept s s'
    pub valid : IsValid host.json s'.diagnostics

  abbrev pub RoomOf : Sdk → Bool → ℕ → Option (Sdk × Bool) → Type 0
  RoomOf s high bytes none = ⊥
  RoomOf s high bytes (some (s', true)) =
      Left s s' × (is_full s' bytes max_events max_bytes ≡ false)
  RoomOf s high bytes (some (s', false)) =
      Left s s' × ((high ≡ false) ⊎ AllHigh (drop s'.inflight_count s'.buffer))

  pub Left-refl :
      (s : Sdk) → IsSized s max_events max_bytes → IsValid host.json s.diagnostics → Left s s
  Left-refl s h v = record { sized = h; kept = Kept-refl s; valid = v }

  pub Left-dropped : (s s' : Sdk) → Left s s' → Left s (dropped s')
  Left-dropped s s' l = record {
    sized = record {
      distinct = l.sized.distinct;
      known = l.sized.known;
      bytes = l.sized.bytes;
      few = l.sized.few;
      within = l.sized.within;
    };
    kept = record {
      inflight = l.kept.inflight;
      flight = l.kept.flight;
      high = l.kept.high;
      fresh = l.kept.fresh;
      same_generation = l.kept.same_generation;
      same_sending = l.kept.same_sending;
      same_timer = l.kept.same_timer;
    };
    valid = l.valid;
  }

  RoomOf-trans :
      (s t : Sdk) (bytes : ℕ) (o : Option (Sdk × Bool))
      → Kept s t
      → RoomOf t true bytes o
      → RoomOf s true bytes o
  RoomOf-trans s t bytes (some (u, true)) k (l, e) =
      (record { sized = l.sized; kept = Kept-trans k l.kept; valid = l.valid }, e)
  RoomOf-trans s t bytes (some (u, false)) k (l, e) =
      (record { sized = l.sized; kept = Kept-trans k l.kept; valid = l.valid }, e)
  RoomOf-trans s t bytes none k r = r

  -- The rounds are enough, no size is missing, and a refusal has its reason.
  pub make_room-RoomOf :
      (rounds : ℕ) (s : Sdk) (high : Bool) (bytes : ℕ)
      → length s.buffer < rounds
      → IsSized s max_events max_bytes
      → IsValid host.json s.diagnostics
      → RoomOf s high bytes (make_room host rounds s high bytes max_events max_bytes)
  unfolding make_room
  make_room-RoomOf zero s high bytes lt h v = absurd (omega arith)
  make_room-RoomOf (suc rounds) s high bytes lt h v =
      full (make_room-RoomOf rounds) (is_full s bytes max_events max_bytes) refl high
    where
      Rest : Type 0
      Rest =
          (s' : Sdk) (high : Bool) (bytes : ℕ)
          → length s'.buffer < rounds
          → IsSized s' max_events max_bytes
          → IsValid host.json s'.diagnostics
          → RoomOf s' high bytes (make_room host rounds s' high bytes max_events max_bytes)

      again :
          Rest
          → (o : Option (Sdk × Bool)) → EvictedOf host max_events max_bytes s o
          → RoomOf s true bytes (elim o [
            | none ↦ none
            | some (s', evicted) ↦ elim evicted [
              | true ↦ make_room host rounds s' true bytes max_events max_bytes
              | false ↦ some (dropped s', false)
            ]
          ])
      again rest none r = r
      again rest (some (s', true)) r =
          RoomOf-trans s s' bytes (make_room host rounds s' true bytes max_events max_bytes) r.kept
            (rest s' true bytes (omega (arith, r.shorter)) r.sized r.valid)
      again rest (some (s', false)) (e, all_high) = (
        Left-dropped s s' (subst (Left s) (sym e) (Left-refl s h v)),
        inr (subst (λ x. AllHigh (drop x.inflight_count x.buffer)) (sym e) all_high),
      )

      full :
          Rest
          → (b : Bool) → is_full s bytes max_events max_bytes ≡ b
          → (high : Bool)
          → RoomOf s high bytes (elim b [
            | false ↦ some (s, true)
            | true ↦ elim high [
              | false ↦ some (dropped s, false)
              | true ↦ elim (evict_low_priority host s) [
                | none ↦ none
                | some (s', evicted) ↦ elim evicted [
                  | true ↦ make_room host rounds s' true bytes max_events max_bytes
                  | false ↦ some (dropped s', false)
                ]
              ]
            ]
          ])
      full rest false e high = (Left-refl s h v, e)
      full rest true e false = (Left-dropped s s (Left-refl s h v), inl refl)
      full rest true e true =
          again rest (evict_low_priority host s)
            (evict_low_priority-EvictedOf host max_events max_bytes s h v)
