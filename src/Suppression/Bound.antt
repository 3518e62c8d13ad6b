-- ===== src/Suppression/Bound.antt =====
-- The tracker's size and the consistency of its states (src/debugbundle/suppression.py).
use debugbundle_python.Prelude.{
  ℕ, ◌+◌, ◌-◌, ◌≤◌, String, leb, leb→gt, tests, inl, inr, Bool-cases, Option-cases, ◌≡◌, none, some,
  not, [], ◌∷◌, length, arith, string_eq, nat_eqb, is_some,
}
use debugbundle_python.Prelude.Dict.{get, UniqueKeys, AllEntries}
use debugbundle_python.Prelude.Dict.Laws.{
  UniqueKeys-put, UniqueKeys-remove, get-remove_self, length-remove_old, length-put_new,
  AllEntries-put, AllEntries-remove, AllEntries-get,
}
use debugbundle_python.Suppression.{
  SuppressionState, Tracker, fresh, pop_oldest, claim_found, claim, observe, should_capture,
  max_tracked_fingerprints,
}

-- At most three events leave a window, and a pending count has its two times.
pub record IsConsistent (s : SuppressionState) : Type 0 where
  pub emitted : s.emitted_count ≤ 3
  pub first : is_some s.pending_first_seen_at ≡ not (nat_eqb s.pending_suppressed_count 0)
  pub last : is_some s.pending_last_seen_at ≡ not (nat_eqb s.pending_suppressed_count 0)

pub record IsValid (t : Tracker) : Type 0 where
  pub bounded : length t ≤ max_tracked_fingerprints
  pub unique : UniqueKeys t
  pub consistent : AllEntries (λ _ s. IsConsistent s) t

IsConsistent-fresh : (now : ℕ) → IsConsistent (fresh now)
IsConsistent-fresh now = ground arith

pub observe-IsConsistent :
    (s : SuppressionState) (now : ℕ) → IsConsistent s → IsConsistent (observe s now).0
unfolding observe
observe-IsConsistent s now h = ground arith

-- What `claim` hands over: a state, and others that leave room for it.
record Claimed (fingerprint : String) (c : Tracker × SuppressionState) : Type 0 where
  room : length c.0 + 1 ≤ max_tracked_fingerprints
  absent : get c.0 fingerprint ≡ none
  others : UniqueKeys c.0
  consistent : AllEntries (λ _ s. IsConsistent s) c.0
  state : IsConsistent c.1

IsValid-pop_oldest :
    (t : Tracker) (k : String)
    → IsValid t
    → get t k ≡ none
    → (get (pop_oldest t) k ≡ none)
      × IsValid (pop_oldest t)
      × (length (pop_oldest t) ≡ length t - 1)
unfolding pop_oldest get
IsValid-pop_oldest [] k v h = (h, v, omega arith)
IsValid-pop_oldest ((j, s) ∷ t) k v h = (
  ground arith,
  record { bounded = omega (arith, v.bounded); unique = v.unique.1; consistent = v.consistent.1 },
  omega arith,
)

claim_new :
    (t : Tracker) (k : String) (now : ℕ)
    → IsValid t
    → get t k ≡ none
    → Claimed k (claim_found none t k now)
unfolding claim_found
claim_new t k now v h = elim (Bool-cases (leb max_tracked_fingerprints (length t))) [
  | inl full ↦
      let (gone, v', size) = IsValid-pop_oldest t k v h in
      rw full (record {
        room = omega (tests, v.bounded);
        absent = gone;
        others = v'.unique;
        consistent = v'.consistent;
        state = IsConsistent-fresh now;
      })
  | inr open_slot ↦ rw open_slot (record {
    room = omega (tests, leb→gt _ _ open_slot);
    absent = h;
    others = v.unique;
    consistent = v.consistent;
    state = IsConsistent-fresh now;
  })
]

claim_known :
    (t : Tracker) (k : String) (now : ℕ) (s : SuppressionState)
    → IsValid t
    → get t k ≡ some s
    → Claimed k (claim_found (some s) t k now)
unfolding claim_found
claim_known t k now s v h = record {
  room = omega (arith, length-remove_old t k s h, v.bounded);
  absent = get-remove_self t k v.unique;
  others = UniqueKeys-remove t k v.unique;
  consistent = AllEntries-remove _ t k v.consistent;
  state = AllEntries-get (λ _ s. IsConsistent s) t k s v.consistent h;
}

claim-Claimed : (t : Tracker) (k : String) (now : ℕ) → IsValid t → Claimed k (claim t k now)
unfolding claim
claim-Claimed t k now v = elim (Option-cases (get t k)) [
  | inl new ↦ rw new (claim_new t k now v new)
  | inr (s, known) ↦ rw known (claim_known t k now s v known)
]

module _ (sha256 : String → String) where
  -- A call keeps the tracker valid: at most MAX_TRACKED_FINGERPRINTS states, one for a fingerprint,
  -- each with at most three emitted events and with its pending times present exactly where its
  -- pending count is not zero.
  pub should_capture-IsValid :
      (t : Tracker) (key : String) (now : ℕ)
      → IsValid t
      → IsValid (should_capture sha256 t key now).0
  unfolding should_capture
  should_capture-IsValid t key now v =
      let k = sha256 key in
      let c = claim-Claimed t k now v in
      record {
        bounded = omega (
          arith,
          length-put_new (claim t k now).0 k (observe (claim t k now).1 now).0 c.absent,
          c.room,
        );
        unique = UniqueKeys-put _ k _ c.others;
        consistent =
            AllEntries-put (λ _ s. IsConsistent s) _ k _ c.consistent
              (observe-IsConsistent _ now c.state);
      }
