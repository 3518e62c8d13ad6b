-- ===== src/Suppression/Rate.antt =====
-- How often one fingerprint may pass the tracker (src/debugbundle/suppression.py).
use debugbundle_python.Prelude.{
  one_if, ℕ, suc, ◌+◌, ◌-◌, ◌*◌, ◌≤◌, ◌<◌, String, ◌/◌, ◌≡◌, refl, sym, subst, Option, none, some,
  Bool, true, false, ◌&&◌, List, [], ◌∷◌, length, arith, string_eq, ◌==◌, if◌then◌else◌, inl, inr,
  Bool-cases, Option-cases, leb,
}
use text.Mathlib.TextEquality.{eq_iff}
use debugbundle_python.Prelude.Dict.{get, get-put, get-remove_ne}
use debugbundle_python.Prelude.Dict.Laws.{length-put-le, get-put_self, length-remove_old}
use debugbundle_python.Suppression.{
  SuppressionState, Tracker, fresh, pop_oldest, claim_found, claim, observe, should_capture,
  max_tracked_fingerprints,
}

-- A sequence of calls, each with its key and its time, from `lo` on and up to `hi`.
abbrev pub Ascending : ℕ → List (String × ℕ) → ℕ → Type 0
Ascending lo [] hi = lo ≤ hi
Ascending lo ((key, now) ∷ calls) hi = (lo ≤ now) × Ascending now calls hi

-- How many calls of the fingerprint are captured.
module _ (sha256 : String → String) (fingerprint : String) where
  unfoldable pub captures : Tracker → List (String × ℕ) → ℕ
  captures t [] = 0
  captures t ((key, now) ∷ calls) =
      let (t', captured) = should_capture sha256 t key now in
      let rest = captures t' calls in
      if sha256 key == fingerprint && captured then suc rest else rest

-- A state that no call has seen later than `lo`.
abbrev Timely : ℕ → SuppressionState → Type 0
Timely lo s = (s.emitted_count ≤ 3) × (s.window_started_at ≤ s.last_seen_at) × (s.last_seen_at ≤ lo)

-- What has been spent: the start of the window, and ten seconds for each event emitted in it.
abbrev spent : SuppressionState → ℕ
spent s = s.window_started_at + 10_000 * s.emitted_count

observe_spends :
    (s : SuppressionState) (now lo : ℕ)
    → Timely lo s
    → lo ≤ now
    → (10_000 * one_if (observe s now).1 + spent s ≤ spent (observe s now).0)
      × Timely now (observe s now).0
unfolding observe
observe_spends s now lo h le = ground arith

-- The state that a call works on: the tracked one, or a fresh one.
abbrev current : Option SuppressionState → ℕ → SuppressionState
current none now = fresh now
current (some s) now = s

claim-current : (t : Tracker) (k : String) (now : ℕ) → (claim t k now).1 ≡ current (get t k) now
unfolding claim claim_found
claim-current t k now = elim (Option-cases (get t k)) [
  | inl new ↦ rw new refl
  | inr (s, known) ↦ rw known refl
]

-- With room in the tracker a call touches no other fingerprint.
claim_other :
    (t : Tracker) (k j : String) (now : ℕ)
    → length t < max_tracked_fingerprints
    → (k == j) ≡ false
    → get (claim t k now).0 j ≡ get t j
unfolding claim claim_found
claim_other t k j now room ne = elim (Option-cases (get t k)) [
  | inl new ↦ rw (new, claim_found) (ground arith)
  | inr (s, known) ↦ rw (known, claim_found) (get-remove_ne t k j ne)
]

length-pop_or_keep :
    (t : Tracker)
    → length (if leb max_tracked_fingerprints (length t) then pop_oldest t else t) ≤ length t
unfolding pop_oldest
length-pop_or_keep [] = omega arith
length-pop_or_keep (e ∷ t) = ground arith

claim-length-le : (t : Tracker) (k : String) (now : ℕ) → length (claim t k now).0 ≤ length t
unfolding claim claim_found pop_oldest
claim-length-le t k now = elim (Option-cases (get t k)) [
  | inl new ↦ rw (new, claim_found) (length-pop_or_keep t)
  | inr (s, known) ↦ rw (known, claim_found) (omega (arith, length-remove_old t k s known))
]

module _ (sha256 : String → String) where
  get-should_capture_self :
      (t : Tracker) (key : String) (now : ℕ)
      → get (should_capture sha256 t key now).0 (sha256 key)
        ≡ some (observe (current (get t (sha256 key)) now) now).0
  unfolding should_capture
  get-should_capture_self t key now = rw (get-put_self, claim-current) refl

  captured-eq :
      (t : Tracker) (key : String) (now : ℕ)
      → (should_capture sha256 t key now).1 ≡ (observe (current (get t (sha256 key)) now) now).1
  unfolding should_capture
  captured-eq t key now = rw claim-current refl

  get-should_capture_ne :
      (t : Tracker) (key j : String) (now : ℕ)
      → length t < max_tracked_fingerprints
      → (sha256 key == j) ≡ false
      → get (should_capture sha256 t key now).0 j ≡ get t j
  unfolding should_capture
  get-should_capture_ne t key j now room ne =
      rw (get-put, ne) (claim_other t (sha256 key) j now room ne)

  length-should_capture-le :
      (t : Tracker) (key : String) (now : ℕ)
      → length (should_capture sha256 t key now).0 ≤ length t + 1
  unfolding should_capture
  length-should_capture-le t key now = omega (
    arith,
    claim-length-le t (sha256 key) now,
    length-put-le (claim t (sha256 key) now).0 (sha256 key)
        (observe (claim t (sha256 key) now).1 now).0,
  )

-- What the tracker has on the fingerprint: nothing counts as spent before `lo`.
abbrev Ready : ℕ → Option SuppressionState → Type 0
Ready lo none = Unit
Ready lo (some s) = Timely lo s

abbrev spent_so_far : ℕ → Option SuppressionState → ℕ
spent_so_far lo none = lo
spent_so_far lo (some s) = spent s

current-Ready :
    (o : Option SuppressionState) (lo now : ℕ)
    → lo ≤ now
    → Ready lo o
    → Timely now (current o now) × (spent_so_far lo o ≤ spent (current o now))
current-Ready none lo now le r = omega arith
current-Ready (some s) lo now le r = omega arith

bound_same :
    (b : Bool) (rest : ℕ) {before now after hi : ℕ}
    → before ≤ now
    → 10_000 * one_if b + now ≤ after
    → 10_000 * rest + after ≤ hi
    → 10_000 * (if b then suc rest else rest) + before ≤ hi
bound_same true rest p q r = omega arith
bound_same false rest p q r = omega arith

bound_other :
    (o : Option SuppressionState) (lo now hi rest : ℕ)
    → lo ≤ now
    → 10_000 * rest + spent_so_far now o ≤ hi
    → 10_000 * rest + spent_so_far lo o ≤ hi
bound_other none lo now hi rest le h = omega arith
bound_other (some s) lo now hi rest le h = h

Ready-later : (o : Option SuppressionState) (lo now : ℕ) → lo ≤ now → Ready lo o → Ready now o
Ready-later none lo now le r = tt
Ready-later (some s) lo now le r = omega arith

Ascending-le : (lo : ℕ) (calls : List (String × ℕ)) (hi : ℕ) → Ascending lo calls hi → lo ≤ hi
Ascending-le lo [] hi a = a
Ascending-le lo ((key, now) ∷ calls) hi a = omega (arith, Ascending-le now calls hi a.1)

module _ (sha256 : String → String) (fingerprint : String) where
  captures_bound :
      (calls : List (String × ℕ)) (t : Tracker) (lo hi : ℕ)
      → length t + length calls ≤ max_tracked_fingerprints
      → Ready lo (get t fingerprint)
      → Ascending lo calls hi
      → 10_000 * captures sha256 fingerprint t calls + spent_so_far lo (get t fingerprint)
        ≤ hi + 30_000
  unfolding captures
  captures_bound [] t lo hi room r a = elim (Option-cases (get t fingerprint)) [
    | inl new ↦ rw new (omega arith)
    | inr (s, known) ↦ let r' : Timely lo s = rw known at r in rw known (omega arith)
  ]
  captures_bound ((key, now) ∷ calls) t lo hi room r a =
      let t' = (should_capture sha256 t key now).0 in
      let k = sha256 key in
      let room' : length t' + length calls ≤ max_tracked_fingerprints =
        omega (arith, length-should_capture-le sha256 t key now) in
      let space : length t < max_tracked_fingerprints = omega arith in
      elim (Bool-cases (k == fingerprint)) [
        | inl same ↦
            let e : k ≡ fingerprint = (eq_iff k fingerprint).0 same in
            let after : get t' fingerprint
                ≡ some (observe (current (get t fingerprint) now) now).0 =
              subst (λ j. get t' j ≡ some (observe (current (get t j) now) now).0) e
                (get-should_capture_self sha256 t key now) in
            let taken : (should_capture sha256 t key now).1
                ≡ (observe (current (get t fingerprint) now) now).1 =
              subst
                (λ j. (should_capture sha256 t key now).1 ≡ (observe (current (get t j) now) now).1)
                e (captured-eq sha256 t key now) in
            let (timely, start) = current-Ready (get t fingerprint) lo now a.0 r in
            let (spends, timely') =
              observe_spends (current (get t fingerprint) now) now now timely (omega arith) in
            let rest =
              captures_bound calls t' now hi room' (subst (Ready now) (sym after) timely') a.1 in
            rw same (
              rw taken (
                bound_same (observe (current (get t fingerprint) now) now).1
                  (captures sha256 fingerprint t' calls) start spends
                  (subst
                    (λ o.
                      10_000 * captures sha256 fingerprint t' calls + spent_so_far now o
                      ≤ hi + 30_000)
                    after rest)))
        | inr other ↦
            let kept = get-should_capture_ne sha256 t key fingerprint now space other in
            let rest =
              captures_bound calls t' now hi room'
                (subst (Ready now) (sym kept) (Ready-later (get t fingerprint) lo now a.0 r)) a.1 in
            rw other (
              bound_other (get t fingerprint) lo now (hi + 30_000)
                (captures sha256 fingerprint t' calls) a.0
                (subst
                  (λ o.
                    10_000 * captures sha256 fingerprint t' calls + spent_so_far now o
                    ≤ hi + 30_000)
                  kept rest))
      ]

  -- Over calls in time order, few enough for no eviction, that start when the fingerprint is
  -- unknown, at most three events of the fingerprint pass, and one more for each ten seconds.
  pub captures_rate :
      (calls : List (String × ℕ)) (t : Tracker) (lo hi : ℕ)
      → length t + length calls ≤ max_tracked_fingerprints
      → get t fingerprint ≡ none
      → Ascending lo calls hi
      → captures sha256 fingerprint t calls ≤ 3 + (hi - lo) / 10_000
  captures_rate calls t lo hi room new a =
      let bound = captures_bound calls t lo hi room (subst (Ready lo) (sym new) tt) a in
      let bound' =
        subst (λ o. 10_000 * captures sha256 fingerprint t calls + spent_so_far lo o ≤ hi + 30_000)
          new bound in
      omega (arith, bound', Ascending-le lo calls hi a)
