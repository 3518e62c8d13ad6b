-- ===== src/Scopes/Laws.antt =====
-- Binding and releasing scoped values (src/debugbundle/scope_ownership.py).
use debugbundle_python.Prelude.{
  ℕ, ◌+◌, ◌≤◌, ◌≡◌, refl, subst, ◌∙◌, Option, none, some, false, List, All, length, arith, ltb,
  nat_eq, if◌then◌else◌, inl, inr, Bool-cases, ==_refl,
}
use debugbundle_python.Prelude.Dict.{put, AllEntries}
use debugbundle_python.Prelude.Dict.Laws.{get-put_self, AllEntries-put}
use debugbundle_python.Ownership.{Token, Context, alive}
use debugbundle_python.Ownership.Chains.{
  Below, IsChain, IsLive, alive_of_IsChain, alive_too_long, alive-put, find_here,
}
use debugbundle_python.Scopes.{
  Scoped, Scopes, lease_owner, living, new_scoped, bind, revoke, release_lease, operation_of,
}

module _ {V : Type 0} where
  -- The values that are bound are numbered as they are made: the owner of each was made before it.
  abbrev pub IsNumbered : Scopes V → Type 0
  IsNumbered s = AllEntries (λ k x. Below k x.lease.parent) s.store

  living-Below :
      (s : Scopes V) (generation : ℕ) (c : Context) (k : ℕ)
      → Below k c.value
      → Below k (living s generation c)
  unfolding living
  living-Below s generation c k b =
      elim (Bool-cases (alive lease_owner 16 s.store generation c.value)) [
        | inl live ↦ rw live b
        | inr dead ↦ rw dead tt
      ]

  pub bind-IsNumbered :
      (s : Scopes V) (generation : ℕ) (c : Context) (value : V) (operation : Option Token)
      → IsNumbered s
      → Below s.next c.value
      → IsNumbered (bind s generation c value operation).0
  unfolding bind
  bind-IsNumbered s generation c value operation older b =
      AllEntries-put (λ k x. Below k x.lease.parent) s.store s.next
        (new_scoped s generation c value operation) older (living-Below s generation c s.next b)

  -- A new value lives where fourteen rounds reach the end above the value that owns it.
  bound-alive :
      (s : Scopes V) (generation : ℕ) (c : Context) (value : V) (operation : Option Token)
      → IsNumbered s
      → Below s.next c.value
      → alive lease_owner 16 (bind s generation c value operation).0.store generation (some s.next)
        ≡ alive lease_owner 15 s.store generation (living s generation c)
  unfolding bind alive
  bound-alive s generation c value operation older b =
      let x = new_scoped s generation c value operation in
      let kept =
        alive-put lease_owner s.store older 15 generation s.next x (living s generation c)
          (living-Below s generation c s.next b) in
      rw (get-put_self s.store s.next x, alive) (rw (==_refl generation) kept)

  -- Where each scoped value was made after its owner, and the value of the variable has a chain of
  -- at most fifteen leases, all active and of the present generation, a value that is bound lives
  -- where the chain has fewer than fifteen leases, and does not live where it has fifteen.
  pub living-bind :
      (s : Scopes V) (generation : ℕ) (c : Context) (value : V) (operation : Option Token)
      (ks : List ℕ)
      → IsNumbered s
      → Below s.next c.value
      → IsChain lease_owner s.store c.value ks
      → All (IsLive lease_owner s.store generation) ks
      → length ks ≤ 15
      → living
          (bind s generation c value operation).0
          generation
          (bind s generation c value operation).1
        ≡ (if ltb (length ks) 15 then some s.next else none)
  living-bind s generation c value operation ks older b chain live short =
      let all = alive_of_IsChain lease_owner 15 s.store generation c.value ks chain live short in
      let parent : living s generation c ≡ c.value = unfold living in rw all refl in
      let bound : alive lease_owner 16 (bind s generation c value operation).0.store generation
            (some s.next)
          ≡ alive lease_owner 15 s.store generation c.value =
        subst
          (λ q.
            alive lease_owner 16 (bind s generation c value operation).0.store generation
              (some s.next)
            ≡ alive lease_owner 15 s.store generation q)
          parent (bound-alive s generation c value operation older b) in
      elim (Bool-cases (ltb (length ks) 15)) [
        | inl room ↦
            let up =
              alive_of_IsChain lease_owner 14 s.store generation c.value ks chain live
                (ground (arith, room)) in
            rw room (unfold living in unfold bind in rw (bound ∙ up, living) refl)
        | inr deep ↦
            let up =
              alive_too_long lease_owner 15 s.store generation c.value ks chain
                (ground (arith, deep)) in
            rw deep (unfold living in unfold bind in rw (bound ∙ up, living) refl)
      ]

  -- Where each scoped value was made after its owner, the release of a value that was bound ends
  -- without an error, gives the context and the token of the operation back, and at every
  -- generation the same value lives as before.
  pub release-bind :
      (s : Scopes V) (generation : ℕ) (c : Context) (value : V) (operation : Option Token)
      → IsNumbered s
      → Below s.next c.value
      → (s' : Scopes V) × (release_lease
            (bind s generation c value operation).0
            (bind s generation c value operation).1
            (bind s generation c value operation).2
          ≡ some (s', c, operation))
        × ((later : ℕ) → living s' later c ≡ living s later c)
  unfolding bind release_lease living
  release-bind s generation c value operation older b =
      let x = new_scoped s generation c value operation in
      let found = get-put_self s.store s.next x in
      let bound = bind s generation c value operation in
      let older' = bind-IsNumbered s generation c value operation older b in
      let x' : Scoped V = record x { lease = record x.lease { active = false } } in
      (
        record bound.0 { store = put bound.0.store s.next x' },
        rw
            (
              find_here lease_owner 15 bound.0.store (s.next + 1) s.next x found refl,
              ==_refl s.next,
              ==_refl c.id,
              release_lease,
            )
            (rw (found, revoke, operation_of) refl),
        λ later.
            rw
              (
                alive-put lease_owner bound.0.store older' 16 later s.next x' c.value b
                    ∙ alive-put lease_owner s.store older 16 later s.next x c.value b,
                living,
              )
              refl,
      )
