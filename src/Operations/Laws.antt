-- ===== src/Operations/Laws.antt =====
-- Which operation is current, and what begin, end and clear do to it
-- (src/debugbundle/operation_context.py).
use debugbundle_python.Prelude.{
  ℕ, ◌+◌, ◌≤◌, ◌<◌, ◌≡◌, ◌↔◌, refl, subst, sym, ◌∙◌, String, Option, none, some, true, false, List,
  [], ◌∷◌, All, length, contains, arith, nat_eqb, nat_eqb_iff, nat_eq, inl, inr, Bool-cases,
  Option-cases, >>=-eq-some, ==_refl,
}
use debugbundle_python.Prelude.Dict.{Dict, get, put, AllEntries}
use debugbundle_python.Prelude.Dict.Laws.{AllEntries-get, AllEntries-put, get-put_self}
use debugbundle_python.Json.{Json}
use debugbundle_python.Ownership.{Token, Context, alive, find, depth}
use debugbundle_python.Ownership.Chains.{
  Below, IsChain, IsLive, alive-IsChain, alive_of_IsChain, alive-some, alive-put, depth-IsChain,
  IsLive-on_chain, find_here, find-get,
}
use debugbundle_python.Operations.{
  Operation, OperationContexts, OperationHost, owner_of, clear, current, new_operation, started,
  begin, deactivate, finish,
}
use debugbundle_python.Operations.Valid.{IsValid, IsContext, StoredOk, begin-cases, current-Below}

-- An operation with at most fourteen above it, all active and of the present revision.
abbrev pub IsCurrent : OperationContexts → Option ℕ → Type 0
IsCurrent s cursor =
    (ks : List ℕ) × IsChain owner_of s.store cursor ks
    × All (IsLive owner_of s.store s.revision) ks
    × (length ks ≤ 15)

current-alive :
    (s : OperationContexts) (c : Context)
    → alive owner_of 16 s.store s.revision (current s c) ≡ true
unfolding current
current-alive s c = elim (Bool-cases (alive owner_of 16 s.store s.revision c.value)) [
  | inl live ↦ rw live live
  | inr dead ↦ rw dead (unfold alive in refl)
]

-- An operation is current exactly when the variable of the context holds it and it is under at most
-- fourteen others, each the parent of the one before, and it and all of these are active and of the
-- present revision.
pub current_iff :
    (s : OperationContexts) (c : Context) (k : ℕ)
    → (current s c ≡ some k) ↔ ((c.value ≡ some k) × IsCurrent s (some k))
unfolding current
current_iff s c k = (
  λ h. elim (Bool-cases (alive owner_of 16 s.store s.revision c.value)) [
    | inl live ↦
        let value : c.value ≡ some k = ground (arith, live, h) in
        (value, alive-IsChain owner_of 15 s.store s.revision (some k) (rw value at live))
    | inr dead ↦ absurd (ground (arith, dead, h))
  ],
  λ (value, (ks, chain, live, short)).
      rw (value, alive_of_IsChain owner_of 15 s.store s.revision (some k) ks chain live short) refl,
)

-- In a valid state, no operation is current after clear, in any context.
pub clear-current : (s : OperationContexts) (c : Context) → IsValid s → current (clear s) c ≡ none
unfolding clear
clear-current s c v = elim (Option-cases (current (clear s) c)) [
  | inl gone ↦ gone
  | inr (k, h) ↦
      let (value, (ks, chain, live, short)) = (current_iff (clear s) c k).0 h in
      let up = alive_of_IsChain owner_of 15 s.store (s.revision + 1) (some k) ks chain live short in
      let (o, found, active, stamped, above) =
        alive-some owner_of 15 s.store (s.revision + 1) k up in
      let ok = AllEntries-get (StoredOk s.next s.revision) s.store k o v.stored found in
      absurd (omega (arith, ok.2, stamped))
]

pub older_of :
    (d : Dict ℕ Operation) (n r : ℕ)
    → AllEntries (StoredOk n r) d
    → AllEntries (λ k o. Below k o.parent) d
older_of [] n r a = tt
older_of ((k, o) ∷ d) n r (ok, a) = (ok.1, older_of d n r a)

-- The current operation may be a parent: there is room below it.
current-room :
    (s : OperationContexts) (c : Context) (d : ℕ)
    → depth owner_of 16 s.store (current s c) ≡ some d
    → d < 15
    → alive owner_of 15 s.store s.revision (current s c) ≡ true
current-room s c d at room =
    let (ks, chain, live, short) =
      alive-IsChain owner_of 15 s.store s.revision (current s c) (current-alive s c) in
    let size = depth-IsChain owner_of 16 s.store (current s c) d ks at chain in
    alive_of_IsChain owner_of 14 s.store s.revision (current s c) ks chain live (omega arith)

current-same :
    (s s' : OperationContexts) (c : Context)
    → alive owner_of 16 s'.store s'.revision c.value ≡ alive owner_of 16 s.store s.revision c.value
    → current s' c ≡ current s c
unfolding current
current-same s s' c h = rw h refl

-- A new operation of this revision, under the current one.
module _ (s : OperationContexts) (c : Context) (v : IsValid s) (b : IsContext s c) (o : Operation)
    (under : o.parent ≡ current s c) where
  abbrev pub added : OperationContexts
  added = record s { store = put s.store s.next o; next = s.next + 2 }

  abbrev pub entered : Context
  entered = record c { value = some s.next }

  abbrev pub ended : OperationContexts
  ended = record added { store = put added.store s.next (record o { active = false }) }

  added-current :
      o.active ≡ true
      → o.revision ≡ s.revision
      → alive owner_of 15 s.store s.revision (current s c) ≡ true
      → current added entered ≡ some s.next
  unfolding current alive
  added-current active present room =
      let older = older_of s.store s.next s.revision v.stored in
      let up : alive owner_of 15 (put s.store s.next o) s.revision o.parent ≡ true =
        subst (λ q. alive owner_of 15 (put s.store s.next o) s.revision q ≡ true) (sym under)
          (alive-put owner_of s.store older 15 s.revision s.next o (current s c)
              (current-Below s c s.next b)
            ∙ room) in
      let here : nat_eqb o.revision s.revision ≡ true =
        (nat_eqb_iff o.revision s.revision).1 present in
      let live : alive owner_of 16 added.store s.revision (some s.next) ≡ true =
        rw (get-put_self s.store s.next o, alive) (rw (active, here) up) in
      rw (live, current) refl

  pub ended-current : current ended c ≡ current s c
  ended-current =
      let older = older_of s.store s.next s.revision v.stored in
      let below : Below s.next o.parent =
        subst (Below s.next) (sym under) (current-Below s c s.next b) in
      let older' = AllEntries-put (λ k p. Below k p.parent) s.store s.next o older below in
      current-same s ended c (
        alive-put owner_of added.store older' 16 s.revision s.next (record o { active = false })
          c.value b
        ∙ alive-put owner_of s.store older 16 s.revision s.next o c.value b)

  pub finish-added :
      o.token_id ≡ s.next + 1
      → finish added entered (some (record { id = s.next + 1; old = c.value; context = c.id }))
        ≡ some (ended, c)
  unfolding finish
  finish-added token =
      let found = get-put_self s.store s.next o in
      rw
        (
          find_here owner_of 15 added.store (s.next + 1) s.next o found token,
          ==_refl s.next,
          ==_refl c.id,
          finish,
        )
        (rw (found, deactivate) refl)

module _ (h : OperationHost) where
  -- The state after `begin` and the matching `end`.
  abbrev pub Restores : OperationContexts → Context → OperationContexts → Context → Token → Type 0
  Restores s c s' c' t =
      (current s' c' ≡ some s.next)
      × ((s'' : OperationContexts) × (finish s' c' (some t) ≡ some (s'', c))
          × (current s'' c ≡ current s c))

  pub started-Restores :
      (s : OperationContexts) (c : Context) (options : Json) (name : Option String) (d : ℕ)
      → IsValid s
      → IsContext s c
      → depth owner_of 16 s.store (current s c) ≡ some d
      → d < 15
      → Restores s c
          (started h s c options name).0
          (started h s c options name).1
          (started h s c options name).2
  started-Restores s c options name d v b at room =
      let o = new_operation h s c options name in
      (
        added-current s c v b o refl refl refl (current-room s c d at room),
        (ended s c v b o refl, finish-added s c v b o refl refl, ended-current s c v b o refl),
      )

  -- In a valid state and a context of it, where an operation begins with a token, the new operation
  -- is current, and the end of the token in the same context ends without an error, gives the
  -- context back, and leaves current what was current before.
  pub finish-begin :
      (s : OperationContexts) (c : Context) (options : Json) (s' : OperationContexts) (c' : Context)
      (t : Token)
      → IsValid s
      → IsContext s c
      → begin h s c options ≡ (s', c', some t)
      → Restores s c s' c' t
  finish-begin s c options s' c' t v b e = elim (begin-cases h s c options) [
    | inl refused ↦ cc
    | inr (name, d, read, at, room, e') ↦
        subst RestoresAfter (sym e' ∙ e) (started-Restores s c options name d v b at room)
  ]
    where
      RestoresAfter : OperationContexts × Context × Option Token → Type 0
      RestoresAfter (s', c', none) = Unit
      RestoresAfter (s', c', some t) = Restores s c s' c' t

get-deactivate :
    (s : OperationContexts) (k : ℕ) (o : Operation)
    → get s.store k ≡ some o
    → get (deactivate s k).store k ≡ some (record o { active = false })
get-deactivate s k o stored =
    rw (stored, deactivate) (get-put_self s.store k (record o { active = false }))

-- After the end of an operation, no operation is current in a context whose chain of operations has
-- the one that ended, such as a copy of the context.
finish_revokes :
    (s s' : OperationContexts) (c c' d : Context) (t : Token) (k : ℕ) (ks : List ℕ)
    → find owner_of 16 s.store t.id c.value ≡ some k
    → finish s c (some t) ≡ some (s', c')
    → IsChain owner_of s'.store d.value ks
    → contains ks k ≡ true
    → current s' d ≡ none
unfolding finish current
finish_revokes s s' c c' d t k ks found done chain mem =
    let (o, stored) = find-get owner_of 16 s.store t.id k c.value found in
    let (c1, _, last) =
      >>=-eq-some _ (λ c'. some (deactivate s k, c')) (rw (found, finish) at done) in
    let e : deactivate s k ≡ s' = cc in
    elim (Bool-cases (alive owner_of 16 s'.store s'.revision d.value)) [
      | inr dead ↦ rw (dead, current) refl
      | inl up ↦
          let (p, at, active, stamped) =
            IsLive-on_chain owner_of 16 s'.store s'.revision k d.value ks up chain mem in
          let dead = get-deactivate s k o stored in absurd (ground (arith, dead, e, at, active))
    ]
