-- ===== src/Operations/Valid.antt =====
-- The operations of a program are numbered as they are made, and begin, end and clear keep them so
-- (src/debugbundle/operation_context.py).
use debugbundle_python.Prelude.{
  ℕ, ◌+◌, ◌≤◌, ◌<◌, ◌≡◌, ◌⊎◌, refl, String, Option, none, some, [], ◌∷◌, arith, leb, nat_eq, inl,
  inr, Bool-cases, Option-cases,
}
use debugbundle_python.Prelude.Dict.{Dict, get, AllEntries}
use debugbundle_python.Prelude.Dict.Laws.{AllEntries-put, AllEntries-get}
use debugbundle_python.Json
use debugbundle_python.Json.{Json}
use debugbundle_python.Ownership.{Context, alive, depth}
use debugbundle_python.Ownership.Chains.{Below}
use debugbundle_python.Operations.{
  Operation, OperationContexts, OperationHost, owner_of, clear, current, name_of, values_of,
  started, begin, deactivate,
}

-- An operation that is stored: made before `next`, after its parent, and at most at this revision.
abbrev pub StoredOk : ℕ → ℕ → ℕ → Operation → Type 0
StoredOk next revision k o =
    (k < next) × Below k o.parent × (o.revision ≤ revision) × (o.token_id < next)

pub record IsValid (s : OperationContexts) : Type 0 where
  pub stored : AllEntries (StoredOk s.next s.revision) s.store

-- A context of a program in this state.
abbrev pub IsContext : OperationContexts → Context → Type 0
IsContext s c = Below s.next c.value

AllEntries-map :
    (d : Dict ℕ Operation) (n n' r r' : ℕ)
    → n ≤ n'
    → r ≤ r'
    → AllEntries (StoredOk n r) d
    → AllEntries (StoredOk n' r') d
AllEntries-map [] n n' r r' le le' a = tt
AllEntries-map ((k, o) ∷ d) n n' r r' le le' ((h, b, h', t), a) =
    ((omega arith, b, omega arith, omega arith), AllEntries-map d n n' r r' le le' a)

pub current-Below :
    (s : OperationContexts) (c : Context) (k : ℕ) → Below k c.value → Below k (current s c)
unfolding current
current-Below s c k b = elim (Bool-cases (alive owner_of 16 s.store s.revision c.value)) [
  | inl live ↦ rw live b
  | inr dead ↦ rw dead tt
]

pub clear-IsValid : (s : OperationContexts) → IsValid s → IsValid (clear s)
unfolding clear
clear-IsValid s v = record {
  stored =
      AllEntries-map s.store s.next s.next s.revision (s.revision + 1) (omega arith) (omega arith)
        v.stored;
}

module _ (h : OperationHost) where
  pub started-IsValid :
      (s : OperationContexts) (c : Context) (options : Json) (name : Option String)
      → IsValid s
      → IsContext s c
      → IsValid (started h s c options name).0
        × IsContext (started h s c options name).0 (started h s c options name).1
  started-IsValid s c options name v b = (
    record {
      stored =
          AllEntries-put (StoredOk (s.next + 2) s.revision) s.store s.next _
            (AllEntries-map s.store s.next (s.next + 2) s.revision s.revision (omega arith)
              (omega arith) v.stored)
            (omega arith, current-Below s c s.next b, omega arith, omega arith);
    },
    omega arith,
  )

  -- What `begin` does: nothing, or it starts an operation under fewer than fifteen others.
  pub begin-cases :
      (s : OperationContexts) (c : Context) (options : Json)
      → (begin h s c options ≡ (s, c, none))
        ⊎ ((name : Option String) × (d : ℕ) × (name_of h (Json.get (values_of options) "name")
              ≡ some name)
            × (depth owner_of 16 s.store (current s c) ≡ some d)
            × (d < 15)
            × (begin h s c options ≡ (
              (started h s c options name).0,
              (started h s c options name).1,
              some (started h s c options name).2,
            )))
  unfolding begin
  begin-cases s c options = elim (Option-cases (name_of h (Json.get (values_of options) "name"))) [
    | inl bad ↦ inl (rw (bad, begin) refl)
    | inr (name, read) ↦ elim (Option-cases (depth owner_of 16 s.store (current s c))) [
      | inl deep ↦ inl (rw (read, deep, begin) refl)
      | inr (d, at) ↦ elim (Bool-cases (leb 15 d)) [
        | inl deep ↦ inl (rw (read, at, deep, begin) refl)
        | inr room ↦ inr (name, d, read, at, ground (arith, room), rw (read, at, room, begin) refl)
      ]
    ]
  ]

pub deactivate-IsValid : (s : OperationContexts) (k : ℕ) → IsValid s → IsValid (deactivate s k)
deactivate-IsValid s k v = elim (Option-cases (get s.store k)) [
  | inl gone ↦ rw (gone, deactivate) v
  | inr (o, found) ↦
      let ok = AllEntries-get (StoredOk s.next s.revision) s.store k o v.stored found in
      rw (found, deactivate)
        (record { stored = AllEntries-put (StoredOk s.next s.revision) s.store k _ v.stored ok })
]
