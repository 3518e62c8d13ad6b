-- ===== src/Operations/Runs.antt =====
-- Sequences of begin, end and clear in the contexts of a program
-- (src/debugbundle/operation_context.py).
use debugbundle_python.Prelude.{
  ℕ, ◌≡◌, Option, none, some, arith, nat_eqb, inl, inr, Bool-cases, Option-cases, subst, sym,
  nat_eq,
}
use debugbundle_python.Prelude.Dict.{get}
use debugbundle_python.Json.{Json}
use debugbundle_python.Ownership.{Token, Context, find}
use debugbundle_python.Ownership.Chains.{Below}
use debugbundle_python.Operations.{
  OperationContexts, OperationHost, no_operations, owner_of, clear, begin, deactivate, finish,
  leave, reset, is_value,
}
use debugbundle_python.Operations.Valid.{
  IsValid, IsContext, clear-IsValid, started-IsValid, begin-cases, deactivate-IsValid,
}

-- A token of an operation whose former value was there.
abbrev pub IsToken : OperationContexts → Option Token → Type 0
IsToken s none = Unit
IsToken s (some t) = Below s.next t.old

-- The states of a program, each with a context of it that runs.
pub data Reached : OperationContexts → Context → Type 0 where
  start : (id : ℕ) → Reached no_operations (record { id = id; value = none })
  begun :
      {s : OperationContexts} {c : Context} (h : OperationHost) (options : Json)
      → Reached s c
      → Reached (begin h s c options).0 (begin h s c options).1
  left :
      {s : OperationContexts} {c : Context} (t : Option Token)
      → IsToken s t
      → Reached s c
      → Reached (leave s c t).0 (leave s c t).1
  cleared : {s : OperationContexts} {c : Context} → Reached s c → Reached (clear s) c
  elsewhere :
      {s : OperationContexts} {c : Context} (d : Context)
      → IsContext s d
      → Reached s c
      → Reached s d

abbrev BothValid : OperationContexts → Context → Type 0
BothValid s c = IsValid s × IsContext s c

begin-BothValid :
    (h : OperationHost) (s : OperationContexts) (c : Context) (options : Json)
    → BothValid s c
    → BothValid (begin h s c options).0 (begin h s c options).1
begin-BothValid h s c options (v, b) = elim (begin-cases h s c options) [
  | inl same ↦ subst (λ q. BothValid q.0 q.1) (sym same) (v, b)
  | inr (name, d, read, at, room, made) ↦
      subst (λ q. BothValid q.0 q.1) (sym made) (started-IsValid h s c options name v b)
]

reset-Below :
    (n : ℕ) (c c' : Context) (t : Token) → Below n t.old → reset c t ≡ some c' → Below n c'.value
reset-Below n c c' t b e = elim (Bool-cases (nat_eqb t.context c.id)) [
  | inl here ↦ let e' : record c { value = t.old } ≡ c' = ground (arith, here) in rw (← e') b
  | inr other ↦ absurd (ground (arith, other))
]

deactivate-IsContext :
    (s : OperationContexts) (k : ℕ) (c : Context) → IsContext s c → IsContext (deactivate s k) c
deactivate-IsContext s k c b = elim (Option-cases (get s.store k)) [
  | inl gone ↦ rw (gone, deactivate) b
  | inr (o, found) ↦ rw (found, deactivate) b
]

leave-BothValid :
    (s : OperationContexts) (c : Context) (t : Option Token)
    → IsToken s t
    → BothValid s c
    → BothValid (leave s c t).0 (leave s c t).1
unfolding finish
leave-BothValid s c none it (v, b) = (v, b)
leave-BothValid s c (some t) it (v, b) =
    elim (Option-cases (find owner_of 16 s.store t.id c.value)) [
      | inl gone ↦ rw (gone, finish) (v, b)
      | inr (k, found) ↦ elim (Bool-cases (is_value c k)) [
        | inr other ↦
            rw (found, finish) (rw (other) (deactivate-IsValid s k v, deactivate-IsContext s k c b))
        | inl mine ↦ elim (Option-cases (reset c t)) [
          | inl failed ↦ rw (found, finish) (rw (mine) (rw (failed) (v, b)))
          | inr (c', back) ↦
              let below = reset-Below s.next c c' t it back in
              rw (found, finish)
                (rw (mine)
                  (rw (back) (deactivate-IsValid s k v, deactivate-IsContext s k c' below)))
        ]
      ]
    ]

clear-BothValid : (s : OperationContexts) (c : Context) → BothValid s c → BothValid (clear s) c
clear-BothValid s c (v, b) = (clear-IsValid s v, unfold clear in b)

-- After any sequence of begin, end and clear, in any contexts of the program, each operation was
-- made after its parent, has a revision that is not later than the present one, and the variable
-- holds an operation that was made.
pub Reached-IsValid :
    {s : OperationContexts} {c : Context} → Reached s c → IsValid s × IsContext s c
Reached-IsValid (start id) = (record { stored = tt }, tt)
Reached-IsValid (begun {s} {c} h options r) = begin-BothValid h s c options (Reached-IsValid r)
Reached-IsValid (left {s} {c} t it r) = leave-BothValid s c t it (Reached-IsValid r)
Reached-IsValid (cleared {s} {c} r) = clear-BothValid s c (Reached-IsValid r)
Reached-IsValid (elsewhere d b r) = ((Reached-IsValid r).0, b)
