-- ===== src/Operations/Stacks.antt =====
-- The operations of a context are a stack of at most fifteen (src/debugbundle/operation_context.py).
use debugbundle_python.Prelude.{
  ℕ, zero, suc, ◌+◌, ◌≤◌, ◌<◌, ◌≡◌, ◌∙◌, refl, sym, ap, subst, eq_of_some, String, Option, none,
  some, true, false, List, [], ◌∷◌, length, All, arith, leb, ltb, nat_eq, if◌then◌else◌, is_some,
  inl, inr, Bool-cases, Option-cases,
}
use debugbundle_python.Prelude.Dict.{Dict, get, put, get-put, AllEntries}
use debugbundle_python.Prelude.Dict.Laws.{AllEntries-get, AllEntries-put, get-put_self}
use debugbundle_python.Json
use debugbundle_python.Json.{Json}
use debugbundle_python.Ownership.{Token, Context, depth}
use debugbundle_python.Ownership.Chains.{Below, IsChain, IsLive}
use debugbundle_python.Operations.{
  Operation, OperationContexts, OperationHost, owner_of, clear, current, name_of, values_of,
  new_operation, started, begin, finish,
}
use debugbundle_python.Operations.Valid.{
  IsValid, IsContext, StoredOk, started-IsValid, current-Below, clear-IsValid,
}
use debugbundle_python.Operations.Laws.{
  older_of, clear-current, started-Restores, ended, finish-added, ended-current,
}

-- The abstract state: the operations in progress, the latest first. A sixteenth is not begun.
abbrev pub Stack : Type 0
Stack = List ℕ

abbrev pub push : ℕ → Stack → Stack
push k stack = if ltb (length stack) 15 then k ∷ stack else stack

-- A state of the program stands for a stack: the operations from the current one up, each live.
pub record Stands (s : OperationContexts) (c : Context) (stack : Stack) : Type 0 where
  pub valid : IsValid s
  pub inside : IsContext s c
  pub chain : IsChain owner_of s.store (current s c) stack
  pub live : All (IsLive owner_of s.store s.revision) stack
  pub room : length stack ≤ 15

-- A chain of older operations stays where a new one is stored.
module _ (store : Dict ℕ Operation) (k : ℕ) (o : Operation)
    (older : AllEntries (λ j a. Below j a.parent) store) where
  old_get : (j : ℕ) → j < k → get (put store k o) j ≡ get store j
  old_get j lt = ground (arith, get-put store k o j, lt)

  IsChain-put :
      (cursor : Option ℕ) (ks : List ℕ)
      → Below k cursor
      → IsChain owner_of store cursor ks
      → IsChain owner_of (put store k o) cursor ks × All (λ j. j < k) ks
  IsChain-put none [] below chain = (tt, tt)
  IsChain-put none (j ∷ ks) below chain = absurd chain
  IsChain-put (some i) [] below chain = absurd chain
  IsChain-put (some i) (j ∷ ks) below (same, (a, found, up)) =
      let lt : j < k = omega (arith, same, below) in
      let (rest, less) =
        IsChain-put a.parent ks (below_trans j a.parent lt (AllEntries-get _ store j a older found))
          up in
      ((same, (a, old_get j lt ∙ found, rest)), (lt, less))
    where
      below_trans : (j : ℕ) (p : Option ℕ) → j < k → Below j p → Below k p
      below_trans j none h b = tt
      below_trans j (some i) h b = omega arith

  IsLive-put :
      (stamp : ℕ) (ks : List ℕ)
      → All (λ j. j < k) ks
      → All (IsLive owner_of store stamp) ks
      → All (IsLive owner_of (put store k o) stamp) ks
  IsLive-put stamp [] less live = tt
  IsLive-put stamp (j ∷ ks) (lt, less) ((a, found, active, stamped), live) =
      ((a, old_get j lt ∙ found, active, stamped), IsLive-put stamp ks less live)

-- The count of a chain reaches its end.
depth-length :
    (n : ℕ) (store : Dict ℕ Operation) (cursor : Option ℕ) (ks : List ℕ)
    → IsChain owner_of store cursor ks
    → length ks ≤ n
    → depth owner_of n store cursor ≡ some (length ks)
unfolding depth
depth-length n store none [] chain short = refl
depth-length n store none (k ∷ ks) chain short = absurd chain
depth-length n store (some j) [] chain short = absurd chain
depth-length zero store (some j) (k ∷ ks) chain short = absurd (omega arith)
depth-length (suc n) store (some j) (k ∷ ks) (same, (a, found, up)) short =
    let rest = depth-length n store a.parent ks up (omega arith) in
    rw (same, found, depth) (rw rest (ap some (omega arith)))

pub clear-Stands :
    (s : OperationContexts) (c : Context) (stack : Stack) → Stands s c stack → Stands (clear s) c []
clear-Stands s c stack st = record {
  valid = clear-IsValid s st.valid;
  inside = unfold clear in st.inside;
  chain = rw (clear-current s c st.valid) tt;
  live = tt;
  room = omega arith;
}

Below-later : (n : ℕ) (p : Option ℕ) → Below n p → Below (n + 2) p
Below-later n none b = tt
Below-later n (some k) b = omega arith

-- What the end of a stack is, the token of its latest operation given.
abbrev pub Ending : OperationContexts → Context → Token → Context → Stack → Type 0
Ending s c t c' stack =
    (s' : OperationContexts) × (finish s c (some t) ≡ some (s', c')) × Stands s' c' stack

module _ (h : OperationHost) where
  started-Stands :
      (s : OperationContexts) (c : Context) (options : Json) (name : Option String) (stack : Stack)
      → Stands s c stack
      → length stack < 15
      → Stands (started h s c options name).0 (started h s c options name).1 (s.next ∷ stack)
  started-Stands s c options name stack st room =
      let o = new_operation h s c options name in
      let older = older_of s.store s.next s.revision st.valid.stored in
      let (valid, inside) = started-IsValid h s c options name st.valid st.inside in
      let (chain, less) =
        IsChain-put s.store s.next o older (current s c) stack (current-Below s c s.next st.inside)
          st.chain in
      let now =
        (started-Restores h s c options name (length stack) st.valid st.inside
          (depth-length 16 s.store (current s c) stack st.chain (omega (arith, st.room))) room).0 in
      let found = get-put_self s.store s.next o in
      record {
        valid = valid;
        inside = inside;
        chain =
            subst (λ q. IsChain owner_of (put s.store s.next o) q (s.next ∷ stack)) (sym now)
              (refl, (o, found, chain));
        live = (
          (o, found, refl, refl),
          IsLive-put s.store s.next o older s.revision stack less st.live,
        );
        room = omega arith;
      }

  ended-Stands :
      (s : OperationContexts) (c : Context) (options : Json) (name : Option String) (stack : Stack)
      → Stands s c stack
      → length stack < 15
      → Ending
          (started h s c options name).0
          (started h s c options name).1
          (started h s c options name).2
          c
          stack
  ended-Stands s c options name stack st room =
      let o = new_operation h s c options name in
      let o' : Operation = record o { active = false } in
      let older = older_of s.store s.next s.revision st.valid.stored in
      let below = current-Below s c s.next st.inside in
      let (valid, inside) = started-IsValid h s c options name st.valid st.inside in
      let older' = older_of (put s.store s.next o) (s.next + 2) s.revision valid.stored in
      let (chain, less) = IsChain-put s.store s.next o older (current s c) stack below st.chain in
      let (chain', _) =
        IsChain-put (put s.store s.next o) s.next o' older' (current s c) stack below chain in
      let live = IsLive-put s.store s.next o older s.revision stack less st.live in
      (
        ended s c st.valid st.inside o refl,
        finish-added s c st.valid st.inside o refl refl,
        record {
          valid = record {
            stored =
                AllEntries-put (StoredOk (s.next + 2) s.revision) (put s.store s.next o) s.next o'
                  valid.stored (omega arith, below, omega arith, omega arith);
          };
          inside = Below-later s.next c.value st.inside;
          chain =
              subst (λ q. IsChain owner_of (put (put s.store s.next o) s.next o') q stack)
                (sym (ended-current s c st.valid st.inside o refl)) chain';
          live = IsLive-put (put s.store s.next o) s.next o' older' s.revision stack less live;
          room = st.room;
        },
      )

  -- A state that stands for a stack of at most fifteen live operations: where the name can be read,
  -- begin leaves a state that stands for the stack with the new operation pushed, or for the same
  -- stack where it has fifteen; the end with the token of begin gives the context back and leaves a
  -- state that stands for the former stack; and after clear it stands for the empty stack.
  pub begin-Stands :
      (s : OperationContexts) (c : Context) (options : Json) (stack : Stack)
      → Stands s c stack
      → is_some (name_of h (Json.get (values_of options) "name")) ≡ true
      → Stands (begin h s c options).0 (begin h s c options).1 (push s.next stack)
        × ((t : Token)
            → (begin h s c options).2 ≡ some t
            → Ending (begin h s c options).0 (begin h s c options).1 t c stack)
        × Stands (clear s) c []
  unfolding begin
  begin-Stands s c options stack st readable =
      let at = depth-length 16 s.store (current s c) stack st.chain (omega (arith, st.room)) in
      elim (Option-cases (name_of h (Json.get (values_of options) "name"))) [
        | inl bad ↦ absurd (ground (arith, bad, readable))
        | inr (name, read) ↦ elim (Bool-cases (leb 15 (length stack))) [
          | inl deep ↦
              let full : ltb (length stack) 15 ≡ false = ground (arith, deep) in
              rw (read, at, deep, full, begin) (st, λ t e. absurd cc, clear-Stands s c stack st)
          | inr free ↦
              let room : length stack < 15 = ground (arith, free) in
              let less : ltb (length stack) 15 ≡ true = ground (arith, room) in
              rw (read, at, free, less, begin)
                (
                  started-Stands s c options name stack st room,
                  λ t e.
                      subst
                        (λ t.
                          Ending (started h s c options name).0 (started h s c options name).1 t c
                            stack)
                        (eq_of_some e) (ended-Stands s c options name stack st room),
                  clear-Stands s c stack st,
                )
        ]
      ]
