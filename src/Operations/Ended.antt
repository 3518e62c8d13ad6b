-- ===== src/Operations/Ended.antt =====
-- Operations that have ended stay so, whatever is begun, ended or cleared in any context
-- (src/debugbundle/operation_context.py).
use debugbundle_python.Prelude.{
  ℕ, ◌<◌, ◌≡◌, ◌≢◌, ◌⊎◌, ◌∙◌, refl, sym, ap, Option, none, some, false, arith, nat_eqb, nat_eq, inl,
  inr, Bool-cases, Option-cases, subst, eq_of_some, ◌>>=◌, >>=-eq-some, ==_refl, if◌then◌else◌,
}
use debugbundle_python.Prelude.Dict.{get, get-put}
use debugbundle_python.Prelude.Dict.Laws.{AllEntries-get}
use debugbundle_python.Json.{Json}
use debugbundle_python.Ownership.{Token, Context, find, depth}
use debugbundle_python.Operations.{
  Operation, OperationContexts, OperationHost, owner_of, clear, current, begin, deactivate, finish,
  leave, reset, is_value,
}
use debugbundle_python.Ownership.Chains.{alive_of_IsChain, alive-some}
use debugbundle_python.Operations.Laws.{current_iff}
use debugbundle_python.Operations.Runs.{Reached, Reached-IsValid}
use debugbundle_python.Operations.Valid.{IsValid, StoredOk, begin-cases}

-- What follows a state, in any contexts of the program
pub data Later (s : OperationContexts) : OperationContexts → Type 0 where
  now : Later s s
  then_begun :
      {s' : OperationContexts} (h : OperationHost) (c : Context) (options : Json)
      → Later s s'
      → Later s (begin h s' c options).0
  then_left :
      {s' : OperationContexts} (c : Context) (t : Option Token)
      → Later s s'
      → Later s (leave s' c t).0
  then_cleared : {s' : OperationContexts} → Later s s' → Later s (clear s')

-- How the operation `k` ends: by `end` with the token of it, or by `clear`.
pub data Ends (s : OperationContexts) (k : ℕ) : OperationContexts → Type 0 where
  by_clear : Ends s k (clear s)
  by_end :
      {s1 : OperationContexts} (c c1 : Context) (t : Token)
      → find owner_of 16 s.store t.id c.value ≡ some k
      → finish s c (some t) ≡ some (s1, c1)
      → Ends s k s1

-- An operation that was made, and is not active or of an older revision
record IsOver (s : OperationContexts) (k : ℕ) : Type 0 where
  operation : Operation
  stored : get s.store k ≡ some operation
  over : (operation.active ≡ false) ⊎ (operation.revision < s.revision)
  made : k < s.next

deactivate-IsOver : (s : OperationContexts) (j k : ℕ) → IsOver s k → IsOver (deactivate s j) k
deactivate-IsOver s j k d = elim (Option-cases (get s.store j)) [
  | inl gone ↦ rw (gone, deactivate) d
  | inr (o, found) ↦
      rw (found, deactivate)
        (elim (Bool-cases (nat_eqb j k)) [
          | inl same ↦ record {
            operation = record o { active = false };
            stored = get-put s.store j _ k ∙ rw same refl;
            over = inl refl;
            made = d.made;
          }
          | inr other ↦ record {
            operation = d.operation;
            stored = get-put s.store j _ k ∙ rw other d.stored;
            over = d.over;
            made = d.made;
          }
        ])
]

abbrev or_reset : Context → Token → ℕ → Option Context
or_reset c t k = if is_value c k then reset c t else some c

finish-deactivate :
    (s s1 : OperationContexts) (c c1 : Context) (t : Token) (k : ℕ)
    → find owner_of 16 s.store t.id c.value ≡ some k
    → finish s c (some t) ≡ some (s1, c1)
    → s1 ≡ deactivate s k
unfolding finish
finish-deactivate s s1 c c1 t k found done =
    let step : (or_reset c t k >>= λ c'. some (deactivate s k, c')) ≡ some (s1, c1) =
      sym (rw (found, finish) refl) ∙ done in
    let (c', back, rest) = >>=-eq-some (or_reset c t k) _ step in
    sym (ap (λ (p : OperationContexts × Context). p.0) (eq_of_some rest))

begin-IsOver :
    (h : OperationHost) (s : OperationContexts) (c : Context) (options : Json) (k : ℕ)
    → IsOver s k
    → IsOver (begin h s c options).0 k
begin-IsOver h s c options k d = elim (begin-cases h s c options) [
  | inl same ↦ subst (λ q. IsOver q.0 k) (sym same) d
  | inr (name, depth, read, at, room, made) ↦
      subst (λ q. IsOver q.0 k) (sym made)
        (let other : nat_eqb s.next k ≡ false = ground (arith, d.made) in
          record {
            operation = d.operation;
            stored = get-put s.store s.next _ k ∙ rw other d.stored;
            over = d.over;
            made = omega (arith, d.made);
          })
]

leave-IsOver :
    (s : OperationContexts) (c : Context) (t : Option Token) (k : ℕ)
    → IsOver s k
    → IsOver (leave s c t).0 k
unfolding finish
leave-IsOver s c none k d = d
leave-IsOver s c (some t) k d = elim (Option-cases (find owner_of 16 s.store t.id c.value)) [
  | inl gone ↦ rw (gone, finish) d
  | inr (j, found) ↦ elim (Option-cases (or_reset c t j)) [
    | inl failed ↦
        let raised : finish s c (some t) ≡ none = rw (found, finish) (rw failed refl) in rw raised d
    | inr (c', back) ↦
        let ended : finish s c (some t) ≡ some (deactivate s j, c') =
          rw (found, finish) (rw back refl) in
        rw ended (deactivate-IsOver s j k d)
  ]
]

clear-IsOver : (s : OperationContexts) (k : ℕ) → IsOver s k → IsOver (clear s) k
unfolding clear
clear-IsOver s k d = record {
  operation = d.operation;
  stored = d.stored;
  over = elim d.over [ inl ended ↦ inl ended | inr older ↦ inr (omega (arith, older)) ];
  made = d.made;
}

Later-IsOver : {s s' : OperationContexts} (k : ℕ) → Later s s' → IsOver s k → IsOver s' k
Later-IsOver k now d = d
Later-IsOver k (then_begun h c options l) d = begin-IsOver h _ c options k (Later-IsOver k l d)
Later-IsOver k (then_left c t l) d = leave-IsOver _ c t k (Later-IsOver k l d)
Later-IsOver k (then_cleared l) d = clear-IsOver _ k (Later-IsOver k l d)

Ends-IsOver :
    (s s1 : OperationContexts) (k : ℕ) (o : Operation)
    → IsValid s
    → get s.store k ≡ some o
    → Ends s k s1
    → IsOver s1 k
unfolding clear
Ends-IsOver s s1 k o v found by_clear =
    let ok : StoredOk s.next s.revision k o =
      AllEntries-get (StoredOk s.next s.revision) s.store k o v.stored found in
    record { operation = o; stored = found; over = inr (omega (arith, ok.2)); made = ok.0 }
Ends-IsOver s s1 k o v found (by_end c c1 t mine done) =
    let ok : StoredOk s.next s.revision k o =
      AllEntries-get (StoredOk s.next s.revision) s.store k o v.stored found in
    subst (λ x. IsOver x k) (sym (finish-deactivate s s1 c c1 t k mine done))
      (rw (found, deactivate)
        (record {
          operation = record o { active = false };
          stored = get-put s.store k _ k ∙ rw (==_refl k) refl;
          over = inl refl;
          made = ok.0;
        }))

over-current : (s : OperationContexts) (k : ℕ) (c : Context) → IsOver s k → current s c ≢ some k
over-current s k c d is_current =
    let (value, (ks, chain, live, short)) = (current_iff s c k).0 is_current in
    let up = alive_of_IsChain owner_of 15 s.store s.revision (some k) ks chain live short in
    let (o, found, active, stamped, above) = alive-some owner_of 15 s.store s.revision k up in
    let same : o ≡ d.operation = eq_of_some (sym found ∙ d.stored) in
    elim d.over [
      | inl ended ↦ absurd (ground (arith, active, ap (λ (q : Operation). q.active) same, ended))
      | inr older ↦
          let present : d.operation.revision ≡ s.revision =
            sym (ap (λ (q : Operation). q.revision) same) ∙ stamped in
          absurd (omega (arith, older, present))
    ]

-- In a state that begin, end and clear have led to, an operation that ends, by end with its token
-- or by clear, is current in no context again, whatever is begun, ended or cleared in any contexts
-- afterwards.
pub Ends-current :
    {s s1 s' : OperationContexts} {c : Context} (k : ℕ) (o : Operation) (d : Context)
    → Reached s c
    → get s.store k ≡ some o
    → Ends s k s1
    → Later s1 s'
    → current s' d ≢ some k
Ends-current {s} {s1} {s'} k o d r found ends later =
    over-current s' k d
      (Later-IsOver k later (Ends-IsOver s s1 k o (Reached-IsValid r).0 found ends))
