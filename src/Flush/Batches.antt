-- ===== src/Flush/Batches.antt =====
-- A whole batch is finalized, while other threads change the queue behind it
-- (src/debugbundle/delivery_hooks.py).
use mathlib.Core.List.{append_assoc, append-nil}
use debugbundle_python.Prelude.{
  ℕ, ◌+◌, ◌≡◌, ◌∙◌, refl, sym, ap, Option, none, some, true, List, [], ◌∷◌, ◌++◌, length, arith,
  nat_eqb, nat_eq, is_some, inl, inr, Bool-cases, Option-cases,
}
use debugbundle_python.Prelude.Dict.{get}
use debugbundle_python.Diagnostics.Valid.{IsValid}
use debugbundle_python.Queue.Shape.{IsSized, All-middle}
use debugbundle_python.Sdk.{Sdk, Event, Host}
use debugbundle_python.Flush.Finalize.{
  PolicyHost, Round, finalize_one, finalize_batch, kept_and, next_index,
}
use debugbundle_python.Flush.Finalized.{in_place, IsAt, IsReplacement, finalize_one-Step}

module _ (host : Host) (p : PolicyHost) (max_events max_bytes : ℕ) where
  abbrev pub originals : List (Round host p) → List Event
  originals [] = []
  originals (r ∷ rounds) = r.original ∷ originals rounds

  -- What other threads do while a hook runs: they keep the shape of the queue, and its head.
  pub record Behind (head : List Event) (s s' : Sdk) : Type 0 where
    pub sized : IsSized s max_events max_bytes → IsSized s' max_events max_bytes
    pub valid : IsValid host.json s.diagnostics → IsValid host.json s'.diagnostics
    pub heads :
        (tail : List Event)
        → s.buffer ≡ head ++ tail
        → (tail' : List Event) × (s'.buffer ≡ head ++ tail')

  -- In each round that is reached, the others stay behind the batch, and a replacement is no other
  -- queued object and can be judged.
  abbrev pub RoundsOk : Sdk → ℕ → List Event → List (Round host p) → Type 0
  RoundsOk s generation front [] = Unit
  RoundsOk s generation front (r ∷ rounds) =
      nat_eqb generation (r.meanwhile s).generation ≡ true
      → Behind (front ++ originals (r ∷ rounds)) s (r.meanwhile s)
        × ((back : List Event)
            → (r.meanwhile s).buffer ≡ front ++ r.original ∷ back
            → IsReplacement host p max_events max_bytes front back r.original 0 (r.meanwhile s)
                r.replacement)
        × ((s' : Sdk) (kept : Option Event)
            → finalize_one host p (r.meanwhile s) (length front) r.original r.replacement max_bytes
                r.now
              ≡ some (s', kept)
            → RoundsOk s' generation (front ++ in_place kept []) rounds)

  -- The finalized events are the head of a sized queue, or the generation is over.
  abbrev pub IsFinalized : List Event → Sdk → Option (List Event) → Type 0
  IsFinalized front s none = Unit
  IsFinalized front s (some kept) =
      IsSized s max_events max_bytes
      × IsValid host.json s.diagnostics
      × ((tail : List Event) × (s.buffer ≡ front ++ (kept ++ tail)))

  reassoc : (a b c : List Event) → (a ++ b) ++ c ≡ a ++ (b ++ c)
  reassoc a b c = append_assoc a b c

  length-end : (front : List Event) (e : Event) → length front + 1 ≡ length (front ++ e ∷ [])
  length-end [] e = refl
  length-end (x ∷ front) e = omega (arith, length-end front e)

  length-next :
      (front : List Event) (kept : Option Event)
      → next_index host p (length front) kept ≡ length (front ++ in_place kept [])
  length-next front none = ap length (sym (append-nil front))
  length-next front (some e) = length-end front e

  split :
      (front : List Event) (kept : Option Event) (back : List Event)
      → front ++ in_place kept back ≡ (front ++ in_place kept []) ++ back
  split front none back = ap (λ f. f ++ back) (sym (append-nil front))
  split front (some e) back = sym (reassoc front (e ∷ []) back)

  regroup :
      (front : List Event) (kept : Option Event) (s : Sdk) (result : Option (List Event))
      → IsFinalized (front ++ in_place kept []) s result
      → IsFinalized front s (kept_and host p kept result)
  regroup front kept s none f = tt
  regroup front none s (some rest) (sized, valid, (tail, here)) =
      (sized, valid, (tail, here ∙ sym (split front none (rest ++ tail))))
  regroup front (some e) s (some rest) (sized, valid, (tail, here)) =
      (sized, valid, (tail, here ∙ sym (split front (some e) (rest ++ tail))))

  pub IsAt-original :
      (s : Sdk) (front back : List Event) (original : Event)
      → s.buffer ≡ front ++ original ∷ back
      → IsSized s max_events max_bytes
      → IsValid host.json s.diagnostics
      → (old : ℕ) × IsAt host p max_events max_bytes front back original old s
  IsAt-original s front back original here sized valid =
      let known =
        (All-middle (λ e. is_some (get s.buffer_sizes e.ident) ≡ true) front original back
          (rw here at sized.known)).0 in
      elim (Option-cases (get s.buffer_sizes original.ident)) [
        | inl gone ↦ absurd (ground (arith, gone, known))
        | inr (old, found) ↦
            (old, record { here = here; sized = sized; known = found; valid = valid })
      ]

  -- On a sized queue with a valid budget whose batch stands behind the events that are finalized
  -- already, where in each round that is reached the other threads keep the shape of the queue and
  -- its head, and a replacement is no other queued object and can be judged, the batch is finalized
  -- without an error; and where the generation is not over, the finalized events follow those
  -- before them at the head of the queue, which is sized within its limits, with a valid budget.
  pub finalize_batch-IsFinalized :
      (s : Sdk) (generation : ℕ) (front tail : List Event) (rounds : List (Round host p))
      → IsSized s max_events max_bytes
      → IsValid host.json s.diagnostics
      → s.buffer ≡ front ++ (originals rounds ++ tail)
      → RoundsOk s generation front rounds
      → (s' : Sdk) × (result : Option (List Event)) × (finalize_batch host p s generation max_bytes
            (length front)
            rounds
          ≡ some (s', result))
        × IsFinalized front s' result
  unfolding finalize_batch
  finalize_batch-IsFinalized s generation front tail [] sized valid here ok =
      (s, some [], refl, (sized, valid, (tail, here)))
  finalize_batch-IsFinalized s generation front tail (r ∷ rounds) sized valid here ok =
      elim (Bool-cases (nat_eqb generation (r.meanwhile s).generation)) [
        | inr over ↦ (r.meanwhile s, none, rw (over, finalize_batch) refl, tt)
        | inl same ↦
            let (behind, judged, later) = ok same in
            let (tail', here') =
              behind.heads tail (here ∙ sym (reassoc front (originals (r ∷ rounds)) tail)) in
            let at_head : (r.meanwhile s).buffer
                ≡ front ++ r.original ∷ (originals rounds ++ tail') =
              here' ∙ reassoc front (originals (r ∷ rounds)) tail' in
            let (old, at) =
              IsAt-original (r.meanwhile s) front (originals rounds ++ tail') r.original at_head
                (behind.sized sized) (behind.valid valid) in
            let (s', kept, done, step) =
              finalize_one-Step host p max_events max_bytes front (originals rounds ++ tail')
                r.original old (r.meanwhile s) r.replacement r.now at (judged _ at_head) in
            let front' = front ++ in_place kept [] in
            let (t, result, done', finalized) =
              finalize_batch-IsFinalized s' generation front' tail' rounds step.sized step.valid
                (step.buffer ∙ split front kept (originals rounds ++ tail')) (later s' kept done) in
            let index = length-next front kept in
            (
              t,
              kept_and host p kept result,
              rw (same, finalize_batch) (rw done (rw index (rw done' refl))),
              regroup front kept t result finalized,
            )
      ]
