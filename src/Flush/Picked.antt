-- ===== src/Flush/Picked.antt =====
-- The events that an acknowledgement picks for another attempt (src/debugbundle/flush_delivery.py) are
-- distinct ones of the batch, and no more than it.
use debugbundle_python.Prelude.{
  ℕ, zero, suc, ◌+◌, ◌≤◌, ◌≡◌, refl, sym, subst, some, Bool, true, false, List, [], ◌∷◌, ◌++◌,
  arith, nat_eqb, nat_eq, ◌==◌, if◌then◌else◌, sum_map, get_elem?, contains, All, All-append, inl,
  inr, Bool-cases, Option-cases,
}
use debugbundle_python.Acknowledgement.Partition.{occurrences}
use debugbundle_python.Sdk.{Event}
use debugbundle_python.Queue.Shape.{Fresh, DistinctIds}
use debugbundle_python.Flush.{pick}
use debugbundle_python.Flush.Retained.{pick_one, split_All}

-- No index twice
abbrev pub NoneTwice : List ℕ → Type 0
NoneTwice indices = (i : ℕ) → occurrences i indices ≤ 1

occurrences-contains : (i : ℕ) (is : List ℕ) → occurrences i is ≡ 0 → contains is i ≡ false
unfolding contains
occurrences-contains i [] e = refl
occurrences-contains i (j ∷ is) e = ground (arith, occurrences-contains i is, e)

NoneTwice-cons : (i : ℕ) (is : List ℕ) → NoneTwice (i ∷ is) → (contains is i ≡ false) × NoneTwice is
NoneTwice-cons i is once =
    (occurrences-contains i is (ground (arith, once i)), λ j. ground (arith, once j))

-- The sum over the events whose index passes a test
abbrev chosen_sum : (Event → ℕ) → List Event → (ℕ → Bool) → ℕ
chosen_sum f [] b = 0
chosen_sum f (x ∷ xs) b = (if b 0 then f x else 0) + chosen_sum f xs (λ j. b (suc j))

chosen_sum_mono :
    (f : Event → ℕ) (xs : List Event) (b b' : ℕ → Bool)
    → ((j : ℕ) → b j ≡ true → b' j ≡ true)
    → chosen_sum f xs b ≤ chosen_sum f xs b'
chosen_sum_mono f [] b b' more = omega arith
chosen_sum_mono f (x ∷ xs) b b' more =
    let rest = chosen_sum_mono f xs (λ j. b (suc j)) (λ j. b' (suc j)) (λ j. more (suc j)) in
    elim (Bool-cases (b 0)) [
      | inl here ↦ rw (here, more 0 here) (omega (arith, rest))
      | inr gone ↦ rw gone (ground (arith, rest))
    ]

chosen_sum_all : (f : Event → ℕ) (xs : List Event) (b : ℕ → Bool) → chosen_sum f xs b ≤ sum_map f xs
chosen_sum_all f [] b = omega arith
chosen_sum_all f (x ∷ xs) b = ground (arith, chosen_sum_all f xs (λ j. b (suc j)))

-- One more index counts its event.
chosen_sum_more :
    (f : Event → ℕ) (xs : List Event) (i : ℕ) (e : Event) (b b' : ℕ → Bool)
    → get_elem? xs i ≡ some e
    → b i ≡ false
    → b' i ≡ true
    → ((j : ℕ) → b j ≡ true → b' j ≡ true)
    → f e + chosen_sum f xs b ≤ chosen_sum f xs b'
chosen_sum_more f [] i e b b' found out in_it more = absurd (ground (arith, found))
chosen_sum_more f (x ∷ xs) zero e b b' found out in_it more =
    let rest = chosen_sum_mono f xs (λ j. b (suc j)) (λ j. b' (suc j)) (λ j. more (suc j)) in
    let same : x ≡ e = ground (arith, found) in rw (out, in_it, sym same) (omega (arith, rest))
chosen_sum_more f (x ∷ xs) (suc i) e b b' found out in_it more =
    let rest =
      chosen_sum_more f xs i e (λ j. b (suc j)) (λ j. b' (suc j)) found out in_it
        (λ j. more (suc j)) in
    elim (Bool-cases (b 0)) [
      | inl here ↦ rw (here, more 0 here) (omega (arith, rest))
      | inr gone ↦ rw gone (ground (arith, rest))
    ]

contains-later : (i : ℕ) (is : List ℕ) (j : ℕ) → contains is j ≡ true → contains (i ∷ is) j ≡ true
unfolding contains
contains-later i is j there = ground (arith, there)

contains-first : (i : ℕ) (is : List ℕ) → contains (i ∷ is) i ≡ true
unfolding contains
contains-first i is = ground arith

pick_chosen :
    (f : Event → ℕ) (batch : List Event) (indices : List ℕ)
    → NoneTwice indices
    → sum_map f (pick batch indices) ≤ chosen_sum f batch (λ j. contains indices j)
pick_chosen f batch [] once = omega arith
pick_chosen f batch (i ∷ is) once =
    let (new, once') = NoneTwice-cons i is once in
    let later = pick_chosen f batch is once' in
    let more : (j : ℕ) → contains is j ≡ true → contains (i ∷ is) j ≡ true =
      λ j there. contains-later i is j there in
    elim (Option-cases (get_elem? batch i)) [
      | inl out ↦
          rw (out, sum_map)
            (omega (
              arith,
              later,
              chosen_sum_mono f batch (λ j. contains is j) (λ j. contains (i ∷ is) j) more,
            ))
      | inr (e, found) ↦
          rw (found, sum_map)
            (omega (
              arith,
              later,
              chosen_sum_more f batch i e (λ j. contains is j) (λ j. contains (i ∷ is) j) found new
                  (contains-first i is) more,
            ))
    ]

-- Events at different places are different objects.
elem-apart :
    (batch : List Event) (i j : ℕ) (e x : Event)
    → DistinctIds batch
    → get_elem? batch i ≡ some e
    → get_elem? batch j ≡ some x
    → nat_eqb i j ≡ false
    → (x.ident == e.ident) ≡ false
elem-apart [] i j e x d at_i at_j other = absurd (ground (arith, at_i))
elem-apart (y ∷ ys) zero zero e x d at_i at_j other = absurd (ground (arith, other))
elem-apart (y ∷ ys) zero (suc j) e x d at_i at_j other =
    let same : y ≡ e = ground (arith, at_i) in
    subst (λ z. (x.ident == z.ident) ≡ false) same
      (pick_one (λ z. (z.ident == y.ident) ≡ false) ys j x d.0 at_j)
elem-apart (y ∷ ys) (suc i) zero e x d at_i at_j other =
    let same : y ≡ x = ground (arith, at_j) in
    let before = pick_one (λ z. (z.ident == y.ident) ≡ false) ys i e d.0 at_i in
    subst (λ z. (z.ident == e.ident) ≡ false) same (ground (arith, before))
elem-apart (y ∷ ys) (suc i) (suc j) e x d at_i at_j other =
    elem-apart ys i j e x d.1 at_i at_j (ground (arith, other))

pick-Fresh :
    (batch : List Event) (i : ℕ) (e : Event) (indices : List ℕ)
    → DistinctIds batch
    → get_elem? batch i ≡ some e
    → contains indices i ≡ false
    → Fresh e.ident (pick batch indices)
unfolding contains
pick-Fresh batch i e [] d at_i new = tt
pick-Fresh batch i e (j ∷ js) d at_i new = elim (Option-cases (get_elem? batch j)) [
  | inl out ↦ rw (out, pick) (pick-Fresh batch i e js d at_i (ground (arith, new)))
  | inr (x, at_j) ↦
      rw (at_j, pick)
        (
          elem-apart batch i j e x d at_i at_j (ground (arith, new)),
          pick-Fresh batch i e js d at_i (ground (arith, new)),
        )
]

pub pick-DistinctIds :
    (batch : List Event) (indices : List ℕ)
    → DistinctIds batch
    → NoneTwice indices
    → DistinctIds (pick batch indices)
pick-DistinctIds batch [] d once = tt
pick-DistinctIds batch (i ∷ is) d once =
    let (new, once') = NoneTwice-cons i is once in
    elim (Option-cases (get_elem? batch i)) [
      | inl out ↦ rw (out, DistinctIds) (pick-DistinctIds batch is d once')
      | inr (e, found) ↦
          rw (found, DistinctIds)
            (pick-Fresh batch i e is d found new, pick-DistinctIds batch is d once')
    ]

-- No measure of the picked events is more than that of the batch.
pub pick-sum :
    (f : Event → ℕ) (batch : List Event) (indices : List ℕ)
    → NoneTwice indices
    → sum_map f (pick batch indices) ≤ sum_map f batch
pick-sum f batch indices once =
    omega
      (arith, pick_chosen f batch indices once, chosen_sum_all f batch (λ j. contains indices j))

-- Distinct objects in a list that stands before another
pub DistinctIds-split :
    (xs ys : List Event)
    → DistinctIds (xs ++ ys)
    → DistinctIds xs × DistinctIds ys × All (λ x. Fresh x.ident ys) xs
DistinctIds-split [] ys d = (tt, d, tt)
DistinctIds-split (x ∷ xs) ys d =
    let (front, back) = split_All (λ e. (e.ident == x.ident) ≡ false) xs ys d.0 in
    let (dx, dy, cross) = DistinctIds-split xs ys d.1 in ((front, dx), dy, (back, cross))

pub DistinctIds-join :
    (xs ys : List Event)
    → DistinctIds xs
    → DistinctIds ys
    → All (λ x. Fresh x.ident ys) xs
    → DistinctIds (xs ++ ys)
DistinctIds-join [] ys dx dy cross = dy
DistinctIds-join (x ∷ xs) ys dx dy cross = (
  All-append (λ e. (e.ident == x.ident) ≡ false) xs ys dx.0 cross.0,
  DistinctIds-join xs ys dx.1 dy cross.1,
)
