-- ===== src/Evidence/Graph/Walks.antt =====
-- The walks along the relationships of an accepted graph (src/debugbundle/evidence_wire.py).
use debugbundle_python.Prelude.{
  ℕ, zero, suc, ◌<◌, ◌≡◌, refl, some, Bool, true, false, List, [], ◌∷◌, length, contains, arith,
  nat_eqb, nat_eqb_iff, nat_eq, inl, inr, Bool-cases, Option-cases, is_some,
}
use debugbundle_python.Prelude.Dict.{get}
use debugbundle_python.Evidence.Graph.{Adjacency, visit_all, add, visit}

-- From each node to a target of one of its relationships.
abbrev pub IsWalk : Adjacency → ℕ → List ℕ → Type 0
IsWalk adjacency node [] = Unit
IsWalk adjacency node (next ∷ walk) =
    ((children : List ℕ) × (get adjacency node ≡ some children) × (contains children next ≡ true))
    × IsWalk adjacency next walk

abbrev pub end_of : ℕ → List ℕ → ℕ
end_of node [] = node
end_of node (next ∷ walk) = end_of next walk

abbrev pub Reaches : Adjacency → ℕ → ℕ → Type 0
Reaches adjacency node k = (walk : List ℕ) × IsWalk adjacency node walk × (end_of node walk ≡ k)

-- A loop that succeeds went into each child.
visit_all-true :
    (go : ℕ → List ℕ → Bool × List ℕ) (children visited : List ℕ) (child : ℕ)
    → (visit_all go children visited).0 ≡ true
    → contains children child ≡ true
    → (seen : List ℕ) × ((go child seen).0 ≡ true)
unfolding contains
visit_all-true go [] visited child ok mem = cc
visit_all-true go (c ∷ children) visited child ok mem = elim (Bool-cases (go c visited).0) [
  | inr bad ↦ absurd (ground (arith, bad, ok))
  | inl good ↦ elim (Bool-cases (nat_eqb c child)) [
    | inl here ↦ let e : c ≡ child = (nat_eqb_iff c child).0 here in (visited, rw e at good)
    | inr later ↦
        visit_all-true go children (go c visited).1 child (ground (arith, good, ok))
          (ground (arith, later, mem))
  ]
]

-- What the visit of a node that succeeds went through.
pub visit-suc :
    (adjacency : Adjacency) (rounds node : ℕ) (ancestors visited : List ℕ)
    → (visit adjacency (suc rounds) node ancestors visited).0 ≡ true
    → (children : List ℕ) × (get adjacency node ≡ some children)
      × (contains ancestors node ≡ false)
      × ((visit_all
            (λ child seen. visit adjacency rounds child (node ∷ ancestors) seen)
            children
            (add visited node)).0
          ≡ true)
unfolding visit
visit-suc adjacency rounds node ancestors visited ok = elim (Option-cases (get adjacency node)) [
  | inl gone ↦ absurd (ground (arith, gone, ok))
  | inr (children, found) ↦ elim (Bool-cases (contains ancestors node)) [
    | inl above ↦ absurd (ground (arith, found, above, ok))
    | inr new ↦ (children, found, new, rw new at (rw (found, visit) at ok))
  ]
]

-- Each walk from a node where the visit succeeds is shorter than the rounds, and its end is a node that
-- is no ancestor.
pub visit-IsWalk :
    (adjacency : Adjacency) (rounds node : ℕ) (ancestors visited walk : List ℕ)
    → (visit adjacency rounds node ancestors visited).0 ≡ true
    → IsWalk adjacency node walk
    → (length walk < rounds)
      × (is_some (get adjacency (end_of node walk)) ≡ true)
      × (contains ancestors (end_of node walk) ≡ false)
visit-IsWalk adjacency zero node ancestors visited walk ok w = absurd (unfold visit in cc)
visit-IsWalk adjacency (suc rounds) node ancestors visited [] ok w =
    let (children, found, new, all) = visit-suc adjacency rounds node ancestors visited ok in
    (omega arith, rw found refl, new)
visit-IsWalk adjacency (suc rounds) node ancestors visited (next ∷ walk) ok ((cs, found', mem), w) =
    let (children, found, new, all) = visit-suc adjacency rounds node ancestors visited ok in
    let e : cs ≡ children = cc in
    let (seen, good) = visit_all-true _ children (add visited node) next all (rw e at mem) in
    let (short, known, apart) =
      visit-IsWalk adjacency rounds next (node ∷ ancestors) seen walk good w in
    (omega arith, known, not_above node ancestors (end_of next walk) apart)
  where
    not_above : (a : ℕ) (ls : List ℕ) (k : ℕ) → contains (a ∷ ls) k ≡ false → contains ls k ≡ false
    not_above a ls k h = unfold contains in ground (arith, h)
