-- ===== src/Evidence/Graph/Reached.antt =====
-- The nodes of an accepted graph are reached from its root (src/debugbundle/evidence_wire.py).
use debugbundle_python.Prelude.{
  ℕ, zero, suc, ◌+◌, ◌≤◌, ◌≡◌, ◌⊎◌, refl, some, Bool, true, false, List, [], ◌∷◌, length, contains,
  arith, nat_eqb, nat_eqb_iff, nat_eq, inl, inr, Bool-cases, Option-cases, is_some,
}
use debugbundle_python.Prelude.Dict.{get, remove, get-remove_ne}
use debugbundle_python.Prelude.Dict.Laws.{length-remove_old}
use debugbundle_python.Evidence.Graph.{Adjacency, visit_all, add, visit}
use debugbundle_python.Evidence.Graph.Walks.{Reaches}

-- Nodes that are known and not repeated.
abbrev pub Known : Adjacency → List ℕ → Type 0
Known adjacency [] = Unit
Known adjacency (k ∷ ks) =
    (is_some (get adjacency k) ≡ true) × (contains ks k ≡ false) × Known adjacency ks

Known-remove :
    (adjacency : Adjacency) (k : ℕ) (ks : List ℕ)
    → contains ks k ≡ false
    → Known adjacency ks
    → Known (remove adjacency k) ks
unfolding contains
Known-remove adjacency k [] new known = tt
Known-remove adjacency k (j ∷ ks) new (here, once, known) =
    let apart : (nat_eqb k j) ≡ false = ground (arith, new, nat_eqb_iff k j, nat_eqb_iff j k) in
    let same = get-remove_ne adjacency k j apart in
    (rw same here, once, Known-remove adjacency k ks (ground (arith, new)) known)

-- As many known nodes as there are entries are all of them.
pub Known-all :
    (ks : List ℕ) (adjacency : Adjacency) (k : ℕ)
    → Known adjacency ks
    → length adjacency ≤ length ks
    → is_some (get adjacency k) ≡ true
    → contains ks k ≡ true
unfolding contains
Known-all [] [] k known few here = unfold get in cc
Known-all [] (e ∷ adjacency) k known few here = absurd (omega arith)
Known-all (j ∷ ks) adjacency k (known, once, rest) few here = elim (Bool-cases (nat_eqb j k)) [
  | inl same ↦ rw same refl
  | inr apart ↦
      let shorter = remove_known adjacency j known in
      let kept = get-remove_ne adjacency j k apart in
      let later =
        Known-all ks (remove adjacency j) k (Known-remove adjacency j ks once rest)
          (omega (arith, shorter, few)) (rw kept here) in
      rw (apart, later) refl
]
  where
    remove_known :
        (d : Adjacency) (j : ℕ) → is_some (get d j) ≡ true → length (remove d j) + 1 ≡ length d
    remove_known d j known = elim (Option-cases (get d j)) [
      | inl gone ↦ absurd (ground (arith, gone, known))
      | inr (v, found) ↦ length-remove_old d j v found
    ]

-- A step that keeps the nodes known, and adds only what a relation holds of.
abbrev Adds : (ℕ → Type 0) → List ℕ → List ℕ → Type 0
Adds P visited after = (k : ℕ) → contains after k ≡ true → (contains visited k ≡ true) ⊎ P k

add-Adds :
    (P : ℕ → Type 0) (visited : List ℕ) (node : ℕ) → P node → Adds P visited (add visited node)
unfolding contains
add-Adds P visited node p k mem = elim (Bool-cases (contains visited node)) [
  | inl old ↦ inl (rw (old, add) at mem)
  | inr new ↦ elim (Bool-cases (nat_eqb node k)) [
    | inl here ↦ inr (rw ((nat_eqb_iff node k).0 here) at p)
    | inr apart ↦ inl (ground (arith, new, apart, mem))
  ]
]

add-Known :
    (adjacency : Adjacency) (visited : List ℕ) (node : ℕ) (children : List ℕ)
    → get adjacency node ≡ some children
    → Known adjacency visited
    → Known adjacency (add visited node)
add-Known adjacency visited node children found known = elim (Bool-cases (contains visited node)) [
  | inl old ↦ rw (old, add) known
  | inr new ↦ rw (new, add) (rw found refl, new, known)
]

visit_all-Known :
    (adjacency : Adjacency) (go : ℕ → List ℕ → Bool × List ℕ) (children visited : List ℕ)
    → ((child : ℕ) (seen : List ℕ) → Known adjacency seen → Known adjacency (go child seen).1)
    → Known adjacency visited
    → Known adjacency (visit_all go children visited).1
visit_all-Known adjacency go [] visited keeps known = known
visit_all-Known adjacency go (c ∷ children) visited keeps known =
    elim (Bool-cases (go c visited).0) [
      | inl good ↦
          rw good
            (visit_all-Known adjacency go children (go c visited).1 keeps (keeps c visited known))
      | inr bad ↦ rw bad (keeps c visited known)
    ]

pub visit-Known :
    (adjacency : Adjacency) (rounds node : ℕ) (ancestors visited : List ℕ)
    → Known adjacency visited
    → Known adjacency (visit adjacency rounds node ancestors visited).1
unfolding visit
visit-Known adjacency zero node ancestors visited known = known
visit-Known adjacency (suc rounds) node ancestors visited known =
    elim (Option-cases (get adjacency node)) [
      | inl gone ↦ rw (gone, visit) known
      | inr (children, found) ↦ elim (Bool-cases (contains ancestors node)) [
        | inl above ↦ rw (found, visit) (rw above known)
        | inr new ↦
            rw (found, visit)
              (rw new (
                visit_all-Known adjacency _ children (add visited node)
                  (λ child seen k. visit-Known adjacency rounds child (node ∷ ancestors) seen k)
                  (add-Known adjacency visited node children found known)))
      ]
    ]

visit_all-Adds :
    (P : ℕ → Type 0) (go : ℕ → List ℕ → Bool × List ℕ) (children visited : List ℕ)
    → ((child : ℕ) (seen : List ℕ) → contains children child ≡ true → Adds P seen (go child seen).1)
    → Adds P visited (visit_all go children visited).1
unfolding contains
visit_all-Adds P go [] visited adds k mem = inl mem
visit_all-Adds P go (c ∷ children) visited adds k mem =
    let first = adds c visited (rw ((nat_eqb_iff c c).1 refl) refl) k in
    elim (Bool-cases (go c visited).0) [
      | inr bad ↦ first (rw bad at mem)
      | inl good ↦
          elim (visit_all-Adds P go children (go c visited).1
            (λ child seen m. adds child seen (ground (arith, m))) k (rw good at mem)) [
              | inl before ↦ first before
              | inr p ↦ inr p
            ]
    ]

pub visit-Adds :
    (adjacency : Adjacency) (rounds node : ℕ) (ancestors visited : List ℕ)
    → Adds (Reaches adjacency node) visited (visit adjacency rounds node ancestors visited).1
unfolding visit
visit-Adds adjacency zero node ancestors visited k mem = inl mem
visit-Adds adjacency (suc rounds) node ancestors visited k mem =
    elim (Option-cases (get adjacency node)) [
      | inl gone ↦ inl (rw (gone, visit) at mem)
      | inr (children, found) ↦ elim (Bool-cases (contains ancestors node)) [
        | inl above ↦ inl (rw above at (rw (found, visit) at mem))
        | inr new ↦
            elim (visit_all-Adds (Reaches adjacency node) _ children (add visited node)
              (λ child seen m j in_after.
                from_child child children found m
                  (visit-Adds adjacency rounds child (node ∷ ancestors) seen j in_after))
              k (rw new at (rw (found, visit) at mem))) [
                | inr p ↦ inr p
                | inl before ↦
                    add-Adds (Reaches adjacency node) visited node ([], tt, refl) k before
              ]
      ]
    ]
  where
    from_child :
        (child : ℕ) (children : List ℕ)
        → get adjacency node ≡ some children
        → contains children child ≡ true
        → {j : ℕ} {seen : Type 0} → seen ⊎ Reaches adjacency child j
        → seen ⊎ Reaches adjacency node j
    from_child child children found m (inl s) = inl s
    from_child child children found m (inr (walk, w, e)) =
        inr (child ∷ walk, ((children, found, m), w), e)
