-- ===== src/Evidence/Graph/Accepted.antt =====
-- What an accepted graph is (src/debugbundle/evidence_wire.py).
use debugbundle_python.Prelude.{
  ℕ, ◌≤◌, ◌≡◌, some, true, List, [], length, contains, arith, nat_eqb, nat_eqb_iff, nat_eq, inl,
  inr, Option-cases, is_some,
}
use debugbundle_python.Prelude.Dict.{get}
use debugbundle_python.Json.{Json}
use debugbundle_python.Evidence.Shapes.{WireHost}
use debugbundle_python.Evidence.Graph.{Adjacency, visit, visits_all, read_graph, graph}
use debugbundle_python.Evidence.Graph.Walks.{IsWalk, end_of, Reaches, visit-IsWalk}
use debugbundle_python.Evidence.Graph.Reached.{Known-all, visit-Known, visit-Adds}

-- From the root, each walk ends at a node of the graph after at most four steps, and each node is the
-- end of a walk.
pub record IsRooted (adjacency : Adjacency) (root : ℕ) : Type 0 where
  pub walks :
      (walk : List ℕ)
      → IsWalk adjacency root walk
      → (length walk ≤ 4) × (is_some (get adjacency (end_of root walk)) ≡ true)
  pub reached : (k : ℕ) → is_some (get adjacency k) ≡ true → Reaches adjacency root k

visits_all-IsRooted :
    (adjacency : Adjacency) (root : ℕ) → visits_all adjacency root ≡ true → IsRooted adjacency root
unfolding visits_all
visits_all-IsRooted adjacency root h =
    let r = visit adjacency 5 root [] [] in
    let good : r.0 ≡ true = ground (arith, h) in
    let size : nat_eqb (length r.1) (length adjacency) ≡ true = ground (arith, h, good) in
    let known = visit-Known adjacency 5 root [] [] tt in
    record {
      walks = λ walk w.
          let (short, there, apart) = visit-IsWalk adjacency 5 root [] [] walk good w in
          (omega (arith, short), there);
      reached = λ k there.
          let all =
            Known-all r.1 adjacency k known
              (omega (arith, (nat_eqb_iff (length r.1) (length adjacency)).0 size)) there in
          elim (visit-Adds adjacency 5 root [] [] k all) [
            | inl nothing ↦ absurd (unfold contains in cc)
            | inr reaches ↦ reaches
          ];
    }

module _ (h : WireHost) where
  -- The nodes and relationships of an accepted graph form a graph in which each walk from the root
  -- has at most four steps and ends at a node of the graph, so that there is no cycle, and each
  -- node is the end of a walk from the root.
  pub graph-IsRooted :
      (value : Json)
      → graph h value ≡ true
      → (adjacency : Adjacency) × (root : ℕ) × (read_graph h value ≡ some (adjacency, root))
        × IsRooted adjacency root
  unfolding graph
  graph-IsRooted value ok = elim (Option-cases (read_graph h value)) [
    | inl bad ↦ absurd (ground (arith, bad, ok))
    | inr ((adjacency, root), read) ↦
        (adjacency, root, read, visits_all-IsRooted adjacency root (ground (arith, read, ok)))
  ]
