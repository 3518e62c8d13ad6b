-- ===== src/Evidence/Graph.antt =====
-- `graph` of src/debugbundle/evidence_wire.py: the exceptions of an event and how they are related.
pub mod Walks
pub mod Reached
pub mod Accepted
use debugbundle_python.Prelude.{
  ℕ, zero, suc, ◌+◌, String, Option, none, some, Bool, true, false, not, ◌&&◌, ◌||◌, List, [], ◌∷◌,
  length, contains, leb, nat_eqb, string_eq, nat_eq, ◌==◌, if◌then◌else◌, ◌>>=◌, one_if,
}
use debugbundle_python.Prelude.Dict
use debugbundle_python.Prelude.Dict.{Dict}
use debugbundle_python.Json.{Json, Fields, Items, null, bool, str, list, dict, elements, get}
use debugbundle_python.Evidence.{is_version_one}
use debugbundle_python.Evidence.Shapes.{
  WireHost, closed_with, one_of, nullable, whole, at_least, text,
}
use debugbundle_python.Evidence.Size.{canonical_size}
use debugbundle_python.Evidence.Payloads.{all_items}

-- The nodes with the targets of their relationships
abbrev pub Adjacency : Type 0
Adjacency = Dict ℕ (List ℕ)

-- `_integer(value, 0, 7)`, as the number that it is
abbrev pub node_id : Json → Option ℕ
node_id value = do n ← whole value; if leb n 7 then some n else none

abbrev runtimes : List String
runtimes =
    "node" ∷ "browser" ∷ "python" ∷ "php" ∷ "jvm" ∷ "go" ∷ "ruby" ∷ "dotnet" ∷ "android" ∷ "swift"
    ∷ "react_native" ∷ "unknown" ∷ []

abbrev reasons : List String
reasons = "unknown" ∷ "unsafe" ∷ "unsupported" ∷ "budget_exceeded" ∷ []

abbrev is_bool : Json → Bool
is_bool (bool b) = true
is_bool _ = false

abbrev list_of : Json → ℕ → Option (List Json)
list_of (list items) maximum =
    if leb (length (elements items)) maximum then some (elements items) else none
list_of _ maximum = none

-- `(kind, target) in seen`
abbrev is_seen : String → ℕ → List (String × ℕ) → Bool
is_seen kind target [] = false
is_seen kind target ((k, t) ∷ seen) = (k == kind && nat_eqb t target) || is_seen kind target seen

abbrev kind_of : Json → Option String
kind_of (str s) =
    if contains ("cause" ∷ "context" ∷ "aggregate" ∷ "suppressed" ∷ []) s then some s else none
kind_of _ = none

abbrev fields_of : Json → List String → Option Fields
fields_of (dict value) required = if closed_with value required [] then some value else none
fields_of _ required = none

abbrev is_causal : String → Bool
is_causal kind = kind == "cause" || kind == "context"

-- The loop over the relationships of a node, with those seen and the number of causes.
unfoldable pub read_edges : List Json → List (String × ℕ) → ℕ → Option (List ℕ)
unfolding closed_with whole
read_edges [] seen causal = if leb causal 1 then some [] else none
read_edges (item ∷ items) seen causal = do
  edge ← fields_of item ("kind" ∷ "target_id" ∷ [])
  kind ← kind_of (get edge "kind")
  target ← node_id (get edge "target_id")
  fresh ← if is_seen kind target seen then none else some target
  rest ← read_edges items ((kind, target) ∷ seen) (causal + one_if (is_causal kind))
  some (target ∷ rest)

-- `visit(node_id, depth, ancestors)` with the nodes visited so far; the rounds are 5 - depth.
abbrev pub visit_all : (ℕ → List ℕ → Bool × List ℕ) → List ℕ → List ℕ → Bool × List ℕ
visit_all go [] visited = (true, visited)
visit_all go (child ∷ children) visited =
    let rest = visit_all go children (go child visited).1 in
    if (go child visited).0 then rest else (false, (go child visited).1)

abbrev pub add : List ℕ → ℕ → List ℕ
add visited node = if contains visited node then visited else node ∷ visited

unfoldable pub visit : Adjacency → ℕ → ℕ → List ℕ → List ℕ → Bool × List ℕ
visit adjacency zero node ancestors visited = (false, visited)
visit adjacency (suc rounds) node ancestors visited = elim (Dict.get adjacency node) [
  | none ↦ (false, visited)
  | some children ↦
      if contains ancestors node
      then (false, visited)
      else visit_all (λ child seen. visit adjacency rounds child (node ∷ ancestors) seen) children
          (add visited node)
]

-- What `graph` asks of the nodes together: the visit from the root, which meets them all.
unfoldable pub visits_all : Adjacency → ℕ → Bool
unfolding visit
visits_all adjacency root =
    let (ok, visited) = visit adjacency 5 root [] [] in
    ok && nat_eqb (length visited) (length adjacency)

module _ (h : WireHost) where
  unfoldable pub is_frame : Json → Bool
  unfolding closed_with text at_least
  is_frame value =
      elim (fields_of value ("function" ∷ "file" ∷ "line" ∷ "column" ∷ "classification" ∷ [])) [
        | none ↦ false
        | some frame ↦
            nullable (λ v. text h v 256) (get frame "function")
            && nullable (λ v. text h v 2_048) (get frame "file")
            && nullable (λ v. at_least v 1) (get frame "line")
            && nullable (λ v. at_least v 0) (get frame "column")
            && one_of (get frame "classification")
                ("application" ∷ "framework" ∷ "sdk" ∷ "unknown" ∷ [])
      ]

  abbrev node_texts : Fields → Bool
  node_texts node =
      text h (get node "name") 256
      && text h (get node "message") 2_048
      && nullable (λ v. text h v 16_384) (get node "stack")
      && one_of (get node "trace_origin") (
          "throw" ∷ "native_fatal" ∷ "capture" ∷ "runtime_reported" ∷ "unavailable" ∷ "unknown"
          ∷ [])
      && one_of (get node "parsing_status")
          ("parsed" ∷ "partial" ∷ "unparsed" ∷ "unavailable" ∷ "truncated" ∷ [])

  -- A node of the loop: its id, and the targets of its relationships.
  unfoldable pub read_node : Json → Adjacency → Option (ℕ × List ℕ)
  unfolding closed_with whole text read_edges is_frame all_items
  read_node value adjacency = do
    node ← fields_of value (
        "id" ∷ "name" ∷ "message" ∷ "stack" ∷ "trace_origin" ∷ "parsing_status" ∷ "frames"
        ∷ "relationships" ∷ [])
    id ← node_id (get node "id")
    new ← if Dict.has adjacency id || not (node_texts node) then none else some id
    frames ← list_of (get node "frames") 32
    relationships ← list_of (get node "relationships") 5
    checked ← if all_items is_frame frames then some id else none
    edges ← read_edges relationships [] 0
    some (id, edges)

  unfoldable pub read_nodes : List Json → Adjacency → Option Adjacency
  unfolding read_node
  read_nodes [] adjacency = some adjacency
  read_nodes (item ∷ items) adjacency = do
    (id, edges) ← read_node item adjacency
    read_nodes items (Dict.put adjacency id edges)

  -- The adjacency and the root of a value with the shape of a graph.
  unfoldable pub read_graph : Json → Option (Adjacency × ℕ)
  unfolding closed_with is_version_one whole read_nodes
  read_graph value = do
    fields ←
        fields_of value
          ("version" ∷ "runtime" ∷ "root_id" ∷ "nodes" ∷ "truncated" ∷ "unavailable_reason" ∷ [])
    root ← node_id (get fields "root_id")
    nodes ← list_of (get fields "nodes") 8
    checked ←
        if is_version_one (get fields "version")
          && one_of (get fields "runtime") runtimes
          && is_bool (get fields "truncated")
          && nullable (λ v. one_of v reasons) (get fields "unavailable_reason")
          && leb 1 (length nodes)
        then some root
        else none
    adjacency ← read_nodes nodes []
    some (adjacency, root)

  unfoldable pub graph : Json → Bool
  unfolding read_graph visits_all canonical_size
  graph value = elim (read_graph value) [
    | none ↦ false
    | some (adjacency, root) ↦ visits_all adjacency root && leb (canonical_size h value) 32_768
  ]
