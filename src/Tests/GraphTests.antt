-- ===== src/Tests/GraphTests.antt =====
-- Runs of the validators of src/debugbundle/evidence_wire.py.
use debugbundle_python.Prelude.{ℕ, ◌≡◌, refl, none, some, true, false, [], ◌∷◌, contains}
use debugbundle_python.Prelude.Int.{pos}
use debugbundle_python.Prelude.Dict
use debugbundle_python.Json.{
  Json, Fields, Items, null, bool, int, str, list, dict, nil, cons, end, field, get,
}
use debugbundle_python.Evidence.Shapes.{WireHost}
use debugbundle_python.Evidence.Graph.{Adjacency, read_graph, graph}
use debugbundle_python.Evidence.Graph.Accepted.{IsRooted, graph-IsRooted}
use debugbundle_python.Evidence.Events.{strip_unsupported}
use debugbundle_python.Evidence.Events.Stripped.{IsStripped, strip_unsupported-IsStripped}

abbrev h : WireHost
h = record {
  utf8_length = λ s. some 5;
  url_parts = λ s. none;
  dumps_length = λ s. some 12;
  number_shape = λ n. none;
  strip = λ s. s;
}

abbrev node : ℕ → Items → Json
node id edges = dict (
    field "id" (int (pos id)) (
      field "name" (str "Error") (
        field "message" (str "boom") (
          field "stack" null (
            field "trace_origin" (str "throw") (
              field "parsing_status" (str "parsed")
                (field "frames" (list nil) (field "relationships" (list edges) end))))))))

-- An error and its cause.
abbrev caused : Json
caused = dict (
    field "version" (int (pos 1)) (
      field "runtime" (str "python") (
        field "root_id" (int (pos 0)) (
          field "nodes"
            (list (
              cons
                (node 0 (
                  cons (dict (field "kind" (str "cause") (field "target_id" (int (pos 1)) end)))
                    nil))
                (cons (node 1 nil) nil)))
            (field "truncated" (bool false) (field "unavailable_reason" null end))))))

caused_ok : graph h caused ≡ true
unfolding graph debugbundle_python.Json.has Dict.get contains get Dict.put
caused_ok = refl

graph-IsRooted_example :
    (adjacency : Adjacency) × (root : ℕ) × (read_graph h caused ≡ some (adjacency, root))
    × IsRooted adjacency root
graph-IsRooted_example = graph-IsRooted h caused caused_ok

abbrev payload : Fields
payload = field "exception_evidence" caused (field "message" (str "boom") end)

abbrev fields : Fields
fields = field "event_type" (str "backend_exception") (field "payload" (dict payload) end)

abbrev bare : Fields
bare =
    field "event_type" (str "backend_exception")
      (field "payload" (dict (field "message" (str "boom") end)) end)

stripped : strip_unsupported (dict fields) ("recovery_v1" ∷ []) ≡ some bare
unfolding strip_unsupported get Dict.get contains
stripped = refl

strip_unsupported-IsStripped_example : IsStripped ("recovery_v1" ∷ []) fields payload bare
unfolding get Dict.get
strip_unsupported-IsStripped_example =
    strip_unsupported-IsStripped ("recovery_v1" ∷ []) (dict fields) fields payload bare refl refl
      refl stripped
