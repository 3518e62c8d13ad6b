-- ===== src/Tests/EvidenceTests.antt =====
-- Capabilities of src/debugbundle/evidence_wire.py and hints of src/debugbundle/transport.py.
use debugbundle_python.Prelude.{
  String, ◌≤◌, ◌≡◌, refl, true, false, List, [], ◌∷◌, contains, string_eq, All,
}
use debugbundle_python.Prelude.Int.{pos}
use debugbundle_python.Json.{Json, int, str, list, dict, float, finite, nil, cons, end, field, has}
use debugbundle_python.Evidence.{observe}

-- A response that supports two features, named in another order.
abbrev supports : Json
supports = dict (
    field "evidence_capabilities"
      (dict (
        field "version" (int (pos 1)) (
          field "features"
            (list (cons (str "recovery_v1") (cons (str "exception_evidence_v1") nil))) end)))
      end)

observe-supports :
    observe [] supports true true ≡ ("exception_evidence_v1" ∷ "recovery_v1" ∷ [], false)
unfolding observe has debugbundle_python.Prelude.Dict.get debugbundle_python.Json.get contains
observe-supports = refl
