-- ===== src/Tests/CanonicalTests.antt =====
-- Runs of src/debugbundle/canonical_event.py and src/debugbundle/before_send.py.
use debugbundle_python.Prelude.{
  ℕ, ◌≡◌, ◌≤◌, refl, String, Option, none, some, Bool, true, false, List, [], ◌∷◌,
}
use debugbundle_python.Prelude.Int.{pos}
use debugbundle_python.Json
use debugbundle_python.Prelude
use debugbundle_python.Json.{Json, Fields, null, bool, int, str, list, dict, nil, cons, end, field}
use debugbundle_python.Evidence.Shapes.{WireHost}
use debugbundle_python.CanonicalEvent.{copied, own_json}
use debugbundle_python.CanonicalEvent.Owned.{size, depth, own_json-same}
use debugbundle_python.CanonicalEvent.Schema.{SchemaHost, done, check, accepts}
use debugbundle_python.CanonicalEvent.Closed.{IsObject, check-IsObject}
use debugbundle_python.BeforeSend.{value, raised, apply_before_send}
use debugbundle_python.BeforeSend.Checked
use debugbundle_python.BeforeSend.Checked.{apply_before_send-Outcome}

abbrev pub wire : WireHost
wire = record {
  utf8_length = λ s. some 3;
  url_parts = λ s. none;
  dumps_length = λ s. some 3;
  number_shape = λ j. none;
  strip = λ s. s;
}

abbrev pub schemas : SchemaHost
schemas = record { compiles = λ p. true; search = λ p s. true; int_of = λ cs. none }

-- An object with a text "id", and no other key
abbrev node : Fields
node = field "type" (str "object") (
    field "required" (list (cons (str "id") nil)) (
      field "properties"
        (dict (field "id" (dict (field "$ref" (str "#/definitions/text") end)) end))
        (field "additionalProperties" (bool false)
          (field "anyOf" (list (cons (bool false) (cons (bool true) nil))) end))))

abbrev schema : Json
schema = dict (
    field "$ref" (str "#/definitions/event") (
      field "definitions"
        (dict
          (field "event" (dict node) (field "text" (dict (field "type" (str "string") end)) end)))
        end))

abbrev event : Fields
event = field "id" (str "e1") end

accepts_test : accepts wire schemas schema (dict event) ≡ done 99_994 true
unfolding accepts Json.get Json.has Prelude.Dict.get
accepts_test = refl

-- A key that is no property
refused_test :
    accepts wire schemas schema (dict (field "id" (str "e1") (field "extra" null end)))
    ≡ done 99_993 false
unfolding accepts Json.get Json.has Prelude.Dict.get
refused_test = refl

node_test : check wire schemas schema 64 (dict node) (dict event) 99_999 ≡ done 99_994 true
unfolding check Json.get Json.has Prelude.Dict.get
node_test = refl

check-IsObject_example : IsObject wire schemas schema 63 node event 99_999 99_994
unfolding Json.has Prelude.Dict.get
check-IsObject_example =
    check-IsObject wire schemas schema 63 node event 99_999 99_994 refl node_test

owned_test : own_json wire (dict event) ≡ copied (pos 8_388_594) 4_093 (dict event)
unfolding own_json
owned_test = refl

own_json-same_example :
    (◌≡◌ {A = Json} (dict event) (dict event))
    × (size (dict event) ≤ 4_096)
    × (depth (dict event) ≤ 16)
own_json-same_example =
    own_json-same wire (dict event) (pos 8_388_594) 4_093 (dict event) owned_test

abbrev log : Json
log = dict (field "event_type" (str "log_event") (field "payload" (dict end) end))

abbrev longer : Json
longer =
    dict (
      field "event_type" (str "log_event")
        (field "note" (str "n") (field "payload" (dict end) end)))

hook_test :
    apply_before_send wire schemas (bool true) log (some (λ e. value longer)) ≡ (some longer, [])
unfolding apply_before_send Json.get Json.has Prelude.Dict.get
hook_test = refl

raising_test :
    apply_before_send wire schemas (bool true) log (some (λ e. raised))
    ≡ (some log, "before_send_failed" ∷ [])
unfolding apply_before_send
raising_test = refl

apply_before_send-Outcome_example :
    Checked.Outcome wire schemas
      (bool true)
      log
      (value longer)
      (apply_before_send wire schemas (bool true) log (some (λ e. value longer)))
apply_before_send-Outcome_example =
    apply_before_send-Outcome wire schemas (bool true) log (λ e. value longer)
