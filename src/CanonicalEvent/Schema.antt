-- ===== src/CanonicalEvent/Schema.antt =====
-- `CanonicalEventSchema` and `valid_owned_event` (src/debugbundle/canonical_event.py): the
-- interpreter of a schema. The schema is the JSON file beside the module. The cache of references is
-- left out, as it gives what it was given. In that file a bound is a number, `enum` a list and
-- `properties` an object; on another schema such a test of the model is false.
use debugbundle_python.Prelude.{
  ℕ, zero, suc, ◌+◌, String, Option, none, some, Bool, true, false, not, ◌&&◌, ◌||◌, List, [], ◌∷◌,
  length, ltb, nat_eqb, string_eq, ◌==◌, if◌then◌else◌, get_elem?, ◌>>=◌,
}
use debugbundle_python.Prelude.Int.{ℤ, pos}
use debugbundle_python.Prelude.Text.{codes, same_codes}
use debugbundle_python.Json.{
  Json, Fields, bool, int, float, str, list, dict, end, field, elements, entries, get, has,
}
use debugbundle_python.Evidence.{is_hex_uuid}
use debugbundle_python.Evidence.Shapes.{WireHost, timestamp}
use debugbundle_python.CanonicalEvent.Values.{number_of, number_le, schema_equal, plain_tests}

-- How a check ends: with a value and the calls that are left, with `ValidationBudgetExceeded`, or
-- with another exception.
pub data Outcome {ℓ} (A : Type ℓ) : Type ℓ where
  done : ℕ → A → Outcome A
  exceeded failed : Outcome A

abbrev pub Check : Type 0
Check = ℕ → Outcome Bool

-- What the interpreter takes from libraries: whether a pattern compiles, `re.search`, and `int` of a
-- text.
pub record SchemaHost : Type 0 where
  pub compiles : String → Bool
  pub search : String → String → Bool
  pub int_of : List ℕ → Option ℕ

-- `key in value` for each key that is required
abbrev pub has_required : Fields → List Json → Bool
has_required value [] = true
has_required value (str key ∷ keys) = has value key && has_required value keys
has_required value (_ ∷ keys) = false

abbrev pub items_of : Json → List Json
items_of (list items) = elements items
items_of _ = []

abbrev pub fields_in : Json → Fields
fields_in (dict fields) = fields
fields_in _ = end

-- `properties.get(key, node.get("additionalProperties", True))`
abbrev pub schema_of : Fields → String → Json
schema_of node key =
    if has (fields_in (get node "properties")) key
    then get (fields_in (get node "properties")) key
    else if has node "additionalProperties"
    then get node "additionalProperties"
    else bool true

abbrev le_option : Option (ℤ × ℕ) → Option (ℤ × ℕ) → Bool
le_option (some a) (some b) = number_le a b
le_option _ _ = false

-- `a <= b` for numbers
abbrev json_le : Json → Json → Bool
json_le a b = le_option (number_of a) (number_of b)

-- `length >= node.get(low, 0) and length <= node.get(high, length)`
abbrev pub length_within : Fields → String → String → ℕ → Bool
length_within node low high n =
    (not (has node low) || json_le (get node low) (int (pos n)))
    && (not (has node high) || json_le (int (pos n)) (get node high))

abbrev pub number_within : Fields → Json → Bool
number_within node value =
    (not (has node "minimum") || json_le (get node "minimum") value)
    && (not (has node "maximum") || json_le value (get node "maximum"))
    && (not (has node "exclusiveMinimum") || not (json_le value (get node "exclusiveMinimum")))

-- `len(value.encode("utf-16-le")) // 2`
abbrev utf16_length : List ℕ → ℕ
utf16_length [] = 0
utf16_length (c ∷ cs) = (if ltb c 65_536 then 1 else 2) + utf16_length cs

abbrev text_is : Json → String → Bool
text_is (str s) t = s == t
text_is _ t = false

abbrev pub lift : Bool → Check
lift b budget = done budget b

-- `a and b`, and `a or b`
abbrev pub also : Check → Check → Check
also first second budget = elim (first budget) [
  | done left true ↦ second left
  | done left false ↦ done left false
  | exceeded ↦ exceeded
  | failed ↦ failed
]

abbrev pub otherwise : Check → Check → Check
otherwise first second budget = elim (first budget) [
  | done left true ↦ done left true
  | done left false ↦ second left
  | exceeded ↦ exceeded
  | failed ↦ failed
]

-- `all` and `any` of checks, which stop at the first that decides
abbrev pub all_checks {ℓ} : {A : Type ℓ} → (A → Check) → List A → Check
all_checks test [] = lift true
all_checks test (x ∷ xs) = also (test x) (all_checks test xs)

abbrev pub any_checks {ℓ} : {A : Type ℓ} → (A → Check) → List A → Check
any_checks test [] = lift false
any_checks test (x ∷ xs) = otherwise (test x) (any_checks test xs)

-- The parts of a reference between slashes, each with "~1" and "~0" replaced
abbrev unescape : List ℕ → List ℕ
unescape [] = []
unescape (c ∷ []) = c ∷ []
unescape (c ∷ d ∷ cs) =
    let rest = unescape (d ∷ cs) in
    let skipped = unescape cs in
    if nat_eqb c b'~' && nat_eqb d b'1'
    then b'/' ∷ skipped
    else if nat_eqb c b'~' && nat_eqb d b'0'
    then b'~' ∷ skipped
    else c ∷ rest

abbrev parts : List ℕ → List ℕ × List (List ℕ)
parts [] = ([], [])
parts (c ∷ cs) =
    let (first, rest) = parts cs in if nat_eqb c b'/' then ([], first ∷ rest) else (c ∷ first, rest)

abbrev child : Fields → List ℕ → Option Json
child end key = none
child (field k v rest) key =
    let later = child rest key in if same_codes (codes k) key then some v else later

module _ (w : WireHost) (h : SchemaHost) where
  abbrev pattern_found : Json → String → Bool
  pattern_found (str pattern) s = h.search pattern s
  pattern_found _ s = false

  -- `_resolve`: the loop over the parts, and the test of the start
  abbrev walk_parts : List (List ℕ) → Json → Option Json
  walk_parts [] node = some node
  walk_parts (key ∷ keys) (list items) = do
    n ← h.int_of key
    found ← get_elem? (elements items) n
    walk_parts keys found
  walk_parts (key ∷ keys) (dict fields) = do
    found ← child fields (unescape key)
    walk_parts keys found
  walk_parts (key ∷ keys) _ = none

  abbrev resolve_codes : Json → List ℕ → Option Json
  resolve_codes root (c ∷ d ∷ cs) =
      let (first, rest) = parts cs in
      if nat_eqb c b'#' && nat_eqb d b'/' then walk_parts (first ∷ rest) root else none
  resolve_codes root _ = none

  abbrev pub resolve : Json → Json → Option Json
  resolve root (str reference) = resolve_codes root (codes reference)
  resolve root _ = none

  abbrev pub text_within : Fields → String → Bool
  text_within node s =
      length_within node "minLength" "maxLength" (utf16_length (codes s))
      && (not (has node "pattern") || pattern_found (get node "pattern") s)
      && (not (text_is (get node "format") "uuid") || is_hex_uuid (str s))
      && (not (text_is (get node "format") "date-time") || timestamp w (str s))

  -- `_check` by the kind of the value, with the visit of a child
  abbrev pub check_shape : (Json → Json → Check) → Fields → Json → Check
  check_shape visit node (dict value) =
      also (lift (has_required value (items_of (get node "required"))))
        (all_checks (λ entry. visit (schema_of node entry.0) entry.1) (entries value))
  check_shape visit node (list items) =
      also (lift (length_within node "minItems" "maxItems" (length (elements items)))) (
        if has node "items"
        then all_checks (visit (get node "items")) (elements items)
        else lift true)
  check_shape visit node (str s) = lift (text_within node s)
  check_shape visit node (int z) = lift (number_within node (int z))
  check_shape visit node (float x) = lift (number_within node (float x))
  check_shape visit node _ = lift true

  abbrev pub visit_reference : (Json → Json → Check) → Option Json → Json → Check
  visit_reference visit none value budget = failed
  visit_reference visit (some node) value budget = visit node value budget

  -- `_check`, behind its guard
  abbrev pub check_node : Json → (Json → Json → Check) → Json → Json → Check
  check_node root visit (bool b) value = lift b
  check_node root visit (dict node) value =
      if has node "$ref"
      then visit_reference visit (resolve root (get node "$ref")) value
      else also
          (if has node "anyOf"
            then any_checks (λ choice. visit choice value) (items_of (get node "anyOf"))
            else lift true)
          (also (lift (plain_tests node value)) (check_shape visit node value))
  check_node root visit _ value = λ budget. failed

  -- `_check` at depth 65 - rounds: the guard refuses depth 65, and a call when none is left.
  unfoldable pub check : Json → ℕ → Json → Json → Check
  unfolding schema_equal
  check root zero node value budget = exceeded
  check root (suc rounds) node value zero = exceeded
  check root (suc rounds) node value (suc budget) =
      check_node root (check root rounds) node value budget

  -- `accepts`
  unfoldable pub accepts : Json → Json → Outcome Bool
  unfolding check
  accepts root value = check root 65 root value 100_000
