-- ===== src/CanonicalEvent/Values.antt =====
-- Equality, types and numbers as the interpreter of a schema (src/debugbundle/canonical_event.py)
-- compares them.
use debugbundle_python.Prelude.{
  ℕ, ◌+◌, ◌*◌, ◌^◌, ◌%◌, String, Option, none, some, Bool, true, false, not, ◌&&◌, ◌||◌, List, [],
  ◌∷◌, length, leb, nat_eqb, string_eq, ◌==◌, if◌then◌else◌,
}
use debugbundle_python.Prelude.Int.{ℤ, pos, pos_part, neg_part}
use debugbundle_python.Json.{
  Json, Items, Fields, finite, null, bool, int, float, str, list, dict, nil, cons, end, field,
  elements, entries, get, has,
}

-- A number m / 2 ^ e
abbrev pub number_of : Json → Option (ℤ × ℕ)
number_of (int z) = some (z, 0)
number_of (float (finite m e)) = some (m, e)
number_of _ = none

-- a ≤ b of m / 2 ^ e and k / 2 ^ f
abbrev pub number_le : ℤ × ℕ → ℤ × ℕ → Bool
number_le (m, e) (k, f) =
    leb (pos_part m * 2 ^ f + neg_part k * 2 ^ e) (pos_part k * 2 ^ e + neg_part m * 2 ^ f)

abbrev pub same_number : ℤ × ℕ → ℤ × ℕ → Bool
same_number a b = number_le a b && number_le b a

-- `value == choice` of Python for values that may be numbers, where True is 1
abbrev pub numeric : Json → Option (ℤ × ℕ)
numeric (bool true) = some (pos 1, 0)
numeric (bool false) = some (pos 0, 0)
numeric value = number_of value

abbrev pub both_numbers : Option (ℤ × ℕ) → Option (ℤ × ℕ) → Bool
both_numbers (some a) (some b) = same_number a b
both_numbers _ _ = false

-- `==` of Python on JSON values
unfoldable mutual
  pub py_equal : Json → Json → Bool
  py_equal null null = true
  py_equal (str a) (str b) = a == b
  py_equal (list xs) (list ys) = equal_items xs ys
  py_equal (dict xs) (dict ys) =
      nat_eqb (length (entries xs)) (length (entries ys)) && equal_fields xs ys
  py_equal value choice = both_numbers (numeric value) (numeric choice)

  pub equal_items : Items → Items → Bool
  equal_items nil nil = true
  equal_items (cons x xs) (cons y ys) = py_equal x y && equal_items xs ys
  equal_items _ _ = false

  pub equal_fields : Fields → Fields → Bool
  equal_fields end ys = true
  equal_fields (field key x xs) ys = has ys key && py_equal x (get ys key) && equal_fields xs ys

abbrev pub type_name : Json → String
type_name null = "null"
type_name (bool b) = "boolean"
type_name (int z) = "int"
type_name (float x) = "float"
type_name (str s) = "string"
type_name (list items) = "array"
type_name (dict fields) = "object"

abbrev pub is_number : Json → Bool
is_number (int z) = true
is_number (float x) = true
is_number _ = false

-- `_equal`
unfoldable pub schema_equal : Json → Json → Bool
unfolding py_equal
schema_equal value choice =
    (type_name value == type_name choice && py_equal value choice)
    || (is_number value && is_number choice && py_equal value choice)

-- `value == math.floor(value)` of a finite number
abbrev pub is_whole : Json → Bool
is_whole (int z) = true
is_whole (float (finite m e)) = nat_eqb ((pos_part m + neg_part m) % 2 ^ e) 0
is_whole _ = false

-- `_type`
abbrev pub has_type : Json → String → Bool
has_type value kind =
    if kind == "number" || kind == "integer"
    then is_number value && (kind == "number" || is_whole value)
    else type_name value == kind

abbrev pub any_json : (Json → Bool) → List Json → Bool
any_json test [] = false
any_json test (x ∷ xs) = test x || any_json test xs

abbrev pub kind_is : Json → Json → Bool
kind_is value (str kind) = has_type value kind
kind_is value _ = false

-- `node["type"]` is a list of kinds or one kind
abbrev pub some_type : Json → Json → Bool
some_type value (list kinds) = any_json (kind_is value) (elements kinds)
some_type value kind = kind_is value kind

abbrev pub some_choice : Json → Json → Bool
some_choice value (list choices) = any_json (schema_equal value) (elements choices)
some_choice value _ = false

-- The tests of a node that need no visit: type, const and enum
abbrev pub plain_tests : Fields → Json → Bool
plain_tests node value =
    (not (has node "type") || some_type value (get node "type"))
    && (not (has node "const") || schema_equal value (get node "const"))
    && (not (has node "enum") || some_choice value (get node "enum"))
