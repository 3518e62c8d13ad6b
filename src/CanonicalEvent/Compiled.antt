-- ===== src/CanonicalEvent/Compiled.antt =====
-- `_compile` and `valid_owned_event` of src/debugbundle/canonical_event.py. The schema is the JSON
-- file beside the module.
use debugbundle_python.Prelude.{
  String, Option, none, some, Bool, true, false, not, ◌&&◌, ◌||◌, List, [], ◌∷◌, contains,
  string_eq, ◌==◌, if◌then◌else◌, is_some,
}
use debugbundle_python.Json.{
  Json, Items, Fields, null, bool, str, list, dict, nil, cons, end, field, elements,
}
use debugbundle_python.Evidence.Shapes.{WireHost}
use debugbundle_python.CanonicalEvent.Schema.{
  Outcome, done, exceeded, failed, SchemaHost, resolve, accepts,
}

module _ (w : WireHost) (h : SchemaHost) where
  abbrev keywords : List String
  keywords =
      "$schema" ∷ "$id" ∷ "$comment" ∷ "$ref" ∷ "type" ∷ "anyOf" ∷ "const" ∷ "enum" ∷ "properties"
      ∷ "required" ∷ "additionalProperties" ∷ "items" ∷ "minimum" ∷ "maximum" ∷ "exclusiveMinimum"
      ∷ "minLength" ∷ "maxLength" ∷ "minItems" ∷ "maxItems" ∷ "format" ∷ "pattern" ∷ []

  abbrev types : List String
  types = "null" ∷ "boolean" ∷ "number" ∷ "integer" ∷ "string" ∷ "array" ∷ "object" ∷ []

  abbrev known_type : Json → Bool
  known_type (str kind) = contains types kind
  known_type _ = false

  abbrev all_known : List Json → Bool
  all_known [] = true
  all_known (kind ∷ kinds) = known_type kind && all_known kinds

  abbrev known_types : Json → Bool
  known_types (list kinds) = all_known (elements kinds)
  known_types kind = known_type kind

  abbrev known_format : Json → Bool
  known_format null = true
  known_format (str format) = contains ("uuid" ∷ "date-time" ∷ []) format
  known_format _ = false

  abbrev good_pattern : Json → Bool
  good_pattern (str pattern) = h.compiles pattern
  good_pattern _ = false

  -- What `_compile` asks of one keyword apart from the nodes below it.
  abbrev good_keyword : Json → String → Json → Bool
  good_keyword root key value =
      contains keywords key
      && (not (key == "type") || known_types value)
      && (not (key == "format") || known_format value)
      && (not (key == "pattern") || good_pattern value)
      && (not (key == "$ref") || is_some (resolve w h root value))

  unfoldable mutual
    -- `_compile` without an error
    pub compiles : Json → Json → Bool
    compiles root (bool b) = true
    compiles root (dict node) = compiles_keywords root node
    compiles root _ = false

    pub compiles_keywords : Json → Fields → Bool
    compiles_keywords root end = true
    compiles_keywords root (field key value rest) =
        good_keyword root key value
        && (not (key == "properties") || compiles_values root value)
        && (not (key == "anyOf") || compiles_list root value)
        && (not (key == "items" || key == "additionalProperties") || compiles root value)
        && compiles_keywords root rest

    pub compiles_values : Json → Json → Bool
    compiles_values root (dict properties) = compiles_all root properties
    compiles_values root _ = false

    pub compiles_all : Json → Fields → Bool
    compiles_all root end = true
    compiles_all root (field key value rest) = compiles root value && compiles_all root rest

    pub compiles_list : Json → Json → Bool
    compiles_list root (list items) = compiles_items root items
    compiles_list root _ = false

    pub compiles_items : Json → Items → Bool
    compiles_items root nil = true
    compiles_items root (cons x xs) = compiles root x && compiles_items root xs

  -- `valid_owned_event`, with the schema of the file: whether the event is valid, or `none` for
  -- `ValidationBudgetExceeded`
  abbrev outcome_of : Outcome Bool → Option Bool
  outcome_of (done left b) = some b
  outcome_of exceeded = none
  outcome_of failed = some false

  unfoldable pub valid_owned_event : Json → Json → Option Bool
  unfolding accepts compiles
  valid_owned_event schema value =
      if compiles schema schema then outcome_of (accepts w h schema value) else some false
