-- ===== src/Evidence.antt =====
-- src/debugbundle/evidence_wire.py: the closed shapes of references and capabilities, and
-- `EvidenceDelivery` of src/debugbundle/evidence_delivery.py.
pub mod Capabilities
pub mod Shapes
pub mod Size
pub mod Payloads
pub mod Graph
pub mod Events
pub mod Delivery
use debugbundle_python.Prelude.{
  ℕ, ◌+◌, ◌-◌, ◌/◌, ◌%◌, ◌^◌, String, Option, none, some, Bool, true, false, not, ◌&&◌, ◌||◌, List,
  [], ◌∷◌, length, contains, ltb, leb, nat_eqb, string_eq, ◌==◌, if◌then◌else◌,
}
use debugbundle_python.Prelude.Int.{pos}
use debugbundle_python.Prelude.Dict.{Dict}
use debugbundle_python.Prelude.Text.{codes}
use debugbundle_python.Json.{
  Json, Fields, Items, float, finite, int, str, list, dict, elements, entries, get, has,
}

-- One place of the pattern `_V4`; letters match in either case.
pub data Place : Type 0 where
  hex dash four variant : Place

abbrev pub is_digit : ℕ → Bool
is_digit c = leb b'0' c && leb c b'9'

pub fits_place : Place → ℕ → Bool
fits_place hex c = is_digit c || (leb b'a' c && leb c b'f') || (leb b'A' c && leb c b'F')
fits_place dash c = nat_eqb c b'-'
fits_place four c = nat_eqb c b'4'
fits_place variant c =
    nat_eqb c b'8'
    || nat_eqb c b'9'
    || nat_eqb c b'a'
    || nat_eqb c b'b'
    || nat_eqb c b'A'
    || nat_eqb c b'B'

pub fits : List Place → List ℕ → Bool
unfolding fits_place
fits [] [] = true
fits (p ∷ ps) (c ∷ cs) = fits_place p c && fits ps cs
fits _ _ = false

abbrev v4 : List Place
v4 =
    hex ∷ hex ∷ hex ∷ hex ∷ hex ∷ hex ∷ hex ∷ hex ∷ dash ∷ hex ∷ hex ∷ hex ∷ hex ∷ dash ∷ four ∷ hex
    ∷ hex ∷ hex ∷ dash ∷ variant ∷ hex ∷ hex ∷ hex ∷ dash ∷ hex ∷ hex ∷ hex ∷ hex ∷ hex ∷ hex ∷ hex
    ∷ hex ∷ hex ∷ hex ∷ hex ∷ hex ∷ []

-- `_uuid(value, True)`
pub fresh_uuid : Json → Bool
unfolding fits
fresh_uuid (str s) = fits v4 (codes s)
fresh_uuid _ = false

abbrev hex_groups : List Place
hex_groups =
    hex ∷ hex ∷ hex ∷ hex ∷ hex ∷ hex ∷ hex ∷ hex ∷ dash ∷ hex ∷ hex ∷ hex ∷ hex ∷ dash ∷ hex ∷ hex
    ∷ hex ∷ hex ∷ dash ∷ hex ∷ hex ∷ hex ∷ hex ∷ dash ∷ hex ∷ hex ∷ hex ∷ hex ∷ hex ∷ hex ∷ hex
    ∷ hex ∷ hex ∷ hex ∷ hex ∷ hex ∷ []

-- `_uuid(value)`
pub is_hex_uuid : Json → Bool
unfolding fits
is_hex_uuid (str s) = fits hex_groups (codes s)
is_hex_uuid _ = false

-- `all(key in value for key in required)`
abbrev pub has_all : Fields → List String → Bool
has_all value [] = true
has_all value (key ∷ keys) = has value key && has_all value keys

-- `all(key in required for key in value)`
abbrev pub only_keys : Dict String Json → List String → Bool
only_keys [] keys = true
only_keys ((key, v) ∷ rest) keys = contains keys key && only_keys rest keys

-- `_closed(value, required)` for an object
pub closed : Fields → List String → Bool
closed value required =
    leb (length (entries value)) (length required)
    && has_all value required
    && only_keys (entries value) required

-- `_integer(value, 1, 1)`
pub is_version_one : Json → Bool
is_version_one (int (pos n)) = nat_eqb n 1
is_version_one (float (finite (pos m) e)) = nat_eqb m (2 ^ e)
is_version_one _ = false

abbrev pub is_text : Json → String → Bool
is_text (str s) t = s == t
is_text _ t = false

pub is_scope : Json → Bool
unfolding closed fresh_uuid
is_scope (dict value) =
    leb (length (entries value)) 2
    && (if is_text (get value "kind") "page"
        then closed value ("kind" ∷ "page_id" ∷ []) && fresh_uuid (get value "page_id")
        else is_text (get value "kind") "operation"
          && closed value ("kind" ∷ "operation_id" ∷ [])
          && fresh_uuid (get value "operation_id"))
is_scope _ = false

-- `reference(value)`: the object itself, or `None`
unfoldable pub reference : Json → Option Fields
unfolding closed is_version_one fresh_uuid is_scope
reference (dict value) =
    if closed value ("version" ∷ "failure_ref" ∷ "scope" ∷ [])
      && is_version_one (get value "version")
      && fresh_uuid (get value "failure_ref")
      && is_scope (get value "scope")
    then some value
    else none
reference _ = none

abbrev pub features : List String
features =
    "exception_evidence_v1" ∷ "resource_observations_v1" ∷ "recovery_v1" ∷ "evidence_provenance_v1"
    ∷ []

-- The texts among the items, or `none` where one is no text or no known feature.
pub known_features : List Json → Option (List String)
known_features [] = some []
known_features (item ∷ items) = elim item [
  | str s ↦
      let rest = known_features items in
      if contains features s then elim rest [ none ↦ none | some l ↦ some (s ∷ l) ] else none
  | _ ↦ none
]

-- `len(set(xs)) == len(xs)`
abbrev pub distinct : List String → Bool
distinct [] = true
distinct (x ∷ xs) = not (contains xs x) && distinct xs

-- `[feature for feature in FEATURES if feature in selected]`
abbrev pub ordered : List String → List String → List String
ordered [] selected = []
ordered (f ∷ fs) selected =
    let rest = ordered fs selected in if contains selected f then f ∷ rest else rest

abbrev pub checked_features : Option (List String) → List String
checked_features none = []
checked_features (some selected) = if distinct selected then ordered features selected else []

pub parse_features : Json → List String
unfolding known_features
parse_features (list items) =
    if leb (length (elements items)) 4
    then checked_features (known_features (elements items))
    else []
parse_features _ = []

-- `parse_capabilities(value)["features"]`
unfoldable pub parse_capabilities : Json → List String
unfolding closed is_version_one parse_features
parse_capabilities (dict value) =
    if closed value ("version" ∷ "features" ∷ []) && is_version_one (get value "version")
    then parse_features (get value "features")
    else []
parse_capabilities _ = []

-- `"evidence_capabilities" in body` and its value
pub descriptor : Json → Option Json
descriptor (dict body) =
    if has body "evidence_capabilities" then some (get body "evidence_capabilities") else none
descriptor _ = none

abbrev pub or_none : Option Json → Json
or_none none = Json.null
or_none (some v) = v

-- `any(feature not in now for feature in previous)`
abbrev pub any_missing : List String → List String → Bool
any_missing [] now = false
any_missing (f ∷ previous) now = not (contains now f) || any_missing previous now

abbrev pub is_none : Option Json → Bool
is_none none = true
is_none (some v) = false

-- `EvidenceDelivery.observe`: the features that hold from now on, and whether one was lost.
unfoldable pub observe : List String → Json → Bool → Bool → List String × Bool
unfolding descriptor parse_capabilities
observe previous body required valid =
    if not required && is_none (descriptor body)
    then (previous, false)
    else let now = parse_capabilities (if valid then or_none (descriptor body) else Json.null) in
      (now, any_missing previous now)
