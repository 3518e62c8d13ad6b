-- ===== src/Trigger.antt =====
-- src/debugbundle/trigger_token.py: the probe directives that a signed token of a request turns on.
pub mod Signed
use debugbundle_python.Prelude.{
  ℕ, zero, suc, ◌+◌, ◌-◌, ◌%◌, String, Option, none, some, Bool, true, false, not, ◌&&◌, ◌||◌, List,
  [], ◌∷◌, ◌++◌, length, drop, nat_eqb, string_eq, ◌==◌, if◌then◌else◌, ◌>>=◌,
}
use debugbundle_python.Prelude.Int.{ℤ, ltb_ℤ}
use debugbundle_python.Prelude.Text.{codes, same_codes}
use debugbundle_python.Prelude.Dict.{Dict}
use debugbundle_python.Json.{
  Json, Fields, Items, str, list, dict, nil, cons, elements, entries, get,
}
use debugbundle_python.Config.{as_non_empty_string}
use debugbundle_python.Config.Remote.{RemoteProbeDirective, expires_at_ms, parse_directive, is_zero}

abbrev header_name : String
header_name = "x-debugbundle-probe-trigger"

abbrev query_parameter_name : String
query_parameter_name = "_debug_probe"

abbrev pub token_prefix : List ℕ
token_prefix = codes "dbundle_probe_"

-- The first text that is not empty
abbrev first_text : List Json → Option String
first_text [] = none
first_text (str s ∷ rest) = let later = first_text rest in if s == "" then later else some s
first_text (_ ∷ rest) = first_text rest

abbrev text_of_value : Json → Option String
text_of_value (str s) = if s == "" then none else some s
text_of_value (list items) = first_text (elements items)
text_of_value _ = none

-- The loop of `_extract_map_value`, with the test of a key.
abbrev extract_map_value : (String → Bool) → Dict String Json → Option String
extract_map_value matches [] = none
extract_map_value matches ((key, value) ∷ rest) =
    let later = extract_map_value matches rest in
    if matches key then (elim (text_of_value value) [ none ↦ later | some s ↦ some s ]) else later

abbrev pub with_code : ℕ → Option (List ℕ × List ℕ) → Option (List ℕ × List ℕ)
with_code c none = none
with_code c (some (front, back)) = some (c ∷ front, back)

-- `encoded[:index]` and `encoded[index + 1:]` at the first full stop
abbrev pub cut_at_stop : List ℕ → Option (List ℕ × List ℕ)
cut_at_stop [] = none
cut_at_stop (c ∷ cs) =
    let rest = cut_at_stop cs in if nat_eqb c b'.' then some ([], cs) else with_code c rest

abbrev pub is_nil : List ℕ → Bool
is_nil [] = true
is_nil (c ∷ cs) = false

-- The payload and the signature of a token, neither of which is empty.
abbrev pub segments : List ℕ → Option (List ℕ × List ℕ)
segments encoded = do
  (payload, signature) ← cut_at_stop encoded
  if is_nil payload || is_nil signature then none else some (payload, signature)

abbrev pub without_prefix : List ℕ → List ℕ → Option (List ℕ)
without_prefix [] cs = some cs
without_prefix (p ∷ ps) [] = none
without_prefix (p ∷ ps) (c ∷ cs) = if nat_eqb c p then without_prefix ps cs else none

abbrev pads : ℕ → List ℕ
pads zero = []
pads (suc n) = b'=' ∷ pads n

-- `value += "=" * (4 - padding)`, where the padding is not 0
abbrev padded : List ℕ → List ℕ
padded value = if nat_eqb (length value % 4) 0 then value else value ++ pads (4 - length value % 4)

abbrev object_of : Json → Option Fields
object_of (dict fields) = some fields
object_of _ = none

abbrev pub directives_of : Option RemoteProbeDirective → List RemoteProbeDirective
directives_of none = []
directives_of (some d) = d ∷ []

abbrev pub key_of : Option String → Option String
key_of none = none
key_of (some key) = if key == "" then none else some key

-- What the program takes from libraries: HMAC-SHA-256 of a text under a key, `urlsafe_b64decode` and
-- `json.loads` of decoded bytes, each with `none` for an error, `str.lower`, and `fromisoformat`.
pub record TriggerHost : Type 0 where
  pub hmac : String → List ℕ → List ℕ
  pub b64decode : List ℕ → Option (List ℕ)
  pub loads : List ℕ → Option Json
  pub lower : String → String
  pub from_iso : String → Option ℤ

module _ (h : TriggerHost) where
  -- `_extract_trigger_token`
  unfoldable pub extract_trigger_token : Fields → Option String
  extract_trigger_token request =
      let query : Option String = elim (get request "query") [
        | dict fields ↦ extract_map_value (λ key. key == query_parameter_name) (entries fields)
        | _ ↦ none
      ] in
      elim (get request "headers") [
        | dict fields ↦
            (elim (extract_map_value (λ key. h.lower key == h.lower header_name) (entries fields)) [
              | some token ↦ some token
              | none ↦ query
            ])
        | _ ↦ query
      ]

  -- `_has_valid_signature`
  unfoldable pub has_valid_signature : List ℕ → List ℕ → String → Bool
  has_valid_signature payload signature key = elim (h.b64decode (padded signature)) [
    | none ↦ false
    | some actual ↦ same_codes (h.hmac key payload) actual
  ]

  -- `_decode_payload_segment`, as the directive of its fields
  unfoldable pub decode_payload_segment : List ℕ → Option RemoteProbeDirective
  unfolding as_non_empty_string expires_at_ms
  decode_payload_segment payload = do
    decoded ← h.b64decode (padded payload)
    parsed ← h.loads decoded
    fields ← object_of parsed
    activation_id ← as_non_empty_string (get fields "activation_id")
    label_pattern ← as_non_empty_string (get fields "label_pattern")
    service ← as_non_empty_string (get fields "service")
    environment ← as_non_empty_string (get fields "environment")
    expires_at ← as_non_empty_string (get fields "trigger_expires_at")
    if is_zero h.from_iso (expires_at_ms h.from_iso expires_at)
        then none
        else some (record {
          id = activation_id;
          label_pattern = label_pattern;
          service = service;
          environment = environment;
          expires_at = expires_at;
        })

  -- A token whose signature is valid, before its time is over
  unfoldable pub signed_directive : String → List ℕ → ℤ → Option RemoteProbeDirective
  unfolding has_valid_signature decode_payload_segment
  signed_directive key encoded now_ms = do
    (payload, signature) ← segments encoded
    d ← if has_valid_signature payload signature key then decode_payload_segment payload else none
    if ltb_ℤ now_ms (expires_at_ms h.from_iso d.expires_at) then some d else none

  -- `resolve_request_trigger_directives`
  unfoldable pub resolve_request_trigger_directives :
      Option Fields → Option String → ℤ → List RemoteProbeDirective
  unfolding extract_trigger_token signed_directive
  resolve_request_trigger_directives request trigger_token_key now_ms = directives_of (do
    fields ← request
    key ← key_of trigger_token_key
    token ← extract_trigger_token fields
    encoded ← without_prefix token_prefix (codes token)
    signed_directive key encoded now_ms)
