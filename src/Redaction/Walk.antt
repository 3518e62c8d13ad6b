-- ===== src/Redaction/Walk.antt =====
-- `sanitize_telemetry`, `has_safe_event_identity` and `redact_value`
-- (src/debugbundle/redaction.py). A value is a tree, so no object contains itself; an `UnsafeTelemetry`
-- that is raised is `none`.
use debugbundle_python.Prelude.{
  ℕ, ◌+◌, String, Option, none, some, Bool, true, false, not, ◌&&◌, ◌||◌, List, [], ◌∷◌, ◌++◌,
  length, leb, ltb, nat_eqb, string_eq, ◌==◌, if◌then◌else◌, ◌>>=◌, is_some,
}
use debugbundle_python.Prelude.Int.{pos}
use debugbundle_python.Prelude.Text.{codes, same_codes}
use debugbundle_python.Json.{
  Json, Items, Fields, null, bool, int, float, str, list, dict, nil, cons, end, field, elements,
  entries, get, finite,
}
use debugbundle_python.Redaction.{
  label, Loaded, parsed, malformed, refused, RedactHost, redacted_value, mandatory_fields,
  sensitive_key,
}
use debugbundle_python.Redaction.Texts.{scrub_text}

pub record State : Type 0 where
  pub nodes : ℕ
  pub bytes : ℕ

-- `state["nodes"] += 1` with its limit, and `state["bytes"] += length` with its limit
abbrev pub enter : State → Option State
enter s = if ltb 4_096 (s.nodes + 1) then none else some (record s { nodes = s.nodes + 1 })

abbrev pub spend : State → ℕ → Option State
spend s n = if ltb 262_144 (s.bytes + n) then none else some (record s { bytes = s.bytes + n })

-- `candidate.startswith(("{", "["))`
abbrev pub starts_structure : List ℕ → Bool
starts_structure [] = false
starts_structure (c ∷ cs) = nat_eqb c b'{' || nat_eqb c b'['

abbrev pub is_structure : Json → Bool
is_structure (dict fields) = true
is_structure (list items) = true
is_structure _ = false

abbrev pub Walk : Type 0
Walk = Option (State × Json)

module _ (h : RedactHost) (extra : List String) where
  -- The scrubbed text, with the last guard of a text.
  abbrev pub scrubbed : String → String
  scrubbed candidate =
      let result = scrub_text h extra candidate in
      if starts_structure (codes candidate)
        && (result == candidate)
        && is_some (h.search label candidate)
      then redacted_value
      else result

  -- The texts of `visit` within a nested document
  abbrev pub visit_inner_text : State → String → Walk
  visit_inner_text s candidate = some (s, str (scrubbed candidate))

  -- The length tests of a text, and what follows where it is short.
  abbrev pub visit_text : (State → String → Walk) → State → String → Walk
  visit_text texts s candidate =
      if ltb 16_384 (length (codes candidate)) then some (s, str redacted_value) else do
        n ← h.encoded candidate
        if ltb 16_384 n
            then some (s, str redacted_value)
            else (do spent ← spend s n; texts spent candidate)

  abbrev pub key_kept : String → Bool
  key_kept key = scrub_text h extra key == key

  abbrev pub key_sensitive : String → Bool
  key_sensitive key = sensitive_key h key (mandatory_fields ++ extra)

  -- What each call of `visit` does before it looks at the value.
  abbrev pub at_depth : ℕ → State → (State → Walk) → Walk
  at_depth depth s visit_it = do
    entered ← enter s
    if ltb 16 depth then some (entered, str redacted_value) else visit_it entered

  -- A key that stays, with its value, and the fields behind it.
  abbrev pub with_value :
      String → (State → Walk) → (State → Option (State × Fields)) → State → Option (State × Fields)
  with_value key visit_it rest s = do
    (s', out) ← if key_sensitive key then some (s, str redacted_value) else visit_it s
    (s'', outs) ← rest s'
    some (s'', field key out outs)

  -- One round of the loop over a mapping.
  abbrev pub visit_field :
      String → (State → Walk) → (State → Option (State × Fields)) → State → Option (State × Fields)
  visit_field key visit_it rest s = if ltb 128 (length (codes key)) then rest s else (do
    n ← h.encoded key
    spent ← spend s n
    if key_kept key then with_value key visit_it rest spent else rest spent)

  module _ (texts : State → String → Walk) where
    unfoldable mutual
      unfolding sensitive_key scrub_text

      pub visit_value : ℕ → State → Json → Walk
      visit_value depth s (str t) = visit_text texts s t
      visit_value depth s (list items) =
          if ltb 256 (length (elements items))
          then some (s, str redacted_value)
          else (do (s', out) ← visit_items depth s items; some (s', list out))
      visit_value depth s (dict fields) =
          if ltb 256 (length (entries fields))
          then some (s, str redacted_value)
          else (do (s', out) ← visit_fields depth s fields; some (s', dict out))
      visit_value depth s other = some (s, other)

      pub visit_items : ℕ → State → Items → Option (State × Items)
      visit_items depth s nil = some (s, nil)
      visit_items depth s (cons x xs) = do
        (s', out) ← at_depth (depth + 1) s (λ t. visit_value (depth + 1) t x)
        (s'', outs) ← visit_items depth s' xs
        some (s'', cons out outs)

      pub visit_fields : ℕ → State → Fields → Option (State × Fields)
      visit_fields depth s end = some (s, end)
      visit_fields depth s (field key value rest) =
          visit_field key (λ t. at_depth (depth + 1) t (λ e. visit_value (depth + 1) e value))
            (λ t. visit_fields depth t rest) s

    -- `visit(candidate, depth, structured)`, where `texts` says what `structured` does to a text
    abbrev pub visit : ℕ → State → Json → Walk
    visit depth s candidate = at_depth depth s (λ e. visit_value depth e candidate)

  -- The texts of `visit` where `structured` holds: the document that a text holds is visited in its
  -- place.
  abbrev pub visit_document : State → String → Loaded → Walk
  visit_document s candidate refused = none
  visit_document s candidate malformed = visit_inner_text s candidate
  visit_document s candidate (parsed nested) =
      if is_structure nested
      then (do (s', out) ← visit visit_inner_text 0 s nested; some (s', str (h.dumps out)))
      else visit_inner_text s candidate

  abbrev pub visit_outer_text : State → String → Walk
  visit_outer_text s candidate =
      if starts_structure (codes candidate)
      then visit_document s candidate (h.loads candidate)
      else visit_inner_text s candidate

  -- `not 0 < len(field) <= 64`
  abbrev pub bad_field : List String → Bool
  bad_field [] = false
  bad_field (f ∷ fs) = not (ltb 0 (length (codes f)) && leb (length (codes f)) 64) || bad_field fs

  -- `sanitize_telemetry(value, additional_fields)`
  unfoldable pub sanitize_telemetry : Json → Option Json
  unfolding visit_value
  sanitize_telemetry value = if ltb 128 (length extra) || bad_field extra then none else (do
    (s, out) ← visit visit_outer_text 0 (record { nodes = 0; bytes = 0 }) value
    size ← h.encoded (h.dumps out)
    if ltb 262_144 size then none else some out)

  -- `value is None or isinstance(value, str) and sanitize_telemetry(value, extra) == value`, where
  -- `none` is an `UnsafeTelemetry` that is raised
  abbrev pub safe_identity : Json → Option Bool
  safe_identity null = some true
  safe_identity (str t) = do
    out ← sanitize_telemetry (str t)
    some (elim out [ str u ↦ u == t | _ ↦ false ])
  safe_identity _ = some false

  abbrev pub all_safe : List Json → Option Bool
  all_safe [] = some true
  all_safe (v ∷ vs) = do ok ← safe_identity v; if ok then all_safe vs else some false

  abbrev values_of : Fields → List Json
  values_of end = []
  values_of (field k v rest) = v ∷ values_of rest

  -- `event.get("correlation") or {}`, as the mapping that it is
  abbrev correlation_of : Json → Option Fields
  correlation_of (dict fields) = some fields
  correlation_of null = some end
  correlation_of (bool b) = if b then none else some end
  correlation_of (str t) = if t == "" then some end else none
  correlation_of (int (pos n)) = if nat_eqb n 0 then some end else none
  correlation_of (float (finite (pos m) e)) = if nat_eqb m 0 then some end else none
  correlation_of (list nil) = some end
  correlation_of _ = none

  -- `has_safe_event_identity`
  unfoldable pub has_safe_event_identity : Fields → Option Bool
  unfolding sanitize_telemetry
  has_safe_event_identity event = elim (correlation_of (get event "correlation")) [
    | none ↦ some false
    | some correlation ↦
        if ltb 8 (length (entries correlation))
        then some false
        else all_safe (
            get event "schema_version"
            ∷ get event "sdk_name"
            ∷ get event "sdk_version"
            ∷ values_of correlation)
  ]

module _ (h : RedactHost) (redact_fields : List String) where
  -- `key.lower() in redact_fields`
  abbrev pub is_redacted : List String → String → Bool
  is_redacted [] key = false
  is_redacted (f ∷ fs) key = same_codes (codes f) (h.lower (codes key)) || is_redacted fs key

  unfoldable mutual
    pub redact_value : Json → Json
    redact_value (dict fields) = dict (redact_fields_of fields)
    redact_value (list items) = list (redact_items items)
    redact_value other = other

    pub redact_items : Items → Items
    redact_items nil = nil
    redact_items (cons x xs) = cons (redact_value x) (redact_items xs)

    pub redact_fields_of : Fields → Fields
    redact_fields_of end = end
    redact_fields_of (field key value rest) =
        field key (if is_redacted redact_fields key then str redacted_value else redact_value value)
          (redact_fields_of rest)
