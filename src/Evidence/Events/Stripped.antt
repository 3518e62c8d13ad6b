-- ===== src/Evidence/Events/Stripped.antt =====
-- What `strip_unsupported` of src/debugbundle/evidence_wire.py leaves of an event.
use debugbundle_python.Prelude.{
  ◌≤◌, ◌≡◌, ◌∙◌, refl, ap, sym, subst, ◌⊎◌, String, Option, none, some, true, false, ◌||◌, List, [],
  ◌∷◌, length, contains, arith, string_eq, ◌==◌, ==_iff, if◌then◌else◌, inl, inr, Bool-cases,
  Option-cases, eq_of_some, is_some,
}
use debugbundle_python.Json.{Json, Fields, null, dict, entries, get}
use debugbundle_python.Evidence.{is_text, reference}
use debugbundle_python.Evidence.Shapes.{mapping}
use debugbundle_python.Evidence.Events.{
  without, set_field, unsupported, with_context, strip_unsupported,
}
use debugbundle_python.Evidence.Events.Editing.{get-without, get-set_field, mapping-dict}

-- The context changes only where it holds a reference that no feature takes.
pub with_context-cases :
    (features : List String) (g : Fields) (context : Json)
    → (with_context features g context ≡ g)
      ⊎ ((c : Fields) × (context ≡ dict c)
          × (length (entries c) ≤ 256)
          × (with_context features g context
              ≡ set_field g "context" (dict (without ("evidence_reference" ∷ []) c))))
with_context-cases features g context =
    elim (Bool-cases
      (contains features "resource_observations_v1" || contains features "recovery_v1")) [
        | inl takes ↦ inl (rw (takes, with_context) refl)
        | inr not_taken ↦ elim (Option-cases (mapping context)) [
          | inl bad ↦ inl (rw (not_taken, with_context) (rw bad refl))
          | inr (c, read) ↦
              let (is_dict, fits) = mapping-dict context c read in
              elim (Bool-cases (is_some (reference (get c "evidence_reference")))) [
                | inr plain ↦ inl (rw (not_taken, with_context) (rw read (rw plain refl)))
                | inl held ↦
                    inr (c, is_dict, fits, rw (not_taken, with_context) (rw read (rw held refl)))
              ]
        ]
      ]

-- The feature that a field of a payload needs.
abbrev pub needed : String → Option String
needed key =
    if "exception_evidence" == key || "execution" == key
    then some "exception_evidence_v1"
    else if "resource_observations" == key
    then some "resource_observations_v1"
    else none

-- A field that needs a feature stays where the feature is there, and any other field stays.
abbrev pub supported_value : List String → Fields → String → Json
supported_value features payload key = elim (needed key) [
  | none ↦ get payload key
  | some feature ↦ if contains features feature then get payload key else null
]

other_keys :
    (key : String)
    → "resource_observations" ≡ key
    → ("exception_evidence" == key || "execution" == key) ≡ false
other_keys key e = subst (λ k. ("exception_evidence" == k || "execution" == k) ≡ false) e refl

unsupported-supported_value :
    (features : List String) (payload : Fields) (key : String)
    → (if contains (unsupported features) key then null else get payload key)
      ≡ supported_value features payload key
unfolding contains
unsupported-supported_value features payload key =
    let apart : ("resource_observations" == key) ≡ true
        → ("exception_evidence" == key || "execution" == key) ≡ false =
      λ same. other_keys key ((==_iff "resource_observations" key).0 same) in
    elim (Bool-cases (contains features "exception_evidence_v1")) [
      | inl a ↦ elim (Bool-cases (contains features "resource_observations_v1")) [
        | inl b ↦ ground (arith, a, b, apart)
        | inr b ↦ ground (arith, a, b, apart)
      ]
      | inr a ↦ elim (Bool-cases (contains features "resource_observations_v1")) [
        | inl b ↦ ground (arith, a, b, apart)
        | inr b ↦ ground (arith, a, b, apart)
      ]
    ]

-- What is left of an event that is not a diagnostic context.
pub record IsStripped (features : List String) (fields payload out : Fields) : Type 0 where
  pub payload_left : Fields
  pub here : get out "payload" ≡ dict payload_left
  pub left : (key : String) → get payload_left key ≡ supported_value features payload key
  pub others :
      (key : String)
      → (key == "payload") ≡ false
      → (key == "context") ≡ false
      → get out key ≡ get fields key

same_sym : (a b : String) → (a == b) ≡ false → (b == a) ≡ false
same_sym a b h = ground (arith, h, ==_iff a b, ==_iff b a)

pub with_context-get :
    (features : List String) (g : Fields) (context : Json) (key : String)
    → (key == "context") ≡ false
    → get (with_context features g context) key ≡ get g key
with_context-get features g context key apart = elim (with_context-cases features g context) [
  | inl same ↦ ap (λ o. get o key) same
  | inr (c, is_dict, fits, e) ↦
      ap (λ o. get o key) e
      ∙ get-set_field g "context" _ key
      ∙ (rw (same_sym key "context" apart) refl)
]

-- Where strip_unsupported leaves something of an event that is no diagnostic context, the payload
-- has lost the fields whose feature is missing and no other, and every field of the event besides
-- the payload and the context is as it was.
pub strip_unsupported-IsStripped :
    (features : List String) (event : Json) (fields payload out : Fields)
    → mapping event ≡ some fields
    → mapping (get fields "payload") ≡ some payload
    → is_text (get fields "event_type") "diagnostic_context" ≡ false
    → strip_unsupported event features ≡ some out
    → IsStripped features fields payload out
unfolding strip_unsupported
strip_unsupported-IsStripped features event fields payload out one two plain h =
    let left = without (unsupported features) payload in
    let g = set_field fields "payload" (dict left) in
    let e : with_context features g (get fields "context") ≡ out =
      eq_of_some (rw plain at (rw two at (rw (one, strip_unsupported) at h))) in
    record {
      payload_left = left;
      here =
          ap (λ o. get o "payload") (sym e)
          ∙ with_context-get features g (get fields "context") "payload" refl
          ∙ get-set_field fields "payload" (dict left) "payload";
      left = λ key.
          get-without (unsupported features) payload key
          ∙ unsupported-supported_value features payload key;
      others = λ key a b.
          ap (λ o. get o key) (sym e)
          ∙ with_context-get features g (get fields "context") key b
          ∙ get-set_field fields "payload" (dict left) key
          ∙ rw (same_sym key "payload" a) refl;
    }
