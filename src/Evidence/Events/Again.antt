-- ===== src/Evidence/Events/Again.antt =====
-- A second `strip_unsupported` (src/debugbundle/evidence_wire.py) changes nothing.
use debugbundle_python.Prelude.{
  ◌≡◌, ◌∙◌, refl, ap, sym, subst, String, some, true, false, List, [], ◌∷◌, length, contains, arith,
  string_eq, inl, inr, Bool-cases, >>=-eq-some, eq_of_some,
}
use debugbundle_python.Json.{Json, Fields, dict, entries, get}
use debugbundle_python.Evidence.{is_text}
use debugbundle_python.Evidence.Shapes.{mapping}
use debugbundle_python.Evidence.Events.{
  without, set_field, feature_of, unsupported, with_context, strip_unsupported,
}
use debugbundle_python.Evidence.Events.Editing.{
  get-set_field, set_field-get, size-set_field, size-without, without_idem, has_dict, mapping-dict,
  mapping_fits,
}
use debugbundle_python.Evidence.Events.Stripped.{with_context-cases, with_context-get}

-- The context of what is left stays as it is.
with_context_idem :
    (features : List String) (g : Fields)
    → with_context features
        (with_context features g (get g "context"))
        (get (with_context features g (get g "context")) "context")
      ≡ with_context features g (get g "context")
with_context_idem features g = elim (with_context-cases features g (get g "context")) [
  | inl e ↦ subst Stays (sym e) e
  | inr (c, is_dict, fits, e) ↦ subst Stays (sym e) (
      without_stays (without ("evidence_reference" ∷ []) c)
        (without_idem ("evidence_reference" ∷ []) c))
]
  where
    Stays : Fields → Type 0
    Stays o = with_context features o (get o "context") ≡ o

    without_stays :
        (c : Fields)
        → without ("evidence_reference" ∷ []) c ≡ c
        → Stays (set_field g "context" (dict c))
    without_stays c clean =
        let o = set_field g "context" (dict c) in
        let here : get o "context" ≡ dict c = get-set_field g "context" (dict c) "context" in
        elim (with_context-cases features o (get o "context")) [
          | inl e ↦ e
          | inr (d, is_dict, fits, e) ↦
              let same : d ≡ c = cc in
              e
              ∙ ap (λ k. set_field o "context" (dict k))
                  (ap (without ("evidence_reference" ∷ [])) same ∙ clean)
              ∙ ap (set_field o "context") (sym here)
              ∙ set_field-get o "context" (has_dict o "context" c here)
        ]

size-with_context :
    (features : List String) (g : Fields)
    → length (entries (with_context features g (get g "context"))) ≡ length (entries g)
size-with_context features g = elim (with_context-cases features g (get g "context")) [
  | inl e ↦ ap (λ o. length (entries o)) e
  | inr (c, is_dict, fits, e) ↦
      ap (λ o. length (entries o)) e ∙ size-set_field g "context" _ (has_dict g "context" c is_dict)
]

-- A diagnostic context stays or is left out.
strip_diagnostic :
    (features : List String) (event : Json) (fields payload out : Fields)
    → mapping event ≡ some fields
    → mapping (get fields "payload") ≡ some payload
    → is_text (get fields "event_type") "diagnostic_context" ≡ true
    → strip_unsupported event features ≡ some out
    → fields ≡ out
unfolding strip_unsupported
strip_diagnostic features event fields payload out one two diagnostic h =
    let h' = rw diagnostic at (rw two at (rw (one, strip_unsupported) at h)) in
    elim (Bool-cases (contains features (feature_of payload))) [
      | inl known ↦ eq_of_some (rw known at h')
      | inr missing ↦ absurd (ground (arith, missing, h'))
    ]

-- What is left of any other event.
abbrev stripped : List String → Fields → Fields → Fields
stripped features fields payload =
    let g = set_field fields "payload" (dict (without (unsupported features) payload)) in
    with_context features g (get g "context")

strip_plain :
    (features : List String) (event : Json) (fields payload : Fields)
    → mapping event ≡ some fields
    → mapping (get fields "payload") ≡ some payload
    → is_text (get fields "event_type") "diagnostic_context" ≡ false
    → strip_unsupported event features ≡ some (stripped features fields payload)
unfolding strip_unsupported
strip_plain features event fields payload one two plain =
    let left = without (unsupported features) payload in
    let same : get (set_field fields "payload" (dict left)) "context" ≡ get fields "context" =
      get-set_field fields "payload" (dict left) "context" in
    rw (one, strip_unsupported)
      (rw two (
        rw plain (
          ap (λ c. some (with_context features (set_field fields "payload" (dict left)) c))
            (sym same))))

stripped_again :
    (features : List String) (event : Json) (fields payload : Fields)
    → mapping event ≡ some fields
    → mapping (get fields "payload") ≡ some payload
    → is_text (get fields "event_type") "diagnostic_context" ≡ false
    → strip_unsupported (dict (stripped features fields payload)) features
      ≡ some (stripped features fields payload)
stripped_again features event fields payload one two plain =
    let left = without (unsupported features) payload in
    let g = set_field fields "payload" (dict left) in
    let out = stripped features fields payload in
    let (is_event, fits) = mapping-dict event fields one in
    let (is_payload, small) = mapping-dict (get fields "payload") payload two in
    let size : length (entries out) ≡ length (entries fields) =
      size-with_context features g
      ∙ size-set_field fields "payload" (dict left)
          (has_dict fields "payload" payload is_payload) in
    let here : get out "payload" ≡ dict left =
      with_context-get features g (get g "context") "payload" refl
      ∙ get-set_field fields "payload" (dict left) "payload" in
    let kind : get out "event_type" ≡ get fields "event_type" =
      with_context-get features g (get g "context") "event_type" refl
      ∙ get-set_field fields "payload" (dict left) "event_type" in
    let less = size-without (unsupported features) payload in
    let one' = mapping_fits out (omega (arith, size, fits)) in
    let two' : mapping (get out "payload") ≡ some left =
      ap mapping here ∙ mapping_fits left (omega (arith, less, small)) in
    let plain' : is_text (get out "event_type") "diagnostic_context" ≡ false =
      ap (λ t. is_text t "diagnostic_context") kind ∙ plain in
    let again : set_field out "payload" (dict (without (unsupported features) left)) ≡ out =
      ap (λ p. set_field out "payload" (dict p)) (without_idem (unsupported features) payload)
      ∙ ap (set_field out "payload") (sym here)
      ∙ set_field-get out "payload" (has_dict out "payload" left here) in
    strip_plain features (dict out) out left one' two' plain'
    ∙ ap some
        (ap (λ o. with_context features o (get o "context")) again ∙ with_context_idem features g)

strip_unsupported-mapping :
    (features : List String) (event : Json) (out : Fields)
    → strip_unsupported event features ≡ some out
    → (fields : Fields) × (payload : Fields) × (mapping event ≡ some fields)
      × (mapping (get fields "payload") ≡ some payload)
unfolding strip_unsupported
strip_unsupported-mapping features event out h =
    let (fields, one, h1) = >>=-eq-some (mapping event) _ h in
    let (payload, two, h2) = >>=-eq-some (mapping (get fields "payload")) _ h1 in
    (fields, payload, one, two)

-- What strip_unsupported leaves of an event passes a second one with the same features unchanged.
strip_unsupported_idem :
    (features : List String) (event : Json) (out : Fields)
    → strip_unsupported event features ≡ some out
    → strip_unsupported (dict out) features ≡ some out
strip_unsupported_idem features event out h =
    let (fields, payload, one, two) = strip_unsupported-mapping features event out h in
    elim (Bool-cases (is_text (get fields "event_type") "diagnostic_context")) [
      | inl diagnostic ↦
          let e = strip_diagnostic features event fields payload out one two diagnostic h in
          let (is_event, fits) = mapping-dict event fields one in
          ap (λ v. strip_unsupported v features) (ap dict (sym e) ∙ sym is_event) ∙ h
      | inr plain ↦
          let e : stripped features fields payload ≡ out =
            eq_of_some (sym (strip_plain features event fields payload one two plain) ∙ h) in
          subst (λ o. strip_unsupported (dict o) features ≡ some o) e
            (stripped_again features event fields payload one two plain)
    ]
