-- ===== src/Redaction/Safe.antt =====
-- What `sanitize_telemetry` (src/debugbundle/redaction.py) lets through.
use debugbundle_python.Prelude.{
  either, unless, ℕ, ◌+◌, ◌≤◌, ◌≡◌, refl, sym, ◌⊎◌, inl, inr, String, Option, some, Bool, true,
  false, List, length, ltb, ◌||◌, arith, ltb→ge, >>=-eq-some, if◌then◌else◌, eq_of_some,
}
use debugbundle_python.Prelude.Text.{codes}
use debugbundle_python.Json.{
  Json, Items, Fields, null, bool, int, float, str, list, dict, nil, cons, end, field, elements,
  entries,
}
use debugbundle_python.Redaction.{Loaded, parsed, malformed, refused, RedactHost, redacted_value}
use debugbundle_python.Redaction.Rounds.{
  value_of, visit_items-length, visit_field-cases, with_value-cases,
}
use debugbundle_python.Redaction.Texts.{scrub_text}
use debugbundle_python.Redaction.Walk.{
  State, Walk, enter, spend, is_structure, starts_structure, scrubbed, visit_inner_text, visit_text,
  key_kept, key_sensitive, at_depth, visit_value, visit_items, visit_fields, visit, visit_document,
  visit_outer_text, sanitize_telemetry, bad_field,
}

chosen {ℓ} : (Q : String → Type ℓ) (b : Bool) (x y : String) → Q x → Q y → Q (if b then x else y)
chosen Q true x y p q = p
chosen Q false x y p q = q

module _ (h : RedactHost) (extra : List String) (P : String → Type 0) where
  unfoldable mutual
    -- A value at a depth that is no redacted text
    pub SafeValue : ℕ → Json → Type 0
    SafeValue depth (str t) = P t
    SafeValue depth (list items) = (length (elements items) ≤ 256) × SafeItems (depth + 1) items
    SafeValue depth (dict fields) = (length (entries fields) ≤ 256) × SafeFields (depth + 1) fields
    SafeValue depth _ = Unit {0}

    pub SafeItems : ℕ → Items → Type 0
    SafeItems depth nil = Unit {0}
    SafeItems depth (cons x xs) =
        ((x ≡ str redacted_value) ⊎ ((depth ≤ 16) × SafeValue depth x)) × SafeItems depth xs

    -- A key that stays is short and unchanged by scrubbing, and hides its value if it is sensitive.
    pub SafeFields : ℕ → Fields → Type 0
    SafeFields depth end = Unit {0}
    SafeFields depth (field key v rest) =
        (length (codes key) ≤ 128)
        × (key_kept h extra key ≡ true)
        × (key_sensitive h extra key ≡ true → v ≡ str redacted_value)
        × ((v ≡ str redacted_value) ⊎ ((depth ≤ 16) × SafeValue depth v))
        × SafeFields depth rest

  abbrev pub SafeAt : ℕ → Json → Type 0
  SafeAt depth j = (j ≡ str redacted_value) ⊎ ((depth ≤ 16) × SafeValue depth j)

  module _ (texts : State → String → Walk)
      (good : (s : State) (t : String) (s' : State) (out : Json)
        → texts s t ≡ some (s', out)
        → (u : String) × (out ≡ str u) × P u) where
    at_depth-SafeAt :
        (depth : ℕ) (s : State) (visit_it : State → Walk) (s' : State) (out : Json)
        → ((e : State) → visit_it e ≡ some (s', out) → depth ≤ 16 → SafeAt depth out)
        → at_depth h extra depth s visit_it ≡ some (s', out)
        → SafeAt depth out
    at_depth-SafeAt depth s visit_it s' out k e =
        let (entered, one, e') = >>=-eq-some (enter s) _ e in
        elim (either (ltb 16 depth) _ (visit_it entered) (some (s', out)) e') [
          | inl (deep, same) ↦ inl (value_of same)
          | inr (within, more) ↦ k entered more (ltb→ge 16 depth within)
        ]

    visit_text-SafeAt :
        (depth : ℕ) (s : State) (t : String) (s' : State) (out : Json)
        → depth ≤ 16
        → visit_text h extra texts s t ≡ some (s', out)
        → SafeAt depth out
    unfolding SafeValue
    visit_text-SafeAt depth s t s' out within e =
        elim (either (ltb 16_384 (length (codes t))) _ _ (some (s', out)) e) [
          | inl (long, same) ↦ inl (value_of same)
          | inr (short, e1) ↦
              let (n, size, e2) = >>=-eq-some (h.encoded t) _ e1 in
              elim (either (ltb 16_384 n) _ _ (some (s', out)) e2) [
                | inl (long, same) ↦ inl (value_of same)
                | inr (fits, e3) ↦
                    let (spent, paid, e4) = >>=-eq-some (spend s n) _ e3 in
                    let (u, is_text, p) = good spent t s' out e4 in inr (within, rw is_text p)
              ]
        ]

    mutual
      unfolding visit_value SafeValue

      visit_value-SafeAt :
          (depth : ℕ) (s : State) (j : Json) (s' : State) (out : Json)
          → visit_value h extra texts depth s j ≡ some (s', out)
          → depth ≤ 16
          → SafeAt depth out
      visit_value-SafeAt depth s (str t) s' out e within =
          visit_text-SafeAt depth s t s' out within e
      visit_value-SafeAt depth s (list items) s' out e within =
          elim (either (ltb 256 (length (elements items))) _ _ (some (s', out)) e) [
            | inl (long, same) ↦ inl (value_of same)
            | inr (short, e1) ↦
                let ((t, outs), visited, e2) =
                  >>=-eq-some (visit_items h extra texts depth s items) _ e1 in
                let shape : out ≡ list outs = value_of e2 in
                let fits : length (elements outs) ≤ 256 = omega (
                  arith,
                  visit_items-length h extra texts depth s items t outs visited,
                  ltb→ge 256 (length (elements items)) short,
                ) in
                inr (within, rw shape (fits, visit_items-SafeItems depth s items t outs visited))
          ]
      visit_value-SafeAt depth s (dict fields) s' out e within =
          elim (either (ltb 256 (length (entries fields))) _ _ (some (s', out)) e) [
            | inl (long, same) ↦ inl (value_of same)
            | inr (short, e1) ↦
                let ((t, outs), visited, e2) =
                  >>=-eq-some (visit_fields h extra texts depth s fields) _ e1 in
                let shape : out ≡ dict outs = value_of e2 in
                let (fewer, safe) = visit_fields-SafeFields depth s fields t outs visited in
                let fits : length (entries outs) ≤ 256 =
                  omega (arith, fewer, ltb→ge 256 (length (entries fields)) short) in
                inr (within, rw shape (fits, safe))
          ]
      visit_value-SafeAt depth s null s' out e within = inr (within, rw (value_of e) tt)
      visit_value-SafeAt depth s (bool b) s' out e within = inr (within, rw (value_of e) tt)
      visit_value-SafeAt depth s (int z) s' out e within = inr (within, rw (value_of e) tt)
      visit_value-SafeAt depth s (float x) s' out e within = inr (within, rw (value_of e) tt)

      visit_items-SafeItems :
          (depth : ℕ) (s : State) (xs : Items) (s' : State) (outs : Items)
          → visit_items h extra texts depth s xs ≡ some (s', outs)
          → SafeItems (depth + 1) outs
      visit_items-SafeItems depth s nil s' outs e = rw (value_of e) tt
      visit_items-SafeItems depth s (cons x xs) s' outs e =
          let ((s1, out), one, e1) =
            >>=-eq-some
              (at_depth h extra (depth + 1) s (λ t. visit_value h extra texts (depth + 1) t x)) _
              e in
          let ((s2, rest), two, e2) = >>=-eq-some (visit_items h extra texts depth s1 xs) _ e1 in
          let same : outs ≡ cons out rest = value_of e2 in
          rw same (
            at_depth-SafeAt (depth + 1) s _ s1 out
                (λ t visited. visit_value-SafeAt (depth + 1) t x s1 out visited) one,
            visit_items-SafeItems depth s1 xs s2 rest two,
          )

      visit_fields-SafeFields :
          (depth : ℕ) (s : State) (fields : Fields) (s' : State) (outs : Fields)
          → visit_fields h extra texts depth s fields ≡ some (s', outs)
          → (length (entries outs) ≤ length (entries fields)) × SafeFields (depth + 1) outs
      visit_fields-SafeFields depth s end s' outs e = rw (value_of e) (omega arith, tt)
      visit_fields-SafeFields depth s (field key value rest) s' outs e =
          let seen_by : State → Walk = λ t.
            at_depth h extra (depth + 1) t (λ w. visit_value h extra texts (depth + 1) w value) in
          let later : State → Option (State × Fields) =
            λ t. visit_fields h extra texts depth t rest in
          elim (visit_field-cases h extra key seen_by later s s' outs e) [
            | inl (t, more) ↦
                let (fewer, safe) = visit_fields-SafeFields depth t rest s' outs more in
                (omega (arith, fewer), safe)
            | inr (t, short, clean, e1) ↦
                let (v, kept_fields, t0, t1, shape, two, hidden) =
                  with_value-cases h extra key seen_by later t s' outs e1 in
                let (fewer, safe) = visit_fields-SafeFields depth t0 rest t1 kept_fields two in
                let value_safe : SafeAt (depth + 1) v = elim hidden [
                  | inl same ↦ inl same
                  | inr (open_key, (u, visited)) ↦
                      at_depth-SafeAt (depth + 1) u _ t0 v
                        (λ w seen. visit_value-SafeAt (depth + 1) w value t0 v seen) visited
                ] in
                let hides : (key_sensitive h extra key ≡ true → v ≡ str redacted_value) = λ secret.
                  elim hidden [ inl same ↦ same | inr (open_key, (u, visited)) ↦ absurd (cc) ] in
                rw shape (omega (arith, fewer), (short, clean, hides, value_safe, safe))
          ]

    visit-SafeAt :
        (s : State) (j : Json) (s' : State) (out : Json)
        → visit h extra texts 0 s j ≡ some (s', out)
        → SafeAt 0 out
    visit-SafeAt s j s' out e =
        at_depth-SafeAt 0 s _ s' out (λ t seen. visit_value-SafeAt 0 t j s' out seen) e

module _ (h : RedactHost) (extra : List String) where
  -- A text that is hidden or scrubbed, and one that may be the form of a document that is safe itself.
  abbrev pub IsScrubbed : String → Type 0
  IsScrubbed t = (t ≡ redacted_value) ⊎ ((u : String) × (t ≡ scrub_text h extra u))

  abbrev pub IsClean : String → Type 0
  IsClean t = IsScrubbed t ⊎ ((j : Json) × (t ≡ h.dumps j) × SafeAt h extra IsScrubbed 0 j)

  scrubbed-IsScrubbed : (t : String) → IsScrubbed (scrubbed h extra t)
  scrubbed-IsScrubbed t = chosen IsScrubbed _ _ _ (inl refl) (inr (t, refl))

  inner-good :
      (s : State) (t : String) (s' : State) (out : Json)
      → visit_inner_text h extra s t ≡ some (s', out)
      → (u : String) × (out ≡ str u) × IsScrubbed u
  inner-good s t s' out e = (scrubbed h extra t, value_of e, scrubbed-IsScrubbed t)

  inner-IsClean :
      (s : State) (t : String) (s' : State) (out : Json)
      → visit_inner_text h extra s t ≡ some (s', out)
      → (u : String) × (out ≡ str u) × IsClean u
  inner-IsClean s t s' out e = (scrubbed h extra t, value_of e, inl (scrubbed-IsScrubbed t))

  document-IsClean :
      (s : State) (t : String) (found : Loaded) (s' : State) (out : Json)
      → visit_document h extra s t found ≡ some (s', out)
      → (u : String) × (out ≡ str u) × IsClean u
  document-IsClean s t refused s' out e = absurd (cc)
  document-IsClean s t malformed s' out e = inner-IsClean s t s' out e
  document-IsClean s t (parsed nested) s' out e =
      elim (either (is_structure nested) _ (visit_inner_text h extra s t) (some (s', out)) e) [
        | inr (plain, e1) ↦ inner-IsClean s t s' out e1
        | inl (structure, e1) ↦
            let ((s1, inner), visited, e2) =
              >>=-eq-some (visit h extra (visit_inner_text h extra) 0 s nested) _ e1 in
            (
              h.dumps inner,
              value_of e2,
              inr (
                inner,
                refl,
                visit-SafeAt h extra IsScrubbed (visit_inner_text h extra) inner-good s nested s1
                    inner visited,
              ),
            )
      ]

  outer-good :
      (s : State) (t : String) (s' : State) (out : Json)
      → visit_outer_text h extra s t ≡ some (s', out)
      → (u : String) × (out ≡ str u) × IsClean u
  outer-good s t s' out e =
      elim (either (starts_structure (codes t)) (visit_document h extra s t (h.loads t))
        (visit_inner_text h extra s t) (some (s', out)) e) [
          | inl (opens, e1) ↦ document-IsClean s t (h.loads t) s' out e1
          | inr (plain, e1) ↦ inner-IsClean s t s' out e1
        ]

  -- Whatever sanitize_telemetry gives is safe: its JSON form has at most 262144 bytes; below
  -- sixteen levels there is nothing but redacted texts; a list or a mapping has at most 256
  -- entries; a key is at most 128 long and free of secrets, and a sensitive key has the redacted
  -- text as its value; and a text is redacted, or is scrubbed, or is the form of a document that is
  -- safe in the same way.
  pub sanitize_telemetry-SafeAt :
      (value out : Json)
      → sanitize_telemetry h extra value ≡ some out
      → SafeAt h extra IsClean 0 out
        × ((n : ℕ) × (h.encoded (h.dumps out) ≡ some n) × (n ≤ 262_144))
  unfolding sanitize_telemetry
  sanitize_telemetry-SafeAt value out e =
      let (fields_good, e1) = unless (ltb 128 (length extra) || bad_field h extra extra) _ out e in
      let start : State = record { nodes = 0; bytes = 0 } in
      let ((s, found), visited, e2) =
        >>=-eq-some (visit h extra (visit_outer_text h extra) 0 start value) _ e1 in
      let (n, size, e3) = >>=-eq-some (h.encoded (h.dumps found)) _ e2 in
      let (fits, same) = unless (ltb 262_144 n) (some found) out e3 in
      let same' : out ≡ found = sym (eq_of_some same) in
      rw same' (
        visit-SafeAt h extra IsClean (visit_outer_text h extra) outer-good start value s found
            visited,
        (n, size, ltb→ge 262_144 n fits),
      )
