-- ===== src/Redaction/Keys.antt =====
-- `_sensitive_key` (src/debugbundle/redaction.py) finds each run of segments.
use mathlib.Core.List.{append-nil, append_assoc}
use debugbundle_python.Prelude.{
  or_true, ℕ, ◌≡◌, ◌∙◌, refl, sym, ap, ◌↔◌, ◌⊎◌, inl, inr, String, Bool, true, false, ◌||◌, List,
  [], ◌∷◌, ◌++◌,
}
use debugbundle_python.Redaction.{
  RedactHost, is_canonical, joins, any_run, canonical_fields, key_segments, sensitive_key,
}

abbrev pub join : List (List ℕ) → List ℕ
join [] = []
join (s ∷ ss) = s ++ join ss

-- A run of segments, one after another and at least one, whose join is a field.
pub record Run (canonical ss : List (List ℕ)) : Type 0 where
  pub before : List (List ℕ)
  pub first : List ℕ
  pub middle : List (List ℕ)
  pub after : List (List ℕ)
  pub here : ss ≡ before ++ (first ∷ (middle ++ after))
  pub is_field : is_canonical canonical (join (first ∷ middle)) ≡ true

record Prefix (canonical : List (List ℕ)) (combined : List ℕ) (ss : List (List ℕ)) : Type 0 where
  first : List ℕ
  middle : List (List ℕ)
  after : List (List ℕ)
  here : ss ≡ first ∷ (middle ++ after)
  is_field : is_canonical canonical (combined ++ join (first ∷ middle)) ≡ true

or_cases : (a b : Bool) → (a || b) ≡ true → (a ≡ true) ⊎ (b ≡ true)
or_cases true b e = inl refl
or_cases false b e = inr e

joins_sound :
    (canonical : List (List ℕ)) (combined : List ℕ) (ss : List (List ℕ))
    → joins canonical combined ss ≡ true
    → Prefix canonical combined ss
joins_sound canonical combined [] e = absurd (cc)
joins_sound canonical combined (s ∷ ss) e =
    elim (or_cases (is_canonical canonical (combined ++ s)) (joins canonical (combined ++ s) ss)
      e) [
        | inl found ↦ record {
          first = s;
          middle = [];
          after = ss;
          here = refl;
          is_field = ap (is_canonical canonical) (ap (λ t. combined ++ t) (append-nil s)) ∙ found;
        }
        | inr later ↦
            let p = joins_sound canonical (combined ++ s) ss later in
            record {
              first = s;
              middle = p.first ∷ p.middle;
              after = p.after;
              here = ap (λ rest. s ∷ rest) p.here;
              is_field =
                  ap (is_canonical canonical)
                    (sym (append_assoc combined s (join (p.first ∷ p.middle))))
                  ∙ p.is_field;
            }
      ]

-- A field that is the join of a prefix is found.
joins_complete :
    (canonical : List (List ℕ)) (combined first : List ℕ) (middle after : List (List ℕ))
    → is_canonical canonical (combined ++ join (first ∷ middle)) ≡ true
    → joins canonical combined (first ∷ (middle ++ after)) ≡ true
joins_complete canonical combined first [] after e =
    let found : is_canonical canonical (combined ++ first) ≡ true =
      ap (is_canonical canonical) (ap (λ t. combined ++ t) (sym (append-nil first))) ∙ e in
    rw found refl
joins_complete canonical combined first (m ∷ middle) after e = or_true _ _ (
    joins_complete canonical (combined ++ first) m middle after
      (ap (is_canonical canonical) (append_assoc combined first (join (m ∷ middle))) ∙ e))

any_run_sound : (canonical ss : List (List ℕ)) → any_run canonical ss ≡ true → Run canonical ss
any_run_sound canonical [] e = absurd (cc)
any_run_sound canonical (s ∷ ss) e =
    elim (or_cases (joins canonical [] (s ∷ ss)) (any_run canonical ss) e) [
      | inl found ↦
          let p = joins_sound canonical [] (s ∷ ss) found in
          record {
            before = [];
            first = p.first;
            middle = p.middle;
            after = p.after;
            here = p.here;
            is_field = p.is_field;
          }
      | inr later ↦
          let r = any_run_sound canonical ss later in
          record {
            before = s ∷ r.before;
            first = r.first;
            middle = r.middle;
            after = r.after;
            here = ap (λ rest. s ∷ rest) r.here;
            is_field = r.is_field;
          }
    ]

any_run_complete :
    (canonical before : List (List ℕ)) (first : List ℕ) (middle after : List (List ℕ))
    → is_canonical canonical (join (first ∷ middle)) ≡ true
    → any_run canonical (before ++ (first ∷ (middle ++ after))) ≡ true
any_run_complete canonical [] first middle after e =
    rw (joins_complete canonical [] first middle after e) refl
any_run_complete canonical (b ∷ before) first middle after e =
    or_true _ _ (any_run_complete canonical before first middle after e)

module _ (h : RedactHost) (key : String) (fields : List String) where
  -- A key is sensitive exactly when some of its segments, one after another and at least one, join
  -- to the canonical form of a field.
  pub sensitive_key_iff :
      (sensitive_key h key fields ≡ true) ↔ Run (canonical_fields h fields) (key_segments h key)
  unfolding sensitive_key
  sensitive_key_iff = (
    any_run_sound (canonical_fields h fields) (key_segments h key),
    λ r.
        ap (any_run (canonical_fields h fields)) r.here
        ∙ any_run_complete (canonical_fields h fields) r.before r.first r.middle r.after r.is_field,
  )
