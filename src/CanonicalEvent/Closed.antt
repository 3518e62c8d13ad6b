-- ===== src/CanonicalEvent/Closed.antt =====
-- What a check of an object by the schema (src/debugbundle/canonical_event.py) shows of it.
use debugbundle_python.Prelude.{
  ℕ, zero, suc, ◌+◌, ◌≤◌, ◌<◌, ◌≡◌, refl, sym, ap, ◌∙◌, ◌⊎◌, inl, inr, String, Option, none, some,
  Bool, true, false, List, [], ◌∷◌, length, All, arith, Bool-cases, if◌then◌else◌,
}
use debugbundle_python.Json.{
  Json, Fields, null, bool, int, float, str, list, dict, entries, elements, get, has,
}
use debugbundle_python.Evidence.Shapes.{WireHost}
use debugbundle_python.CanonicalEvent.Values.{plain_tests}
use debugbundle_python.CanonicalEvent.Schema.{
  Outcome, done, exceeded, failed, Check, SchemaHost, has_required, items_of, fields_in, schema_of,
  all_checks, any_checks, otherwise, text_within, number_within, also, lift, check_shape,
  check_node, check, visit_reference, resolve, length_within,
}

-- A check gives no calls back.
abbrev Falls : Check → Type 0
Falls c = (b left : ℕ) (r : Bool) → c b ≡ done left r → left ≤ b

lift-Falls : (x : Bool) → Falls (lift x)
lift-Falls x b left r e = ground arith

failed-Falls : Falls (λ b. failed)
failed-Falls b left r e = absurd (ground arith)

choice-Falls : (test : Bool) (c d : Check) → Falls c → Falls d → Falls (if test then c else d)
choice-Falls true c d p q = p
choice-Falls false c d p q = q

-- The two ways in which `and` ends.
also_cases :
    (first second : Check) (b left : ℕ) (r : Bool)
    → also first second b ≡ done left r
    → ((m : ℕ) × (first b ≡ done m true) × (second m ≡ done left r))
      ⊎ ((first b ≡ done left false) × (r ≡ false))
also_cases first second b left r e = by_first (first b) refl e
  where
    by_first :
        (o : Outcome Bool)
        → first b ≡ o
        → (elim o [
          | done m true ↦ second m
          | done m false ↦ done m false
          | exceeded ↦ exceeded
          | failed ↦ failed
        ])
          ≡ done left r
        → ((m : ℕ) × (first b ≡ done m true) × (second m ≡ done left r))
          ⊎ ((first b ≡ done left false) × (r ≡ false))
    by_first (done m true) f h = inl (m, f, h)
    by_first (done m false) f h = inr (ground arith, ground arith)
    by_first exceeded f h = absurd (ground arith)
    by_first failed f h = absurd (ground arith)

otherwise_cases :
    (first second : Check) (b left : ℕ) (r : Bool)
    → otherwise first second b ≡ done left r
    → ((m : ℕ) × (first b ≡ done m false) × (second m ≡ done left r)) ⊎ (first b ≡ done left true)
otherwise_cases first second b left r e = by_first (first b) refl e
  where
    by_first :
        (o : Outcome Bool)
        → first b ≡ o
        → (elim o [
          | done m true ↦ done m true
          | done m false ↦ second m
          | exceeded ↦ exceeded
          | failed ↦ failed
        ])
          ≡ done left r
        → ((m : ℕ) × (first b ≡ done m false) × (second m ≡ done left r))
          ⊎ (first b ≡ done left true)
    by_first (done m true) f h = inr (ground arith)
    by_first (done m false) f h = inl (m, f, h)
    by_first exceeded f h = absurd (ground arith)
    by_first failed f h = absurd (ground arith)

also-Falls : (c d : Check) → Falls c → Falls d → Falls (also c d)
also-Falls c d p q b left r e = elim (also_cases c d b left r e) [
  | inl (m, f, g) ↦ omega (arith, p b m true f, q m left r g)
  | inr (f, no_more) ↦ p b left false f
]

otherwise-Falls : (c d : Check) → Falls c → Falls d → Falls (otherwise c d)
otherwise-Falls c d p q b left r e = elim (otherwise_cases c d b left r e) [
  | inl (m, f, g) ↦ omega (arith, p b m false f, q m left r g)
  | inr f ↦ p b left true f
]

all_checks-Falls {ℓ} :
    {A : Type ℓ} (test : A → Check) (xs : List A)
    → ((x : A) → Falls (test x))
    → Falls (all_checks test xs)
all_checks-Falls test [] p = lift-Falls true
all_checks-Falls test (x ∷ xs) p = also-Falls (test x) _ (p x) (all_checks-Falls test xs p)

any_checks-Falls {ℓ} :
    {A : Type ℓ} (test : A → Check) (xs : List A)
    → ((x : A) → Falls (test x))
    → Falls (any_checks test xs)
any_checks-Falls test [] p = lift-Falls false
any_checks-Falls test (x ∷ xs) p = otherwise-Falls (test x) _ (p x) (any_checks-Falls test xs p)

module _ (w : WireHost) (h : SchemaHost) (root : Json) where
  check_shape-Falls :
      (visit : Json → Json → Check) (node : Fields) (value : Json)
      → ((n v : Json) → Falls (visit n v))
      → Falls (check_shape w h visit node value)
  check_shape-Falls visit node (dict value) p =
      also-Falls (lift (has_required value (items_of (get node "required")))) _ (lift-Falls _) (
        all_checks-Falls (λ entry. visit (schema_of node entry.0) entry.1) (entries value)
          (λ entry. p (schema_of node entry.0) entry.1))
  check_shape-Falls visit node (list items) p =
      also-Falls (lift (length_within node "minItems" "maxItems" (length (elements items)))) _
        (lift-Falls _)
        (choice-Falls (has node "items") _ _
          (all_checks-Falls (visit (get node "items")) (elements items) (p (get node "items")))
          (lift-Falls true))
  check_shape-Falls visit node (str s) p = lift-Falls (text_within w h node s)
  check_shape-Falls visit node (int z) p = lift-Falls (number_within node (int z))
  check_shape-Falls visit node (float x) p = lift-Falls (number_within node (float x))
  check_shape-Falls visit node null p = lift-Falls true
  check_shape-Falls visit node (bool b) p = lift-Falls true

  reference-Falls :
      (visit : Json → Json → Check) (found : Option Json) (value : Json)
      → ((n v : Json) → Falls (visit n v))
      → Falls (visit_reference w h visit found value)
  reference-Falls visit none value p = failed-Falls
  reference-Falls visit (some node) value p = p node value

  check_node-Falls :
      (visit : Json → Json → Check) (node value : Json)
      → ((n v : Json) → Falls (visit n v))
      → Falls (check_node w h root visit node value)
  check_node-Falls visit (bool b) value p = lift-Falls b
  check_node-Falls visit (dict node) value p =
      choice-Falls (has node "$ref") _ _
        (reference-Falls visit (resolve w h root (get node "$ref")) value p)
        (also-Falls _ _
          (choice-Falls (has node "anyOf") _ _
            (any_checks-Falls (λ choice. visit choice value) (items_of (get node "anyOf"))
              (λ choice. p choice value))
            (lift-Falls true))
          (also-Falls (lift (plain_tests node value)) _ (lift-Falls _)
            (check_shape-Falls visit node value p)))
  check_node-Falls visit null value p = failed-Falls
  check_node-Falls visit (int z) value p = failed-Falls
  check_node-Falls visit (float x) value p = failed-Falls
  check_node-Falls visit (str s) value p = failed-Falls
  check_node-Falls visit (list items) value p = failed-Falls

  -- Each call of a check takes one of the calls that are left.
  check-lt :
      (n : ℕ) (node value : Json) (b left : ℕ) (r : Bool)
      → check w h root n node value b ≡ done left r
      → left < b
  unfolding check
  check-lt zero node value b left r e = absurd (ground arith)
  check-lt (suc n) node value zero left r e = absurd (ground arith)
  check-lt (suc n) node value (suc b) left r e =
      let le =
        check_node-Falls (check w h root n) node value
          (λ m v c l s f. omega (arith, check-lt n m v c l s f)) b left r e in
      omega (arith, le)

  -- Each entry that is checked takes a call.
  entries_pass :
      (n : ℕ) (node : Fields) (es : List (String × Json)) (b left : ℕ)
      → all_checks (λ entry. check w h root n (schema_of node entry.0) entry.1) es b
        ≡ done left true
      → (left + length es ≤ b)
        × All
            (λ entry.
              (c : ℕ) × (l : ℕ) × (check w h root n (schema_of node entry.0) entry.1 c
                ≡ done l true))
            es
  entries_pass n node [] b left e = (ground arith, tt)
  entries_pass n node ((key, x) ∷ es) b left e =
      elim (also_cases (check w h root n (schema_of node key) x)
        (all_checks (λ entry. check w h root n (schema_of node entry.0) entry.1) es) b left true
        e) [
          | inl (m, one, more) ↦
              let (fits, rest) = entries_pass n node es m left more in
              (
                omega (arith, fits, check-lt n (schema_of node key) x b m true one),
                ((b, m, one), rest),
              )
          | inr (bad, no_more) ↦ absurd (cc)
        ]

  -- What an object has that is valid for a node: the keys that are required; each value is valid for
  -- the schema of its key; and where additional properties are not allowed, its keys are properties.
  pub record IsObject (n : ℕ) (node value : Fields) (b left : ℕ) : Type 0 where
    pub required : has_required value (items_of (get node "required")) ≡ true
    pub each :
        All
          (λ entry.
            (c : ℕ) × (l : ℕ) × (check w h root n (schema_of node entry.0) entry.1 c ≡ done l true))
          (entries value)
    pub effort : left + length (entries value) < b
    pub no_other :
        get node "additionalProperties" ≡ bool false
        → has node "additionalProperties" ≡ true
        → All (λ entry. has (fields_in (get node "properties")) entry.0 ≡ true) (entries value)

  false_refuses :
      (n : ℕ) (x : Json) (b left : ℕ) → check w h root n (bool false) x b ≡ done left true → ⊥
  unfolding check
  false_refuses zero x b left e = ground arith
  false_refuses (suc n) x zero left e = ground arith
  false_refuses (suc n) x (suc b) left e = ground arith

  only_properties :
      (n : ℕ) (node : Fields) (es : List (String × Json))
      → get node "additionalProperties" ≡ bool false
      → has node "additionalProperties" ≡ true
      → All
          (λ entry.
            (c : ℕ) × (l : ℕ) × (check w h root n (schema_of node entry.0) entry.1 c ≡ done l true))
          es
      → All (λ entry. has (fields_in (get node "properties")) entry.0 ≡ true) es
  only_properties n node [] no_more here a = tt
  only_properties n node ((key, x) ∷ es) no_more here ((c, l, passed), rest) =
      elim (Bool-cases (has (fields_in (get node "properties")) key)) [
        | inl known ↦ (known, only_properties n node es no_more here rest)
        | inr other ↦
            let schema : schema_of node key ≡ bool false = rw (other, here) no_more in
            let at_false : check w h root n (bool false) x c ≡ done l true =
              sym (ap (λ s. check w h root n s x c) schema) ∙ passed in
            absurd (false_refuses n x c l at_false)
      ]

  -- Where an object is valid for a node that is no reference, it has every key that is required,
  -- each of its values is valid for the schema of its key, the check took more calls than it has
  -- entries, and where the node allows no additional properties, each of its keys is a property.
  pub check-IsObject :
      (n : ℕ) (node value : Fields) (b left : ℕ)
      → has node "$ref" ≡ false
      → check w h root (suc n) (dict node) (dict value) b ≡ done left true
      → IsObject n node value b left
  unfolding check
  check-IsObject n node value zero left plain e = absurd (ground arith)
  check-IsObject n node value (suc b) left plain e =
      let visit = check w h root n in
      let choices : Check =
        if has node "anyOf"
        then any_checks (λ choice. visit choice (dict value)) (items_of (get node "anyOf"))
        else lift true in
      let keys_there : Check = lift (has_required value (items_of (get node "required"))) in
      let each_key : Check =
        all_checks (λ entry. visit (schema_of node entry.0) entry.1) (entries value) in
      let e1 : also choices (also (lift (plain_tests node (dict value))) (also keys_there each_key))
            b
          ≡ done left true =
        rw plain at e in
      elim (also_cases choices _ b left true e1) [
        | inr (bad, no_more) ↦ absurd (cc)
        | inl (m1, one, e2) ↦
            elim (also_cases (lift (plain_tests node (dict value))) (also keys_there each_key) m1
              left true e2) [
                | inr (bad, no_more) ↦ absurd (cc)
                | inl (m2, two, e3) ↦ elim (also_cases keys_there each_key m2 left true e3) [
                  | inr (bad, no_more) ↦ absurd (cc)
                  | inl (m3, three, e4) ↦
                      let (fits, passed) = entries_pass n node (entries value) m3 left e4 in
                      let fell : m1 ≤ b =
                        choice-Falls (has node "anyOf") _ _
                          (any_checks-Falls (λ choice. visit choice (dict value))
                            (items_of (get node "anyOf"))
                            (λ choice c l s f.
                              omega (arith, check-lt n choice (dict value) c l s f)))
                          (lift-Falls true) b m1 true one in
                      let there : has_required value (items_of (get node "required")) ≡ true =
                        ground arith in
                      let same2 : m2 ≡ m1 = ground arith in
                      let same3 : m3 ≡ m2 = ground arith in
                      record {
                        required = there;
                        each = passed;
                        effort = omega (arith, fits, fell, same2, same3);
                        no_other = λ none_else here.
                            only_properties n node (entries value) none_else here passed;
                      }
                ]
              ]
      ]
