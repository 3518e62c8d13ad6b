-- ===== src/Config/Policy/Rules.antt =====
-- `_parse_immediate_client_error_path_rules` (src/debugbundle/config.py).
use mathlib.Core.List.{append-nil, append_assoc}
use debugbundle_python.Prelude.{
  ◌≤◌, ◌≡◌, refl, sym, ap, ◌∙◌, String, none, some, true, false, ◌&&◌, List, [], ◌∷◌, ◌++◌, length,
  All, arith, leb, ltb, contains, string_eq, if◌then◌else◌, inl, inr, Bool-cases, >>=-eq-some,
}
use debugbundle_python.Prelude.Int.{pos}
use debugbundle_python.Prelude.Dict
use debugbundle_python.Json.{
  Json, Items, Fields, nil, cons, null, int, str, list, dict, end, field, elements, has,
}
use debugbundle_python.Json
use debugbundle_python.Config.{
  ImmediateClientErrorPathRule, client_error, method_choices, is_valid_path_pattern, method_of,
  pattern_of, raw_methods, read_methods, read_rule, read_rules, parse_rules,
}
use debugbundle_python.Config.Policy.Statuses.{InRange, client_error-InRange}

-- The methods can follow those before them: each is a known one, and a new one.
abbrev pub Distinct : List String → List String → Type 0
Distinct methods [] = Unit
Distinct methods (m ∷ ms) =
    (contains methods m ≡ false)
    × (contains method_choices m ≡ true)
    × Distinct (methods ++ m ∷ []) ms

pub record RuleOk (r : ImmediateClientErrorPathRule) : Type 0 where
  pub in_range : InRange r.status_code
  pub pattern_ok : is_valid_path_pattern r.path_pattern ≡ true
  pub distinct : Distinct [] r.methods
  pub few : length r.methods ≤ 7

abbrev pub texts : List String → Items
texts [] = nil
texts (s ∷ ss) = cons (str s) (texts ss)

abbrev pub rule_fields : ImmediateClientErrorPathRule → Fields
rule_fields r =
    field "status_code" (int (pos r.status_code))
      (field "path_pattern" (str r.path_pattern) (field "methods" (list (texts r.methods)) end))

abbrev pub rule_items : List ImmediateClientErrorPathRule → Items
rule_items [] = nil
rule_items (r ∷ rs) = cons (dict (rule_fields r)) (rule_items rs)

abbrev pub RulesOk : List ImmediateClientErrorPathRule → Type 0
RulesOk rs = All RuleOk rs × (length rs ≤ 25)

length-texts : (ss : List String) → length (elements (texts ss)) ≡ length ss
length-texts [] = refl
length-texts (s ∷ ss) = omega (arith, length-texts ss)

length-rule_items :
    (rs : List ImmediateClientErrorPathRule) → length (elements (rule_items rs)) ≡ length rs
length-rule_items [] = refl
length-rule_items (r ∷ rs) = omega (arith, length-rule_items rs)

module _ (upper : String → String) where
  method_of-known :
      (item : Json) (m : String) → method_of upper item ≡ some m → contains method_choices m ≡ true
  method_of-known (str s) m h = elim (Bool-cases (contains method_choices (upper s))) [
    | inl known ↦ let e : upper s ≡ m = ground (arith, known) in rw (← e) known
    | inr other ↦ absurd (ground (arith, other))
  ]
  method_of-known _ m h = cc

  read_methods-Distinct :
      (items : List Json) (methods ms : List String)
      → read_methods upper items methods ≡ some ms
      → (more : List String) × (ms ≡ methods ++ more)
        × Distinct methods more
        × (length more ≤ length items)
  unfolding read_methods
  read_methods-Distinct [] methods ms h =
      ([], sym (append-nil methods ∙ ground arith), tt, omega arith)
  read_methods-Distinct (item ∷ items) methods ms h =
      let (m, one, h') = >>=-eq-some (method_of upper item) _ h in
      elim (Bool-cases (contains methods m)) [
        | inl old ↦
            let (more, e, d, few) = read_methods-Distinct items methods ms (rw old at h') in
            (more, e, d, omega (arith, few))
        | inr new ↦
            let (more, e, d, few) =
              read_methods-Distinct items (methods ++ m ∷ []) ms (rw new at h') in
            (
              m ∷ more,
              e ∙ append_assoc methods (m ∷ []) more,
              (new, method_of-known item m one, d),
              omega (arith, few),
            )
      ]

  read_rule-RuleOk :
      (item : Json) (r : ImmediateClientErrorPathRule) → read_rule upper item ≡ some r → RuleOk r
  unfolding read_rule
  read_rule-RuleOk (dict item) r h =
      let (status, s, h1) = >>=-eq-some (client_error (Json.get item "status_code")) _ h in
      let (pattern, p, h2) = >>=-eq-some (pattern_of (Json.get item "path_pattern")) _ h1 in
      let (raw, w, h3) = >>=-eq-some (raw_methods item) _ h2 in
      let (methods, ms, h4) =
        >>=-eq-some (if ltb 7 (length raw) then none else read_methods upper raw []) _ h3 in
      elim (Bool-cases (ltb 7 (length raw))) [
        | inl many ↦ absurd (ground (arith, many, ms))
        | inr few ↦
            let (more, e, d, fewer) = read_methods-Distinct raw [] methods (rw few at ms) in
            let e' : r ≡ record { status_code = status; path_pattern = pattern; methods = more } =
              cc in
            rw e' (record {
              in_range = client_error-InRange (Json.get item "status_code") status s;
              pattern_ok = pattern_valid (Json.get item "path_pattern") pattern p;
              distinct = d;
              few = ground (arith, few, fewer);
            })
      ]
    where
      pattern_valid :
          (v : Json) (q : String) → pattern_of v ≡ some q → is_valid_path_pattern q ≡ true
      pattern_valid (str t) q h = elim (Bool-cases (is_valid_path_pattern t)) [
        | inl good ↦ let e : t ≡ q = ground (arith, good) in rw (← e) good
        | inr bad ↦ absurd (ground (arith, bad))
      ]
      pattern_valid _ q h = cc
  read_rule-RuleOk _ r h = cc

  read_rules-RulesOk :
      (items : List Json) (rs : List ImmediateClientErrorPathRule)
      → read_rules upper items ≡ some rs
      → All RuleOk rs × (length rs ≡ length items)
  unfolding read_rules
  read_rules-RulesOk [] rs h = let e : rs ≡ [] = ground arith in rw e (tt, refl)
  read_rules-RulesOk (item ∷ items) rs h =
      let (r, one, h') = >>=-eq-some (read_rule upper item) _ h in
      let (rest, more, e) = >>=-eq-some (read_rules upper items) _ h' in
      let (ok, size) = read_rules-RulesOk items rest more in
      let e' : rs ≡ r ∷ rest = cc in rw e' ((read_rule-RuleOk item r one, ok), omega (arith, size))

  pub parse_rules-RulesOk :
      (value : Json) (rs : List ImmediateClientErrorPathRule)
      → parse_rules upper value ≡ some rs
      → RulesOk rs
  unfolding parse_rules
  parse_rules-RulesOk null rs h = let e : rs ≡ [] = ground arith in rw e (tt, omega arith)
  parse_rules-RulesOk (list items) rs h = elim (Bool-cases (ltb 25 (length (elements items)))) [
    | inl many ↦ absurd (ground (arith, many))
    | inr few ↦
        let (ok, size) = read_rules-RulesOk (elements items) rs (ground (arith, few)) in
        (ok, ground (arith, few, size))
  ]
  parse_rules-RulesOk _ rs h = cc

  module _ (upper_methods : (m : String) → contains method_choices m ≡ true → upper m ≡ m) where
    read_methods-texts :
        (ms methods : List String)
        → Distinct methods ms
        → read_methods upper (elements (texts ms)) methods ≡ some (methods ++ ms)
    unfolding read_methods
    read_methods-texts [] methods d = ap some (sym (append-nil methods))
    read_methods-texts (m ∷ ms) methods d =
        rw (upper_methods m d.1, d.1, d.0)
          (read_methods-texts ms (methods ++ m ∷ []) d.2
            ∙ ap some (append_assoc methods (m ∷ []) ms))

    read_rule-rule_fields :
        (r : ImmediateClientErrorPathRule)
        → RuleOk r
        → read_rule upper (dict (rule_fields r)) ≡ some r
    unfolding read_rule Json.get Json.has Dict.get client_error
    read_rule-rule_fields r ok =
        let one : (leb 400 r.status_code && leb r.status_code 499) ≡ true =
          ground (arith, ok.in_range) in
        let few : ltb 7 (length (elements (texts r.methods))) ≡ false =
          ground (arith, ok.few, length-texts r.methods) in
        rw (one, ok.pattern_ok, few, read_methods-texts r.methods [] ok.distinct) refl

    read_rules-rule_items :
        (rs : List ImmediateClientErrorPathRule)
        → All RuleOk rs
        → read_rules upper (elements (rule_items rs)) ≡ some rs
    unfolding read_rules
    read_rules-rule_items [] ok = refl
    read_rules-rule_items (r ∷ rs) ok =
        rw (read_rule-rule_fields r ok.0, read_rules-rule_items rs ok.1) refl

    pub parse_rules-rule_items :
        (rs : List ImmediateClientErrorPathRule)
        → RulesOk rs
        → parse_rules upper (list (rule_items rs)) ≡ some rs
    unfolding parse_rules
    parse_rules-rule_items rs ok =
        let few : ltb 25 (length (elements (rule_items rs))) ≡ false =
          ground (arith, ok.1, length-rule_items rs) in
        rw few (read_rules-rule_items rs ok.0)
