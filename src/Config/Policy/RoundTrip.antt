-- ===== src/Config/Policy/RoundTrip.antt =====
-- Parsing a capture policy gives a valid one, and its written form parses to itself
-- (src/debugbundle/config.py).
use debugbundle_python.Prelude.{
  ◌≡◌, refl, ap, subst, eq_of_some, String, some, Bool, true, false, not, ◌&&◌, List, arith,
  contains, string_eq, ◌==◌, ==_iff, inl, inr, Bool-cases, >>=-eq-some,
}
use debugbundle_python.Prelude.Dict
use debugbundle_python.Json
use debugbundle_python.Json.{Json, Fields, null, bool, str, list, dict, end, field}
use debugbundle_python.Config.{
  CapturePolicy, log_choices, request_choices, breadcrumb_choices, probe_choices, method_choices,
  as_non_empty_string, choice, preset_of, diagnostic_setting, parse_statuses, parse_rules,
  parse_capture_policy,
}
use debugbundle_python.Config.Policy.Statuses.{
  StatusesOk, ints, parse_statuses-StatusesOk, parse_statuses-ints,
}
use debugbundle_python.Config.Policy.Rules.{
  RulesOk, rule_items, parse_rules-RulesOk, parse_rules-rule_items,
}

abbrev pub Chosen : String → List String → Type 0
Chosen s choices = contains choices s ≡ true

-- A policy whose settings are among their choices, with sorted statuses and valid rules; the
-- preset "minimal" captures no diagnostic context.
pub record PolicyOk (p : CapturePolicy) : Type 0 where
  pub preset : (p.preset == "") ≡ false
  pub logs : Chosen p.capture_logs log_choices
  pub request_events : Chosen p.capture_request_events request_choices
  pub breadcrumbs : Chosen p.capture_breadcrumbs breadcrumb_choices
  pub probe_events : Chosen p.capture_probe_events probe_choices
  pub statuses : StatusesOk p.immediate_client_error_statuses
  pub rules : RulesOk p.immediate_client_error_path_rules
  pub diagnostic : (p.preset == "minimal") ≡ true → p.capture_diagnostic_context ≡ false

-- A policy as the server writes it.
abbrev pub policy_json : CapturePolicy → Json
policy_json p = dict (
    field "preset" (str p.preset) (
      field "capture_logs" (str p.capture_logs) (
        field "capture_request_events" (str p.capture_request_events) (
          field "capture_breadcrumbs" (str p.capture_breadcrumbs) (
            field "capture_probe_events" (str p.capture_probe_events) (
              field "immediate_client_error_statuses"
                (list (ints p.immediate_client_error_statuses))
                (field "immediate_client_error_path_rules"
                  (list (rule_items p.immediate_client_error_path_rules))
                  (field "capture_diagnostic_context" (bool p.capture_diagnostic_context)
                    end))))))))

choice-Chosen :
    (value : Json) (choices : List String) (s : String)
    → choice value choices ≡ some s
    → Chosen s choices
unfolding choice
choice-Chosen value choices s h =
    let (t, one, h') = >>=-eq-some (as_non_empty_string value) _ h in
    elim (Bool-cases (contains choices t)) [
      | inl known ↦ let e : t ≡ s = ground (arith, known) in rw (← e) known
      | inr other ↦ absurd (ground (arith, other))
    ]

choice-str :
    (choices : List String) (s : String)
    → contains choices "" ≡ false
    → Chosen s choices
    → choice (str s) choices ≡ some s
unfolding choice
choice-str choices s blank h = elim (Bool-cases (s == "")) [
  | inl empty ↦ let e : s ≡ "" = (==_iff s "").0 empty in absurd (ground (arith, blank, rw e at h))
  | inr full ↦ rw (full, h) refl
]

not_minimal :
    (preset : String) (diagnostic : Bool)
    → (preset == "minimal") ≡ true
    → (not (preset == "minimal") && diagnostic) ≡ false
not_minimal preset diagnostic minimal = rw minimal refl

diagnostic_kept :
    (preset : String) (diagnostic : Bool)
    → ((preset == "minimal") ≡ true → diagnostic ≡ false)
    → (not (preset == "minimal") && diagnostic) ≡ diagnostic
diagnostic_kept preset diagnostic h = elim (Bool-cases (preset == "minimal")) [
  | inl minimal ↦ rw (minimal, h minimal) refl
  | inr other ↦ rw other refl
]

preset-full : (value : Json) → (preset_of (as_non_empty_string value) == "") ≡ false
unfolding as_non_empty_string
preset-full (str s) = elim (Bool-cases (s == "")) [
  | inl empty ↦ rw empty refl
  | inr full ↦ rw full full
]
preset-full _ = refl

module _ (upper : String → String) where
  -- Whatever upper does, a capture policy that parsing gives is valid: a preset that is not empty,
  -- each setting among its choices, at most twelve statuses from 400 to 499 in ascending order, at
  -- most 25 rules each with a status in that range, a valid path pattern and at most seven known
  -- methods, none twice; and the preset "minimal" captures no diagnostic context.
  pub parse_capture_policy-PolicyOk :
      (value : Json) (p : CapturePolicy) → parse_capture_policy upper value ≡ some p → PolicyOk p
  unfolding parse_capture_policy contains
  parse_capture_policy-PolicyOk null p h = subst PolicyOk (eq_of_some h) (record {
    preset = refl;
    logs = refl;
    request_events = refl;
    breadcrumbs = refl;
    probe_events = refl;
    statuses = record { sorted = tt; in_range = tt; few = omega arith };
    rules = (tt, omega arith);
    diagnostic = λ e. cc;
  })
  parse_capture_policy-PolicyOk (dict payload) p h =
      let (logs, c1, h1) = >>=-eq-some (choice (Json.get payload "capture_logs") log_choices) _ h in
      let (requests, c2, h2) =
        >>=-eq-some (choice (Json.get payload "capture_request_events") request_choices) _ h1 in
      let (crumbs, c3, h3) =
        >>=-eq-some (choice (Json.get payload "capture_breadcrumbs") breadcrumb_choices) _ h2 in
      let (probes, c4, h4) =
        >>=-eq-some (choice (Json.get payload "capture_probe_events") probe_choices) _ h3 in
      let (statuses, c5, h5) =
        >>=-eq-some (parse_statuses (Json.get payload "immediate_client_error_statuses")) _ h4 in
      let (rules, c6, h6) =
        >>=-eq-some (parse_rules upper (Json.get payload "immediate_client_error_path_rules")) _
          h5 in
      let (diagnostic, c7, h7) = >>=-eq-some (diagnostic_setting payload) _ h6 in
      subst PolicyOk (eq_of_some h7) (record {
        preset = preset-full (Json.get payload "preset");
        logs = choice-Chosen (Json.get payload "capture_logs") log_choices logs c1;
        request_events =
            choice-Chosen (Json.get payload "capture_request_events") request_choices requests c2;
        breadcrumbs =
            choice-Chosen (Json.get payload "capture_breadcrumbs") breadcrumb_choices crumbs c3;
        probe_events =
            choice-Chosen (Json.get payload "capture_probe_events") probe_choices probes c4;
        statuses =
            parse_statuses-StatusesOk (Json.get payload "immediate_client_error_statuses") statuses
              c5;
        rules =
            parse_rules-RulesOk upper (Json.get payload "immediate_client_error_path_rules") rules
              c6;
        diagnostic = λ minimal.
            not_minimal (preset_of (as_non_empty_string (Json.get payload "preset"))) diagnostic
              minimal;
      })
  parse_capture_policy-PolicyOk _ p h = cc

  -- Where upper leaves the seven methods as they are, a valid capture policy, written as the object
  -- that a server sends, parses to itself.
  pub parse_capture_policy-policy_json :
      (p : CapturePolicy)
      → ((m : String) → contains method_choices m ≡ true → upper m ≡ m)
      → PolicyOk p
      → parse_capture_policy upper (policy_json p) ≡ some p
  unfolding parse_capture_policy Json.get Json.has Dict.get contains
  parse_capture_policy-policy_json p upper_methods ok =
      rw
        (
          choice-str log_choices p.capture_logs refl ok.logs,
          choice-str request_choices p.capture_request_events refl ok.request_events,
          choice-str breadcrumb_choices p.capture_breadcrumbs refl ok.breadcrumbs,
          choice-str probe_choices p.capture_probe_events refl ok.probe_events,
          parse_statuses-ints p.immediate_client_error_statuses ok.statuses,
          parse_rules-rule_items upper upper_methods p.immediate_client_error_path_rules ok.rules,
        )
        (rw ok.preset (
          ap (λ b. some (record p { capture_diagnostic_context = b }))
            (diagnostic_kept p.preset p.capture_diagnostic_context ok.diagnostic)))
