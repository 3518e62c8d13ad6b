-- ===== src/Tests/ConfigTests.antt =====
-- Runs of src/debugbundle/config.py and src/debugbundle/request_capture_policy.py.
use debugbundle_python.Prelude.{
  ℕ, String, ◌≡◌, refl, Option, none, some, Bool, true, false, not, ◌&&◌, ◌||◌, List, [], ◌∷◌,
  contains, is_some, if◌then◌else◌, string_eq, ◌==◌, arith,
}
use debugbundle_python.Prelude.Int.{ℤ, pos}
use debugbundle_python.Json.{Fields, str, int, field, end}
use debugbundle_python.Config.{
  CapturePolicy, ImmediateClientErrorPathRule, balanced_capture_policy, parse_capture_policy,
}
use debugbundle_python.Config.Policy.RoundTrip.{
  PolicyOk, policy_json, parse_capture_policy-PolicyOk, parse_capture_policy-policy_json,
}
use debugbundle_python.Config.Remote.{RemoteProbeDirective}
use debugbundle_python.RequestPolicy.{
  should_capture_request_event, status_of, path_of, request_method,
}
use debugbundle_python.RequestPolicy.Decision.{incident, should_capture_request_event-incident}

abbrev same : String → String
same s = s

abbrev login_rule : ImmediateClientErrorPathRule
login_rule = record { status_code = 404; path_pattern = "/login/*"; methods = "POST" ∷ [] }

-- The balanced policy with two statuses and a rule.
abbrev strict : CapturePolicy
strict = record balanced_capture_policy {
  immediate_client_error_statuses = 404 ∷ 410 ∷ [];
  immediate_client_error_path_rules = login_rule ∷ [];
}

parse_strict : parse_capture_policy same (policy_json strict) ≡ some strict
unfolding parse_capture_policy debugbundle_python.Json.get debugbundle_python.Prelude.Dict.get
    contains debugbundle_python.Json.has
parse_strict = refl

parse_capture_policy-PolicyOk_example : PolicyOk strict
parse_capture_policy-PolicyOk_example =
    parse_capture_policy-PolicyOk same (policy_json strict) strict parse_strict

parse_capture_policy-policy_json_example :
    parse_capture_policy same (policy_json strict) ≡ some strict
parse_capture_policy-policy_json_example =
    parse_capture_policy-policy_json same strict (λ m h. refl) parse_capture_policy-PolicyOk_example

abbrev at_hour : String → Option ℤ
at_hour s = some (pos 3_600_000)

abbrev directive : String → RemoteProbeDirective
directive label_pattern = record {
  id = "d";
  label_pattern = label_pattern;
  service = "*";
  environment = "production";
  expires_at = "1970-01-01T01:00:00Z";
}

abbrev directives : List RemoteProbeDirective
directives = directive "checkout.*" ∷ directive "login" ∷ []

abbrev request : Fields
request = field "path" (str "/login/now") (field "method" (str "POST") end)

abbrev response : Fields
response = field "status_code" (int (pos 404)) end

-- `urlparse` refuses a host of an open bracket.
abbrev some_path : String → Option String
some_path s = if s == "//[" then none else some s

should_capture_request_event-incident_example :
    should_capture_request_event some_path same strict (some request) (some response)
    ≡ some (
        incident some_path same strict
          (status_of (some response))
          (path_of (some request))
          (request_method (some request))
        || strict.capture_request_events == "all"
        || (strict.capture_request_events == "filtered"
            && not (is_some (status_of (some response)))))
unfolding debugbundle_python.Json.get debugbundle_python.Prelude.Dict.get
should_capture_request_event-incident_example =
    should_capture_request_event-incident some_path same strict (some request) (some response) refl
