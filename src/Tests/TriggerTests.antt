-- ===== src/Tests/TriggerTests.antt =====
-- A signed token at work.
use debugbundle_python.Prelude.{◌≡◌, refl, some, ℕ, Option, none, List, [], ◌∷◌, ◌++◌, String}
use debugbundle_python.Prelude.Int.{pos}
use debugbundle_python.Json.{Json, Fields, str, dict, end, field}
use debugbundle_python.Config.Remote.{RemoteProbeDirective}
use debugbundle_python.Trigger.{TriggerHost, resolve_request_trigger_directives}
use debugbundle_python.Trigger.Signed.{IsSigned, resolve_request_trigger_directives-IsSigned}

-- The payload "ab" says the directive, and its own text with "==" is its signature.
abbrev payload_fields : Fields
payload_fields = field "activation_id" (str "a1") (
    field "label_pattern" (str "*") (
      field "service" (str "api")
        (field "environment" (str "prod") (field "trigger_expires_at" (str "2026") end))))

abbrev host : TriggerHost
host = record {
  hmac = λ key payload. payload ++ (b'=' ∷ b'=' ∷ []);
  b64decode = λ value. some value;
  loads = λ bytes. some (dict payload_fields);
  lower = λ s. s;
  from_iso = λ s. some (pos 100);
}

abbrev request : Fields
request = field "query" (dict (field "_debug_probe" (str "dbundle_probe_ab.ab") end)) end

abbrev forged : Fields
forged = field "query" (dict (field "_debug_probe" (str "dbundle_probe_ab.ac") end)) end

abbrev directive : RemoteProbeDirective
directive = record {
  id = "a1";
  label_pattern = "*";
  service = "api";
  environment = "prod";
  expires_at = "2026";
}

signed_test :
    resolve_request_trigger_directives host (some request) (some "k") (pos 5) ≡ directive ∷ []
unfolding resolve_request_trigger_directives debugbundle_python.Json.get
    debugbundle_python.Prelude.Dict.get
signed_test = refl

forged_test : resolve_request_trigger_directives host (some forged) (some "k") (pos 5) ≡ []
unfolding resolve_request_trigger_directives debugbundle_python.Json.get
    debugbundle_python.Prelude.Dict.get
forged_test = refl

late_test : resolve_request_trigger_directives host (some request) (some "k") (pos 100) ≡ []
unfolding resolve_request_trigger_directives debugbundle_python.Json.get
    debugbundle_python.Prelude.Dict.get
late_test = refl

resolve_request_trigger_directives-IsSigned_example :
    IsSigned host (some request) (some "k") (pos 5) directive
resolve_request_trigger_directives-IsSigned_example =
    resolve_request_trigger_directives-IsSigned host (some request) (some "k") (pos 5) directive
      signed_test
