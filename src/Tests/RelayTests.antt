-- ===== src/Tests/RelayTests.antt =====
-- Runs of src/debugbundle/relay.py and src/debugbundle/relay_delivery.py.
use mathlib.Core.List.{flatten}
use debugbundle_python.Prelude.{
  ℕ, ◌≡◌, ◌≤◌, ◌<◌, refl, String, string_eq, Option, none, some, Bool, true, false, List, [], ◌∷◌,
  ◌++◌, length, arith, ap, All,
}
use debugbundle_python.Prelude
use debugbundle_python.Prelude.Int.{pos}
use debugbundle_python.Prelude.Text.{codes}
use debugbundle_python.Json
use debugbundle_python.Json.{Json, Fields, null, bool, int, str, list, dict, nil, cons, end, field}
use debugbundle_python.Redaction.{RedactHost, parsed, malformed}
use debugbundle_python.Ingestion.{JsonEncoder, opening, closing, joined}
use debugbundle_python.Forward.{World, Forwarder, attach_project_token, send_verified}
use debugbundle_python.Forward.Complete
use debugbundle_python.Forward.Complete.{send_verified-Answered}
use debugbundle_python.Ingestion.Cutting.{AllFit}
use debugbundle_python.Forward.Files.{Attempt, FileTransport, write, final_name, is_temp}
use debugbundle_python.Forward.Files.Atomic.{Written, write-Written, write_short-accepts}
use debugbundle_python.Relay
use debugbundle_python.Redaction
use debugbundle_python.Evidence
use debugbundle_python.Relay.{RelayHost, Request, Relay, text}
use debugbundle_python.Relay.Rate.{
  answers, history_answers, history_after, last_time, Within, Requests, answers-history,
}
use debugbundle_python.Relay.Events.{sanitize_event}
use debugbundle_python.Forward.Names.{sanitize_service_name}
use debugbundle_python.Relay.Delivery.{Env}
use debugbundle_python.Relay.Handler.{BrowserRelayResponse, handle}
use debugbundle_python.Tests.CanonicalTests.{wire, schemas}
use debugbundle_python.Tests.RedactionTests.{host}

-- Three requests within a minute of a limit of two, and one behind it
abbrev requests : Requests
requests = (some "a", 10) ∷ (some "a", 20) ∷ (some "a", 30) ∷ (some "a", 75) ∷ []

rate_test : answers 2 [] requests ≡ false ∷ false ∷ true ∷ false ∷ []
unfolding Relay.is_rate_limited Prelude.Dict.get Prelude.Dict.put
rate_test = refl

answers-history_example :
    (answers 2 [] requests ≡ history_answers 2 [] requests)
    × Within 2 (last_time 0 requests) (history_after 2 [] requests)
answers-history_example = answers-history 2 requests (omega arith)

abbrev candidate : Fields
candidate = field "schema_version" (str "1") (
    field "event_id" (str "e1") (
      field "event_type" (str "request_event") (
        field "occurred_at" (str "2026") (
          field "sdk_version" (str "1") (
            field "service" (dict (field "name" (str "web") (field "environment" (str "prod") end)))
              (field "payload" (dict (field "password" (str "p") end)) end))))))

abbrev relay_host : RelayHost
relay_host = record {
  wire = wire;
  schemas = schemas;
  schema = bool true;
  redact = host;
  upper = λ t. t;
  lower = λ t. t;
  strip = λ t. t;
  url_origin = λ t. none;
  hostname = λ t. some t;
  query_values = λ u k. some [];
  encoded = λ t. some (length (codes t));
  loads = λ b. parsed (dict (field "batch" (list (cons (dict candidate) nil)) end));
}

abbrev clean_event : Fields
clean_event = field "schema_version" (str "1") (
    field "event_id" (str "e1") (
      field "event_type" (str "request_event") (
        field "occurred_at" (str "2026") (
          field "sdk_name" (str "@debugbundle/sdk-browser") (
            field "sdk_version" (str "1") (
              field "service"
                (dict (
                  field "name" (str "web") (
                    field "environment" (str "prod")
                      (field "runtime" null (field "framework" null end)))))
                (field "payload" (dict (field "password" (str "[REDACTED]") end)) end)))))))

clean_test : sanitize_event relay_host none none candidate ≡ some clean_event
unfolding sanitize_event Json.get Json.has Prelude.Dict.get Redaction.Walk.sanitize_telemetry
    Redaction.Walk.has_safe_event_identity Evidence.Events.set_field
clean_test = refl

abbrev attempt : Attempt
attempt = record {
  made_directory = true;
  is_link = false;
  opened = true;
  written = some 9;
  replaced = true;
  listed = true;
  removable = λ n. true;
  timestamp = "17";
  token = "ab";
  encoded = λ es. b'[' ∷ b'{' ∷ b'}' ∷ b']' ∷ [];
}

abbrev show : ℕ → String
show n = "1"

abbrev transport : FileTransport
transport = record { service_name = "web"; sequence = 0; dir_ensured = false }

write_test :
    (write show attempt transport (candidate ∷ []) []).1.0
    ≡ ("17-1-web.events.json", attempt.encoded (candidate ∷ [])) ∷ []
unfolding write Prelude.Dict.get Prelude.Dict.put
write_test = refl

write-Written_example :
    Written attempt []
      (final_name show (write show attempt transport (candidate ∷ []) []).0 attempt)
      (candidate ∷ [])
      (write show attempt transport (candidate ∷ []) []).1
write-Written_example = write-Written show attempt transport candidate [] []

-- The disk takes two of the four bytes.
abbrev short_attempt : Attempt
short_attempt = record attempt { written = some 2 }

write-short_attempt :
    let (t', (files', r)) = write show short_attempt transport (candidate ∷ []) [] in
    (r.status_code ≡ 202)
    × (Prelude.Dict.get files' (final_name show t' short_attempt) ≡ some (b'[' ∷ b'{' ∷ []))
    × (2 < 4)
unfolding Prelude.Dict.get
write-short_attempt =
    write_short-accepts show short_attempt transport candidate [] [] 2 refl refl refl refl
      (omega arith)

abbrev accept_one : Json
accept_one = dict (
    field "accepted" (int (pos 1)) (field "rejected" (int (pos 0)) (field "errors" (list nil) end)))

abbrev world : World
world = record {
  late = λ n. false;
  answer = λ n b. some (record { status_code = 202; retry_after_ms = null; body = accept_one });
  http = true;
}

abbrev encoder : JsonEncoder Fields
encoder = record {
  dumps = λ e. b'{' ∷ b'}' ∷ [];
  encode_body = λ es. opening ++ joined (λ e. b'{' ∷ b'}' ∷ []) es ++ closing;
  encode_body-form = λ es. refl;
}

abbrev forwarder : Forwarder
forwarder = record { readings = 0; calls = 0; sent = []; evidence = [] }

abbrev log : Fields
log = field "event_type" (str "log_event") (field "payload" (dict end) end)

sent_test :
    (send_verified world encoder.dumps forwarder "tok" (log ∷ []) false).1 ≡ (true, true, true)
unfolding send_verified debugbundle_python.Ingestion.prefix Json.get
    debugbundle_python.Prelude.Dict.get debugbundle_python.Evidence.Events.set_field
    debugbundle_python.Evidence.Events.strip_unsupported Json.has
sent_test = refl

abbrev with_project : List Fields
with_project = attach_project_token (log ∷ []) "tok"

all_fit : AllFit encoder.dumps with_project
all_fit = omega arith

send_verified-Answered_example :
    (parts : List (List Fields)) × (flatten parts ≡ with_project)
    × All
        (Complete.PartAnswered world false
          (send_verified world encoder.dumps forwarder "tok" (log ∷ []) false).0.sent)
        parts
send_verified-Answered_example =
    send_verified-Answered world encoder forwarder "tok" (log ∷ []) false all_fit
      (ap (λ r. r.1) sent_test)

abbrev relay : Relay
relay = record {
  allowed_origins = "https://a.example" ∷ [];
  max_body_bytes = 262_144;
  rate_limit_per_minute = 60;
  service = none;
  environment = none;
  project_mode = some "local-only";
  project_token = none;
  has_forwarder = false;
  durable_write = true;
  forwarder = forwarder;
  local_transports = [];
  spool_transports = [];
  local_files = [];
  spool_files = [];
  rate_limit_state = [];
}

abbrev env : Env
env = record {
  now = 100;
  world = world;
  attempt = attempt;
  dumps = encoder.dumps;
  show = show;
  is_regular = true;
  can_mark = true;
  strip = λ s. s;
  on_accept = none;
}

abbrev request : Request
request = record {
  method = "POST";
  headers = ("origin", "https://a.example") ∷ ("content-type", "application/json") ∷ [];
  url = "/relay";
  body = text "{}";
  ip_address = some "a";
}

abbrev foreign_request : Request
foreign_request = record request { headers = ("origin", "https://b.example") ∷ [] }

-- The events are stored in a file of the service.
abbrev after : Relay
after = record relay {
  rate_limit_state = ("a", 100 ∷ []) ∷ [];
  local_transports =
      ("web", record { service_name = "web"; sequence = 1; dir_ensured = true }) ∷ [];
  local_files = ("17-1-web.events.json", attempt.encoded (candidate ∷ [])) ∷ [];
}

abbrev response : BrowserRelayResponse
response = record {
  status = 202;
  body = some (record {
    accepted = 1;
    rejected = 0;
    errors = [];
    evidence_capabilities = none;
    evidence_errors = [];
  });
  headers =
      ("access-control-allow-origin", "https://a.example")
      ∷ ("access-control-allow-methods", "POST, OPTIONS")
      ∷ ("access-control-allow-headers", "content-type, x-debugbundle-evidence")
      ∷ ("access-control-max-age", "600")
      ∷ ("vary", "Origin")
      ∷ [];
}

foreign_test :
    handle env relay_host relay foreign_request
    ≡ some (relay, record { status = 403; body = none; headers = [] })
unfolding handle debugbundle_python.Prelude.Dict.get debugbundle_python.Prelude.Dict.put
foreign_test = refl

name_test : sanitize_service_name (λ s. s) "-my  app/v1.0-" ≡ "my-app-v1.0"
unfolding sanitize_service_name
name_test = refl

empty_name_test : sanitize_service_name (λ s. s) "//" ≡ "service"
unfolding sanitize_service_name
empty_name_test = refl

-- The name of a service may hold the mark of a temporary file.
temp_name_test : is_temp (sanitize_service_name (λ s. s) "a.tmp-b") ≡ true
unfolding sanitize_service_name
temp_name_test = refl
