-- ===== src/Tests/RedactionTests.antt =====
-- Runs of src/debugbundle/redaction.py.
use debugbundle_python.Prelude.{ℕ, ◌≡◌, ◌≤◌, ◌↔◌, refl, none, some, true, false, [], ◌∷◌, length}
use debugbundle_python.Prelude.Int.{pos}
use debugbundle_python.Prelude.Text.{codes}
use debugbundle_python.Json.{Json, int, str, list, dict, nil, cons, end, field}
use debugbundle_python.Redaction.{
  RedactHost, malformed, canonical_fields, key_segments, sensitive_key,
}
use debugbundle_python.Redaction.Keys.{Run, sensitive_key_iff}
use debugbundle_python.Redaction.Texts.{luhn}
use debugbundle_python.Redaction.Walk.{sanitize_telemetry, redact_value}
use debugbundle_python.Redaction.Safe.{SafeAt, IsClean, sanitize_telemetry-SafeAt}

-- Expressions that match nothing; the small letters of a code point
abbrev small : ℕ → ℕ
small c = c

abbrev pub host : RedactHost
host = record {
  search = λ p t. none;
  sub = λ p f t. t;
  unquote = λ t. some t;
  urlsplit = λ t. none;
  parse_qsl = λ t. [];
  urlencode = λ q. "";
  urlunsplit = λ a b c d. a;
  encoded = λ t. some (length (codes t));
  loads = λ t. malformed;
  dumps = λ j. "{}";
  strip = λ cs. cs;
  lower = λ cs. cs;
  lower_text = λ t. t;
}

camel_test : sensitive_key host "user_password_2" ("password" ∷ []) ≡ true
unfolding sensitive_key
camel_test = refl

joined_test : sensitive_key host "the-api-key" ("apikey" ∷ []) ≡ true
unfolding sensitive_key
joined_test = refl

plain_test : sensitive_key host "passwords" ("password" ∷ []) ≡ false
unfolding sensitive_key
plain_test = refl

luhn_test : luhn "4111 1111 1111 1111" ≡ true
unfolding luhn
luhn_test = refl

luhn_wrong_test : luhn "4111 1111 1111 1112" ≡ false
unfolding luhn
luhn_wrong_test = refl

abbrev account : Json
account = dict (field "password" (int (pos 7)) (field "names" (list (cons (str "ann") nil)) end))

abbrev hidden : Json
hidden =
    dict (field "password" (str "[REDACTED]") (field "names" (list (cons (str "ann") nil)) end))

account_test : sanitize_telemetry host [] account ≡ some hidden
unfolding sanitize_telemetry
account_test = refl

redact_test : redact_value host ("password" ∷ []) account ≡ hidden
unfolding redact_value
redact_test = refl

sanitize_telemetry-SafeAt_example :
    SafeAt host [] (IsClean host []) 0 hidden
    × ((n : ℕ) × (host.encoded (host.dumps hidden) ≡ some n) × (n ≤ 262_144))
sanitize_telemetry-SafeAt_example = sanitize_telemetry-SafeAt host [] account hidden account_test

sensitive_key_iff_example :
    (sensitive_key host "the-api-key" ("apikey" ∷ []) ≡ true)
    ↔ Run (canonical_fields host ("apikey" ∷ [])) (key_segments host "the-api-key")
sensitive_key_iff_example = sensitive_key_iff host "the-api-key" ("apikey" ∷ [])
