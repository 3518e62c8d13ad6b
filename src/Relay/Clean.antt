-- ===== src/Relay/Clean.antt =====
-- What `_sanitize_event` (src/debugbundle/relay.py) lets through.
use debugbundle_python.Prelude.{
  either, ℕ, zero, suc, ◌≡◌, ◌∙◌, refl, sym, ap, subst, ◌⊎◌, inl, inr, String, Option, none, some,
  Bool, true, false, not, ◌&&◌, ◌||◌, List, [], ◌∷◌, contains, arith, string_eq, ◌==◌,
  if◌then◌else◌, >>=-eq-some, eq_of_some, Bool-cases,
}
use debugbundle_python.Json.{Json, Fields, null, dict, get, has}
use debugbundle_python.Evidence.Events.{set_field, validate_evidence, without_optional}
use debugbundle_python.Evidence.Events.Editing.{get-set_field}
use debugbundle_python.Redaction.Walk.{sanitize_telemetry, has_safe_event_identity}
use debugbundle_python.Redaction.Safe.{SafeAt, IsClean, sanitize_telemetry-SafeAt}
use debugbundle_python.Relay.{RelayHost}
use debugbundle_python.Relay.Events.{
  rebuild, carries_evidence, Sanitized, unsafe, refused, clean, sanitize_key, identified,
  sanitize_keys, sanitize_fields, valid_event, retry, finish, sanitize_rounds, sanitize_event,
}

module _ (h : RelayHost) where
  abbrev pub Safe : Json → Type 0
  Safe value = SafeAt h.redact [] (IsClean h.redact []) 0 value

  -- An event that may be passed on.
  pub record IsSafeEvent (event : Fields) : Type 0 where
    pub payload : Safe (get event "payload")
    pub service : Safe (get event "service")
    pub context : (get event "context" ≡ null) ⊎ Safe (get event "context")

  sanitize_key-clean :
      (rest : Fields → Sanitized) (event : Fields) (key : String) (o : Option Json) (out : Fields)
      → sanitize_telemetry h.redact [] (get event key) ≡ o
      → sanitize_key rest event key o ≡ clean out
      → (value : Json) × Safe value × (rest (set_field event key value) ≡ clean out)
  sanitize_key-clean rest event key none out found e = absurd (ground arith)
  sanitize_key-clean rest event key (some value) out found e =
      (value, (sanitize_telemetry-SafeAt h.redact [] (get event key) value found).0, e)

  identified-clean :
      (rest : Sanitized) (event out : Fields) (o : Option Bool)
      → identified rest event o ≡ clean out
      → rest ≡ clean out
  identified-clean rest event out none e = absurd (ground arith)
  identified-clean rest event out (some false) e = absurd (ground arith)
  identified-clean rest event out (some true) e = e

  missing : (event : Fields) (key : String) → has event key ≡ false → get event key ≡ null
  unfolding has get
  missing event key e = ground arith

  -- Each key of the loop holds a safe value in the end, and any other key holds what it held.
  sanitize_keys-get :
      (keys : List String) (event out : Fields) (k : String)
      → sanitize_keys h keys event ≡ clean out
      → (contains keys k ≡ true → Safe (get out k))
        × (contains keys k ≡ false → get out k ≡ get event k)
  unfolding contains
  sanitize_keys-get [] event out k e =
      let same : out ≡ event = ground arith in
      (λ there. absurd (cc), λ gone. ap (λ f. get f k) same)
  sanitize_keys-get (key ∷ keys) event out k e =
      let (value, safe, e1) =
        sanitize_key-clean (sanitize_keys h keys) event key
          (sanitize_telemetry h.redact [] (get event key)) out refl e in
      let (inside, outside) = sanitize_keys-get keys (set_field event key value) out k e1 in
      let at_key : get (set_field event key value) k ≡ (if key == k then value else get event k) =
        get-set_field event key value k in
      elim (Bool-cases (contains keys k)) [
        | inl later ↦ (λ there. inside later, λ gone. absurd (ground (arith, later, gone)))
        | inr not_later ↦ elim (Bool-cases (key == k)) [
          | inl here ↦ (
            λ there. subst Safe (sym (outside not_later ∙ at_key ∙ (rw here refl))) safe,
            λ gone. absurd (ground (arith, here, gone)),
          )
          | inr apart ↦ (
            λ there. absurd (ground (arith, apart, not_later, there)),
            λ gone. outside not_later ∙ at_key ∙ (rw apart refl),
          )
        ]
      ]

  sanitize_fields-IsSafeEvent :
      (event out : Fields) → sanitize_fields h event ≡ clean out → IsSafeEvent out
  unfolding contains
  sanitize_fields-IsSafeEvent event out e =
      let keys : List String =
        "payload" ∷ "service" ∷ (if has event "context" then "context" ∷ [] else []) in
      let e1 : sanitize_keys h keys event ≡ clean out =
        identified-clean _ event out (has_safe_event_identity h.redact [] event) e in
      record {
        payload = (sanitize_keys-get keys event out "payload" e1).0 refl;
        service = (sanitize_keys-get keys event out "service" e1).0 refl;
        context = elim (Bool-cases (has event "context")) [
          | inl there ↦ inr ((sanitize_keys-get keys event out "context" e1).0 (rw there refl))
          | inr gone ↦ inl (
              (sanitize_keys-get keys event out "context" e1).1 (rw gone refl)
              ∙ missing event "context" gone)
        ];
      }

  retry-IsSafeEvent :
      (again : Fields → Option Fields)
      → ((e out : Fields) → again e ≡ some out → IsSafeEvent out)
      → (event out : Fields) → retry h again event ≡ some out
      → IsSafeEvent out
  retry-IsSafeEvent again safe event out e =
      let (fallback, found, e1) = >>=-eq-some (without_optional (dict event)) _ e in
      safe fallback out e1

  finish-IsSafeEvent :
      (again : Fields → Option Fields)
      → ((e out : Fields) → again e ≡ some out → IsSafeEvent out)
      → (evidence : Bool) (s : Sanitized) (out : Fields)
      → ((event : Fields) → s ≡ clean event → IsSafeEvent event)
      → finish h again evidence s ≡ some out
      → IsSafeEvent out
  finish-IsSafeEvent again safe true (unsafe event) out k e =
      retry-IsSafeEvent again safe event out e
  finish-IsSafeEvent again safe false (unsafe event) out k e = absurd (ground arith)
  finish-IsSafeEvent again safe evidence refused out k e = absurd (ground arith)
  finish-IsSafeEvent again safe evidence (clean event) out k e =
      elim (either
        (evidence && (not (valid_event h event) || not (validate_evidence h.wire (dict event)))) _
        (some event) (some out) e) [
          | inl (bad, e1) ↦ retry-IsSafeEvent again safe event out e1
          | inr (good, e1) ↦ subst IsSafeEvent (eq_of_some e1) (k event refl)
        ]

  module _ (service_override environment_override : Option String) where
    rounds-IsSafeEvent :
        (n : ℕ) (event out : Fields)
        → sanitize_rounds h service_override environment_override n event ≡ some out
        → IsSafeEvent out
    unfolding sanitize_rounds
    rounds-IsSafeEvent zero event out e = absurd (ground arith)
    rounds-IsSafeEvent (suc n) event out e =
        let ((event_type, rebuilt), built, e1) =
          >>=-eq-some (rebuild service_override environment_override event) _ e in
        let again : Fields → Option Fields =
          sanitize_rounds h service_override environment_override n in
        elim (either (carries_evidence event_type rebuilt && not (valid_event h rebuilt)) none _
          (some out) e1) [
            | inl (bad, e2) ↦ absurd (ground arith)
            | inr (good, e2) ↦
                finish-IsSafeEvent again (rounds-IsSafeEvent n)
                  (carries_evidence event_type rebuilt) (sanitize_fields h rebuilt) out
                  (λ clean_event made. sanitize_fields-IsSafeEvent rebuilt clean_event made) e2
          ]

    -- An event that _sanitize_event gives has a payload, a service and, if it has one, a context
    -- that sanitize_telemetry made safe.
    pub sanitize_event-IsSafeEvent :
        (event out : Fields)
        → sanitize_event h service_override environment_override event ≡ some out
        → IsSafeEvent out
    unfolding sanitize_event
    sanitize_event-IsSafeEvent event out e = rounds-IsSafeEvent 2 event out e
