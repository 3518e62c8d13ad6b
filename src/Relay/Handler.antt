-- ===== src/Relay/Handler.antt =====
-- `handle` (src/debugbundle/relay.py).
use debugbundle_python.Prelude.{
  ℕ, String, Option, none, some, Bool, true, false, not, ◌||◌, List, [], ◌∷◌, length, ltb,
  string_eq, ◌==◌, if◌then◌else◌, ◌>>=◌, or_else,
}
use debugbundle_python.Prelude.Dict
use debugbundle_python.Prelude.Dict.{Dict}
use debugbundle_python.Json.{Json, Fields, list, dict, elements, get}
use debugbundle_python.Redaction.{Loaded, parsed, refused}
use debugbundle_python.Relay.{
  Body, text, raw, RelayHost, Request, Relay, is_rate_limited, normalize_headers, source_origin,
  is_origin_allowed, is_supported_content_type,
}
use debugbundle_python.Relay.Delivery.{BrowserRelayAcceptedBatch, Env, deliver_events}
use debugbundle_python.Relay.Batch.{
  RelayError, bad_content_type, bad_json, no_batch, not_object, invalid_event, unsupported, judge,
  judge_all,
}

pub record ResponseBody : Type 0 where
  pub accepted : ℕ
  pub rejected : ℕ
  pub errors : List RelayError
  pub evidence_capabilities : Option (List String)
  pub evidence_errors : List ℕ

pub record BrowserRelayResponse : Type 0 where
  pub status : ℕ
  pub body : Option ResponseBody
  pub headers : Dict String String

module _ (env : Env) where
  module _ (h : RelayHost) where
    abbrev index_of : List RelayError → List ℕ
    index_of [] = []
    index_of (not_object n ∷ es) = n ∷ index_of es
    index_of (invalid_event n ∷ es) = n ∷ index_of es
    index_of (unsupported n t ∷ es) = n ∷ index_of es
    index_of (_ ∷ es) = index_of es

    abbrev cors_headers : Option String → Dict String String
    cors_headers none = []
    cors_headers (some origin) =
        ("access-control-allow-origin", origin)
        ∷ ("access-control-allow-methods", "POST, OPTIONS")
        ∷ ("access-control-allow-headers", "content-type, x-debugbundle-evidence")
        ∷ ("access-control-max-age", "600")
        ∷ ("vary", "Origin")
        ∷ []

    -- `_strip_sensitive_headers`
    abbrev strip_sensitive_headers : Dict String String → Dict String String
    strip_sensitive_headers headers =
        Dict.remove (Dict.remove (Dict.remove headers "authorization") "cookie") "x-api-key"

    -- `with_headers`
    abbrev pub extended : Relay → Bool → List ℕ → ResponseBody → ResponseBody
    extended r discover indexed b =
        if discover
        then record b {
          evidence_capabilities = some r.forwarder.evidence;
          evidence_errors = indexed;
        }
        else b

    abbrev pub with_headers :
        Relay → Bool → Dict String String → ℕ → Option ResponseBody → BrowserRelayResponse
    with_headers r discover headers status none = record {
      status = status;
      body = none;
      headers = cors_headers (source_origin h headers);
    }
    with_headers r discover headers status (some b) = record {
      status = status;
      body = some (extended r discover (index_of b.errors) b);
      headers = cors_headers (source_origin h headers);
    }

    abbrev pub counts : ℕ → ℕ → List RelayError → Option ResponseBody
    counts accepted rejected errors = some (record {
      accepted = accepted;
      rejected = rejected;
      errors = errors;
      evidence_capabilities = none;
      evidence_errors = [];
    })

    -- Whether `on_accept` is there and raises
    abbrev pub refuses :
        Option (BrowserRelayAcceptedBatch → Bool) → BrowserRelayAcceptedBatch → Bool
    refuses none batch = false
    refuses (some call) batch = not (call batch)

    abbrev pub accepted_batch :
        Dict String String → Option String → List Fields → BrowserRelayAcceptedBatch
    accepted_batch headers ip events = record {
      events = events;
      headers = strip_sensitive_headers headers;
      ip_address = ip;
      received_at = env.now;
    }

    abbrev pub Answer : Type 0
    Answer = Relay × BrowserRelayResponse

    -- The responses behind a delivery
    abbrev pub conclude_batch :
        Relay → Bool → Dict String String → List Fields → List RelayError → Answer
    conclude_batch r discover headers events [] =
        (r, with_headers r discover headers 202 (counts (length events) 0 []))
    conclude_batch r discover headers events (e ∷ es) = (
      r,
      with_headers r discover headers (if discover then 202 else 400)
          (counts (length events) (length (e ∷ es)) (e ∷ es)),
    )

    abbrev pub deliver_batch :
        Relay → Bool → Dict String String → Option String → List Fields → List RelayError → Answer
    deliver_batch r discover headers ip [] errors = conclude_batch r discover headers [] errors
    deliver_batch r discover headers ip (e ∷ es) errors =
        let (r', delivered) = deliver_events env r (e ∷ es) discover in
        if not delivered || refuses env.on_accept (accepted_batch headers ip (e ∷ es))
        then (r', with_headers r' discover headers 500 none)
        else conclude_batch r' discover headers (e ∷ es) errors

    abbrev pub handle_batch :
        Relay → Bool → Dict String String → Option String → Json → Option Answer
    handle_batch r discover headers ip (list items) = do
      (events, errors) ← judge_all env h r 0 (elements items)
      some (deliver_batch r discover headers ip events errors)
    handle_batch r discover headers ip _ =
        some (r, with_headers r discover headers 400 (counts 0 0 (no_batch ∷ [])))

    abbrev pub handle_loaded :
        Relay → Bool → Dict String String → Option String → Loaded → Option Answer
    handle_loaded r discover headers ip refused = none
    handle_loaded r discover headers ip (parsed (dict decoded)) =
        handle_batch r discover headers ip (get decoded "batch")
    handle_loaded r discover headers ip _ =
        some (r, with_headers r discover headers 400 (counts 0 0 (bad_json ∷ [])))

    abbrev pub body_size : Body → Option ℕ
    body_size (text t) = h.encoded t
    body_size (raw bytes) = some (length bytes)

    -- From the limit on the rate on
    abbrev pub handle_limited : Relay → Bool → Dict String String → Request → Option Answer
    handle_limited r discover headers request =
        let (limited, state) =
          is_rate_limited r.rate_limit_per_minute r.rate_limit_state request.ip_address env.now in
        let r' = record r { rate_limit_state = state } in
        if limited
        then some (r', with_headers r' discover headers 429 none)
        else handle_loaded r' discover headers request.ip_address (h.loads request.body)

    -- The guards on a request whose origin is allowed
    abbrev pub handle_allowed : Relay → Bool → Dict String String → Request → Option Answer
    handle_allowed r discover headers request =
        if h.upper request.method == "OPTIONS"
        then some (r, with_headers r discover headers 204 none)
        else if not (h.upper request.method == "POST")
        then some (r, with_headers r discover headers 405 none)
        else if not (is_supported_content_type h (Dict.get headers "content-type"))
        then some (r, with_headers r discover headers 400 (counts 0 0 (bad_content_type ∷ [])))
        else (do
          size ← body_size request.body
          if ltb r.max_body_bytes size
              then some (r, with_headers r discover headers 413 none)
              else handle_limited r discover headers request)

    abbrev only_one : List String → Bool
    only_one (value ∷ []) = value == "1"
    only_one _ = false

    -- `discover`: the header, or the query of the URL, which may raise
    abbrev pub discovers : Dict String String → String → Option Bool
    discovers headers url =
        if or_else (Dict.get headers "x-debugbundle-evidence") "" == "1"
        then some true
        else (do values ← h.query_values url "debugbundle_evidence"; some (only_one values))

    -- `handle`, where `none` is an exception
    unfoldable pub handle : Relay → Request → Option Answer
    unfolding is_rate_limited is_origin_allowed source_origin deliver_events judge
    handle r request =
        let headers = normalize_headers h request.headers in
        if not (is_origin_allowed h r.allowed_origins headers)
        then some (r, record { status = 403; body = none; headers = [] })
        else (do
          discover ← discovers headers request.url
          handle_allowed r discover headers request)
