-- ===== src/Relay/Outcomes.antt =====
-- What an answer of 202 of `handle` (src/debugbundle/relay.py) says of the request.
use debugbundle_python.Prelude.{
  ℕ, ◌+◌, ◌≤◌, ◌≡◌, some, Bool, true, false, List, length, string_eq, ◌==◌,
}
use debugbundle_python.Prelude.Dict
use debugbundle_python.Prelude.Dict.{Dict}
use debugbundle_python.Json.{Items, Fields, list, dict, elements, get}
use debugbundle_python.Redaction.{parsed}
use debugbundle_python.Relay.{
  RelayHost, Request, Relay, is_rate_limited, normalize_headers, is_origin_allowed,
  is_supported_content_type,
}
use debugbundle_python.Relay.Delivery.{Env}
use debugbundle_python.Relay.Batch.{RelayError, judge_all}
use debugbundle_python.Relay.Handler.{BrowserRelayResponse, body_size, discovers}
use debugbundle_python.Relay.Judged.{IsDelivered}

module _ (env : Env) (h : RelayHost) where
  -- Which requests are answered by 202: those of an allowed origin that post a JSON body within the
  -- limits, with a batch, of which each entry is either accepted or refused.
  pub record IsAccepted (r : Relay) (request : Request) (response : BrowserRelayResponse)
      : Type 0 where
    pub origin : is_origin_allowed h r.allowed_origins (normalize_headers h request.headers) ≡ true
    pub post : (h.upper request.method == "POST") ≡ true
    pub content_type :
        is_supported_content_type h (Dict.get (normalize_headers h request.headers) "content-type")
        ≡ true
    pub size : (n : ℕ) × (body_size env h request.body ≡ some n) × (n ≤ r.max_body_bytes)
    pub rate :
        (is_rate_limited r.rate_limit_per_minute r.rate_limit_state request.ip_address env.now).0
        ≡ false
    pub discover : Bool
    pub asks : discovers env h (normalize_headers h request.headers) request.url ≡ some discover
    pub decoded : Fields
    pub is_json : h.loads request.body ≡ parsed (dict decoded)
    pub batch : Items
    pub is_batch : get decoded "batch" ≡ list batch
    pub events : List Fields
    pub errors : List RelayError
    pub every : length events + length errors ≡ length (elements batch)
    pub judged :
        judge_all env h
          (record r {
            rate_limit_state =
                (is_rate_limited r.rate_limit_per_minute r.rate_limit_state request.ip_address
                  env.now).1;
          })
          0
          (elements batch)
        ≡ some (events, errors)
    pub delivered :
        IsDelivered env h
          (record r {
            rate_limit_state =
                (is_rate_limited r.rate_limit_per_minute r.rate_limit_state request.ip_address
                  env.now).1;
          })
          discover
          events
          errors
          response
