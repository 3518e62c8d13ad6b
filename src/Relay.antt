-- ===== src/Relay.antt =====
-- src/debugbundle/relay.py: the configuration and the state of a `BrowserRelayHandler`, the origin of
-- a request and the limit on its rate.
pub mod Rate
pub mod Rounds
pub mod Events
pub mod Clean
pub mod Delivery
pub mod Delivered
pub mod Batch
pub mod Handler
pub mod Judged
pub mod Outcomes
use Prim.Native.String
use debugbundle_python.Prelude.{
  ℕ, zero, suc, ◌+◌, ◌≤◌, String, Option, none, some, Bool, true, false, not, ◌&&◌, ◌||◌, List, [],
  ◌∷◌, ◌++◌, length, ltb, leb, nat_eqb, max, string_eq, ◌==◌, if◌then◌else◌, or_else,
}
use debugbundle_python.Prelude.Text.{codes, same_codes, holds}
use debugbundle_python.Prelude.Dict
use debugbundle_python.Prelude.Dict.{Dict}
use debugbundle_python.Json.{Json}
use debugbundle_python.Evidence.Shapes.{WireHost}
use debugbundle_python.CanonicalEvent.Schema.{SchemaHost}
use debugbundle_python.Redaction.{RedactHost, Loaded}
use debugbundle_python.Forward.{Forwarder}
use debugbundle_python.Forward.Files.{FileTransport, Files}

-- The body of a request: a text or bytes
pub data Body : Type 0 where
  text : String → Body
  raw : List ℕ → Body

-- What the relay takes from libraries: those of the validators and of the redaction with the schema
-- file, `str.upper`, `str.lower` and `str.strip`, the scheme and the hostname of `urlparse` (none where
-- it raises or one is missing), the values of a key of the query of a URL, and `json.loads` of a body.
pub record RelayHost : Type 0 where
  pub wire : WireHost
  pub schemas : SchemaHost
  pub schema : Json
  pub redact : RedactHost
  pub upper : String → String
  pub lower : String → String
  pub strip : String → String
  pub url_origin : String → Option (String × String)
  pub hostname : String → Option String
  pub query_values : String → String → Option (List String)
  pub encoded : String → Option ℕ
  pub loads : Body → Loaded

-- A request, with what `handle` takes where an entry is missing; the address is that of `ipAddress`,
-- or else of `ip_address`.
pub record Request : Type 0 where
  pub method : String
  pub headers : Dict String String
  pub url : String
  pub body : Body
  pub ip_address : Option String

pub record Relay : Type 0 where
  pub allowed_origins : List String
  pub max_body_bytes : ℕ
  pub rate_limit_per_minute : ℕ
  pub service : Option String
  pub environment : Option String
  pub project_mode : Option String
  pub project_token : Option String
  pub has_forwarder : Bool
  pub durable_write : Bool
  pub forwarder : Forwarder
  pub local_transports : Dict String FileTransport
  pub spool_transports : Dict String FileTransport
  pub local_files : Files
  pub spool_files : Files
  pub rate_limit_state : Dict String (List ℕ)

-- `max(1, limit)` and the mode of `__post_init__`
abbrev pub at_least_one : ℕ → ℕ
at_least_one n = max 1 n

abbrev known_mode : String → Option String
known_mode mode = if mode == "connected" || mode == "local-only" then some mode else none

abbrev without_empty : List String → List String
without_empty [] = []
without_empty (o ∷ os) = let rest = without_empty os in if o == "" then rest else o ∷ rest

-- The times that are less than a minute before `now`: `ts > now - 60`
abbrev pub recent : ℕ → List ℕ → List ℕ
recent now [] = []
recent now (ts ∷ rest) =
    let later = recent now rest in if ltb now (ts + 60) then ts ∷ later else later

abbrev pub rate_key : Option String → String
rate_key none = "unknown"
rate_key (some ip) = if ip == "" then "unknown" else ip

abbrev pub times_of : Dict String (List ℕ) → String → List ℕ
times_of state key = or_else (Dict.get state key) []

-- `_is_rate_limited`: whether the request is refused, and the state behind it
unfoldable pub is_rate_limited :
    ℕ → Dict String (List ℕ) → Option String → ℕ → Bool × Dict String (List ℕ)
is_rate_limited limit state ip_address now =
    let timestamps = recent now (times_of state (rate_key ip_address)) in
    if leb limit (length timestamps)
    then (true, Dict.put state (rate_key ip_address) timestamps)
    else (false, Dict.put state (rate_key ip_address) (timestamps ++ (now ∷ [])))

-- `text.rstrip("/")` and `text.split(":")[0]`
abbrev strip_slashes : List ℕ → List ℕ
strip_slashes [] = []
strip_slashes (c ∷ cs) =
    let rest = strip_slashes cs in
    if nat_eqb c b'/' && nat_eqb (length rest) 0 then [] else c ∷ rest

abbrev before_colon : List ℕ → List ℕ
before_colon [] = []
before_colon (c ∷ cs) = let rest = before_colon cs in if nat_eqb c b':' then [] else c ∷ rest

module _ (h : RelayHost) where
  -- `_normalize_headers`
  abbrev normalize_from : Dict String String → Dict String String → Dict String String
  normalize_from done [] = done
  normalize_from done ((key, value) ∷ rest) =
      normalize_from (Dict.put done (h.lower key) value) rest

  abbrev pub normalize_headers : Dict String String → Dict String String
  normalize_headers headers = normalize_from [] headers

  abbrev stripped : Dict String String → String → String
  stripped headers key = h.strip (or_else (Dict.get headers key) "")

  abbrev referer_origin : Option (String × String) → Option String
  referer_origin none = none
  referer_origin (some (scheme, hostname)) = some (String.◌++◌ scheme (String.◌++◌ "://" hostname))

  -- `_source_origin`
  unfoldable pub source_origin : Dict String String → Option String
  source_origin headers =
      if not (stripped headers "origin" == "")
      then some (stripped headers "origin")
      else if stripped headers "referer" == ""
      then none
      else referer_origin (h.url_origin (stripped headers "referer"))

  -- `_normalize_origin`, as its code points
  abbrev pub normalize_origin : String → List ℕ
  normalize_origin origin = strip_slashes (codes (h.lower (h.strip origin)))

  abbrev any_origin : List ℕ → List String → Bool
  any_origin wanted [] = false
  any_origin wanted (o ∷ os) = same_codes (normalize_origin o) wanted || any_origin wanted os

  abbrev same_host : Option String → String → Bool
  same_host none host = false
  same_host (some origin_host) host =
      same_codes (codes (h.lower origin_host)) (before_colon (codes (h.lower host)))

  -- `_is_origin_allowed`
  unfoldable pub is_origin_allowed : List String → Dict String String → Bool
  unfolding source_origin
  is_origin_allowed allowed headers = elim (source_origin headers) [
    | none ↦ false
    | some origin ↦
        if not (nat_eqb (length allowed) 0)
        then any_origin (normalize_origin origin) allowed
        else if or_else (Dict.get headers "host") "" == ""
        then false
        else same_host (h.hostname origin) (or_else (Dict.get headers "host") "")
  ]

  -- `_is_supported_content_type`
  abbrev pub is_supported_content_type : Option String → Bool
  is_supported_content_type none = false
  is_supported_content_type (some t) = holds (codes "application/json") (codes (h.lower t))

  -- `BrowserRelayHandler` with its `__post_init__`
  unfoldable pub new_relay : Relay → Relay
  new_relay r = record r {
    allowed_origins = without_empty r.allowed_origins;
    max_body_bytes = at_least_one r.max_body_bytes;
    rate_limit_per_minute = at_least_one r.rate_limit_per_minute;
    project_mode = known_mode (h.lower (h.strip (or_else r.project_mode "")));
    local_transports = [];
    spool_transports = [];
    rate_limit_state = [];
  }
