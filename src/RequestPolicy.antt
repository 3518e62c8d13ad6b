-- ===== src/RequestPolicy.antt =====
-- Which requests are captured: src/debugbundle/request_capture_policy.py and the immediate incidents of
-- src/debugbundle/event_support.py. `none` is the `ValueError` of `urlparse`.
pub mod Decision
use debugbundle_python.Prelude.{
  ℕ, String, Option, none, some, Bool, true, false, not, ◌&&◌, ◌||◌, List, [], ◌∷◌, contains, leb,
  nat_eqb, nat_eq, string_eq, ◌==◌, if◌then◌else◌, ◌>>=◌,
}
use debugbundle_python.Prelude.Int.{ℤ, pos, negsuc}
use debugbundle_python.Prelude.Text.{codes, same_codes, starts_with, without_last}
use debugbundle_python.Json.{
  Json, Fields, Items, Float, finite, null, bool, int, float, str, list, dict, nil, end, get,
}
use debugbundle_python.Config.{CapturePolicy, ImmediateClientErrorPathRule}

abbrev pub balanced_immediate_request_statuses : List ℕ
balanced_immediate_request_statuses = 408 ∷ 423 ∷ 424 ∷ 425 ∷ 429 ∷ []

abbrev pub investigative_immediate_request_statuses : List ℕ
investigative_immediate_request_statuses = 409 ∷ balanced_immediate_request_statuses

-- The truth value of an object.
abbrev pub truthy : Json → Bool
truthy null = false
truthy (bool b) = b
truthy (int (pos n)) = not (nat_eqb n 0)
truthy (float (finite (pos m) e)) = not (nat_eqb m 0)
truthy (str s) = not (s == "")
truthy (list nil) = false
truthy (dict end) = false
truthy _ = true

-- `a or b`
abbrev pub either : Json → Json → Json
either a b = if truthy a then a else b

-- `isinstance(value, int)`, which holds of a `bool` too
abbrev pub as_int : Json → Option ℤ
as_int (int z) = some z
as_int (bool true) = some (pos 1)
as_int (bool false) = some (pos 0)
as_int _ = none

abbrev pub as_str : Json → Option String
as_str (str s) = some s
as_str _ = none

-- `status_code >= 500`, and `status_code in statuses`
abbrev pub is_server_error : ℤ → Bool
is_server_error (pos n) = leb 500 n
is_server_error (negsuc n) = false

abbrev pub among : List ℕ → ℤ → Bool
among statuses (pos n) = contains statuses n
among statuses (negsuc n) = false

abbrev pub is_client_error : ℤ → Bool
is_client_error (pos n) = leb 400 n && leb n 499
is_client_error (negsuc n) = false

-- `s.split(c, 1)[0]`
abbrev before_code : ℕ → List ℕ → List ℕ
before_code c [] = []
before_code c (d ∷ cs) = if nat_eqb d c then [] else d ∷ before_code c cs

abbrev preset_statuses : String → List ℕ
preset_statuses preset =
    if preset == "investigative"
    then investigative_immediate_request_statuses
    else if preset == "balanced"
    then balanced_immediate_request_statuses
    else []

abbrev method_allowed : List String → Option String → Bool
method_allowed [] method = true
method_allowed (m ∷ ms) none = false
method_allowed (m ∷ ms) (some method) = contains (m ∷ ms) method

abbrev path_matches : List ℕ → List ℕ → Bool
path_matches path pattern = elim (without_last b'*' pattern) [
  | some prefix ↦ starts_with path prefix
  | none ↦ same_codes path pattern
]

-- A rule of the loop, for a status and a method in capitals.
abbrev pub rule_matches : ℤ → List ℕ → Option String → ImmediateClientErrorPathRule → Bool
rule_matches status path method rule =
    among (rule.status_code ∷ []) status
    && method_allowed rule.methods method
    && path_matches path (codes rule.path_pattern)

unfoldable pub any_rule : ℤ → List ℕ → Option String → List ImmediateClientErrorPathRule → Bool
any_rule status path method [] = false
any_rule status path method (rule ∷ rules) =
    rule_matches status path method rule || any_rule status path method rules

abbrev pub status_of : Option Fields → Option ℤ
status_of none = none
status_of (some response) =
    as_int (either (get response "status_code") (get response "response_status"))

abbrev pub path_of : Option Fields → Option String
path_of none = none
path_of (some request) = as_str (either (get request "path") (get request "url"))

abbrev pub request_method : Option Fields → Option String
request_method none = none
request_method (some request) = as_str (get request "method")

-- The tests on `capture_request_events`, for a request that is no incident.
unfoldable pub by_setting : String → Option ℤ → Bool
by_setting setting status =
    if setting == "off" then false else if setting == "all" then true else elim status [
      | none ↦ setting == "filtered"
      | some code ↦ if setting == "failures_only" then is_server_error code else false
    ]

-- `urlparse(value).path` and `str.upper()` are the library's.
module _ (url_path : String → Option String) (upper : String → String) where
  -- `_normalize_request_path`
  unfoldable pub normalize_request_path : String → Option (List ℕ)
  normalize_request_path value = do
    path ← url_path value
    some (
        if not (path == "")
        then codes path
        else if starts_with (codes value) (b'/' ∷ [])
        then before_code b'#' (before_code b'?' (codes value))
        else b'/' ∷ [])

  abbrev capitals : Option String → Option String
  capitals none = none
  capitals (some method) = some (upper method)

  -- `_matches_immediate_client_error_path_rule`
  unfoldable pub matches_path_rule :
      ℤ → Option String → Option String → List ImmediateClientErrorPathRule → Option Bool
  unfolding normalize_request_path any_rule
  matches_path_rule status none method rules = some false
  matches_path_rule status (some path) method rules = elim (is_client_error status) [
    | false ↦ some false
    | true ↦ do
      normalized ← normalize_request_path path
      some (any_rule status normalized (capitals method) rules)
  ]

  -- `is_immediate_request_incident_status`
  unfoldable pub is_immediate :
      Option ℤ → CapturePolicy → Option String → Option String → Option Bool
  unfolding matches_path_rule
  is_immediate none policy path method = some false
  is_immediate (some status) policy path method =
      elim (is_server_error status || among policy.immediate_client_error_statuses status) [
        | true ↦ some true
        | false ↦ do
          by_rule ← matches_path_rule status path method policy.immediate_client_error_path_rules
          some (by_rule || among (preset_statuses policy.preset) status)
      ]

  unfoldable pub should_capture_request_event :
      CapturePolicy → Option Fields → Option Fields → Option Bool
  unfolding is_immediate by_setting
  should_capture_request_event policy request response = do
    immediate ← is_immediate (status_of response) policy (path_of request) (request_method request)
    some (if immediate then true else by_setting policy.capture_request_events (status_of response))
