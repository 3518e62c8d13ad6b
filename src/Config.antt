-- ===== src/Config.antt =====
-- src/debugbundle/config.py: the remote configuration and the capture policy in it.
pub mod Policy
pub mod Remote
use debugbundle_python.Prelude.{
  ℕ, suc, ◌+◌, ◌^◌, ◌/◌, String, Option, none, some, Bool, true, false, not, ◌&&◌, ◌||◌, List, [],
  ◌∷◌, ◌++◌, length, contains, ltb, leb, nat_eqb, string_eq, ◌==◌, if◌then◌else◌, ◌>>=◌,
}
use debugbundle_python.Prelude.Int.{ℤ, pos}
use debugbundle_python.Prelude.Text.{codes, starts_with, has_code}
use debugbundle_python.Json.{
  Json, Items, Fields, null, bool, int, str, list, dict, elements, get, has,
}

pub record ImmediateClientErrorPathRule : Type 0 where
  pub status_code : ℕ
  pub path_pattern : String
  pub methods : List String

pub record CapturePolicy : Type 0 where
  pub preset : String
  pub capture_logs : String
  pub capture_request_events : String
  pub capture_breadcrumbs : String
  pub capture_probe_events : String
  pub immediate_client_error_statuses : List ℕ
  pub immediate_client_error_path_rules : List ImmediateClientErrorPathRule
  pub capture_diagnostic_context : Bool

abbrev pub balanced_capture_policy : CapturePolicy
balanced_capture_policy = record {
  preset = "balanced";
  capture_logs = "warning";
  capture_request_events = "failures_only";
  capture_breadcrumbs = "exception_only";
  capture_probe_events = "buffer_only";
  immediate_client_error_statuses = [];
  immediate_client_error_path_rules = [];
  capture_diagnostic_context = true;
}

abbrev pub minimal_capture_policy : CapturePolicy
minimal_capture_policy = record {
  preset = "minimal";
  capture_logs = "error";
  capture_request_events = "failures_only";
  capture_breadcrumbs = "local_only";
  capture_probe_events = "buffer_only";
  immediate_client_error_statuses = [];
  immediate_client_error_path_rules = [];
  capture_diagnostic_context = false;
}

abbrev pub log_choices : List String
log_choices = "off" ∷ "error" ∷ "warning" ∷ "info" ∷ []

abbrev pub request_choices : List String
request_choices = "off" ∷ "failures_only" ∷ "filtered" ∷ "all" ∷ []

abbrev pub breadcrumb_choices : List String
breadcrumb_choices = "local_only" ∷ "exception_only" ∷ "standalone" ∷ []

abbrev pub probe_choices : List String
probe_choices = "buffer_only" ∷ "standalone_when_activated" ∷ []

abbrev pub method_choices : List String
method_choices = "GET" ∷ "POST" ∷ "PUT" ∷ "PATCH" ∷ "DELETE" ∷ "HEAD" ∷ "OPTIONS" ∷ []

-- `_as_non_empty_string`
unfoldable pub as_non_empty_string : Json → Option String
as_non_empty_string (str s) = if s == "" then none else some s
as_non_empty_string _ = none

-- A setting that is one of its choices.
unfoldable pub choice : Json → List String → Option String
unfolding as_non_empty_string
choice value choices = do s ← as_non_empty_string value; if contains choices s then some s else none

-- An `int` from 400 to 499
unfoldable pub client_error : Json → Option ℕ
client_error (int (pos n)) = if leb 400 n && leb n 499 then some n else none
client_error _ = none

-- `sorted(set(statuses))`, one status at a time
unfoldable pub insert_status : ℕ → List ℕ → List ℕ
insert_status n [] = n ∷ []
insert_status n (m ∷ ms) =
    let rest = insert_status n ms in
    if ltb n m then n ∷ m ∷ ms else if nat_eqb n m then m ∷ ms else m ∷ rest

unfoldable pub read_statuses : List Json → Option (List ℕ)
unfolding client_error insert_status
read_statuses [] = some []
read_statuses (item ∷ items) = do
  n ← client_error item
  rest ← read_statuses items
  some (insert_status n rest)

-- `_parse_immediate_client_error_statuses`
unfoldable pub parse_statuses : Json → Option (List ℕ)
unfolding read_statuses
parse_statuses null = some []
parse_statuses (list items) =
    if ltb 12 (length (elements items)) then none else read_statuses (elements items)
parse_statuses _ = none

-- `wildcard_index == -1 or wildcard_index == len(value) - 1`
abbrev star_last : List ℕ → Bool
star_last [] = true
star_last (c ∷ []) = true
star_last (c ∷ d ∷ cs) = not (nat_eqb c b'*') && star_last (d ∷ cs)

-- `_is_valid_path_pattern`
unfoldable pub is_valid_path_pattern : String → Bool
is_valid_path_pattern value =
    let cs = codes value in
    starts_with cs (b'/' ∷ [])
    && leb (length cs) 256
    && not (has_code cs b'?' || has_code cs b'#')
    && star_last cs

-- `item.get("methods", [])`
abbrev pub raw_methods : Fields → Option (List Json)
raw_methods item =
    if has item "methods"
    then elim (get item "methods") [ list items ↦ some (elements items) | _ ↦ none ]
    else some []

abbrev pub pattern_of : Json → Option String
pattern_of (str s) = if is_valid_path_pattern s then some s else none
pattern_of _ = none

-- `payload.get("capture_diagnostic_context", True)`
abbrev pub diagnostic_setting : Fields → Option Bool
diagnostic_setting payload =
    if has payload "capture_diagnostic_context"
    then elim (get payload "capture_diagnostic_context") [ bool b ↦ some b | _ ↦ none ]
    else some true

abbrev pub preset_of : Option String → String
preset_of none = "balanced"
preset_of (some s) = s

-- `str.upper()` is the library's: any function on texts.
module _ (upper : String → String) where
  abbrev pub method_of : Json → Option String
  method_of (str s) = if contains method_choices (upper s) then some (upper s) else none
  method_of _ = none

  -- The loop over the methods, with the methods so far.
  unfoldable pub read_methods : List Json → List String → Option (List String)
  read_methods [] methods = some methods
  read_methods (item ∷ items) methods = do
    method ← method_of item
    read_methods items (if contains methods method then methods else methods ++ method ∷ [])

  unfoldable pub read_rule : Json → Option ImmediateClientErrorPathRule
  unfolding client_error read_methods is_valid_path_pattern
  read_rule (dict item) = do
    status_code ← client_error (get item "status_code")
    path_pattern ← pattern_of (get item "path_pattern")
    raw ← raw_methods item
    methods ← if ltb 7 (length raw) then none else read_methods raw []
    some (record { status_code = status_code; path_pattern = path_pattern; methods = methods })
  read_rule _ = none

  unfoldable pub read_rules : List Json → Option (List ImmediateClientErrorPathRule)
  unfolding read_rule
  read_rules [] = some []
  read_rules (item ∷ items) = do
    rule ← read_rule item
    rules ← read_rules items
    some (rule ∷ rules)

  -- `_parse_immediate_client_error_path_rules`
  unfoldable pub parse_rules : Json → Option (List ImmediateClientErrorPathRule)
  unfolding read_rules
  parse_rules null = some []
  parse_rules (list items) =
      if ltb 25 (length (elements items)) then none else read_rules (elements items)
  parse_rules _ = none

  -- `_parse_capture_policy`
  unfoldable pub parse_capture_policy : Json → Option CapturePolicy
  unfolding as_non_empty_string choice parse_statuses parse_rules
  parse_capture_policy null = some balanced_capture_policy
  parse_capture_policy (dict payload) = do
    let preset = preset_of (as_non_empty_string (get payload "preset"))
    logs ← choice (get payload "capture_logs") log_choices
    request_events ← choice (get payload "capture_request_events") request_choices
    breadcrumbs ← choice (get payload "capture_breadcrumbs") breadcrumb_choices
    probe_events ← choice (get payload "capture_probe_events") probe_choices
    statuses ← parse_statuses (get payload "immediate_client_error_statuses")
    rules ← parse_rules (get payload "immediate_client_error_path_rules")
    diagnostic ← diagnostic_setting payload
    some (record {
      preset = preset;
      capture_logs = logs;
      capture_request_events = request_events;
      capture_breadcrumbs = breadcrumbs;
      capture_probe_events = probe_events;
      immediate_client_error_statuses = statuses;
      immediate_client_error_path_rules = rules;
      capture_diagnostic_context = not (preset == "minimal") && diagnostic;
    })
  parse_capture_policy _ = none
