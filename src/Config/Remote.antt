-- ===== src/Config/Remote.antt =====
-- The remote configuration and its probe directives (src/debugbundle/config.py). `none` is an exception
-- (`int` of a float that is no number).
pub mod Matching
use debugbundle_python.Prelude.{
  ℕ, ◌*◌, ◌/◌, ◌^◌, ◌≡◌, String, Option, none, some, Bool, true, false, not, ◌&&◌, ◌||◌, List, [],
  ◌∷◌, ◌++◌, ltb, leb, nat_eqb, string_eq, ◌==◌, if◌then◌else◌, ◌>>=◌,
}
use debugbundle_python.Prelude.Int.{ℤ, pos, negsuc, ltb_ℤ}
use debugbundle_python.Prelude.Text.{codes, same_codes, starts_with, without_end, with_utc}
use debugbundle_python.Json.{
  Json, Fields, Float, finite, nan, inf, neg_inf, null, bool, int, float, str, list, dict, elements,
  get,
}
use debugbundle_python.Config.{CapturePolicy, as_non_empty_string, parse_capture_policy}

pub record RemoteProbeDirective : Type 0 where
  pub id : String
  pub label_pattern : String
  pub service : String
  pub environment : String
  pub expires_at : String

pub record RemoteConfigSnapshot : Type 0 where
  pub probes_enabled : Bool
  pub remote_probes_enabled : Bool
  pub directives : List RemoteProbeDirective
  pub poll_interval_ms : ℕ
  pub capture_policy : CapturePolicy
  pub trigger_token_key : Option String

abbrev pub default_probes_poll_interval_ms : ℕ
default_probes_poll_interval_ms = 60_000

abbrev is_true : Json → Bool
is_true (bool true) = true
is_true _ = false

-- `int(value) if isinstance(value, (int, float)) and int(value) > 0 else fallback`
unfoldable pub poll_interval : Json → ℕ → Option ℕ
poll_interval (bool true) fallback = some 1
poll_interval (int (pos n)) fallback = some (if nat_eqb n 0 then fallback else n)
poll_interval (float (finite (pos m) e)) fallback =
    some (if nat_eqb (m / 2 ^ e) 0 then fallback else m / 2 ^ e)
poll_interval (float nan) fallback = none
poll_interval (float inf) fallback = none
poll_interval (float neg_inf) fallback = none
poll_interval _ fallback = some fallback

-- `_matches_label_pattern`
unfoldable pub matches_label_pattern : String → String → Bool
matches_label_pattern pattern label =
    let exact = pattern == label in
    pattern == "*" || (elim (without_end b'.' b'*' (codes pattern)) [
      | none ↦ exact
      | some prefix ↦
          same_codes (codes label) prefix || starts_with (codes label) (prefix ++ b'.' ∷ [])
    ])

-- `datetime.fromisoformat(value).timestamp() * 1000` in whole milliseconds is the library's, and
-- `none` is its `ValueError`; so is `str.upper()`.
module _ (from_iso : String → Option ℤ) where
  unfoldable pub expires_at_ms : String → ℤ
  unfolding with_utc
  expires_at_ms value = elim (from_iso (with_utc value)) [ none ↦ pos 0 | some ms ↦ ms ]

  abbrev pub is_zero : ℤ → Bool
  is_zero (pos n) = nat_eqb n 0
  is_zero (negsuc n) = false

  -- `_parse_directive`
  unfoldable pub parse_directive : Json → Option RemoteProbeDirective
  unfolding as_non_empty_string expires_at_ms
  parse_directive (dict payload) = do
    id ← as_non_empty_string (get payload "id")
    label_pattern ← as_non_empty_string (get payload "label_pattern")
    service ← as_non_empty_string (get payload "service")
    environment ← as_non_empty_string (get payload "environment")
    expires_at ← as_non_empty_string (get payload "expires_at")
    if is_zero (expires_at_ms expires_at)
        then none
        else some (record {
          id = id;
          label_pattern = label_pattern;
          service = service;
          environment = environment;
          expires_at = expires_at;
        })
  parse_directive _ = none

  -- The loop over `active_probes`.
  unfoldable pub read_directives : List Json → ℤ → List RemoteProbeDirective
  unfolding parse_directive
  read_directives [] now_ms = []
  read_directives (item ∷ items) now_ms =
      let rest = read_directives items now_ms in
      elim (parse_directive item) [
        | none ↦ rest
        | some d ↦ if ltb_ℤ now_ms (expires_at_ms d.expires_at) then d ∷ rest else rest
      ]

  abbrev active_directives : Json → ℤ → List RemoteProbeDirective
  active_directives (list items) now_ms = read_directives (elements items) now_ms
  active_directives _ now_ms = []

  module _ (upper : String → String) where
    -- `parse_remote_config`; `some none` is its `None`.
    unfoldable pub parse_remote_config : Json → ℕ → ℤ → Option (Option RemoteConfigSnapshot)
    unfolding poll_interval read_directives parse_capture_policy as_non_empty_string
    parse_remote_config (dict payload) fallback now_ms = do
      interval ← poll_interval (get payload "poll_interval_ms") fallback
      let remote = is_true (get payload "remote_probes_enabled")
      some (elim (parse_capture_policy upper (get payload "capture_policy")) [
        | none ↦ none
        | some policy ↦ some (record {
          probes_enabled = is_true (get payload "probes_enabled");
          remote_probes_enabled = remote;
          directives = active_directives (get payload "active_probes") now_ms;
          poll_interval_ms = if remote then interval else default_probes_poll_interval_ms;
          capture_policy = policy;
          trigger_token_key = as_non_empty_string (get payload "trigger_token_key");
        })
      ])
    parse_remote_config _ fallback now_ms = some none

  -- The tests of the loop of `find_matching_remote_probe_directives`.
  abbrev pub selects : String → String → String → ℤ → RemoteProbeDirective → Bool
  selects label service environment now_ms d =
      ltb_ℤ now_ms (expires_at_ms d.expires_at)
      && (d.service == "*" || d.service == service)
      && (d.environment == "*" || d.environment == environment)
      && matches_label_pattern d.label_pattern label

  unfoldable pub find_matching_remote_probe_directives :
      List RemoteProbeDirective → String → String → String → ℤ → List RemoteProbeDirective
  unfolding matches_label_pattern expires_at_ms
  find_matching_remote_probe_directives [] label service environment now_ms = []
  find_matching_remote_probe_directives (d ∷ ds) label service environment now_ms =
      let rest = find_matching_remote_probe_directives ds label service environment now_ms in
      if not (ltb_ℤ now_ms (expires_at_ms d.expires_at))
      then rest
      else if not (d.service == "*") && not (d.service == service)
      then rest
      else if not (d.environment == "*") && not (d.environment == environment)
      then rest
      else if matches_label_pattern d.label_pattern label
      then d ∷ rest
      else rest
