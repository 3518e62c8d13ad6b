-- ===== src/RequestPolicy/Decision.antt =====
-- The decision on a request, by its status, its path and the policy
-- (src/debugbundle/request_capture_policy.py, src/debugbundle/event_support.py).
use debugbundle_python.Prelude.{
  ap, ◌≡◌, refl, String, Option, none, some, Bool, true, false, not, ◌&&◌, ◌||◌, arith, string_eq,
  ◌==◌, ==_iff, nat_eq, if◌then◌else◌, inl, inr, Bool-cases, Option-cases, is_some,
}
use debugbundle_python.Prelude.Int.{ℤ}
use debugbundle_python.Json.{Fields}
use debugbundle_python.Config.{CapturePolicy}
use debugbundle_python.RequestPolicy.{
  is_server_error, is_client_error, among, preset_statuses, matches_path_rule, is_immediate,
  status_of, path_of, request_method, by_setting, should_capture_request_event,
  normalize_request_path, any_rule, capitals,
}

-- The status of a server error makes an incident.
abbrev ServerIs : Option ℤ → Bool → Type 0
ServerIs none immediate = Unit
ServerIs (some code) immediate = is_server_error code ≡ true → immediate ≡ true

-- The settings, where the other incidents are known: the test for "failures_only" adds nothing.
by_setting_lem :
    (setting : String) (status : Option ℤ) (immediate : Bool)
    → ServerIs status immediate
    → (if immediate then true else by_setting setting status)
      ≡ (immediate || setting == "all" || (setting == "filtered" && not (is_some status)))
unfolding by_setting
by_setting_lem setting status true h = refl
by_setting_lem setting status false h = elim (Bool-cases (setting == "off")) [
  | inl off ↦ rw ((==_iff setting "off").0 off) refl
  | inr on ↦ elim (Bool-cases (setting == "all")) [
    | inl all ↦ rw (on, all) refl
    | inr some_kinds ↦ rw (on, some_kinds) (by_status status h)
  ]
]
  where
    by_status :
        (status : Option ℤ)
        → ServerIs status false
        → (elim status [
          | none ↦ setting == "filtered"
          | some code ↦ if setting == "failures_only" then is_server_error code else false
        ])
          ≡ (setting == "filtered" && not (is_some status))
    by_status none h = ground arith
    by_status (some code) h = ground (arith, h)

module _ (url_path : String → Option String) (upper : String → String) where
  -- Whether a rule of the policy matches a client error.
  abbrev pub by_rule : CapturePolicy → ℤ → Option String → Option String → Bool
  by_rule policy status none method = false
  by_rule policy status (some path) method =
      is_client_error status && (elim (normalize_request_path url_path upper path) [
        | none ↦ false
        | some normalized ↦
            any_rule status normalized (capitals url_path upper method)
              policy.immediate_client_error_path_rules
      ])

  -- Whether a request is an incident, whatever is captured of requests.
  abbrev pub incident : CapturePolicy → Option ℤ → Option String → Option String → Bool
  incident policy none path method = false
  incident policy (some status) path method =
      is_server_error status
      || among policy.immediate_client_error_statuses status
      || by_rule policy status path method
      || among (preset_statuses policy.preset) status

  server-incident :
      (policy : CapturePolicy) (status : Option ℤ) (path method : Option String)
      → ServerIs status (incident policy status path method)
  server-incident policy none path method = tt
  server-incident policy (some code) path method = λ server. rw server refl

  -- The path of a request, where it has one, can be read.
  abbrev pub IsReadable : Option String → Type 0
  IsReadable none = Unit
  IsReadable (some path) = is_some (url_path path) ≡ true

  matches_path_rule-by_rule :
      (policy : CapturePolicy) (status : ℤ) (path method : Option String)
      → IsReadable path
      → matches_path_rule url_path upper status path method policy.immediate_client_error_path_rules
        ≡ some (by_rule policy status path method)
  unfolding matches_path_rule
  matches_path_rule-by_rule policy status none method readable = refl
  matches_path_rule-by_rule policy status (some path) method readable =
      elim (Bool-cases (is_client_error status)) [
        | inl client ↦ elim (Option-cases (normalize_request_path url_path upper path)) [
          | inl bad ↦ absurd (unfold normalize_request_path in ground (arith, bad, readable))
          | inr (n, good) ↦ ground (arith, client, good)
        ]
        | inr other ↦ ground (arith, other)
      ]

  is_immediate-incident :
      (policy : CapturePolicy) (status : Option ℤ) (path method : Option String)
      → IsReadable path
      → is_immediate url_path upper status policy path method
        ≡ some (incident policy status path method)
  unfolding is_immediate
  is_immediate-incident policy none path method readable = refl
  is_immediate-incident policy (some status) path method readable =
      ground (arith, matches_path_rule-by_rule policy status path method readable)

  -- Where the path of the request, if it has one, can be read, the decision on a request ends
  -- without an error, and the request is captured exactly where it is an incident (a server error,
  -- a listed status, a rule that matches a client error, or a status of the preset), or requests
  -- are captured as "all", or as "filtered" and the response has no status; so the setting
  -- "failures_only" adds nothing.
  pub should_capture_request_event-incident :
      (policy : CapturePolicy) (request response : Option Fields)
      → IsReadable (path_of request)
      → should_capture_request_event url_path upper policy request response
        ≡ some (
            incident policy (status_of response) (path_of request) (request_method request)
            || policy.capture_request_events == "all"
            || (policy.capture_request_events == "filtered" && not (is_some (status_of response))))
  unfolding should_capture_request_event
  should_capture_request_event-incident policy request response readable =
      rw
        (is_immediate-incident policy (status_of response) (path_of request)
          (request_method request) readable)
        (ap some (
          by_setting_lem policy.capture_request_events (status_of response) _ (
            server-incident policy (status_of response) (path_of request)
              (request_method request))))
