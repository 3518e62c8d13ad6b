-- ===== src/Levels/Eligible.antt =====
-- Which log events pass (src/debugbundle/core.py, src/debugbundle/event_support.py).
use debugbundle_python.Prelude.{
  ℕ, String, ◌≡◌, refl, ap, ◌∙◌, subst, eq_of_some, >>=-eq-some, some, true, false, not, ◌&&◌, ◌||◌,
  leb, max, string_eq, ◌==◌, ==_iff, if◌then◌else◌, is_some, or_else, contains, arith, Option-cases,
  Bool-cases, inl, inr,
}
use debugbundle_python.Prelude.Dict.{get}
use debugbundle_python.Config.{log_choices}
use debugbundle_python.Config.Policy.RoundTrip.{PolicyOk}
use debugbundle_python.Sdk.{Sdk}
use debugbundle_python.Levels.{
  level_ranks, normalize_level, level_enabled, effective_log_threshold, log_level_eligible,
}

-- The rank of a level, and 0 for one that is not known.
abbrev pub rank : String → ℕ
rank level = or_else (get level_ranks level) 0

ranked :
    (level : String)
    → is_some (get level_ranks level) ≡ true
    → get level_ranks level ≡ some (rank level)
ranked level h = elim (Option-cases (get level_ranks level)) [
  | inl unknown ↦ absurd (ground (arith, unknown, h))
  | inr (n, known) ↦ rw known refl
]

normal :
    (lower_strip : String → String) (level : String)
    → is_some (get level_ranks (normalize_level lower_strip level)) ≡ true
unfolding normalize_level get
normal lower_strip level = elim (Bool-cases (is_some (get level_ranks (lower_strip level)))) [
  | inl known ↦ rw (known, normalize_level) known
  | inr other ↦ rw (other, normalize_level) refl
]

-- A setting of a valid policy that is not "off" is a level.
setting-ranked :
    (setting : String)
    → contains log_choices setting ≡ true
    → (setting == "off") ≡ false
    → is_some (get level_ranks setting) ≡ true
unfolding contains get
setting-ranked setting chosen on = elim (Bool-cases ("error" == setting)) [
  | inl e ↦ known "error" e refl
  | inr a ↦ elim (Bool-cases ("warning" == setting)) [
    | inl e ↦ known "warning" e refl
    | inr b ↦ elim (Bool-cases ("info" == setting)) [
      | inl e ↦ known "info" e refl
      | inr c ↦ elim (Bool-cases ("off" == setting)) [
        | inl e ↦ absurd (ground (arith, on, ==_iff setting "off", ==_iff "off" setting, e))
        | inr d ↦ absurd (ground (arith, chosen, a, b, c, d))
      ]
    ]
  ]
]
  where
    known :
        (level : String)
        → (level == setting) ≡ true
        → is_some (get level_ranks level) ≡ true
        → is_some (get level_ranks setting) ≡ true
    known level e h = subst (λ k. is_some (get level_ranks k) ≡ true) ((==_iff level setting).0 e) h

rank-threshold :
    (s : Sdk) (log_level threshold : String)
    → effective_log_threshold s log_level ≡ some threshold
    → (is_some (get level_ranks threshold) ≡ true)
      × (rank threshold ≡ max (rank log_level) (rank s.capture_policy.capture_logs))
unfolding effective_log_threshold
rank-threshold s log_level threshold h =
    let (own, a, h1) = >>=-eq-some (get level_ranks log_level) _ h in
    let (policy, b, h2) = >>=-eq-some (get level_ranks s.capture_policy.capture_logs) _ h1 in
    elim (Bool-cases (leb policy own)) [
      | inl more ↦
          let e : log_level ≡ threshold = eq_of_some (rw more at h2) in
          (rw⁻¹ e (rw a refl), rw⁻¹ e (rw (a, b) (ground (arith, more))))
      | inr less ↦
          let e : s.capture_policy.capture_logs ≡ threshold = eq_of_some (rw less at h2) in
          (rw⁻¹ e (rw b refl), rw⁻¹ e (rw (a, b) (ground (arith, less))))
    ]

threshold-some :
    (s : Sdk) (log_level : String) (own policy : ℕ)
    → get level_ranks log_level ≡ some own
    → get level_ranks s.capture_policy.capture_logs ≡ some policy
    → (t : String) × (effective_log_threshold s log_level ≡ some t)
unfolding effective_log_threshold
threshold-some s log_level own policy a b = (
  (if leb policy own then log_level else s.capture_policy.capture_logs),
  rw (a, b, effective_log_threshold) refl,
)

level_enabled-rank :
    (candidate threshold : String)
    → is_some (get level_ranks candidate) ≡ true
    → is_some (get level_ranks threshold) ≡ true
    → level_enabled candidate threshold ≡ some (leb (rank threshold) (rank candidate))
unfolding level_enabled
level_enabled-rank candidate threshold a b = elim (Option-cases (get level_ranks candidate)) [
  | inl unknown ↦ absurd (ground (arith, unknown, a))
  | inr (n, p) ↦ elim (Option-cases (get level_ranks threshold)) [
    | inl unknown ↦ absurd (ground (arith, unknown, b))
    | inr (m, q) ↦ rw (p, q, level_enabled) refl
  ]
]

module _ (lower_strip : String → String) where
  -- For a valid policy and a known level of the SDK, the test of a level ends without an error, and
  -- the level passes exactly where the SDK is enabled, logs are not "off", and the rank of the
  -- level is at least that of the SDK and that of the policy.
  pub log_level_eligible-rank :
      (s : Sdk) (log_level level : String)
      → PolicyOk s.capture_policy
      → is_some (get level_ranks log_level) ≡ true
      → log_level_eligible lower_strip s log_level level
        ≡ some (
            s.enabled
            && not (s.capture_policy.capture_logs == "off")
            && leb
                (max (rank log_level) (rank s.capture_policy.capture_logs))
                (rank (normalize_level lower_strip level)))
  unfolding log_level_eligible
  log_level_eligible-rank s log_level level ok own =
      elim (Bool-cases (not s.enabled || s.capture_policy.capture_logs == "off")) [
        | inl never ↦ rw (never, log_level_eligible) (ground (arith, never))
        | inr on ↦
            let setting : (s.capture_policy.capture_logs == "off") ≡ false = ground (arith, on) in
            let chosen =
              ranked s.capture_policy.capture_logs
                (setting-ranked s.capture_policy.capture_logs ok.logs setting) in
            let mine = ranked log_level own in
            let level' = ranked (normalize_level lower_strip level) (normal lower_strip level) in
            let (t, found) = threshold-some s log_level _ _ mine chosen in
            let (known, most) = rank-threshold s log_level t found in
            let enabled =
              level_enabled-rank (normalize_level lower_strip level) t (normal lower_strip level)
                known in
            rw (on, log_level_eligible)
              (rw (found) (enabled ∙ ap some (rw most (ground (arith, on)))))
      ]
