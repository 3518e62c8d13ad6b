-- ===== src/Config/Remote/Matching.antt =====
-- Which directives match (src/debugbundle/config.py).
use debugbundle_python.Prelude.{
  ◌≡◌, refl, String, Option, Bool, true, not, ◌&&◌, ◌||◌, List, [], ◌∷◌, All, arith, string_eq,
  ◌==◌, if◌then◌else◌, inl, inr, Bool-cases, Option-cases,
}
use debugbundle_python.Prelude.Int.{ℤ, ltb_ℤ}
use debugbundle_python.Json.{Json}
use debugbundle_python.Config.Remote.{
  RemoteProbeDirective, expires_at_ms, selects, parse_directive, read_directives,
  find_matching_remote_probe_directives, matches_label_pattern,
}

-- The directives that pass a test, in order.
abbrev pub passing :
    (RemoteProbeDirective → Bool) → List RemoteProbeDirective → List RemoteProbeDirective
passing test [] = []
passing test (d ∷ ds) = if test d then d ∷ passing test ds else passing test ds

-- The guards of the loop, one after another, are one conjunction.
guards :
    (a b c d e f : Bool) (x y : List RemoteProbeDirective)
    → (if not a
        then y
        else if not b && not c
        then y
        else if not d && not e
        then y
        else if f
        then x
        else y)
      ≡ (if a && (b || c) && (d || e) && f then x else y)
guards a b c d e f x y = ground arith

module _ (from_iso : String → Option ℤ) where
  read_directives-All :
      (items : List Json) (now_ms : ℤ)
      → All
          (λ d. ltb_ℤ now_ms (expires_at_ms from_iso d.expires_at) ≡ true)
          (read_directives from_iso items now_ms)
  unfolding read_directives
  read_directives-All [] now_ms = tt
  read_directives-All (item ∷ items) now_ms = elim (Option-cases (parse_directive from_iso item)) [
    | inl bad ↦ rw (bad, read_directives) (read_directives-All items now_ms)
    | inr (d, good) ↦ elim (Bool-cases (ltb_ℤ now_ms (expires_at_ms from_iso d.expires_at))) [
      | inl fresh ↦ rw (good, read_directives) (rw fresh (fresh, read_directives-All items now_ms))
      | inr late ↦ rw (good, read_directives) (rw late (read_directives-All items now_ms))
    ]
  ]

  -- The directives that match are, in their order, those that are not expired, are for the service
  -- and the environment or for any, and whose label pattern matches.
  pub find_matching_remote_probe_directives-passing :
      (ds : List RemoteProbeDirective) (label service environment : String) (now_ms : ℤ)
      → find_matching_remote_probe_directives from_iso ds label service environment now_ms
        ≡ passing (selects from_iso label service environment now_ms) ds
  unfolding find_matching_remote_probe_directives
  find_matching_remote_probe_directives-passing [] label service environment now_ms = refl
  find_matching_remote_probe_directives-passing (d ∷ ds) label service environment now_ms =
      rw (find_matching_remote_probe_directives-passing ds label service environment now_ms) (
        guards (ltb_ℤ now_ms (expires_at_ms from_iso d.expires_at)) (d.service == "*")
          (d.service == service) (d.environment == "*") (d.environment == environment)
          (matches_label_pattern d.label_pattern label) _ _)
