-- ===== src/Levels.antt =====
-- The levels of log events: src/debugbundle/event_support.py, and the threshold of
-- src/debugbundle/core.py.
pub mod Eligible
use debugbundle_python.Prelude.{
  ℕ, String, Option, none, some, Bool, true, false, not, ◌&&◌, ◌||◌, leb, string_eq, ◌==◌,
  if◌then◌else◌, is_some, ◌>>=◌, [], ◌∷◌, ◌≤◌, ◌≡◌, refl, arith, or_else, max, Option-cases, inl,
  inr, Bool-cases, ◌⊎◌,
}
use debugbundle_python.Prelude.Dict.{Dict, get}
use debugbundle_python.Sdk.{Sdk}

abbrev pub default_log_level : String
default_log_level = "warning"

abbrev pub level_ranks : Dict String ℕ
level_ranks = ("debug", 10) ∷ ("info", 20) ∷ ("warning", 30) ∷ ("error", 40) ∷ ("critical", 50) ∷ []

-- `level_enabled`; `none` is the `KeyError` of a level that is not known.
unfoldable pub level_enabled : String → String → Option Bool
level_enabled candidate threshold = do
  rank ← get level_ranks candidate
  least ← get level_ranks threshold
  some (leb least rank)

-- `_effective_log_threshold`, of the SDK's own level
unfoldable pub effective_log_threshold : Sdk → String → Option String
effective_log_threshold s log_level = do
  own ← get level_ranks log_level
  policy ← get level_ranks s.capture_policy.capture_logs
  some (if leb policy own then log_level else s.capture_policy.capture_logs)

-- `str.lower().strip()` is the library's.
module _ (lower_strip : String → String) where
  unfoldable pub normalize_level : String → String
  normalize_level level =
      if is_some (get level_ranks (lower_strip level)) then lower_strip level else default_log_level

  -- `_log_level_eligible`
  unfoldable pub log_level_eligible : Sdk → String → String → Option Bool
  unfolding normalize_level level_enabled effective_log_threshold
  log_level_eligible s log_level level =
      elim (not s.enabled || s.capture_policy.capture_logs == "off") [
        | true ↦ some false
        | false ↦ do
          threshold ← effective_log_threshold s log_level
          level_enabled (normalize_level level) threshold
      ]
