-- ===== src/Ingestion/Fitting/Fitted.antt =====
-- What `fit_event` leaves of an event (src/debugbundle/ingestion_wire.py).
use debugbundle_python.Prelude.{ℕ, ◌≤◌, ◌≡◌, String, Option, none, some, false, string_eq, ◌==◌}
use debugbundle_python.Json.{Json, Fields, get}
use debugbundle_python.Ingestion.{max_event_bytes}
use debugbundle_python.Ingestion.Fitting.{fits}

-- Every field but the payload and the context is as it was.
abbrev pub Keeps : Fields → Fields → Type 0
Keeps event out =
    (key : String)
    → ("payload" == key) ≡ false
    → ("context" == key) ≡ false
    → get out key ≡ get event key

module _ (event_bytes : Fields → ℕ) where
  -- A result of `fit_event`: nothing, of an event that is too large, or an event that fits.
  abbrev pub IsFitted : Fields → Option Fields → Type 0
  IsFitted event none = fits event_bytes event ≡ false
  IsFitted event (some out) = (event_bytes out ≤ max_event_bytes) × Keeps event out
