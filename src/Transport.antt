-- ===== src/Transport.antt =====
-- src/debugbundle/transport.py: retry hints, and the guards of the HTTP transport.
pub mod Hints
use debugbundle_python.Prelude.{ℕ, ◌*◌, ◌/◌, ◌^◌, List, length, leb, ltb, min, if◌then◌else◌}
use debugbundle_python.Prelude.Int.{ℤ, pos_part}
use debugbundle_python.Json.{Json, Float, int, float, finite}

abbrev pub max_retry_after_ms : ℕ
max_retry_after_ms = 300_000

abbrev pub default_retry_after_ms : ℕ
default_retry_after_ms = 1_000

-- `int(min(MAX_RETRY_AFTER_MS, max(0, value)))`: a float m / 2 ^ e is clamped and rounded down.
unfoldable pub bounded_retry_after_ms : Json → ℕ
bounded_retry_after_ms (int z) = min max_retry_after_ms (pos_part z)
bounded_retry_after_ms (float (finite m e)) = min max_retry_after_ms (pos_part m / 2 ^ e)
bounded_retry_after_ms _ = default_retry_after_ms

pub record TransportResponse : Type 0 where
  pub status_code : ℕ
  pub retry_after_ms : Json
  pub body : Json

-- `MAX_BODY_BYTES` of ingestion_wire.py
abbrev pub max_body_bytes : ℕ
max_body_bytes = 256 * 1024

pub data Send : Type 0 where
  timeout_error : Send
  value_error : Send
  answered : TransportResponse → Send

-- `send_until` at the monotonic time `now`: the encoded body goes to `post`, the HTTP client.
module _ (post : List ℕ → TransportResponse) where
  unfoldable pub send_until : List ℕ → ℕ → ℕ → Send
  send_until body_bytes deadline now =
      if leb deadline now
      then timeout_error
      else if ltb max_body_bytes (length body_bytes)
      then value_error
      else answered (post body_bytes)
