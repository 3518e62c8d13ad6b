-- ===== src/Transport/Hints.antt =====
-- Bounds of `bounded_retry_after_ms` (src/debugbundle/transport.py).
use debugbundle_python.Prelude.{ℕ, ◌≤◌, ◌≡◌, arith}
use debugbundle_python.Prelude.Int.{pos}
use debugbundle_python.Json.{Json, int, float, finite}
use debugbundle_python.Transport.{bounded_retry_after_ms}

-- Whatever the hint, the wait is at most five minutes.
bounded_retry_after_ms-le : (hint : Json) → bounded_retry_after_ms hint ≤ 300_000
unfolding bounded_retry_after_ms
bounded_retry_after_ms-le (int z) = omega arith
bounded_retry_after_ms-le (float (finite m e)) = omega arith
bounded_retry_after_ms-le (float _) = omega arith
bounded_retry_after_ms-le _ = omega arith

-- An integer hint in range is taken as it is.
pub bounded_retry_after_ms-int : (n : ℕ) → n ≤ 300_000 → bounded_retry_after_ms (int (pos n)) ≡ n
unfolding bounded_retry_after_ms
bounded_retry_after_ms-int n h = omega arith
