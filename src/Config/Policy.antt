-- ===== src/Config/Policy.antt =====
-- The capture policies that parsing gives, and their written form (src/debugbundle/config.py).
pub mod Statuses
pub mod Rules
pub mod RoundTrip
