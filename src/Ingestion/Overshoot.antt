-- ===== src/Ingestion/Overshoot.antt =====
-- Where `prefix` and the byte limit of the transport disagree (src/debugbundle/ingestion_wire.py,
-- src/debugbundle/transport.py).
use debugbundle_python.Prelude.{
  ℕ, suc, ◌+◌, ◌≤◌, ◌<◌, ◌≡◌, refl, some, List, [], ◌∷◌, length, arith, nat_eqb, if◌then◌else◌,
}
use debugbundle_python.Transport.{max_body_bytes, TransportResponse, value_error, send_until}
use debugbundle_python.Ingestion.{JsonEncoder, event_bytes, prefix_from, prefix}
use debugbundle_python.Ingestion.Cutting.{joined_from, AllFit}
use debugbundle_python.Ingestion.Bodies.{length-encode_body}

module _ {Event : Type 0} (dumps : Event → List ℕ) where
  prefix_from-whole :
      (events : List Event) (index size : ℕ)
      → AllFit dumps events
      → size + joined_from dumps index events ≤ max_body_bytes
      → prefix_from dumps index size events ≡ some events
  unfolding prefix_from
  prefix_from-whole [] index size fit le = refl
  prefix_from-whole (event ∷ events) index size fit le = ground (
    arith,
    fit.0,
    prefix_from-whole events (suc index)
        (size + (event_bytes dumps event + (if nat_eqb index 0 then 0 else 1))) fit.1 (omega arith),
  )

module _ {Event : Type 0} (enc : JsonEncoder Event) (post : List ℕ → TransportResponse) where
  -- Where each event fits a request of its own and the body of them all is one byte over the limit,
  -- prefix selects them all, and before the deadline the transport refuses the body with an error.
  pub send_until-prefix_overshoots :
      (events : List Event) (deadline now : ℕ)
      → AllFit enc.dumps events
      → length (enc.encode_body events) ≡ max_body_bytes + 1
      → now < deadline
      → (prefix enc.dumps events ≡ some events)
        × (send_until post (enc.encode_body events) deadline now ≡ value_error)
  unfolding prefix send_until
  send_until-prefix_overshoots events deadline now fit over soon = (
    prefix_from-whole enc.dumps events 0 12 fit (omega (arith, length-encode_body enc events)),
    ground arith,
  )
