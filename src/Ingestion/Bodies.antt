-- ===== src/Ingestion/Bodies.antt =====
-- How large the request bodies of `chunks` are (src/debugbundle/ingestion_wire.py).
use mathlib.Core.List.{flatten}
use debugbundle_python.Prelude.{
  ℕ, suc, ◌+◌, ◌≤◌, ◌≡◌, refl, ap, some, List, [], ◌∷◌, ◌++◌, length, All, arith, length-append,
}
use debugbundle_python.Transport.{max_body_bytes}
use debugbundle_python.Ingestion.{opening, closing, joined, JsonEncoder, chunks}
use debugbundle_python.Ingestion.Cutting.{joined_from, AllFit, IsRequest, chunks_from-total}

-- The length of a request's body, by the form that the encoder gives it.
module _ {Event : Type 0} (enc : JsonEncoder Event) where
  tail_bytes :
      (events : List Event) (index : ℕ) (event : Event)
      → 1 + length (joined enc.dumps (event ∷ events))
        ≡ joined_from enc.dumps (suc index) (event ∷ events)
  tail_bytes [] index event = ground arith
  tail_bytes (next ∷ events) index event =
      let rest = tail_bytes events (suc index) next in
      ground
        (arith, rest, length-append (enc.dumps event) (b',' ∷ joined enc.dumps (next ∷ events)))

  length-joined :
      (events : List Event) → length (joined enc.dumps events) ≡ joined_from enc.dumps 0 events
  length-joined [] = refl
  length-joined (event ∷ []) = omega arith
  length-joined (event ∷ next ∷ events) = omega (
    arith,
    tail_bytes events 0 next,
    length-append (enc.dumps event) (b',' ∷ joined enc.dumps (next ∷ events)),
  )

  pub length-encode_body :
      (events : List Event) → length (enc.encode_body events) ≡ 13 + joined_from enc.dumps 0 events
  length-encode_body events = omega (
    arith,
    ap (length {0}) (enc.encode_body-form events),
    length-append opening (joined enc.dumps events ++ closing),
    length-append (joined enc.dumps events) closing,
    length-joined events,
  )

  -- Where each event fits a request of its own, the loop of chunks ends without an error, the
  -- requests put together are the events in order, none is empty, and no body is more than one byte
  -- over MAX_BODY_BYTES.
  pub chunks-total :
      (events : List Event)
      → AllFit enc.dumps events
      → (requests : List (List Event)) × (chunks enc.dumps events ≡ some requests)
        × (flatten requests ≡ events)
        × All (λ r. (1 ≤ length r) × (length (enc.encode_body r) ≤ max_body_bytes + 1)) requests
  unfolding chunks
  chunks-total events fit =
      let (requests, h, cuts) =
        chunks_from-total enc.dumps (length events) events (omega arith) fit in
      (requests, h, cuts.0, sized requests cuts.1)
    where
      sized :
          (requests : List (List Event))
          → All (IsRequest enc.dumps) requests
          → All (λ r. (1 ≤ length r) × (length (enc.encode_body r) ≤ max_body_bytes + 1)) requests
      sized [] a = tt
      sized (r ∷ rs) a = ((a.0.0, omega (arith, a.0.1, length-encode_body r)), sized rs a.1)
