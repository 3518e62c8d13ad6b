-- ===== src/Flush/Sending.antt =====
-- The section of `flush_sdk` that takes the finalized events to the transport
-- (src/debugbundle/flush_delivery.py).
use debugbundle_python.Prelude.{
  ℕ, ◌≡◌, refl, ap, sym, ◌∙◌, Option, none, some, Bool, true, false, List, [], ◌∷◌, ◌++◌, map,
  length, drop, nat_eqb, nat_eq, ==_refl, if◌then◌else◌,
}
use mathlib.Core.List.{append_assoc, append-nil}
use debugbundle_python.Ingestion.{prefix}
use debugbundle_python.Ingestion.Cutting.{AllFit, prefix-IsCut, prefix-cons}
use debugbundle_python.Sdk.{Sdk, Event}
use debugbundle_python.Flush.{rearm}

-- What the flush does next: it returns, it sends a batch, or the `ValueError` of `prefix` leaves it.
pub data Next : Type 0 where
  stop : Sdk → Next
  send : Sdk → List Event → Next
  raised : Next

-- `sdk._sending = False`, `sdk._inflight_count = 0`, and a timer for what is queued
abbrev pub leave : Sdk → ℕ → Next
leave s monotonic = stop (rearm (record s { sending = false; inflight_count = 0 }) monotonic)

-- The finalized events that are not sent keep their place and are not offered to a hook again.
abbrev pub reserved : Sdk → Bool → List Event → List Event → Sdk
reserved s http finalized batch = record s {
  hook_bypass =
      if http
      then map (λ e. e.ident) (drop (length batch) finalized) ++ s.hook_bypass
      else s.hook_bypass;
  inflight_count = length batch;
}

module _ (dumps : Event → List ℕ) where
  -- `prefix(finalized)` for an `HttpTransport`, else all of them.
  abbrev pub wire_batch : Bool → List Event → Option (List Event)
  wire_batch true finalized = prefix dumps finalized
  wire_batch false finalized = some finalized

  unfoldable pub select_batch : Sdk → ℕ → Option (List Event) → Bool → ℕ → Next
  unfolding rearm
  select_batch s generation none http monotonic = leave s monotonic
  select_batch s generation (some finalized) http monotonic = elim (wire_batch http finalized) [
    | none ↦ raised
    | some batch ↦ elim (nat_eqb generation s.generation) [
      | false ↦ leave s monotonic
      | true ↦ elim batch [
        | [] ↦ leave (reserved s http finalized []) monotonic
        | first ∷ rest ↦ send (reserved s http finalized (first ∷ rest)) (first ∷ rest)
      ]
    ]
  ]

  -- A batch that is sent is the head of the queue, and it alone is in flight.
  abbrev pub Sends : Sdk → Next → Type 0
  Sends s next =
      (s' : Sdk) × (first : Event) × (rest : List Event) × (trailing : List Event) × (next
        ≡ send s' (first ∷ rest))
      × (s'.buffer ≡ (first ∷ rest) ++ trailing)
      × (s'.buffer ≡ s.buffer)
      × (s'.inflight_count ≡ length (first ∷ rest))
      × (s'.timer ≡ s.timer)
      × (s'.buffer_sizes ≡ s.buffer_sizes)

  wire_batch-cons :
      (http : Bool) (e : Event) (es : List Event)
      → AllFit dumps (e ∷ es)
      → (first : Event) × (rest : List Event) × (unsent : List Event) × (wire_batch http (e ∷ es)
          ≡ some (first ∷ rest))
        × ((first ∷ rest) ++ unsent ≡ e ∷ es)
  wire_batch-cons true e es fit =
      let (first, rest, cut) = prefix-cons dumps e es fit in
      (first, rest, _, cut, prefix-IsCut dumps (e ∷ es) (first ∷ rest) cut)
  wire_batch-cons false e es fit = (e, es, [], refl, append-nil (e ∷ es))

  select_batch-wire_batch :
      (s : Sdk) (finalized rest : List Event) (first : Event) (http : Bool) (monotonic : ℕ)
      → wire_batch http finalized ≡ some (first ∷ rest)
      → select_batch s s.generation (some finalized) http monotonic
        ≡ send (reserved s http finalized (first ∷ rest)) (first ∷ rest)
  unfolding select_batch
  select_batch-wire_batch s finalized rest first http monotonic cut =
      rw (cut, select_batch) (rw (==_refl s.generation) refl)

  -- Where the finalized events of the present generation are not none, are the head of the queue,
  -- and each fits a request of its own, the flush sends a batch that is not empty, is the head of
  -- the queue and alone is in flight; the queue, its sizes and the timer stay as they are.
  pub select_batch-Sends :
      (s : Sdk) (e : Event) (es queued : List Event) (http : Bool) (monotonic : ℕ)
      → AllFit dumps (e ∷ es)
      → s.buffer ≡ (e ∷ es) ++ queued
      → Sends s (select_batch s s.generation (some (e ∷ es)) http monotonic)
  unfolding select_batch
  select_batch-Sends s e es queued http monotonic fit head =
      let (first, rest, unsent, cut, whole) = wire_batch-cons http e es fit in
      (
        reserved s http (e ∷ es) (first ∷ rest),
        first,
        rest,
        unsent ++ queued,
        select_batch-wire_batch s (e ∷ es) rest first http monotonic cut,
        head ∙ ap (λ l. l ++ queued) (sym whole) ∙ append_assoc (first ∷ rest) unsent queued,
        refl,
        refl,
        refl,
        refl,
      )
