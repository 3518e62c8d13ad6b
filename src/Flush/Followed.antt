-- ===== src/Flush/Followed.antt =====
-- The queue that the branches of an answer leave (src/debugbundle/flush_delivery.py), with the smaller
-- events of `downgrade_rejections`.
use debugbundle_python.Prelude.{
  ℕ, ◌+◌, ◌≤◌, ◌≡◌, refl, ap, sym, subst, ◌∙◌, Option, some, Bool, true, false, List, [], ◌++◌,
  arith, nat_eqb, nat_eq, sum_map, sum_map-append, length, length-append, All, if◌then◌else◌, inl,
  inr, Bool-cases,
}
use debugbundle_python.Acknowledgement.{AcknowledgementDecision}
use debugbundle_python.Transport.{TransportResponse, bounded_retry_after_ms}
use debugbundle_python.Sdk.{Sdk, Event}
use debugbundle_python.Sdk.Timing.{TimerOnly, schedule_flush_locked-TimerOnly}
use debugbundle_python.Queue.Shape.{Fresh, DistinctIds, Known, size_at}
use debugbundle_python.Flush.{back_off, after_acknowledged}
use debugbundle_python.Flush.Answers.{Answered}
use debugbundle_python.Flush.Retained.{split_All}
use debugbundle_python.Flush.Picked.{DistinctIds-split}

-- The state after an answer, before its queue is counted.
pub record Followed (s a : Sdk) : Type 0 where
  pub distinct : DistinctIds a.buffer
  pub known : Known a.buffer_sizes a.buffer
  pub fewer : length a.buffer ≤ length s.buffer
  pub lighter :
      sum_map (size_at a.buffer_sizes) a.buffer ≤ sum_map (size_at s.buffer_sizes) s.buffer
  pub idle : a.sending ≡ false
  pub landed : a.inflight_count ≡ 0
  pub budget : a.diagnostics ≡ s.diagnostics
  pub generation : a.generation ≡ s.generation

-- The same queue and marks in another state
pub record SameQueue (a b : Sdk) : Type 0 where
  buffer : b.buffer ≡ a.buffer
  sizes : b.buffer_sizes ≡ a.buffer_sizes
  idle : b.sending ≡ a.sending
  landed : b.inflight_count ≡ a.inflight_count
  budget : b.diagnostics ≡ a.diagnostics
  generation : b.generation ≡ a.generation

pub SameQueue-Followed : (s a b : Sdk) → SameQueue a b → Followed s a → Followed s b
SameQueue-Followed s a b q f = record {
  distinct = rw q.buffer f.distinct;
  known = rw (q.buffer, q.sizes) f.known;
  fewer = rw q.buffer f.fewer;
  lighter = rw (q.buffer, q.sizes) f.lighter;
  idle = q.idle ∙ f.idle;
  landed = q.landed ∙ f.landed;
  budget = q.budget ∙ f.budget;
  generation = q.generation ∙ f.generation;
}

SameQueue-timer : (a b : Sdk) → TimerOnly a b → SameQueue a b
SameQueue-timer a b only = subst (SameQueue a) (sym only) (record {
  buffer = refl;
  sizes = refl;
  idle = refl;
  landed = refl;
  budget = refl;
  generation = refl;
})

SameQueue-trans : (a b c : Sdk) → SameQueue a b → SameQueue b c → SameQueue a c
SameQueue-trans a b c p q = record {
  buffer = q.buffer ∙ p.buffer;
  sizes = q.sizes ∙ p.sizes;
  idle = q.idle ∙ p.idle;
  landed = q.landed ∙ p.landed;
  budget = q.budget ∙ p.budget;
  generation = q.generation ∙ p.generation;
}

-- What is written besides the timer
SameQueue-marks :
    (a : Sdk) (last_event_at : Option ℕ) (failures retry_after : ℕ)
    → SameQueue a (record a {
      last_event_at = last_event_at;
      consecutive_failures = failures;
      retry_after = retry_after;
    })
SameQueue-marks a last_event_at failures retry_after = record {
  buffer = refl;
  sizes = refl;
  idle = refl;
  landed = refl;
  budget = refl;
  generation = refl;
}

back_off-SameQueue :
    (a : Sdk) (last_event_at : Option ℕ) (r : TransportResponse) (now monotonic : ℕ)
    → SameQueue a (back_off (record a { last_event_at = last_event_at }) r now monotonic)
unfolding back_off
back_off-SameQueue a last_event_at r now monotonic =
    let wait : ℕ = bounded_retry_after_ms r.retry_after_ms in
    let b : Sdk = record a {
      last_event_at = last_event_at;
      consecutive_failures = a.consecutive_failures + 1;
      retry_after = now + wait;
    } in
    SameQueue-trans a b _
      (SameQueue-marks a last_event_at (a.consecutive_failures + 1) (now + wait))
      (SameQueue-timer b _ (schedule_flush_locked-TimerOnly b (some wait) monotonic))

pub after_acknowledged-SameQueue :
    (a : Sdk) (ack : AcknowledgementDecision) (again : Bool) (r : TransportResponse)
    (now monotonic : ℕ)
    → SameQueue a (after_acknowledged a ack again r now monotonic)
unfolding after_acknowledged
after_acknowledged-SameQueue a ack true r now monotonic =
    elim (Bool-cases (nat_eqb ack.accepted 0)) [
      | inl refused ↦ rw refused (back_off-SameQueue a a.last_event_at r now monotonic)
      | inr taken ↦ rw taken (back_off-SameQueue a (some now) r now monotonic)
    ]
after_acknowledged-SameQueue a ack false r now monotonic =
    elim (Bool-cases (nat_eqb ack.accepted 0)) [
      | inl refused ↦ rw refused (SameQueue-marks a a.last_event_at 3 0)
      | inr taken ↦ rw taken (SameQueue-marks a (some now) 0 0)
    ]

module _ (s : Sdk) (batch trailing : List Event) (split : s.buffer ≡ batch ++ trailing)
    (distinct : DistinctIds s.buffer) (known : Known s.buffer_sizes s.buffer) where
  abbrev size : Event → ℕ
  size = size_at s.buffer_sizes

  pub batch_parts :
      DistinctIds batch × DistinctIds trailing × All (λ x. Fresh x.ident trailing) batch
  batch_parts = DistinctIds-split batch trailing (subst DistinctIds split distinct)

  pub Known-parts : Known s.buffer_sizes batch × Known s.buffer_sizes trailing
  Known-parts = split_All _ batch trailing (subst (Known s.buffer_sizes) split known)

  -- A measure of the queue is that of the batch and that of the rest.
  pub measured : (f : Event → ℕ) → sum_map f s.buffer ≡ sum_map f batch + sum_map f trailing
  measured f = ap (sum_map f) split ∙ sum_map-append f batch trailing

  module _ (now : ℕ) where
    -- An answer that keeps all of the batch, or nothing
    pub whole-Followed : (a : Sdk) → Answered s batch trailing now a → Followed s a
    whole-Followed a ans = record {
      distinct = subst DistinctIds (split ∙ sym ans.buffer) distinct;
      known = rw (ans.sizes, ans.buffer, ← split) known;
      fewer = omega (arith, ap (length {0}) (ans.buffer ∙ sym split));
      lighter = rw (ans.sizes, ans.buffer, ← split) (omega arith);
      idle = ans.idle;
      landed = ans.landed;
      budget = ans.budget;
      generation = ans.generation;
    }

    pub none-Followed : (a : Sdk) → Answered s [] trailing now a → Followed s a
    none-Followed a ans = record {
      distinct = rw ans.buffer batch_parts.1;
      known = rw (ans.sizes, ans.buffer) Known-parts.1;
      fewer =
          omega (
            arith,
            ap (length {0}) ans.buffer,
            ap (length {0}) split,
            length-append batch trailing,
          );
      lighter = rw (ans.sizes, ans.buffer) (omega (arith, measured size));
      idle = ans.idle;
      landed = ans.landed;
      budget = ans.budget;
      generation = ans.generation;
    }

    pub if-Followed :
        (nothing : Bool) (a : Sdk)
        → Answered s (if nothing then [] else batch) trailing now a
        → Followed s a
    if-Followed true a ans = none-Followed a ans
    if-Followed false a ans = whole-Followed a ans
