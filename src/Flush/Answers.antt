-- ===== src/Flush/Answers.antt =====
-- What an answer keeps of a batch (src/debugbundle/flush_delivery.py).
use mathlib.Core.List.{append-nil}
use debugbundle_python.Prelude.{
  ℕ, zero, suc, ◌+◌, ◌≤◌, ◌≡◌, refl, ap, ◌∙◌, Option, none, some, Bool, true, false, not, ◌&&◌,
  ◌||◌, List, [], ◌∷◌, ◌++◌, arith, nat_eqb, is_some, leb, if◌then◌else◌, inl, inr, Bool-cases,
  Option-cases, length, drop, get_elem?, String,
}
use debugbundle_python.Acknowledgement.{
  Kind, AcknowledgementDecision, legacy, protocol_failure, acknowledged, decide_acknowledgement,
}
use debugbundle_python.Acknowledgement.Partition.{reported, decide_acknowledgement-IsPartition}
use debugbundle_python.Evidence.{observe}
use debugbundle_python.Transport.{TransportResponse}
use debugbundle_python.Sdk.{Sdk, Event, Host, running, schedule_flush_locked}
use debugbundle_python.Flush.{
  pick, back_off, is_success, is_refused, is_delayed, is_acknowledged, downgrade_one, downgrade_all,
  downgrade_rejections, after_acknowledged,
}
use debugbundle_python.Flush.Settle.{follow, acknowledge, fail, respond}

-- The part of a batch that an acknowledgement keeps: what is to be sent again.
abbrev pub kept_kind : Kind → List Event → List ℕ → List Event
kept_kind protocol_failure batch indices = batch
kept_kind legacy batch indices = []
kept_kind acknowledged batch indices = pick batch indices

abbrev pub kept_by : List Event → AcknowledgementDecision → List Event
kept_by batch ack = kept_kind ack.kind batch ack.retryable_indices

-- The part of a batch that an answer keeps: all of it where there is no answer or a server error,
-- nothing where the client is at fault and not slowed down.
abbrev pub kept : List Event → Bool → Option TransportResponse → List Event
kept batch http none = batch
kept batch http (some r) =
    if is_success r.status_code
    then kept_by batch (decide_acknowledgement r.body (length batch) http)
    else if is_refused r.status_code && not (nat_eqb r.status_code 429)
    then []
    else batch

pub drop-append : (xs ys : List Event) → drop (length xs) (xs ++ ys) ≡ ys
drop-append [] ys = refl
drop-append (x ∷ xs) ys = drop-append xs ys

-- After the answer: the queue, its sizes as before, and a timer or no need to wait.
pub record Answered (s : Sdk) (keep trailing : List Event) (now : ℕ) (a : Sdk) : Type 0 where
  pub buffer : a.buffer ≡ keep ++ trailing
  pub sizes : a.buffer_sizes ≡ s.buffer_sizes
  pub idle : a.sending ≡ false
  pub landed : a.inflight_count ≡ 0
  pub budget : a.diagnostics ≡ s.diagnostics
  pub generation : a.generation ≡ s.generation
  pub live : is_some (running a.timer) ≡ is_some a.timer
  pub armed : (is_some a.timer || leb a.retry_after now) ≡ true

pub answered :
    {s a : Sdk} {keep trailing : List Event} {now : ℕ}
    → a.buffer ≡ keep ++ trailing
    → a.buffer_sizes ≡ s.buffer_sizes
    → a.sending ≡ false
    → a.inflight_count ≡ 0
    → a.diagnostics ≡ s.diagnostics
    → a.generation ≡ s.generation
    → is_some (running a.timer) ≡ is_some a.timer
    → (is_some a.timer || leb a.retry_after now) ≡ true
    → Answered s keep trailing now a
answered b z i n d g l r = record {
  buffer = b;
  sizes = z;
  idle = i;
  landed = n;
  budget = d;
  generation = g;
  live = l;
  armed = r;
}

-- The state that an answer finds.
abbrev pub landed_state : Sdk → Sdk
landed_state s = record s { sending = false; inflight_count = 0; timer = none }

pub found_in_range :
    (batch : List Event) (i : ℕ) → i + 1 ≤ length batch → is_some (get_elem? batch i) ≡ true
found_in_range [] i lt = absurd (omega arith)
found_in_range (e ∷ batch) zero lt = refl
found_in_range (e ∷ batch) (suc i) lt = found_in_range batch i (omega arith)

module _ (host : Host) (reduced : Sdk → Event → Option Event)
    (irreducible : (s : Sdk) (e : Event) → reduced s e ≡ none) where
  downgrade_one-none :
      (s : Sdk) (batch : List Event) (i : ℕ) (reason : String)
      → i + 1 ≤ length batch
      → downgrade_one host reduced s batch (i, reason) ≡ some (s, [])
  unfolding downgrade_one
  downgrade_one-none s batch i reason lt = elim (Option-cases (get_elem? batch i)) [
    | inl missing ↦ absurd (ground (arith, missing, found_in_range batch i lt))
    | inr (e, found) ↦ rw (found, irreducible s e) (ground arith)
  ]

  downgrade_all-none :
      (s : Sdk) (batch : List Event) (errors : List (ℕ × String))
      → ((i : ℕ) → length batch ≤ i → reported i errors ≡ 0)
      → downgrade_all host reduced s batch errors ≡ some (s, [])
  unfolding downgrade_all
  downgrade_all-none s batch [] below = refl
  downgrade_all-none s batch ((i, reason) ∷ errors) below =
      rw
        (
          downgrade_one-none s batch i reason (ground (arith, below i)),
          downgrade_all-none s batch errors (λ j le. omega (arith, below j le)),
        )
        refl

  downgrade_rejections-none :
      (s : Sdk) (batch : List Event) (errors : List (ℕ × String)) (lost : Bool)
      → ((i : ℕ) → length batch ≤ i → reported i errors ≡ 0)
      → downgrade_rejections host reduced s batch errors lost ≡ some (s, [])
  unfolding downgrade_rejections
  downgrade_rejections-none s batch errors true below = downgrade_all-none s batch errors below
  downgrade_rejections-none s batch errors false below = refl

  module _ (s : Sdk) (batch trailing : List Event) (now monotonic : ℕ)
      (split : s.buffer ≡ batch ++ trailing) where
    rest : drop (length batch) s.buffer ≡ trailing
    rest = ap (drop (length batch)) split ∙ drop-append batch trailing

    abbrev Keeps : List Event → Option Sdk → Type 0
    Keeps keep o = (a : Sdk) × (o ≡ some a) × Answered s keep trailing now a

    delayed_state :
        (r : TransportResponse)
        → Answered s batch trailing now (back_off (landed_state s) r now monotonic)
    unfolding back_off
    delayed_state r = answered split refl refl refl refl refl refl refl

    pub fail-Keeps :
        (r : TransportResponse)
        → Answered s
            (if is_refused r.status_code && not (nat_eqb r.status_code 429) then [] else batch)
            trailing
            now
            (fail (landed_state s) batch r now monotonic)
    unfolding fail
    fail-Keeps r = elim (Bool-cases (is_delayed r)) [
      | inl delayed ↦
          let whole : (is_refused r.status_code && not (nat_eqb r.status_code 429)) ≡ false =
            ground (arith, delayed) in
          rw (delayed, whole) (delayed_state r)
      | inr other ↦ elim (Bool-cases (is_refused r.status_code)) [
        | inl refused ↦
            let slowed : nat_eqb r.status_code 429 ≡ false = ground (arith, other) in
            rw (other, refused, slowed) (answered rest refl refl refl refl refl refl (ground arith))
        | inr unclear ↦
            rw (other, unclear)
              (unfold schedule_flush_locked in answered split refl refl refl refl refl refl refl)
      ]
    ]

    module _ (ack : AcknowledgementDecision) (features : List String) (r : TransportResponse) where
      abbrev found : Sdk
      found = record (landed_state s) { evidence = features }

      after-Answered :
          (buffer : List Event) (again : Bool)
          → buffer ≡ pick batch ack.retryable_indices ++ trailing
          → Answered s
              (pick batch ack.retryable_indices)
              trailing
              now
              (after_acknowledged (record found { buffer = buffer }) ack again r now monotonic)
      unfolding after_acknowledged back_off
      after-Answered buffer true e = elim (Bool-cases (nat_eqb ack.accepted 0)) [
        | inl refused ↦ rw refused (answered e refl refl refl refl refl refl refl)
        | inr taken ↦ rw taken (answered e refl refl refl refl refl refl refl)
      ]
      after-Answered buffer false e = elim (Bool-cases (nat_eqb ack.accepted 0)) [
        | inl refused ↦ rw refused (answered e refl refl refl refl refl refl (ground arith))
        | inr taken ↦ rw taken (answered e refl refl refl refl refl refl (ground arith))
      ]

      follow-Keeps :
          (lost : Bool) (kind : Kind)
          → (kind ≡ acknowledged → (i : ℕ) → length batch ≤ i → reported i ack.terminal_errors ≡ 0)
          → Keeps
              (kept_kind kind batch ack.retryable_indices)
              (follow host reduced kind ack lost found batch r now monotonic)
      unfolding follow back_off
      follow-Keeps lost protocol_failure below =
          (_, refl, answered split refl refl refl refl refl refl refl)
      follow-Keeps lost legacy below =
          (_, refl, answered rest refl refl refl refl refl refl (ground arith))
      follow-Keeps lost acknowledged below =
          rw (downgrade_rejections-none found batch ack.terminal_errors lost (below refl)) (
            _,
            refl,
            after-Answered _ _ (rw (append-nil (pick batch ack.retryable_indices), rest) refl),
          )

    acknowledge-Keeps :
        (http : Bool) (r : TransportResponse)
        → Keeps
            (kept_by batch (decide_acknowledgement r.body (length batch) http))
            (acknowledge host reduced (landed_state s) batch http r now monotonic)
    unfolding acknowledge
    acknowledge-Keeps http r =
        let ack = decide_acknowledgement r.body (length batch) http in
        let (features, lost) = observe s.evidence r.body http (is_acknowledged ack.kind) in
        follow-Keeps ack features r lost ack.kind (λ k i le.
          omega (
            arith,
            (decide_acknowledgement-IsPartition r.body (length batch) http k).in_range i le,
          ))

    pub respond-Keeps :
        (http : Bool) (response : Option TransportResponse)
        → Keeps
            (kept batch http response)
            (respond host reduced (landed_state s) batch http response now monotonic)
    unfolding respond
    respond-Keeps http none =
        unfold schedule_flush_locked in (_, refl, answered split refl refl refl refl refl refl refl)
    respond-Keeps http (some r) = elim (Bool-cases (is_success r.status_code)) [
      | inl good ↦ rw (good, respond) (acknowledge-Keeps http r)
      | inr bad ↦ rw (bad, respond) (_, refl, fail-Keeps r)
    ]
