-- ===== src/Flush/Retained.antt =====
-- The state after the answer to a batch (src/debugbundle/flush_delivery.py).
use debugbundle_python.Prelude.{
  ◌≢◌, ℕ, zero, suc, ◌≡◌, refl, ap, sym, subst, ◌∙◌, Option, none, some, Bool, true, false, not,
  ◌&&◌, ◌||◌, List, [], ◌∷◌, ◌++◌, arith, nat_eqb, nat_eq, ==_refl, is_some, leb, if◌then◌else◌,
  inl, inr, Bool-cases, Option-cases, get_elem?, All, All-append,
}
use debugbundle_python.Prelude.Int.{pos}
use debugbundle_python.Prelude.Dict.{Dict, get, put, total, get-put}
use debugbundle_python.Acknowledgement.{Kind, legacy, protocol_failure, acknowledged}
use debugbundle_python.Transport.{TransportResponse}
use debugbundle_python.Sdk.{Sdk, Event, Host, running, schedule_flush_locked}
use debugbundle_python.Sdk.Timing.{
  TimerOnly, if-TimerOnly, schedule_flush_locked-TimerOnly,
  schedule_pressure_report_locked-TimerOnly,
}
use debugbundle_python.Queue.Shape.{Known}
use debugbundle_python.Flush.{
  pick, rearm, wake, wake_delay, is_empty, is_success, is_refused, low_count, sizes_of,
}
use debugbundle_python.Flush.Settle.{at_once, respond, recount, settle}
use debugbundle_python.Flush.Answers.{kept_kind, kept, Answered, landed_state, respond-Keeps}

pub pick_one {μ} :
    (P : Event → Type μ) (batch : List Event) (i : ℕ) (e : Event)
    → All P batch
    → get_elem? batch i ≡ some e
    → P e
pick_one P [] i e a h = absurd (ground arith)
pick_one P (x ∷ batch) zero e a h = subst P (ground (arith, h)) a.0
pick_one P (x ∷ batch) (suc i) e a h = pick_one P batch i e a.1 h

pub All-pick {μ} :
    (P : Event → Type μ) (batch : List Event) (indices : List ℕ)
    → All P batch
    → All P (pick batch indices)
All-pick P batch [] a = tt
All-pick P batch (i ∷ indices) a = elim (Option-cases (get_elem? batch i)) [
  | inl out ↦ rw (out, All) (All-pick P batch indices a)
  | inr (e, found) ↦ rw (found, All) (pick_one P batch i e a found, All-pick P batch indices a)
]

All-kept_kind {μ} :
    (P : Event → Type μ) (kind : Kind) (batch : List Event) (indices : List ℕ)
    → All P batch
    → All P (kept_kind kind batch indices)
All-kept_kind P protocol_failure batch indices a = a
All-kept_kind P legacy batch indices a = tt
All-kept_kind P acknowledged batch indices a = All-pick P batch indices a

All-if {μ} :
    (P : Event → Type μ) (b : Bool) (xs ys : List Event)
    → All P xs
    → All P ys
    → All P (if b then xs else ys)
All-if P true xs ys p q = p
All-if P false xs ys p q = q

All-kept {μ} :
    (P : Event → Type μ) (batch : List Event) (http : Bool) (response : Option TransportResponse)
    → All P batch
    → All P (kept batch http response)
All-kept P batch http none a = a
All-kept P batch http (some r) a =
    All-if P (is_success r.status_code) _ _ (All-kept_kind P _ batch _ a)
      (All-if P (is_refused r.status_code && not (nat_eqb r.status_code 429)) [] batch tt a)

pub split_All {μ} :
    (P : Event → Type μ) (xs ys : List Event) → All P (xs ++ ys) → All P xs × All P ys
split_All P [] ys a = (tt, a)
split_All P (x ∷ xs) ys a = let (p, q) = split_All P xs ys a.1 in ((a.0, p), q)

Known-put :
    (sizes : Dict ℕ ℕ) (i v : ℕ) (es : List Event) → Known sizes es → Known (put sizes i v) es
Known-put sizes i v [] k = tt
Known-put sizes i v (e ∷ es) k =
    (ground (arith, get-put sizes i v e.ident, k.0), Known-put sizes i v es k.1)

-- The sizes of queued events that have theirs are collected.
pub sizes_of-total :
    (sizes : Dict ℕ ℕ) (es : List Event)
    → Known sizes es
    → (sizes' : Dict ℕ ℕ) × (sizes_of sizes es ≡ some sizes') × Known sizes' es
unfolding sizes_of
sizes_of-total sizes [] k = ([], refl, tt)
sizes_of-total sizes (e ∷ es) k =
    let (rest, found, known) = sizes_of-total sizes es k.1 in
    elim (Option-cases (get sizes e.ident)) [
      | inl missing ↦ absurd (ground (arith, missing, k.0))
      | inr (v, size) ↦ (
        put rest e.ident v,
        rw (size, found) refl,
        (
          ground (arith, get-put rest e.ident v e.ident, ==_refl e.ident),
          Known-put rest e.ident v es known,
        ),
      )
    ]

schedule_flush_locked_starts :
    (s : Sdk) (delay : Option ℕ) (monotonic : ℕ)
    → s.sending ≡ false
    → is_some s.timer ≡ false
    → is_some (running (schedule_flush_locked s delay monotonic).timer) ≡ true
unfolding schedule_flush_locked
schedule_flush_locked_starts s delay monotonic idle off = elim (Option-cases s.timer) [
  | inl off' ↦ rw (idle, off') refl
  | inr (t, on) ↦ absurd (ground (arith, on, off))
]

pub wake-TimerOnly : (s : Sdk) (b : Bool) (now monotonic : ℕ) → TimerOnly s (wake s b now monotonic)
unfolding wake
wake-TimerOnly s b now monotonic = if-TimerOnly (is_some s.timer) s s _ refl (
    if-TimerOnly (is_empty s.buffer) s _ _
      (schedule_pressure_report_locked-TimerOnly s now monotonic)
      (if-TimerOnly (leb s.retry_after now) s _ s
        (schedule_flush_locked-TimerOnly s (wake_delay s b) monotonic) refl))

wake_starts :
    (s : Sdk) (b : Bool) (now monotonic : ℕ)
    → s.sending ≡ false
    → is_some (running s.timer) ≡ is_some s.timer
    → (is_some s.timer || leb s.retry_after now) ≡ true
    → is_empty s.buffer ≡ false
    → is_some (running (wake s b now monotonic).timer) ≡ true
unfolding wake
wake_starts s b now monotonic idle live armed left = elim (Bool-cases (is_some s.timer)) [
  | inl on ↦ rw on (live ∙ on)
  | inr off ↦
      let soon : leb s.retry_after now ≡ true = ground (arith, off, armed) in
      rw (off, left, soon) (schedule_flush_locked_starts s (wake_delay s b) monotonic idle off)
]

-- What the section under the lock leaves: `keep` of the batch, and what was queued meanwhile.
pub record Settled (keep trailing : List Event) (s : Sdk) : Type 0 where
  pub buffer : s.buffer ≡ keep ++ trailing
  pub idle : s.sending ≡ false
  pub landed : s.inflight_count ≡ 0
  pub known : Known s.buffer_sizes s.buffer
  pub bytes : s.buffer_bytes ≡ total (λ _ size. size) s.buffer_sizes
  pub low : s.pending_low_priority ≡ pos (low_count s.buffer)
  pub scheduled : is_empty s.buffer ≡ false → is_some (running s.timer) ≡ true

module _ (host : Host) where
  wake-Settled :
      (keep trailing : List Event) (s a : Sdk) (sizes : Dict ℕ ℕ) (b : Bool) (now monotonic : ℕ)
      → Answered s keep trailing now a
      → sizes_of a.buffer_sizes a.buffer ≡ some sizes
      → Known sizes a.buffer
      → (c : Sdk) × (recount host a ≡ some c) × Settled keep trailing (wake c b now monotonic)
  unfolding recount
  wake-Settled keep trailing s a sizes b now monotonic ans collected known = rw collected (
    _,
    refl,
    subst (λ x. Settled keep trailing x) (sym (wake-TimerOnly _ b now monotonic))
        (record {
          buffer = ans.buffer;
          idle = ans.idle;
          landed = ans.landed;
          known = known;
          bytes = refl;
          low = refl;
          scheduled = wake_starts _ b now monotonic ans.idle ans.live ans.armed;
        }),
  )

module _ (host : Host) (reduced : Sdk → Event → Option Event) where
  -- An answer to a batch of an older generation changes the two marks of the flush and the timer,
  -- and nothing else.
  settle_stale :
      (s : Sdk) (generation : ℕ) (batch : List Event) (http : Bool)
      (response : Option TransportResponse) (now monotonic : ℕ)
      → generation ≢ s.generation
      → (s' : Sdk) × (settle host reduced s generation batch http response now monotonic ≡ some s')
        × TimerOnly (record s { sending = false; inflight_count = 0 }) s'
  unfolding settle rearm
  settle_stale s generation batch http response now monotonic stale =
      let other : nat_eqb generation s.generation ≡ false = ground (arith, stale) in
      let marked = record s { sending = false; inflight_count = 0 } in
      rw (other, settle)
        (
          _,
          refl,
          if-TimerOnly (is_empty s.buffer) marked marked _ refl
              (schedule_flush_locked-TimerOnly marked none monotonic),
        )

  pub settle-respond :
      (s a c : Sdk) (batch : List Event) (http : Bool) (response : Option TransportResponse)
      (now monotonic : ℕ)
      → s.timer ≡ none
      → respond host reduced (landed_state s) batch http response now monotonic ≡ some a
      → recount host a ≡ some c
      → settle host reduced s s.generation batch http response now monotonic
        ≡ some (wake c (at_once http response) now monotonic)
  unfolding settle
  settle-respond s a c batch http response now monotonic off answer counted =
      let same : nat_eqb s.generation s.generation ≡ true = ==_refl s.generation in
      let found : record s { sending = false; inflight_count = 0 } ≡ landed_state s =
        ap (λ t. record s { sending = false; inflight_count = 0; timer = t }) off in
      let answer' : respond host reduced (record s { sending = false; inflight_count = 0 }) batch
            http response now monotonic
          ≡ some a =
        subst (λ x. respond host reduced x batch http response now monotonic ≡ some a) (sym found)
          answer in
      rw (same, settle) (rw answer' (rw counted refl))

  -- Where no event can be reduced, the batch is the head of the queue, every queued event has its
  -- size and no timer is set, the answer to a batch of the present generation is followed without
  -- an error: the queue is what the answer keeps of the batch and then what was queued meanwhile;
  -- no flush is under way; each queued event has its size, the byte count is the sum of the sizes,
  -- and the count of low priority is exact; and a queue that is not empty has a running timer.
  pub settle-Settled :
      (s : Sdk) (batch trailing : List Event) (http : Bool) (response : Option TransportResponse)
      (now monotonic : ℕ)
      → ((t : Sdk) (e : Event) → reduced t e ≡ none)
      → s.buffer ≡ batch ++ trailing
      → Known s.buffer_sizes s.buffer
      → s.timer ≡ none
      → (s' : Sdk) × (settle host reduced s s.generation batch http response now monotonic
          ≡ some s')
        × Settled (kept batch http response) trailing s'
  unfolding settle
  settle-Settled s batch trailing http response now monotonic irreducible split known off =
      let (a, answer, ans) =
        respond-Keeps host reduced irreducible s batch trailing now monotonic split http response in
      let (front, back) = split_All _ batch trailing (subst (Known s.buffer_sizes) split known) in
      let known' : Known a.buffer_sizes a.buffer =
        rw (ans.sizes, ans.buffer)
          (All-append _ (kept batch http response) trailing (All-kept _ batch http response front)
            back) in
      let (sizes, collected, known'') = sizes_of-total a.buffer_sizes a.buffer known' in
      let (c, counted, settled) =
        wake-Settled host (kept batch http response) trailing s a sizes (at_once http response) now
          monotonic ans collected known'' in
      (
        wake c (at_once http response) now monotonic,
        settle-respond s a c batch http response now monotonic off answer counted,
        settled,
      )
