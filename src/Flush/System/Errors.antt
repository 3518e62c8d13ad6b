-- ===== src/Flush/System/Errors.antt =====
-- No section of a flush that is reached raises, and no two flushes are under way
-- (src/debugbundle/flush_delivery.py).
use debugbundle_python.Prelude.{
  ℕ, ◌≤◌, ◌≡◌, ◌≢◌, All, inl, inr, refl, ap, sym, subst, ◌∙◌, Option, none, some, Bool, true, false,
  List, [], ◌∷◌, ◌++◌, length, arith, nat_eqb, nat_eq, ==_refl, Option-cases,
}
use mathlib.Core.List.{append_assoc}
use debugbundle_python.Suppression.{Aggregate}
use debugbundle_python.Transport.{TransportResponse}
use debugbundle_python.Sdk.{Sdk, Event}
use debugbundle_python.Flush.Beginning.{started, begin_flush, BegunFrom, begin_flush-BegunFrom}
use debugbundle_python.Flush.Commit.{Commit, returned, committed, commit_flush}
use debugbundle_python.Flush.Commit.Grown.{AllNew, NewReport}
use debugbundle_python.Flush.Commit.Batch.{CommittedFrom, commit_flush-CommittedFrom}
use debugbundle_python.Flush.Finalize.{finalize_one}
use debugbundle_python.Flush.Finalized.{IsReplacement, finalize_one-Step}
use debugbundle_python.Flush.Batches.{IsAt-original}
use debugbundle_python.Flush.Sending.{
  Next, stop, send, raised, leave, reserved, wire_batch, select_batch,
}
use debugbundle_python.Flush.Downgraded.{Shrinks, Differ}
use debugbundle_python.Flush.Settle.{settle}
use debugbundle_python.Flush.Rested.{Resting, settle-Resting}
use debugbundle_python.Flush.System.{Phase, resting, begun, finalizing, waiting, Setting, Reach}
use debugbundle_python.Flush.System.Phases.{Inv, Inv-sending}
use debugbundle_python.Flush.System.Safe.{Reach-Inv, IsReplacement-any}

-- How many events a section that commits the queue takes.
abbrev taken : Commit → ℕ
taken (returned s) = 0
taken (committed s batch) = length batch

abbrev is_raised : Next → Bool
is_raised raised = true
is_raised (stop s) = false
is_raised (send s batch) = false

module _ (g : Setting) where
  -- What the other parts give to each section: the summaries that were prepared, what the hook left of
  -- an event, which transport there is for a batch that can be sent, and the answer of the transport.
  pub record Prepared (s : Sdk) : Type 0 where
    pub aggregates : List (Event × ℕ)
    pub pressure : Option (Event × ℕ)
    pub now : ℕ
    pub monotonic : ℕ
    pub new : AllNew aggregates s.buffer
    pub new_report : NewReport g.host g.max_events g.max_bytes pressure aggregates s.buffer

  pub record Hooked (s : Sdk) (front : List Event) (original : Event) : Type 0 where
    pub replacement : Option (Event × ℕ)
    pub now : ℕ
    pub fit :
        (back : List Event)
        → s.buffer ≡ front ++ original ∷ back
        → IsReplacement g.host g.policy g.max_events g.max_bytes front back original 0 s replacement

  pub record Sendable (front : List Event) : Type 0 where
    pub http : Bool
    pub monotonic : ℕ
    pub fits : wire_batch g.dumps http front ≢ none

  pub record Replied (s : Sdk) (batch : List Event) : Type 0 where
    pub response : Option TransportResponse
    pub now : ℕ
    pub monotonic : ℕ
    pub shrinks : All (Shrinks g.host g.reduced s.buffer s.buffer_sizes) batch
    pub differ : Differ g.host g.reduced s.buffer s.buffer_sizes

  abbrev pub Input : Phase → Sdk → Type 0
  Input resting s = Unit
  Input (begun generation at drops) s = Prepared s
  Input (finalizing generation front []) s = Sendable front
  Input (finalizing generation front (original ∷ rest)) s = Hooked s front original
  Input (waiting generation batch http) s = Replied s batch

  -- The section of the phase ends without an error on what it is given.
  abbrev pub Ends : (phase : Phase) (s : Sdk) → Input phase s → Type 0
  Ends resting s i = Unit
  Ends (begun generation at drops) s i =
      (c : Commit) × (commit_flush g.host g.max_events g.max_bytes s generation i.aggregates
          i.pressure drops at i.now i.monotonic
        ≡ some c)
      × (taken c ≤ g.max_events)
  Ends (finalizing generation front []) s i =
      is_raised (select_batch g.dumps s generation (some front) i.http i.monotonic) ≡ false
  Ends (finalizing generation front (original ∷ rest)) s i =
      (s' : Sdk) × (kept : Option Event) × (finalize_one g.host g.policy s (length front) original
          i.replacement g.max_bytes i.now
        ≡ some (s', kept))
  Ends (waiting generation batch http) s i =
      (s' : Sdk) × (settle g.host g.reduced s generation batch http i.response i.now i.monotonic
        ≡ some s')

  taken-few :
      (s : Sdk) (c : Commit)
      → CommittedFrom g.host g.max_events g.max_bytes s c
      → taken c ≤ g.max_events
  taken-few s (returned s') from = omega arith
  taken-few s (committed s' batch) (grown, whole, some_left) =
      omega (arith, ap (length {0}) whole, grown.sized.few)

  chosen-is_raised :
      (s : Sdk) (http : Bool) (front batch : List Event) (monotonic : ℕ)
      → is_raised (elim batch [
        | [] ↦ leave (reserved s http front []) monotonic
        | first ∷ rest ↦ send (reserved s http front (first ∷ rest)) (first ∷ rest)
      ])
        ≡ false
  chosen-is_raised s http front [] monotonic = refl
  chosen-is_raised s http front (first ∷ rest) monotonic = refl

  select_batch-is_raised :
      (s : Sdk) (generation monotonic : ℕ) (http : Bool) (front : List Event)
      → s.generation ≡ generation
      → wire_batch g.dumps http front ≢ none
      → is_raised (select_batch g.dumps s generation (some front) http monotonic) ≡ false
  unfolding select_batch
  select_batch-is_raised s generation monotonic http front same fits =
      elim (Option-cases (wire_batch g.dumps http front)) [
        | inl too_large ↦ absurd (fits too_large)
        | inr (batch, cut) ↦
            let now : nat_eqb generation s.generation ≡ true =
              ap (nat_eqb generation) same ∙ ==_refl generation in
            rw (cut, select_batch) (rw now (chosen-is_raised s http front batch monotonic))
      ]

  Inv-Ends : (phase : Phase) (s : Sdk) (i : Input phase s) → Inv g phase s → Ends phase s i
  Inv-Ends resting s i rested = tt
  Inv-Ends (begun generation at drops) s i b =
      let (c, ended, from) =
        commit_flush-CommittedFrom g.host g.max_events g.max_bytes s generation i.aggregates
          i.pressure drops at i.now i.monotonic b.sized b.valid b.flight i.new i.new_report in
      (c, ended, taken-few s c from)
  Inv-Ends (finalizing generation front []) s i (b, head) =
      select_batch-is_raised s generation i.monotonic i.http front b.same i.fits
  Inv-Ends (finalizing generation front (original ∷ rest)) s i (b, (tail, head)) =
      let here : s.buffer ≡ front ++ original ∷ (rest ++ tail) =
        head ∙ append_assoc front (original ∷ rest) tail in
      let (old, at) =
        IsAt-original g.host g.policy g.max_events g.max_bytes s front (rest ++ tail) original here
          b.sized b.valid in
      let (t, left, ended, step) =
        finalize_one-Step g.host g.policy g.max_events g.max_bytes front (rest ++ tail) original old
          s i.replacement i.now at
          (IsReplacement-any g front (rest ++ tail) original 0 old s i.replacement
            (i.fit (rest ++ tail) here)) in
      (t, left, ended)
  Inv-Ends (waiting generation batch http) s i (b, (tail, head)) =
      let (t, ended, rested, same) =
        settle-Resting g.host g.max_events g.max_bytes g.reduced s batch tail http i.response i.now
          i.monotonic head b.sized b.valid b.timer i.shrinks i.differ in
      (
        t,
        ap (λ n. settle g.host g.reduced s n batch http i.response i.now i.monotonic) (sym b.same)
            ∙ ended,
      )

  -- In every state that an interleaving of offers of new objects and the sections of flushes
  -- reaches from a state at rest, where what is left of a refused event is a new object that is no
  -- longer than the event, the next section of the flush ends without an error on what it is given:
  -- summaries that are new objects, a replacement that is no other queued object and can be judged,
  -- a transport for which a batch can be selected, or any answer. It commits at most as many events
  -- as the limit, and finds the event that it finalizes.
  pub Reach-Ends :
      (s0 s : Sdk) (phase : Phase) (i : Input phase s)
      → Resting g.host g.max_events g.max_bytes s0
      → Reach g s0 phase s
      → Ends phase s i
  Reach-Ends s0 s phase i rest r = Inv-Ends phase s i (Reach-Inv g s0 s phase rest r)

  -- In every state that an interleaving of offers of new objects and the sections of flushes
  -- reaches from a state at rest, where what is left of a refused event is a new object that is no
  -- longer than the event, a flush begins only where no other is under way.
  pub begin_flush_alone :
      (s0 s s' : Sdk) (phase : Phase) (aggregates : List Aggregate) (drops now monotonic : ℕ)
      → Resting g.host g.max_events g.max_bytes s0
      → Reach g s0 phase s
      → begin_flush g.to_iso s g.max_events now monotonic ≡ started s' aggregates drops
      → phase ≡ resting
  begin_flush_alone s0 s s' phase aggregates drops now monotonic rest r done =
      let from =
        subst (BegunFrom g.to_iso s now) done
          (begin_flush-BegunFrom g.to_iso s g.max_events now monotonic) in
      elim (Inv-sending g phase s (Reach-Inv g s0 s phase rest r)) [
        | inl at_rest ↦ at_rest
        | inr busy ↦ absurd (ground (arith, busy, from.2))
      ]
