-- ===== src/Flush/System/Safe.antt =====
-- Any interleaving of captures and the sections of flushes (src/debugbundle/flush_delivery.py) keeps
-- what each phase of a flush relies on.
use debugbundle_python.Prelude.{
  ℕ, ◌≡◌, ap, sym, subst, ◌∙◌, Option, none, some, Bool, List, [], ◌∷◌, ◌++◌, length, nat_eq, All,
  eq_of_some,
}
use mathlib.Core.List.{append_assoc, append-nil}
use debugbundle_python.Transport.{TransportResponse}
use debugbundle_python.Sdk.{Sdk, Event}
use debugbundle_python.Flush.Commit.{Commit, returned, committed, commit_flush}
use debugbundle_python.Flush.Commit.Grown.{AllNew, NewReport}
use debugbundle_python.Flush.Commit.Batch.{CommittedFrom, commit_flush-CommittedFrom}
use debugbundle_python.Flush.Finalize.{finalize_one}
use debugbundle_python.Flush.Finalized.{in_place, IsReplacement, finalize_one-Step}
use debugbundle_python.Flush.Batches.{IsAt-original}
use debugbundle_python.Flush.Sending.{Next, select_batch}
use debugbundle_python.Flush.Downgraded.{Shrinks, Differ}
use debugbundle_python.Flush.Settle.{settle}
use debugbundle_python.Flush.Rested.{Resting, settle-Resting}
use debugbundle_python.Flush.System.{
  Phase, resting, finalizing, waiting, Setting, FlushStep, offer, no_flush, begin, commit, give_up,
  finalize, select, leave, answer, Reach, start, later,
}
use debugbundle_python.Flush.System.Moves.{
  IsHead, Busy, finalize-Busy, finalize-IsHead, SelectedFrom, select_batch-SelectedFrom,
}
use debugbundle_python.Flush.System.Phases.{Inv, offer-Inv, no_flush-Inv, begin-Inv}

module _ (g : Setting) where
  -- The phase that follows the section that commits the queue.
  abbrev AfterCommit : ℕ → Commit → Type 0
  AfterCommit generation (returned s') = Inv g resting s'
  AfterCommit generation (committed s' batch) = Inv g (finalizing generation [] batch) s'

  CommittedFrom-AfterCommit :
      (s : Sdk) (generation : ℕ) (c : Commit)
      → Busy g.host g.max_events g.max_bytes s generation 0
      → CommittedFrom g.host g.max_events g.max_bytes s c
      → AfterCommit generation c
  CommittedFrom-AfterCommit s generation (returned s') b (sized, valid, at_rest, landed, same) =
      record { sized = sized; valid = valid; idle = at_rest; landed = landed }
  CommittedFrom-AfterCommit s generation (committed s' batch) b (grown, whole, some_left) = (
    record {
      sized = grown.sized;
      valid = grown.valid;
      sending = grown.sending ∙ b.sending;
      timer = grown.timer b.sending ∙ b.timer;
      flight = grown.inflight;
      same = grown.generation ∙ b.same;
    },
    ([], sym whole ∙ sym (append-nil batch)),
  )

  commit-AfterCommit :
      (s : Sdk) (generation begun_at drops : ℕ) (aggregates : List (Event × ℕ))
      (pressure : Option (Event × ℕ)) (now monotonic : ℕ) (c : Commit)
      → AllNew aggregates s.buffer
      → NewReport g.host g.max_events g.max_bytes pressure aggregates s.buffer
      → commit_flush g.host g.max_events g.max_bytes s generation aggregates pressure drops begun_at
          now monotonic
        ≡ some c
      → Busy g.host g.max_events g.max_bytes s generation 0
      → AfterCommit generation c
  commit-AfterCommit s generation begun_at drops aggregates pressure now monotonic c new new_report
        done b =
      let (c', ended, from) =
        commit_flush-CommittedFrom g.host g.max_events g.max_bytes s generation aggregates pressure
          drops begun_at now monotonic b.sized b.valid b.flight new new_report in
      subst (AfterCommit generation) (eq_of_some (sym ended ∙ done))
        (CommittedFrom-AfterCommit s generation c' b from)

  -- Whether a replacement is fit to stand in its place does not depend on the size that is replaced.
  pub IsReplacement-any :
      (front back : List Event) (original : Event) (old old' : ℕ) (s : Sdk)
      (replacement : Option (Event × ℕ))
      → IsReplacement g.host g.policy g.max_events g.max_bytes front back original old s replacement
      → IsReplacement g.host g.policy g.max_events g.max_bytes front back original old' s
          replacement
  IsReplacement-any front back original old old' s none fit = fit
  IsReplacement-any front back original old old' s (some (e, bytes)) fit = fit

  finalize-Inv :
      (s s' : Sdk) (generation : ℕ) (front rest : List Event) (original : Event)
      (kept : Option Event) (replacement : Option (Event × ℕ)) (now : ℕ)
      → ((back : List Event)
          → s.buffer ≡ front ++ original ∷ back
          → IsReplacement g.host g.policy g.max_events g.max_bytes front back original 0 s
              replacement)
      → finalize_one g.host g.policy s (length front) original replacement g.max_bytes now
        ≡ some (s', kept)
      → Inv g (finalizing generation front (original ∷ rest)) s
      → Inv g (finalizing generation (front ++ in_place kept []) rest) s'
  finalize-Inv s s' generation front rest original kept replacement now fit done (b, (tail, head)) =
      let here : s.buffer ≡ front ++ original ∷ (rest ++ tail) =
        head ∙ append_assoc front (original ∷ rest) tail in
      let (old, at) =
        IsAt-original g.host g.policy g.max_events g.max_bytes s front (rest ++ tail) original here
          b.sized b.valid in
      let (t, left, ended, step) =
        finalize_one-Step g.host g.policy g.max_events g.max_bytes front (rest ++ tail) original old
          s replacement now at
          (IsReplacement-any front (rest ++ tail) original 0 old s replacement
            (fit (rest ++ tail) here)) in
      let same : ◌≡◌ {A = Sdk × Option Event} (t, left) (s', kept) =
        eq_of_some (sym ended ∙ done) in
      subst
        (λ (r : Sdk × Option Event).
          Inv g (finalizing generation (front ++ in_place r.1 []) rest) r.0)
        same
        (
          finalize-Busy g.host g.max_events g.max_bytes s t generation front rest (rest ++ tail)
              original left step b,
          finalize-IsHead g.host g.max_events g.max_bytes s t front rest tail left step,
        )

  selected :
      (s : Sdk) (generation monotonic : ℕ) (http : Bool) (front : List Event) (next : Next)
      → select_batch g.dumps s generation (some front) http monotonic ≡ next
      → Inv g (finalizing generation front []) s
      → SelectedFrom g.host g.max_events g.max_bytes g.dumps generation next
  selected s generation monotonic http front next done (b, head) =
      subst (SelectedFrom g.host g.max_events g.max_bytes g.dumps generation) done (
        select_batch-SelectedFrom g.host g.max_events g.max_bytes g.dumps s generation _ monotonic
          http front b (subst (λ f. IsHead f s.buffer) (append-nil front) head))

  answer-Inv :
      (s s' : Sdk) (generation : ℕ) (batch : List Event) (http : Bool)
      (response : Option TransportResponse) (now monotonic : ℕ)
      → All (Shrinks g.host g.reduced s.buffer s.buffer_sizes) batch
      → Differ g.host g.reduced s.buffer s.buffer_sizes
      → settle g.host g.reduced s generation batch http response now monotonic ≡ some s'
      → Inv g (waiting generation batch http) s
      → Inv g resting s'
  answer-Inv s s' generation batch http response now monotonic shrinks differ done
        (b, (tail, head)) =
      let (t, ended, rested, same) =
        settle-Resting g.host g.max_events g.max_bytes g.reduced s batch tail http response now
          monotonic head b.sized b.valid b.timer shrinks differ in
      let done' : settle g.host g.reduced s s.generation batch http response now monotonic
          ≡ some s' =
        ap (λ n. settle g.host g.reduced s n batch http response now monotonic) b.same ∙ done in
      subst (Inv g resting) (eq_of_some (sym ended ∙ done')) rested

  -- Every step of the system keeps what its phase relies on.
  FlushStep-Inv :
      {phase phase' : Phase} {s s' : Sdk}
      → FlushStep g phase s phase' s'
      → Inv g phase s
      → Inv g phase' s'
  FlushStep-Inv (offer e bytes now monotonic fresh done) i =
      offer-Inv g _ _ _ _ e bytes now monotonic fresh done i
  FlushStep-Inv (no_flush now monotonic done) i = no_flush-Inv g _ _ _ now monotonic done i
  FlushStep-Inv (begin now monotonic done) i = begin-Inv g _ _ _ _ _ now monotonic done i
  FlushStep-Inv (commit aggregates pressure now monotonic new new_report done) i =
      commit-AfterCommit _ _ _ _ aggregates pressure now monotonic _ new new_report done i
  FlushStep-Inv (give_up aggregates pressure now monotonic new new_report done) i =
      commit-AfterCommit _ _ _ _ aggregates pressure now monotonic _ new new_report done i
  FlushStep-Inv (finalize replacement now same fit done) i =
      finalize-Inv _ _ _ _ _ _ _ replacement now fit done i
  FlushStep-Inv (select http monotonic done) i = selected _ _ monotonic http _ _ done i
  FlushStep-Inv (leave http monotonic done) i = selected _ _ monotonic http _ _ done i
  FlushStep-Inv (answer response now monotonic shrinks differ done) i =
      answer-Inv _ _ _ _ _ response now monotonic shrinks differ done i

  -- After any interleaving of offers of new objects and the sections of flushes from a state at
  -- rest, where what is left of a refused event is a new object that is no longer than the event,
  -- the queue is sized within its limits, with a valid budget. Where no flush is under way, no
  -- event is in flight. While one is, it is of the present generation, no timer is set, the batch
  -- is the head of the queue, and as many events are in flight as the batch has, or none before
  -- there is one.
  pub Reach-Inv :
      (s0 s : Sdk) (phase : Phase)
      → Resting g.host g.max_events g.max_bytes s0
      → Reach g s0 phase s
      → Inv g phase s
  Reach-Inv s0 s phase rest start = rest
  Reach-Inv s0 s phase rest (later r step) = FlushStep-Inv step (Reach-Inv s0 _ _ rest r)
