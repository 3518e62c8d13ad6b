-- ===== src/Flush/System.antt =====
-- The SDK as threads see it: captures offer events at any time, and a flush goes through its sections
-- (src/debugbundle/flush_delivery.py), between which the lock is free. One step is one section under the
-- lock. The generation is the same throughout: only `dispose` and a fork change it.
pub mod Errors
pub mod Moves
pub mod Phases
pub mod Safe
use debugbundle_python.Prelude.{
  ℕ, ◌≡◌, String, Option, none, some, Bool, true, List, [], ◌∷◌, ◌++◌, length, nat_eqb, All,
}
use debugbundle_python.Transport.{TransportResponse}
use debugbundle_python.Sdk.{Sdk, Event, Host}
use debugbundle_python.Suppression.{Aggregate}
use debugbundle_python.Queue.{offer_protected_event}
use debugbundle_python.Queue.Shape.{Fresh}
use debugbundle_python.Flush.Beginning.{begin_flush, idle, started}
use debugbundle_python.Flush.Commit.{commit_flush, returned, committed}
use debugbundle_python.Flush.Commit.Grown.{AllNew, NewReport}
use debugbundle_python.Flush.Finalize.{PolicyHost, finalize_one}
use debugbundle_python.Flush.Finalized.{IsReplacement, in_place}
use debugbundle_python.Flush.Sending.{select_batch, stop, send}
use debugbundle_python.Flush.Downgraded.{Shrinks, Differ}
use debugbundle_python.Flush.Settle.{settle}

-- Where a flush is: it has begun with drops to report, it has finalized the events of `front` and not
-- those of `rest`, or it waits for the answer to a batch.
pub data Phase : Type 0 where
  resting : Phase
  begun : (generation begun_at drops : ℕ) → Phase
  finalizing : (generation : ℕ) → (front rest : List Event) → Phase
  waiting : (generation : ℕ) → List Event → Bool → Phase

-- What the program runs with: the libraries, the ISO format of times, the encoder of events, what is
-- reduced of a rejected event, and the limits of the queue.
pub record Setting : Type 0 where
  pub host : Host
  pub policy : PolicyHost
  pub to_iso : ℕ → String
  pub dumps : Event → List ℕ
  pub reduced : Sdk → Event → Option Event
  pub max_events : ℕ
  pub max_bytes : ℕ

pub data FlushStep (g : Setting) : Phase → Sdk → Phase → Sdk → Type 0 where
  -- A capture offers a new object.
  offer :
      {phase : Phase} {s s' : Sdk} {accepted : Bool} (e : Event) (bytes now monotonic : ℕ)
      → Fresh e.ident s.buffer
      → offer_protected_event g.host s e bytes g.max_events g.max_bytes now monotonic
        ≡ some (s', accepted)
      → FlushStep g phase s phase s'
  -- A call of `flush` that does nothing, and one that begins.
  no_flush :
      {phase : Phase} {s s' : Sdk} (now monotonic : ℕ)
      → begin_flush g.to_iso s g.max_events now monotonic ≡ idle s'
      → FlushStep g phase s phase s'
  begin :
      {phase : Phase} {s s' : Sdk} {aggregates : List Aggregate} {drops : ℕ} (now monotonic : ℕ)
      → begin_flush g.to_iso s g.max_events now monotonic ≡ started s' aggregates drops
      → FlushStep g phase s (begun s'.generation now drops) s'
  -- The summaries that were prepared are offered, and the queue is the batch, or empty.
  commit :
      {generation begun_at drops : ℕ} {s s' : Sdk} {batch : List Event}
      (aggregates : List (Event × ℕ)) (pressure : Option (Event × ℕ)) (now monotonic : ℕ)
      → AllNew aggregates s.buffer
      → NewReport g.host g.max_events g.max_bytes pressure aggregates s.buffer
      → commit_flush g.host g.max_events g.max_bytes s generation aggregates pressure drops begun_at
          now monotonic
        ≡ some (committed s' batch)
      → FlushStep g (begun generation begun_at drops) s (finalizing generation [] batch) s'
  give_up :
      {generation begun_at drops : ℕ} {s s' : Sdk} (aggregates : List (Event × ℕ))
      (pressure : Option (Event × ℕ)) (now monotonic : ℕ)
      → AllNew aggregates s.buffer
      → NewReport g.host g.max_events g.max_bytes pressure aggregates s.buffer
      → commit_flush g.host g.max_events g.max_bytes s generation aggregates pressure drops begun_at
          now monotonic
        ≡ some (returned s')
      → FlushStep g (begun generation begun_at drops) s resting s'
  -- One event of the batch is finalized, with what its hook left of it: no other queued object.
  finalize :
      {generation : ℕ} {front rest : List Event} {s s' : Sdk} {original : Event}
      {kept : Option Event} (replacement : Option (Event × ℕ)) (now : ℕ)
      → nat_eqb generation s.generation ≡ true
      → ((back : List Event)
          → s.buffer ≡ front ++ original ∷ back
          → IsReplacement g.host g.policy g.max_events g.max_bytes front back original 0 s
              replacement)
      → finalize_one g.host g.policy s (length front) original replacement g.max_bytes now
        ≡ some (s', kept)
      → FlushStep g
          (finalizing generation front (original ∷ rest))
          s
          (finalizing generation (front ++ in_place kept []) rest)
          s'
  -- The finalized events are sent, or nothing is left of them.
  select :
      {generation : ℕ} {front batch : List Event} {s s' : Sdk} (http : Bool) (monotonic : ℕ)
      → select_batch g.dumps s generation (some front) http monotonic ≡ send s' batch
      → FlushStep g (finalizing generation front []) s (waiting generation batch http) s'
  leave :
      {generation : ℕ} {front : List Event} {s s' : Sdk} (http : Bool) (monotonic : ℕ)
      → select_batch g.dumps s generation (some front) http monotonic ≡ stop s'
      → FlushStep g (finalizing generation front []) s resting s'
  -- The answer is followed; what is left of a refused event is a new object that is no longer than it.
  answer :
      {generation : ℕ} {batch : List Event} {http : Bool} {s s' : Sdk}
      (response : Option TransportResponse) (now monotonic : ℕ)
      → All (Shrinks g.host g.reduced s.buffer s.buffer_sizes) batch
      → Differ g.host g.reduced s.buffer s.buffer_sizes
      → settle g.host g.reduced s generation batch http response now monotonic ≡ some s'
      → FlushStep g (waiting generation batch http) s resting s'

-- The states that any sequence of steps leads to.
pub data Reach (g : Setting) (s0 : Sdk) : Phase → Sdk → Type 0 where
  start : Reach g s0 resting s0
  later :
      {phase phase' : Phase} {s s' : Sdk}
      → Reach g s0 phase s
      → FlushStep g phase s phase' s'
      → Reach g s0 phase' s'
