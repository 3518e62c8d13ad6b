-- ===== src/Process/Forked.antt =====
-- What a forked process is left with (src/debugbundle/process_support.py).
use debugbundle_python.Prelude.{
  ℕ, ◌<◌, ◌≡◌, ◌≢◌, refl, ◌+◌, Option-cases, inl, inr, Option, none, some, Bool, true, false, List,
  [], nat_eqb, arith, ==_refl, nat_eq,
}
use debugbundle_python.Diagnostics.Runs.{run-IsValid}
use debugbundle_python.Transport.{TransportResponse}
use debugbundle_python.Sdk.{Sdk, Event, Host}
use debugbundle_python.Ownership.{Context, alive}
use debugbundle_python.Prelude.Dict.{get}
use debugbundle_python.Operations
use debugbundle_python.Scopes
use debugbundle_python.Flush.{rearm}
use debugbundle_python.Flush.Rested.{Resting}
use debugbundle_python.Flush.Settle.{settle}
use debugbundle_python.Process.{
  Process, no_scopes, child, with_transport, forked_sdk, ensure_current_process,
}

module _ (host : Host) (reduced : Sdk → Event → Option Event) (max_events max_bytes : ℕ) where
  -- A child at rest with an empty queue, under the policy of its parent: no operation and no scoped
  -- value of the parent lives in any context, and an answer to a batch of the parent changes nothing.
  pub record IsForked (q r : Process) : Type 0 where
    pub policy : r.sdk.capture_policy ≡ q.sdk.capture_policy
    pub rests : Resting host max_events max_bytes r.sdk
    pub empty : r.sdk.buffer ≡ []
    pub later : q.sdk.generation < r.sdk.generation
    pub no_operation : (c : Context) → Operations.current r.operations c ≡ none
    pub no_values :
        (generation : ℕ) (c : Context)
        → (Scopes.living r.scoped_context generation c ≡ none)
          × (Scopes.living r.request_trigger_directives generation c ≡ none)
    pub stale :
        (batch : List Event) (http : Bool) (response : Option TransportResponse) (now monotonic : ℕ)
        → settle host reduced r.sdk q.sdk.generation batch http response now monotonic ≡ some r.sdk
    pub reset : (r.remote_config_snapshot ≡ none) × (r.probe_labels ≡ [])

  no_operation-current : (c : Context) → Operations.current Operations.no_operations c ≡ none
  unfolding Operations.current alive get
  no_operation-current c = elim (Option-cases c.value) [
    | inl unset ↦ rw unset refl
    | inr (k, set) ↦ rw set refl
  ]

  no_scopes-living :
      (V : Type 0) (generation : ℕ) (c : Context)
      → Scopes.living (no_scopes {V = V}) generation c ≡ none
  unfolding Scopes.living alive get
  no_scopes-living V generation c = elim (Option-cases c.value) [
    | inl unset ↦ rw unset refl
    | inr (k, set) ↦ rw set refl
  ]

  -- The answer is of an older generation, and nothing is queued.
  settle_forked :
      (s : Sdk) (transport : Option Bool) (batch : List Event) (http : Bool)
      (response : Option TransportResponse) (now monotonic : ℕ)
      → settle host reduced
          (record (forked_sdk s) { transport = transport })
          s.generation
          batch
          http
          response
          now
          monotonic
        ≡ some (record (forked_sdk s) { transport = transport })
  unfolding settle rearm
  settle_forked s transport batch http response now monotonic =
      let old : nat_eqb s.generation (s.generation + 1) ≡ false = ground arith in
      rw (old, settle) refl

  child-IsForked : (pid : ℕ) (q : Process) (made : Bool) → IsForked q (child q pid made)
  unfolding debugbundle_python.Diagnostics.Runs.run
  child-IsForked pid q made = on q.http made
    where
      with_any :
          (transport : Option Bool)
          → IsForked q (record (child q pid made) {
            sdk = record (forked_sdk q.sdk) { transport = transport };
          })
      with_any transport = record {
        policy = refl;
        rests = record {
          sized = record {
            distinct = tt;
            known = tt;
            bytes = refl;
            few = omega arith;
            within = omega arith;
          };
          valid = run-IsValid host.json [];
          idle = refl;
          landed = refl;
        };
        empty = refl;
        later = omega arith;
        no_operation = no_operation-current;
        no_values =
            λ generation c. (no_scopes-living _ generation c, no_scopes-living _ generation c);
        stale = λ batch http response now monotonic.
            settle_forked q.sdk transport batch http response now monotonic;
        reset = (refl, refl);
      }

      on :
          (http could : Bool)
          → IsForked q
              (record (child q pid made) { sdk = with_transport http could (forked_sdk q.sdk) })
      on false could = with_any q.sdk.transport
      on true true = with_any (some true)
      on true false = with_any none

  -- In a process with another id, the SDK keeps its capture policy, has a later generation, and is
  -- at rest: an empty queue, a valid budget and no flush under way; no operation and no scoped
  -- value lives in any context, there are no probe buffers and no remote configuration, and an
  -- answer to a batch of the parent changes nothing; whether a transport can be made or not; and a
  -- second call in that process changes nothing.
  pub ensure_current_process-IsForked :
      (pid : ℕ) (q : Process) (made again : Bool)
      → q.pid ≢ pid
      → IsForked q (ensure_current_process q pid made)
        × (ensure_current_process (ensure_current_process q pid made) pid again
            ≡ ensure_current_process q pid made)
  unfolding ensure_current_process
  ensure_current_process-IsForked pid q made again other =
      let apart : nat_eqb q.pid pid ≡ false = ground (arith, other) in
      rw (apart, ensure_current_process) (child-IsForked pid q made, rw (==_refl pid) refl)
