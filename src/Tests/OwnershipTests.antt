-- ===== src/Tests/OwnershipTests.antt =====
-- Runs of src/debugbundle/operation_context.py and src/debugbundle/scope_ownership.py.
use debugbundle_python.Prelude.{
  ℕ, ◌≡◌, ◌≢◌, ◌↔◌, refl, nat_eq, String, Option, none, some, true, false, List, [], ◌∷◌, ltb,
  if◌then◌else◌, arith, length, contains,
}
use debugbundle_python.Prelude.Dict.{get, put}
use debugbundle_python.Json.{Json, Fields, str, dict, end, field}
use debugbundle_python.Ownership.{Token, Context, find}
use debugbundle_python.Operations.{
  Operation, OperationContexts, OperationHost, new_operation, no_operations, owner_of, clear,
  current, begin, finish,
}
use debugbundle_python.Operations.Valid.{IsValid}
use debugbundle_python.Operations.Laws.{IsCurrent, current_iff, Restores, finish-begin}
use debugbundle_python.Operations.Runs.{Reached, start, begun}
use debugbundle_python.Operations.Ended.{by_clear, now, then_begun, Ends-current}
use debugbundle_python.Operations.Stacks.{Stands, push, Ending, begin-Stands}
use debugbundle_python.Scopes.{Scopes, living, bind, release_lease}
use debugbundle_python.Scopes.Laws.{living-bind, release-bind}

abbrev h : OperationHost
h = record {
  strip = λ s. s;
  utf8_length = λ s. some 3;
  operation_id = "123e4567-e89b-42d3-a456-426614174000";
  monotonic = 5;
}

abbrev job : Json
job = dict (field "kind" (str "job") end)

abbrev main : Context
main = record { id = 1; value = none }

-- One job, and the same state when it is over.
abbrev in_job : OperationContexts × Context × Option Token
in_job = begin h no_operations main job

main-IsValid : IsValid no_operations
main-IsValid = record { stored = tt }

in_job-Reached : Reached in_job.0 in_job.1
in_job-Reached = begun h job (start 1)

abbrev the_job : Operation
the_job = new_operation h no_operations main job none

in_job_stored : get in_job.0.store 0 ≡ some the_job
unfolding begin debugbundle_python.Json.get get debugbundle_python.Ownership.depth
    debugbundle_python.Ownership.alive put
in_job_stored = refl

-- The job is cleared, and another one is begun in its context.
Ends-current_example : current (begin h (clear in_job.0) in_job.1 job).0 main ≢ some 0
Ends-current_example =
    Ends-current 0 the_job main in_job-Reached in_job_stored by_clear
      (then_begun h in_job.1 job now)

current_iff_example :
    (current in_job.0 in_job.1 ≡ some 0) ↔ ((in_job.1.value ≡ some 0) × IsCurrent in_job.0 (some 0))
current_iff_example = current_iff in_job.0 in_job.1 0

abbrev job_token : Token
job_token = record { id = 1; old = none; context = 1 }

in_job_token : in_job ≡ (in_job.0, in_job.1, some job_token)
unfolding begin debugbundle_python.Json.get get debugbundle_python.Ownership.depth
    debugbundle_python.Ownership.alive
in_job_token = refl

finish-begin_example : Restores h no_operations main in_job.0 in_job.1 job_token
finish-begin_example =
    finish-begin h no_operations main job in_job.0 in_job.1 job_token main-IsValid tt in_job_token

-- The job ends while a copy of its context is left.
abbrev after_job : OperationContexts
after_job = record {
  store =
      (
        0,
        record {
          revision = 0;
          scope = field "kind" (str "operation") (field "operation_id" (str h.operation_id) end);
          kind = "job";
          name = none;
          limit = none;
          started = 5;
          parent = none;
          active = false;
          token_id = 1;
        },
      )
      ∷ [];
  revision = 0;
  next = 2;
}

abbrev copy : Context
copy = record { id = 2; value = some 0 }

job_found : find owner_of 16 in_job.0.store job_token.id in_job.1.value ≡ some 0
unfolding find begin debugbundle_python.Json.get get debugbundle_python.Ownership.depth
    debugbundle_python.Ownership.alive debugbundle_python.Prelude.Dict.put
job_found = refl

job_ends : finish in_job.0 in_job.1 (some job_token) ≡ some (after_job, main)
unfolding finish find begin debugbundle_python.Json.get get debugbundle_python.Ownership.depth
    debugbundle_python.Ownership.alive debugbundle_python.Prelude.Dict.put contains
job_ends = refl

abbrev no_scopes : Scopes Fields
no_scopes = record { store = []; next = 0 }

living-bind_example :
    living (bind no_scopes 1 main end none).0 1 (bind no_scopes 1 main end none).1
    ≡ (if ltb (length {A = ℕ} []) 15 then some 0 else none)
living-bind_example = living-bind no_scopes 1 main end none [] tt tt tt tt (omega arith)

release-bind_example :
    (s' : Scopes Fields) × (release_lease
        (bind no_scopes 1 main end none).0
        (bind no_scopes 1 main end none).1
        (bind no_scopes 1 main end none).2
      ≡ some (s', main, none))
    × ((later : ℕ) → living s' later main ≡ living no_scopes later main)
release-bind_example = release-bind no_scopes 1 main end none tt tt

nothing-Stands : Stands no_operations main []
unfolding current debugbundle_python.Ownership.alive
nothing-Stands = record {
  valid = main-IsValid;
  inside = tt;
  chain = tt;
  live = tt;
  room = omega arith;
}

begin-Stands_example :
    Stands in_job.0 in_job.1 (push 0 [])
    × ((t : Token) → in_job.2 ≡ some t → Ending in_job.0 in_job.1 t main [])
    × Stands (clear no_operations) main []
unfolding debugbundle_python.Json.get get
begin-Stands_example = begin-Stands h no_operations main job [] nothing-Stands refl
