-- ===== src/Scopes.antt =====
-- src/debugbundle/scope_ownership.py: the scoped values of a program (contexts or directives) with
-- their leases, in a store under their addresses. `generation` is the SDK's.
pub mod Laws
use debugbundle_python.Prelude.{
  ℕ, ◌+◌, Option, none, some, Bool, true, false, nat_eq, if◌then◌else◌, ◌>>=◌,
}
use debugbundle_python.Prelude.Dict.{Dict, get, put}
use debugbundle_python.Json.{Fields, str, dict, end, field}
use debugbundle_python.Config.Remote.{RemoteProbeDirective}
use debugbundle_python.Ownership.{Owner, Token, Context, alive, find}
use debugbundle_python.Operations.{OperationContexts, OperationHost, begin, finish, is_value, reset}
use debugbundle_python.Prelude.{List}

pub record Lease : Type 0 where
  pub generation : ℕ
  pub parent : Option ℕ
  pub active : Bool
  pub token_id : ℕ
  pub operation : Option Token

-- A `ScopedContext` or `ScopedDirectives`: its value, and the lease of it.
pub record Scoped (V : Type 0) : Type 0 where
  pub value : V
  pub lease : Lease

abbrev pub lease_owner : {V : Type 0} → Scoped V → Owner
lease_owner x = record {
  stamp = x.lease.generation;
  parent = x.lease.parent;
  active = x.lease.active;
  token_id = x.lease.token_id;
}

-- The scoped values that were bound; an address that is not less than `next` is free.
pub record Scopes (V : Type 0) : Type 0 where
  pub store : Dict ℕ (Scoped V)
  pub next : ℕ

module _ {V : Type 0} where
  -- The value of the variable, where it is alive.
  unfoldable pub living : Scopes V → ℕ → Context → Option ℕ
  living s generation c = if alive lease_owner 16 s.store generation c.value then c.value else none

  abbrev pub new_scoped : Scopes V → ℕ → Context → V → Option Token → Scoped V
  new_scoped s generation c value operation = record {
    value = value;
    lease = record {
      generation = generation;
      parent = living s generation c;
      active = true;
      token_id = s.next + 1;
      operation = operation;
    };
  }

  -- `bind_context`, and what `bind_directives` does after `begin`: the state and the variable
  -- after it, with its token.
  unfoldable pub bind : Scopes V → ℕ → Context → V → Option Token → Scopes V × Context × Token
  unfolding living
  bind s generation c value operation = (
    record s {
      store = put s.store s.next (new_scoped s generation c value operation);
      next = s.next + 2;
    },
    record c { value = some s.next },
    record { id = s.next + 1; old = c.value; context = c.id },
  )

  abbrev pub revoke : Scopes V → ℕ → Scopes V
  revoke s k = elim (get s.store k) [
    | none ↦ s
    | some x ↦ record s {
      store = put s.store k (record x { lease = record x.lease { active = false } });
    }
  ]

  abbrev pub operation_of : Scopes V → ℕ → Option Token
  operation_of s k = elim (get s.store k) [ none ↦ none | some x ↦ x.lease.operation ]

  -- `release`, less the end of the operation: what it finds, revokes and resets. `none` is the error of
  -- a reset in another context.
  unfoldable pub release_lease :
      Scopes V → Context → Token → Option (Scopes V × Context × Option Token)
  release_lease s c t = elim (find lease_owner 16 s.store t.id c.value) [
    | none ↦ some (s, c, none)
    | some k ↦ do
      c' ← if is_value c k then reset c t else some c
      some (revoke s k, c', operation_of s k)
  ]

-- `context_value`
unfoldable pub context_value : Scopes Fields → ℕ → Context → Fields
unfolding living
context_value s generation c = elim (living s generation c) [
  | none ↦ end
  | some k ↦ elim (get s.store k) [ none ↦ end | some x ↦ x.value ]
]

-- Both variables of a request, in one context, and its operations.
pub record Request : Type 0 where
  pub operations : OperationContexts
  pub operation : Context
  pub directives : Scopes (List RemoteProbeDirective)
  pub scope : Context

-- `bind_directives`
unfoldable pub bind_directives :
    OperationHost → Request → ℕ → List RemoteProbeDirective → Request × Token
unfolding begin bind
bind_directives h r generation directives =
    let started = begin h r.operations r.operation (dict (field "kind" (str "request") end)) in
    let bound = bind r.directives generation r.scope directives started.2 in
    (
      record {
        operations = started.0;
        operation = started.1;
        directives = bound.0;
        scope = bound.1;
      },
      bound.2,
    )

-- `release` of directives; `none` is the error of a reset in another context, after which the lease of
-- the directives may be revoked.
unfoldable pub release_directives : Request → Token → Option Request
unfolding release_lease finish
release_directives r t = do
  (directives, scope, operation) ← release_lease r.directives r.scope t
  (operations, variable) ← finish r.operations r.operation operation
  some (record {
    operations = operations;
    operation = variable;
    directives = directives;
    scope = scope;
  })
