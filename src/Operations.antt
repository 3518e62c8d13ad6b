-- ===== src/Operations.antt =====
-- src/debugbundle/operation_context.py: the operations of a program, in a store under their addresses;
-- the context variable holds an address. `none` of `end` is the error of a reset in another context.
pub mod Valid
pub mod Laws
pub mod Runs
pub mod Ended
pub mod Stacks
use debugbundle_python.Prelude.{
  ℕ, suc, ◌+◌, ◌-◌, ◌*◌, ◌^◌, String, Option, none, some, Bool, true, false, not, ◌&&◌, ◌||◌, List,
  [], ◌∷◌, contains, leb, nat_eqb, string_eq, nat_eq, ◌==◌, if◌then◌else◌, ◌>>=◌, or_else,
}
use debugbundle_python.Prelude.Int.{pos}
use debugbundle_python.Prelude.Dict.{Dict, get, put}
use debugbundle_python.Json
use debugbundle_python.Json.{Json, Fields, Float, finite, null, int, float, str, dict, end, field}
use debugbundle_python.Ownership.{Owner, Token, Context, alive, find, depth}

pub record Operation : Type 0 where
  pub revision : ℕ
  pub scope : Fields
  pub kind : String
  pub name : Option String
  pub limit : Option Json
  pub started : ℕ
  pub parent : Option ℕ
  pub active : Bool
  pub token_id : ℕ

abbrev pub owner_of : Operation → Owner
owner_of o = record {
  stamp = o.revision;
  parent = o.parent;
  active = o.active;
  token_id = o.token_id;
}

-- The operations that were begun; an address that is not less than `next` is free.
pub record OperationContexts : Type 0 where
  pub store : Dict ℕ Operation
  pub revision : ℕ
  pub next : ℕ

abbrev pub no_operations : OperationContexts
no_operations = record { store = []; revision = 0; next = 0 }

unfoldable pub clear : OperationContexts → OperationContexts
clear s = record s { revision = s.revision + 1 }

unfoldable pub current : OperationContexts → Context → Option ℕ
current s c = if alive owner_of 16 s.store s.revision c.value then c.value else none

abbrev kinds : List String
kinds = "request" ∷ "command" ∷ "job" ∷ "unknown" ∷ []

abbrev pub kind_of : Json → String
kind_of (str s) = if contains kinds s then s else "unknown"
kind_of _ = "unknown"

-- 1.7976931348623157e308, the greatest float
abbrev greatest_float : ℕ
greatest_float = (2 ^ 53 - 1) * 2 ^ 971

abbrev pub limit_of : Json → Option Json
limit_of (int (pos n)) = if leb n greatest_float then some (int (pos n)) else none
limit_of (float (finite (pos m) e)) = some (float (finite (pos m) e))
limit_of _ = none

abbrev pub values_of : Json → Fields
values_of (dict options) = options
values_of _ = end

-- What the program takes from libraries: `str.strip`, the length of `str.encode` or its error, the
-- UUID of an operation, and `time.monotonic`, in milliseconds.
pub record OperationHost : Type 0 where
  pub strip : String → String
  pub utf8_length : String → Option ℕ
  pub operation_id : String
  pub monotonic : ℕ

module _ (h : OperationHost) where
  -- The outer `none` is the error of `str.encode`.
  abbrev pub name_of : Json → Option (Option String)
  name_of (str s) = if h.strip s == "" then some none else elim (h.utf8_length s) [
    | none ↦ none
    | some n ↦ some (if leb n 128 then some s else none)
  ]
  name_of _ = some none

  -- The operation that `begin` makes.
  abbrev pub new_operation : OperationContexts → Context → Json → Option String → Operation
  new_operation s c options name = record {
    revision = s.revision;
    scope = field "kind" (str "operation") (field "operation_id" (str h.operation_id) end);
    kind = kind_of (Json.get (values_of options) "kind");
    name = name;
    limit = limit_of (Json.get (values_of options) "limit_ms");
    started = h.monotonic;
    parent = current s c;
    active = true;
    token_id = s.next + 1;
  }

  -- The state and the variable after `begin`, with its token.
  abbrev pub started :
      OperationContexts → Context → Json → Option String → OperationContexts × Context × Token
  started s c options name = (
    record s { store = put s.store s.next (new_operation s c options name); next = s.next + 2 },
    record c { value = some s.next },
    record { id = s.next + 1; old = c.value; context = c.id },
  )

  unfoldable pub begin :
      OperationContexts → Context → Json → OperationContexts × Context × Option Token
  unfolding current
  begin s c options = elim (name_of (Json.get (values_of options) "name")) [
    | none ↦ (s, c, none)
    | some name ↦ elim (depth owner_of 16 s.store (current s c)) [
      | none ↦ (s, c, none)
      | some d ↦
          if leb 15 d
          then (s, c, none)
          else let r = started s c options name in (r.0, r.1, some r.2)
    ]
  ]

  -- `snapshot`
  unfoldable pub snapshot : OperationContexts → Context → Option Json
  unfolding current
  snapshot s c = do
    k ← current s c
    o ← get s.store k
    some (
        dict (
          field "version" (int (pos 1)) (
            field "kind" (str o.kind) (
              field "name" (elim o.name [ none ↦ null | some name ↦ str name ])
                (field "elapsed_ms" (int (pos (h.monotonic - o.started)))
                  (field "limit_ms" (or_else o.limit null) end))))))

-- `ContextVar.reset`, of a token that was not used
abbrev pub reset : Context → Token → Option Context
reset c t = if nat_eqb t.context c.id then some (record c { value = t.old }) else none

abbrev pub is_value : Context → ℕ → Bool
is_value c k = elim c.value [ none ↦ false | some j ↦ nat_eqb j k ]

abbrev pub deactivate : OperationContexts → ℕ → OperationContexts
deactivate s k = elim (get s.store k) [
  | none ↦ s
  | some o ↦ record s { store = put s.store k (record o { active = false }) }
]

unfoldable pub finish :
    OperationContexts → Context → Option Token → Option (OperationContexts × Context)
finish s c none = some (s, c)
finish s c (some t) = elim (find owner_of 16 s.store t.id c.value) [
  | none ↦ some (s, c)
  | some k ↦ do c' ← if is_value c k then reset c t else some c; some (deactivate s k, c')
]

-- `context`: an error of `end` is dropped.
abbrev pub leave : OperationContexts → Context → Option Token → OperationContexts × Context
leave s c token = or_else (finish s c token) (s, c)
