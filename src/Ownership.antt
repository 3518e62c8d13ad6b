-- ===== src/Ownership.antt =====
-- The owners of operations and of scoped values: the loops over a chain of parents that
-- src/debugbundle/operation_context.py and src/debugbundle/scope_ownership.py share. An owner is
-- an object in a store, under its address.
pub mod Chains
use debugbundle_python.Prelude.{
  ℕ, zero, suc, ◌+◌, Option, none, some, Bool, true, false, ◌&&◌, nat_eqb, nat_eq, if◌then◌else◌,
}
use debugbundle_python.Prelude.Dict.{Dict, get}

-- What an operation and a lease have in common; `stamp` is the revision or the generation.
pub record Owner : Type 0 where
  pub stamp : ℕ
  pub parent : Option ℕ
  pub active : Bool
  pub token_id : ℕ

-- A `Token` of a context variable: the value before, and the context that it belongs to.
pub record Token : Type 0 where
  pub id : ℕ
  pub old : Option ℕ
  pub context : ℕ

-- A context with the value of the variable in it.
pub record Context : Type 0 where
  pub id : ℕ
  pub value : Option ℕ

module _ {A : Type 0} (owner : A → Owner) where
  -- `for _ in range(rounds)`: whether the chain ends, each owner active and of the stamp.
  unfoldable pub alive : ℕ → Dict ℕ A → ℕ → Option ℕ → Bool
  alive zero store stamp cursor = false
  alive (suc rounds) store stamp none = true
  alive (suc rounds) store stamp (some k) = elim (get store k) [
    | none ↦ false
    | some a ↦
        (owner a).active
        && nat_eqb (owner a).stamp stamp
        && alive rounds store stamp (owner a).parent
  ]

  -- `for _ in range(rounds)`: the first owner of the chain with the token.
  unfoldable pub find : ℕ → Dict ℕ A → ℕ → Option ℕ → Option ℕ
  find zero store token cursor = none
  find (suc rounds) store token none = none
  find (suc rounds) store token (some k) = elim (get store k) [
    | none ↦ none
    | some a ↦
        let rest = find rounds store token (owner a).parent in
        if nat_eqb (owner a).token_id token then some k else rest
  ]

  -- `while ancestor is not None: depth += 1`; `none` is that the rounds do not reach the end.
  unfoldable pub depth : ℕ → Dict ℕ A → Option ℕ → Option ℕ
  depth rounds store none = some 0
  depth zero store (some k) = none
  depth (suc rounds) store (some k) = elim (get store k) [
    | none ↦ none
    | some a ↦ elim (depth rounds store (owner a).parent) [ none ↦ none | some d ↦ some (d + 1) ]
  ]
