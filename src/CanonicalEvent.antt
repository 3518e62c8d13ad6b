-- ===== src/CanonicalEvent.antt =====
-- src/debugbundle/canonical_event.py: the copy of a value that is owned, and the numbers and equality
-- of Python on JSON values. CanonicalEvent/Schema has the interpreter of the schema.
pub mod Owned
pub mod Values
pub mod Schema
pub mod Compiled
pub mod Closed
use debugbundle_python.Prelude.{
  ℕ, zero, suc, ◌+◌, ◌-◌, ◌*◌, ◌^◌, ◌%◌, String, Option, none, some, Bool, true, false, not, ◌&&◌,
  ◌||◌, List, [], ◌∷◌, length, leb, ltb, nat_eqb, string_eq, ◌==◌, if◌then◌else◌,
}
use debugbundle_python.Prelude.Int.{ℤ, pos, negsuc, pos_part, neg_part, ◌-ℤ◌, ltb_ℤ}
use debugbundle_python.Prelude.Text.{codes}
use debugbundle_python.Json.{
  Float, Json, Items, Fields, finite, nan, inf, neg_inf, null, bool, int, float, str, list, dict,
  nil, cons, end, field, elements, entries, get, has,
}
use debugbundle_python.Evidence.Shapes.{WireHost, greatest_float}

-- Whether a copy was made, with what is left of bytes and nodes.
pub data Copied {ℓ} (A : Type ℓ) : Type ℓ where
  copied : ℤ → ℕ → A → Copied A
  exhausted invalid : Copied A

infixl 5 ◌>>=◌
abbrev pub ◌>>=◌ {ℓ κ} : {A : Type ℓ} {B : Type κ} → Copied A → (ℤ → ℕ → A → Copied B) → Copied B
copied remaining nodes a >>= f = f remaining nodes a
exhausted >>= f = exhausted
invalid >>= f = invalid

abbrev pub is_negative : ℤ → Bool
is_negative z = ltb_ℤ z (pos 0)

-- `nodes -= 1` with the first guard of `copy`
abbrev pub take_node {ℓ} : {A : Type ℓ} → ℕ → ℤ → ℕ → (ℕ → Copied A) → Copied A
take_node depth remaining zero next = exhausted
take_node depth remaining (suc nodes) next =
    if ltb 16 depth || is_negative remaining then exhausted else next nodes

abbrev pub is_finite : Json → Bool
is_finite (int z) = leb (pos_part z) greatest_float && leb (neg_part z) greatest_float
is_finite (float (finite m e)) =
    leb (pos_part m) (greatest_float * 2 ^ e) && leb (neg_part m) (greatest_float * 2 ^ e)
is_finite _ = false

-- What a text takes of the bytes, with the length of its UTF-8 form
abbrev pub charge : String → ℤ → ℕ → Option ℕ → Copied String
charge s remaining nodes none = invalid
charge s remaining nodes (some n) =
    if is_negative (remaining -ℤ pos (n + 2))
    then exhausted
    else copied (remaining -ℤ pos (n + 2)) nodes s

abbrev pub max_owned_bytes : ℕ
max_owned_bytes = 8_388_608

module _ (h : WireHost) where
  abbrev pub copy_text : String → ℤ → ℕ → Copied String
  copy_text s remaining nodes =
      if ltb_ℤ remaining (pos (length (codes s)))
      then exhausted
      else charge s remaining nodes (h.utf8_length s)

  -- `copy`, after the guard
  unfoldable mutual
    pub copy_value : ℕ → Json → ℤ → ℕ → Copied Json
    copy_value depth null remaining nodes = copied (remaining -ℤ pos 5) nodes null
    copy_value depth (bool b) remaining nodes = copied (remaining -ℤ pos 5) nodes (bool b)
    copy_value depth (str s) remaining nodes =
        copy_text s remaining nodes >>= λ r n t. copied r n (str t)
    copy_value depth (int z) remaining nodes =
        if is_finite (int z) then copied (remaining -ℤ pos 24) nodes (int z) else invalid
    copy_value depth (float x) remaining nodes =
        if is_finite (float x) then copied (remaining -ℤ pos 24) nodes (float x) else invalid
    copy_value depth (list items) remaining nodes =
        if ltb nodes (length (elements items))
        then exhausted
        else copy_items (depth + 1) items (remaining -ℤ pos (2 + length (elements items))) nodes
          >>= λ r n out. copied r n (list out)
    copy_value depth (dict fields) remaining nodes =
        if ltb nodes (length (entries fields) * 2)
        then exhausted
        else copy_fields (depth + 1) fields (remaining -ℤ pos (2 + 2 * length (entries fields)))
            nodes
          >>= λ r n out. copied r n (dict out)

    pub copy_items : ℕ → Items → ℤ → ℕ → Copied Items
    copy_items depth nil remaining nodes = copied remaining nodes nil
    copy_items depth (cons x xs) remaining nodes =
        take_node depth remaining nodes (copy_value depth x remaining) >>= λ r n out.
        copy_items depth xs r n >>= λ r' n' outs. copied r' n' (cons out outs)

    -- `result[copy(key)] = copy(child)`: the value is copied before its key.
    pub copy_fields : ℕ → Fields → ℤ → ℕ → Copied Fields
    copy_fields depth end remaining nodes = copied remaining nodes end
    copy_fields depth (field key x xs) remaining nodes =
        take_node depth remaining nodes (copy_value depth x remaining) >>= λ r n out.
        take_node depth r n (copy_text key r) >>= λ r' n' key'.
        copy_fields depth xs r' n' >>= λ r'' n'' outs. copied r'' n'' (field key' out outs)

  -- `own_json`
  unfoldable pub own_json : Json → Copied Json
  unfolding copy_value ◌-ℤ◌
  own_json value =
      take_node 0 (pos max_owned_bytes) 4_096 (copy_value 0 value (pos max_owned_bytes))
