-- ===== src/Evidence/Size.antt =====
-- src/debugbundle/evidence_json.py: the length of the JSON form of a value; 32769 is too much.
use debugbundle_python.Prelude.{
  ℕ, zero, suc, ◌+◌, ◌-◌, ◌/◌, String, Option, none, some, true, false, length, ltb, leb, nat_eqb,
  max, if◌then◌else◌, one_if,
}
use debugbundle_python.Prelude.Int.{ℤ, pos, negsuc}
use debugbundle_python.Json.{
  Json, Fields, Items, finite, null, bool, int, float, str, list, dict, nil, cons, end, field,
  elements, entries,
}
use debugbundle_python.Evidence.Shapes.{WireHost}

abbrev pub over : ℕ
over = 32_769

-- `len(str(n))`, with rounds for at most 16 digits
abbrev decimal_length : ℕ → ℕ → ℕ
decimal_length zero n = 1
decimal_length (suc rounds) n = if ltb n 10 then 1 else suc (decimal_length rounds (n / 10))

abbrev greatest_safe : ℕ
greatest_safe = 9_007_199_254_740_991

-- The length in decimal notation, where the power of ten is from -6 to 20, and else with an exponent.
abbrev shape_length : ℕ → ℤ → ℕ
shape_length digits (negsuc n) =
    if leb (n + 2) 6
    then 2 + (n + 1) + digits
    else digits + one_if (ltb 1 digits) + 2 + decimal_length 16 (n + 2)
shape_length digits (pos position) =
    if nat_eqb position 0
    then 2 + digits
    else if leb position 21
    then max position digits + one_if (ltb position digits)
    else digits + one_if (ltb 1 digits) + 2 + decimal_length 16 (position - 1)

module _ (h : WireHost) where
  -- A finite number that is not a small integer.
  abbrev float_size : Json → Option ℕ
  float_size value = elim (h.number_shape value) [
    | none ↦ none
    | some s ↦
        some
          (if nat_eqb s.digits 0 then 1 else shape_length s.digits s.position + one_if s.negative)
  ]

  -- `_number_size`; `none` is an `OverflowError`.
  unfoldable pub number_size : Json → Option ℕ
  number_size (int (pos n)) =
      if leb n greatest_safe then some (decimal_length 16 n) else float_size (int (pos n))
  number_size (int (negsuc n)) =
      if ltb n greatest_safe
      then some (suc (decimal_length 16 (suc n)))
      else float_size (int (negsuc n))
  number_size (float (finite m e)) = float_size (float (finite m e))
  number_size _ = some over

  -- A size with the values that remain to be counted; `none` is an error, which ends the count.
  abbrev pub Count : Type 0
  Count = Option (ℕ × ℕ)

  abbrev then_count : Count → (ℕ → Count) → Count
  then_count none next = none
  then_count (some (n, remaining)) next = elim (next remaining) [
    | none ↦ none
    | some (m, left) ↦ some (n + m, left)
  ]

  abbrev with_frame : ℕ → Count → Count
  with_frame size none = none
  with_frame size (some (n, remaining)) = some (2 + (size - 1) + n, remaining)

  -- What `count` does before it looks at the value: too deep, or too many values.
  abbrev guarded : ℕ → ℕ → (ℕ → Count) → Count
  guarded depth zero look = some (over, 0)
  guarded depth (suc remaining) look =
      if ltb 16 depth then some (over, remaining) else look remaining

  abbrev sized : Option ℕ → ℕ → Count
  sized none left = none
  sized (some n) left = some (n, left)

  -- `count(key, depth)` of a key
  abbrev count_text : String → ℕ → ℕ → Count
  count_text s depth remaining = guarded depth remaining (sized (h.dumps_length s))

  unfoldable mutual
    unfolding number_size

    pub count : Json → ℕ → ℕ → Count
    count null depth remaining = guarded depth remaining (λ left. some (4, left))
    count (bool true) depth remaining = guarded depth remaining (λ left. some (4, left))
    count (bool false) depth remaining = guarded depth remaining (λ left. some (5, left))
    count (str s) depth remaining = count_text s depth remaining
    count (int z) depth remaining = guarded depth remaining (sized (number_size (int z)))
    count (float f) depth remaining = guarded depth remaining (sized (number_size (float f)))
    count (list items) depth remaining = guarded depth remaining (λ left.
        if leb (length (elements items)) 256
        then with_frame (length (elements items)) (count_items items (depth + 1) left)
        else some (over, left))
    count (dict fields) depth remaining = guarded depth remaining (λ left.
        if leb (length (entries fields)) 256
        then with_frame (length (entries fields)) (count_fields fields (depth + 1) left)
        else some (over, left))

    pub count_items : Items → ℕ → ℕ → Count
    count_items nil depth remaining = some (0, remaining)
    count_items (cons x xs) depth remaining =
        then_count (count x depth remaining) (λ left. count_items xs depth left)

    pub count_fields : Fields → ℕ → ℕ → Count
    count_fields end depth remaining = some (0, remaining)
    count_fields (field key x xs) depth remaining =
        then_count (count_text key depth remaining) (λ left.
          then_count (count x depth left)
            (λ rest. then_count (some (1, rest)) (λ more. count_fields xs depth more)))

  -- `canonical_size`
  unfoldable pub canonical_size : Json → ℕ
  unfolding count
  canonical_size value = elim (count value 0 4_096) [ none ↦ over | some (n, remaining) ↦ n ]
