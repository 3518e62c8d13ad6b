-- ===== src/CanonicalEvent/Owned.antt =====
-- What `own_json` (src/debugbundle/canonical_event.py) lets through.
use debugbundle_python.Prelude.{
  ℕ, suc, zero, ◌+◌, ◌*◌, ◌≤◌, ◌≡◌, refl, ap, ◌∙◌, String, Option, none, some, Bool, true, false,
  ◌||◌, length, ltb, max, arith, ltb→ge, if◌then◌else◌,
}
use debugbundle_python.Prelude.Int.{ℤ, pos, ltb_ℤ, ◌-ℤ◌}
use debugbundle_python.Prelude.Text.{codes}
use debugbundle_python.Json.{
  Json, Items, Fields, null, bool, int, float, str, list, dict, nil, cons, end, field, elements,
  entries,
}
use debugbundle_python.Evidence.Shapes.{WireHost}
use debugbundle_python.CanonicalEvent.{
  Copied, copied, exhausted, invalid, ◌>>=◌, take_node, charge, max_owned_bytes, is_negative,
  is_finite, copy_text, copy_value, copy_items, copy_fields, own_json,
}

-- The values of a document and the keys of its mappings, and how deep it is.
unfoldable mutual
  pub size : Json → ℕ
  size (list items) = suc (size_items items)
  size (dict fields) = suc (size_fields fields)
  size _ = 1

  pub size_items : Items → ℕ
  size_items nil = 0
  size_items (cons x xs) = size x + size_items xs

  pub size_fields : Fields → ℕ
  size_fields end = 0
  size_fields (field key x xs) = suc (size x + size_fields xs)

unfoldable mutual
  pub depth : Json → ℕ
  depth (list items) = depth_items items
  depth (dict fields) = depth_fields fields
  depth _ = 0

  pub depth_items : Items → ℕ
  depth_items nil = 0
  depth_items (cons x xs) = max (suc (depth x)) (depth_items xs)

  pub depth_fields : Fields → ℕ
  depth_fields end = 0
  depth_fields (field key x xs) = max (suc (depth x)) (depth_fields xs)

>>=-eq-copied {ℓ κ} :
    {A : Type ℓ} {B : Type κ} (m : Copied A) (f : ℤ → ℕ → A → Copied B) (r : ℤ) (n : ℕ) (b : B)
    → (m >>= f) ≡ copied r n b
    → (r' : ℤ) × (n' : ℕ) × (a : A) × (m ≡ copied r' n' a) × (f r' n' a ≡ copied r n b)
>>=-eq-copied (copied r' n' a) f r n b e = (r', n', a, refl, e)
>>=-eq-copied exhausted f r n b e = absurd (ground arith)
>>=-eq-copied invalid f r n b e = absurd (ground arith)

-- A guard that ends without a copy was false where there is one.
unless {ℓ} :
    {A : Type ℓ} (b : Bool) (y : Copied A) (r : ℤ) (n : ℕ) (a : A)
    → (if b then exhausted else y) ≡ copied r n a
    → (b ≡ false) × (y ≡ copied r n a)
unless true y r n a e = absurd (ground arith)
unless false y r n a e = (refl, e)

left_false : (b c : Bool) → (b || c) ≡ false → b ≡ false
left_false false c e = refl
left_false true c e = e

take_node-copied {ℓ} :
    {A : Type ℓ} (d : ℕ) (r : ℤ) (n : ℕ) (next : ℕ → Copied A) (r' : ℤ) (n' : ℕ) (a : A)
    → take_node d r n next ≡ copied r' n' a
    → (m : ℕ) × (n ≡ suc m) × (d ≤ 16) × (next m ≡ copied r' n' a)
take_node-copied d r zero next r' n' a e = absurd (ground arith)
take_node-copied d r (suc m) next r' n' a e =
    let (within, made) = unless (ltb 16 d || is_negative r) (next m) r' n' a e in
    (m, refl, ltb→ge 16 d (left_false (ltb 16 d) _ within), made)

-- The guard of a copy that is made holds.
guarded :
    (b : Bool) (m : Copied Json) (r : ℤ) (n : ℕ) (out : Json)
    → (if b then m else invalid) ≡ copied r n out
    → m ≡ copied r n out
guarded true m r n out e = e
guarded false m r n out e = absurd (ground arith)

charge-same :
    (s : String) (r : ℤ) (n : ℕ) (size : Option ℕ) (r' : ℤ) (n' : ℕ) (out : String)
    → charge s r n size ≡ copied r' n' out
    → (out ≡ s) × (n' ≡ n)
charge-same s r n none r' n' out e = absurd (ground arith)
charge-same s r n (some k) r' n' out e =
    let (roomy, e1) = unless (is_negative (r -ℤ pos (k + 2))) _ r' n' out e in
    (ground arith, ground arith)

copy_text-same :
    (h : WireHost) (s : String) (r : ℤ) (n : ℕ) (r' : ℤ) (n' : ℕ) (out : String)
    → copy_text h s r n ≡ copied r' n' out
    → (out ≡ s) × (n' ≡ n)
copy_text-same h s r n r' n' out e =
    let (roomy, e1) = unless (ltb_ℤ r (pos (length (codes s)))) _ r' n' out e in
    charge-same s r n (h.utf8_length s) r' n' out e1

scalar :
    (d n n' : ℕ) (r r' : ℤ) (j out : Json)
    → size j ≡ 1
    → depth j ≡ 0
    → copied r n j ≡ copied r' n' out
    → (out ≡ j) × (n' + size j ≤ n + 1) × (d ≤ 16 → d + depth j ≤ 16)
scalar d n n' r r' j out one flat e = (ground arith, ground arith, λ within. omega arith)

mutual
  unfolding copy_value size depth

  copy_value-same :
      (h : WireHost) (d : ℕ) (j : Json) (r : ℤ) (n : ℕ) (r' : ℤ) (n' : ℕ) (out : Json)
      → copy_value h d j r n ≡ copied r' n' out
      → (out ≡ j) × (n' + size j ≤ n + 1) × (d ≤ 16 → d + depth j ≤ 16)
  copy_value-same h d null r n r' n' out e = scalar d n n' _ r' null out refl refl e
  copy_value-same h d (bool b) r n r' n' out e = scalar d n n' _ r' (bool b) out refl refl e
  copy_value-same h d (int z) r n r' n' out e =
      scalar d n n' _ r' (int z) out refl refl (guarded (is_finite (int z)) _ r' n' out e)
  copy_value-same h d (float x) r n r' n' out e =
      scalar d n n' _ r' (float x) out refl refl (guarded (is_finite (float x)) _ r' n' out e)
  copy_value-same h d (str s) r n r' n' out e =
      let (r1, n1, t, made, e1) = >>=-eq-copied (copy_text h s r n) _ r' n' out e in
      let (same, kept) = copy_text-same h s r n r1 n1 t made in
      let (is_text, fits, level) = scalar d n1 n' r1 r' (str t) out refl refl e1 in
      (is_text ∙ ap str same, omega (arith, fits, kept), level)
  copy_value-same h d (list items) r n r' n' out e =
      let (roomy, e1) = unless (ltb n (length (elements items))) _ r' n' out e in
      let (r1, n1, outs, made, e2) =
        >>=-eq-copied (copy_items h (d + 1) items _ n) _ r' n' out e1 in
      let (same, fits, level) = copy_items-same h d items _ n r1 n1 outs made in
      let shape : out ≡ list outs = ground arith in
      let left : n' ≡ n1 = ground arith in (shape ∙ ap list same, omega (arith, fits, left), level)
  copy_value-same h d (dict fields) r n r' n' out e =
      let (roomy, e1) = unless (ltb n (length (entries fields) * 2)) _ r' n' out e in
      let (r1, n1, outs, made, e2) =
        >>=-eq-copied (copy_fields h (d + 1) fields _ n) _ r' n' out e1 in
      let (same, fits, level) = copy_fields-same h d fields _ n r1 n1 outs made in
      let shape : out ≡ dict outs = ground arith in
      let left : n' ≡ n1 = ground arith in (shape ∙ ap dict same, omega (arith, fits, left), level)

  copy_items-same :
      (h : WireHost) (d : ℕ) (xs : Items) (r : ℤ) (n : ℕ) (r' : ℤ) (n' : ℕ) (outs : Items)
      → copy_items h (d + 1) xs r n ≡ copied r' n' outs
      → (outs ≡ xs) × (n' + size_items xs ≤ n) × (d ≤ 16 → d + depth_items xs ≤ 16)
  copy_items-same h d nil r n r' n' outs e = (ground arith, ground arith, λ within. omega arith)
  copy_items-same h d (cons x xs) r n r' n' outs e =
      let (r1, n1, out, one, e1) =
        >>=-eq-copied (take_node (d + 1) r n (copy_value h (d + 1) x r)) _ r' n' outs e in
      let (m, some_left, within, made) = take_node-copied (d + 1) r n _ r1 n1 out one in
      let (same, fits, level) = copy_value-same h (d + 1) x r m r1 n1 out made in
      let (r2, n2, rest, more, e2) =
        >>=-eq-copied (copy_items h (d + 1) xs r1 n1) _ r' n' outs e1 in
      let (same_rest, fits_rest, level_rest) = copy_items-same h d xs r1 n1 r2 n2 rest more in
      let shape : outs ≡ cons out rest = ground arith in
      let left : n' ≡ n2 = ground arith in
      let deep : d + 1 + depth x ≤ 16 = level within in
      let deep_rest : d + depth_items xs ≤ 16 = level_rest (omega (arith, within)) in
      (cc, omega (arith, fits, fits_rest, left, some_left), λ ok. ground (arith, deep, deep_rest))

  copy_fields-same :
      (h : WireHost) (d : ℕ) (xs : Fields) (r : ℤ) (n : ℕ) (r' : ℤ) (n' : ℕ) (outs : Fields)
      → copy_fields h (d + 1) xs r n ≡ copied r' n' outs
      → (outs ≡ xs) × (n' + size_fields xs ≤ n) × (d ≤ 16 → d + depth_fields xs ≤ 16)
  copy_fields-same h d end r n r' n' outs e = (ground arith, ground arith, λ within. omega arith)
  copy_fields-same h d (field key x xs) r n r' n' outs e =
      let (r0, n0, out, one, e0) =
        >>=-eq-copied (take_node (d + 1) r n (copy_value h (d + 1) x r)) _ r' n' outs e in
      let (m, some_left, within, made) = take_node-copied (d + 1) r n _ r0 n0 out one in
      let (same, fits, level) = copy_value-same h (d + 1) x r m r0 n0 out made in
      let (r1, n1, key', named, e1) =
        >>=-eq-copied (take_node (d + 1) r0 n0 (copy_text h key r0)) _ r' n' outs e0 in
      let (k, key_left, _, key_made) = take_node-copied (d + 1) r0 n0 _ r1 n1 key' named in
      let (same_key, kept) = copy_text-same h key r0 k r1 n1 key' key_made in
      let (r2, n2, rest, more, e2) =
        >>=-eq-copied (copy_fields h (d + 1) xs r1 n1) _ r' n' outs e1 in
      let (same_rest, fits_rest, level_rest) = copy_fields-same h d xs r1 n1 r2 n2 rest more in
      let shape : outs ≡ field key' out rest = ground arith in
      let left : n' ≡ n2 = ground arith in
      let deep : d + 1 + depth x ≤ 16 = level within in
      let deep_rest : d + depth_fields xs ≤ 16 = level_rest (omega (arith, within)) in
      (
        cc,
        omega (arith, fits, fits_rest, left, some_left, key_left, kept),
        λ ok. ground (arith, deep, deep_rest),
      )

-- Where own_json gives a copy, it is equal to the value, which has at most 4096 values and keys and
-- is at most sixteen levels deep.
pub own_json-same :
    (h : WireHost) (value : Json) (r : ℤ) (n : ℕ) (out : Json)
    → own_json h value ≡ copied r n out
    → (out ≡ value) × (size value ≤ 4_096) × (depth value ≤ 16)
unfolding own_json
own_json-same h value r n out e =
    let start : ℤ = pos max_owned_bytes in
    let (m, left, within, made) =
      take_node-copied 0 start 4_096 (copy_value h 0 value start) r n out e in
    let (same, fits, level) = copy_value-same h 0 value start m r n out made in
    (same, omega (arith, left, fits), omega (arith, level within))
