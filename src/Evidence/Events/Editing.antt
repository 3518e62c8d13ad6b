-- ===== src/Evidence/Events/Editing.antt =====
-- Objects without some fields and with a field set, as in src/debugbundle/evidence_wire.py.
use debugbundle_python.Prelude.{
  suc, ◌≤◌, ◌≡◌, refl, ap, String, some, true, List, length, contains, arith, leb, string_eq, ◌==◌,
  ==_iff, if◌then◌else◌, inl, inr, Bool-cases, Option-cases,
}
use debugbundle_python.Prelude.Dict
use debugbundle_python.Json.{Json, Fields, null, dict, end, field, entries, get, has}
use debugbundle_python.Evidence.Shapes.{mapping}
use debugbundle_python.Evidence.Events.{without, set_field}

pub get-without :
    (keys : List String) (f : Fields) (k : String)
    → get (without keys f) k ≡ (if contains keys k then null else get f k)
unfolding get without Dict.get
get-without keys end k = ground arith
get-without keys (field j v f) k = elim (Bool-cases (j == k)) [
  | inl same ↦ let e : j ≡ k = (==_iff j k).0 same in ground (arith, get-without keys f k, e, same)
  | inr apart ↦ ground (arith, get-without keys f k, apart)
]

pub get-set_field :
    (f : Fields) (key : String) (v : Json) (k : String)
    → get (set_field f key v) k ≡ (if key == k then v else get f k)
unfolding get set_field Dict.get
get-set_field end key v k = ground arith
get-set_field (field j w f) key v k = elim (Bool-cases (j == key)) [
  | inl same ↦ let e : j ≡ key = (==_iff j key).0 same in rw (same) (rw e (ground arith))
  | inr apart ↦
      ground (arith, get-set_field f key v k, apart, ==_iff j k, ==_iff key k, ==_iff j key)
]

pub set_field-get : (f : Fields) (k : String) → has f k ≡ true → set_field f k (get f k) ≡ f
unfolding get has set_field Dict.get
set_field-get end k h = cc
set_field-get (field j v f) k h = elim (Bool-cases (j == k)) [
  | inl same ↦ rw same refl
  | inr apart ↦ rw apart (ap (field j v) (set_field-get f k (rw apart at h)))
]

pub size-set_field :
    (f : Fields) (k : String) (v : Json)
    → has f k ≡ true
    → length (entries (set_field f k v)) ≡ length (entries f)
unfolding has set_field Dict.get
size-set_field end k v h = cc
size-set_field (field j w f) k v h = elim (Bool-cases (j == k)) [
  | inl same ↦ rw same refl
  | inr apart ↦ rw apart (ap suc (size-set_field f k v (rw apart at h)))
]

pub size-without :
    (keys : List String) (f : Fields) → length (entries (without keys f)) ≤ length (entries f)
unfolding without
size-without keys end = omega arith
size-without keys (field j v f) = ground (arith, size-without keys f)

pub without_idem :
    (keys : List String) (f : Fields) → without keys (without keys f) ≡ without keys f
unfolding without
without_idem keys end = refl
without_idem keys (field j v f) = elim (Bool-cases (contains keys j)) [
  | inl out ↦ rw out (without_idem keys f)
  | inr kept ↦ rw (kept, without) (rw kept (ap (field j v) (without_idem keys f)))
]

-- A field that holds an object is there.
pub has_dict : (f : Fields) (k : String) (p : Fields) → get f k ≡ dict p → has f k ≡ true
unfolding get has Dict.get
has_dict f k p h = elim (Option-cases (Dict.get (entries f) k)) [
  | inl gone ↦ absurd (ground (arith, gone, h))
  | inr (v, found) ↦ rw found refl
]

pub mapping-dict :
    (v : Json) (f : Fields) → mapping v ≡ some f → (v ≡ dict f) × (length (entries f) ≤ 256)
mapping-dict (dict g) f h = elim (Bool-cases (leb (length (entries g)) 256)) [
  | inl fits ↦
      let e : g ≡ f = ground (arith, fits, h) in
      (ap dict e, rw e at (let le : length (entries g) ≤ 256 = ground (arith, fits) in le))
  | inr over ↦ absurd (ground (arith, over, h))
]
mapping-dict _ f h = cc

pub mapping_fits : (f : Fields) → length (entries f) ≤ 256 → mapping (dict f) ≡ some f
mapping_fits f fits = ground (arith, fits)
