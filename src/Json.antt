-- ===== src/Json.antt =====
-- The values of `json.loads`: what a Python `object` of a payload may be.
use debugbundle_python.Prelude.{ℕ, String, Option, none, some, List, [], ◌∷◌, Bool, string_eq}
use debugbundle_python.Prelude.Int.{ℤ}
use debugbundle_python.Prelude.Dict
use debugbundle_python.Prelude.Dict.{Dict}

-- A finite float is m / 2 ^ e.
pub data Float : Type 0 where
  finite : ℤ → ℕ → Float
  nan inf neg_inf : Float

mutual
  pub data Json : Type 0 where
    null : Json
    bool : Bool → Json
    int : ℤ → Json
    float : Float → Json
    str : String → Json
    list : Items → Json
    dict : Fields → Json

  pub data Items : Type 0 where
    nil : Items
    cons : Json → Items → Items

  pub data Fields : Type 0 where
    end : Fields
    field : String → Json → Fields → Fields

abbrev pub elements : Items → List Json
elements nil = []
elements (cons x xs) = x ∷ elements xs

abbrev pub entries : Fields → Dict String Json
entries end = []
entries (field k v fs) = (k, v) ∷ entries fs

abbrev pub or_null : Option Json → Json
or_null none = null
or_null (some v) = v

-- `d.get(k)`, which is `None` for a missing key
unfoldable pub get : Fields → String → Json
get d k = or_null (Dict.get (entries d) k)

-- `k in d`
unfoldable pub has : Fields → String → Bool
has d k = Dict.has (entries d) k
