-- ===== src/Prelude/Text.antt =====
-- Texts as lists of code points, with the Python methods on them that the program uses.
use Prim.Native.Char.{code}
use Prim.Native.Nat.{ℕ}
use Prim.Native.String.{String}
use mathlib.Core.Bool.{Bool, true, false, ◌&&◌, ◌||◌}
use mathlib.Core.List.{List, [], ◌∷◌}
use mathlib.Core.Option.{Option, none, some}
use debugbundle_python.Prelude.Tests.{nat_eqb, if◌then◌else◌}

abbrev pub codes : String → List ℕ
codes String.[] = []
codes (String.◌∷◌ c s) = code c ∷ codes s

abbrev pub same_codes : List ℕ → List ℕ → Bool
same_codes [] [] = true
same_codes (c ∷ cs) (d ∷ ds) = nat_eqb c d && same_codes cs ds
same_codes _ _ = false

-- `cs.startswith(prefix)`
abbrev pub starts_with : List ℕ → List ℕ → Bool
starts_with cs [] = true
starts_with [] (p ∷ ps) = false
starts_with (c ∷ cs) (p ∷ ps) = nat_eqb c p && starts_with cs ps

-- `c in cs`
abbrev pub has_code : List ℕ → ℕ → Bool
has_code [] c = false
has_code (d ∷ cs) c = nat_eqb d c || has_code cs c

-- The text before its last characters, where it ends with these two, or with this one.
abbrev pub without_end : ℕ → ℕ → List ℕ → Option (List ℕ)
without_end p q [] = none
without_end p q (c ∷ []) = none
without_end p q (c ∷ d ∷ []) = if nat_eqb c p && nat_eqb d q then some [] else none
without_end p q (c ∷ d ∷ e ∷ cs) =
    let rest = without_end p q (d ∷ e ∷ cs) in
    elim rest [ none ↦ none | some front ↦ some (c ∷ front) ]

abbrev pub without_last : ℕ → List ℕ → Option (List ℕ)
without_last p [] = none
without_last p (c ∷ []) = if nat_eqb c p then some [] else none
without_last p (c ∷ d ∷ cs) =
    let rest = without_last p (d ∷ cs) in elim rest [ none ↦ none | some front ↦ some (c ∷ front) ]

-- `s[:-1] + "+00:00" if s.endswith("Z")`
unfoldable pub with_utc : String → String
with_utc String.[] = ""
with_utc (String.◌∷◌ c String.[]) =
    if nat_eqb (code c) b'Z' then "+00:00" else String.◌∷◌ c String.[]
with_utc (String.◌∷◌ c (String.◌∷◌ d s)) = String.◌∷◌ c (with_utc (String.◌∷◌ d s))

-- `part in cs`
abbrev pub holds : List ℕ → List ℕ → Bool
holds part [] = starts_with [] part
holds part (c ∷ cs) = starts_with (c ∷ cs) part || holds part cs
