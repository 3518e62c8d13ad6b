-- ===== src/Prelude/Branches.antt =====
-- What the result of an `if` says of its test.
use mathlib.Core.Path.{◌≡◌, refl}
use mathlib.Core.Logic.{◌⊎◌, inl, inr}
use mathlib.Core.Bool.{Bool, true, false, ◌||◌}
use mathlib.Core.Option.{Option, none, some}
use debugbundle_python.Prelude.Tests.{if◌then◌else◌}

-- Which branch gave the result
pub either {ℓ} :
    {A : Type ℓ} (b : Bool) (x y z : A)
    → (if b then x else y) ≡ z
    → ((b ≡ true) × (x ≡ z)) ⊎ ((b ≡ false) × (y ≡ z))
either true x y z e = inl (refl, e)
either false x y z e = inr (refl, e)

-- A result that is there comes from the branch that is not `none`.
pub kept {ℓ} :
    {A : Type ℓ} (b : Bool) (x : Option A) (y : A)
    → (if b then x else none) ≡ some y
    → (b ≡ true) × (x ≡ some y)
kept true x y e = (refl, e)
kept false x y e = absurd (cc)

pub unless {ℓ} :
    {A : Type ℓ} (b : Bool) (x : Option A) (y : A)
    → (if b then none else x) ≡ some y
    → (b ≡ false) × (x ≡ some y)
unless false x y e = (refl, e)
unless true x y e = absurd (cc)

pub or_true : (a b : Bool) → b ≡ true → (a || b) ≡ true
or_true true b e = refl
or_true false b e = e
