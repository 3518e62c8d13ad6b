-- ===== src/Flush/Apart.antt =====
-- Lists of queued events that hold no object in common, and sizes that stay
-- (src/debugbundle/flush_delivery.py).
use debugbundle_python.Prelude.{
  ℕ, ◌≡◌, refl, List, [], ◌∷◌, ◌++◌, arith, nat_eq, sum_map, All, inl, inr, Option-cases, get_elem?,
}
use debugbundle_python.Prelude.Dict.{Dict, get}
use debugbundle_python.Sdk.{Event}
use debugbundle_python.Queue.Shape.{Fresh, Known, size_at}
use debugbundle_python.Flush.{pick}

pub All-map {μ ν} :
    {P : Event → Type μ} {Q : Event → Type ν} (xs : List Event)
    → ((x : Event) → P x → Q x)
    → All P xs
    → All Q xs
All-map [] f a = tt
All-map (x ∷ xs) f a = (f x a.0, All-map xs f a.1)

pub All-zip {μ ν} :
    (P : Event → Type μ) (Q : Event → Type ν) (xs : List Event)
    → All P xs
    → All Q xs
    → All (λ x. P x × Q x) xs
All-zip P Q [] a b = tt
All-zip P Q (x ∷ xs) a b = ((a.0, b.0), All-zip P Q xs a.1 b.1)

none-Fresh : (ys : List Event) → All (λ y. Fresh y.ident []) ys
none-Fresh [] = tt
none-Fresh (y ∷ ys) = (tt, none-Fresh ys)

cons-Fresh :
    (e : Event) (xs ys : List Event)
    → Fresh e.ident ys
    → All (λ y. Fresh y.ident xs) ys
    → All (λ y. Fresh y.ident (e ∷ xs)) ys
cons-Fresh e xs [] f a = tt
cons-Fresh e xs (y ∷ ys) f a = ((ground (arith, f.0), a.0), cons-Fresh e xs ys f.1 a.1)

-- Where no event of one list is in the other, none of the other is in it.
pub Fresh-swap :
    (xs ys : List Event) → All (λ x. Fresh x.ident ys) xs → All (λ y. Fresh y.ident xs) ys
Fresh-swap [] ys a = none-Fresh ys
Fresh-swap (e ∷ xs) ys a = cons-Fresh e xs ys a.0 (Fresh-swap xs ys a.1)

-- Events whose sizes stay
pub sizes_kept :
    (sizes sizes' : Dict ℕ ℕ) (es : List Event)
    → All (λ e. get sizes' e.ident ≡ get sizes e.ident) es
    → (sum_map (size_at sizes') es ≡ sum_map (size_at sizes) es)
      × (Known sizes es → Known sizes' es)
sizes_kept sizes sizes' [] a = (refl, λ k. tt)
sizes_kept sizes sizes' (e ∷ es) a =
    let (same, keep) = sizes_kept sizes sizes' es a.1 in
    (rw (a.0, same) refl, λ k. (rw a.0 k.0, keep k.1))

pub pick-append :
    (batch : List Event) (is js : List ℕ) → pick batch (is ++ js) ≡ pick batch is ++ pick batch js
pick-append batch [] js = refl
pick-append batch (i ∷ is) js = elim (Option-cases (get_elem? batch i)) [
  | inl out ↦ rw (out, pick) (pick-append batch is js)
  | inr (e, found) ↦ rw (found, pick) (rw (pick-append batch is js) refl)
]
