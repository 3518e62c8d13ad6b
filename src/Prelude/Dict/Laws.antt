-- ===== src/Prelude/Dict/Laws.antt =====
-- Laws of `put` and `remove`: the keys stay unique, and how sums and lengths change.
use Prim.Native.Nat.{ℕ, ◌+◌, ◌≤◌}
use mathlib.Core.Path.{◌≡◌, refl, sym, subst}
use mathlib.Core.Logic.{inl, inr}
use mathlib.Core.Bool.{Bool, false}
use mathlib.Core.Option.{Option, none, some}
use mathlib.Core.List.{[], ◌∷◌}
use native.Mathlib.Omega.{arith}
use debugbundle_python.Prelude.Tests.{Key, ◌==◌, if◌then◌else◌, Bool-cases, Option-cases}
use debugbundle_python.Prelude.Lists.{length}
use debugbundle_python.Prelude.Dict.{
  Dict, get, put, remove, retain, UniqueKeys, total, AllEntries, get-put, get-remove_ne,
}

-- What an entry that may be missing adds to a sum, or to the length.
abbrev pub share {μ} : {A : Type μ} → (A → ℕ) → Option A → ℕ
share f none = 0
share f (some v) = f v

abbrev pub vacancy {μ} : {A : Type μ} → Option A → ℕ
vacancy none = 1
vacancy (some v) = 0

module _ {ℓ κ} {K : Type ℓ} {V : Type κ} ⦃e : Key K⦄ where
  pub get-put_self : (d : Dict K V) (k : K) (v : V) → get (put d k v) k ≡ some v
  get-put_self d k v = ground (arith, get-put d k v k, e.same_iff k k)

  pub get-remove_self : (d : Dict K V) (k : K) → UniqueKeys d → get (remove d k) k ≡ none
  unfolding get remove
  get-remove_self [] k u = refl
  get-remove_self ((i, w) ∷ d) k u = ground (arith, get-remove_self d k u.1, e.same_iff i k)

  pub get-remove :
      (d : Dict K V) (k j : K)
      → UniqueKeys d
      → get (remove d k) j ≡ (if k == j then none else get d j)
  get-remove d k j u = ground (arith, get-remove_ne d k j, get-remove_self d k u, e.same_iff k j)

  pub UniqueKeys-put : (d : Dict K V) (k : K) (v : V) → UniqueKeys d → UniqueKeys (put d k v)
  unfolding get put
  UniqueKeys-put [] k v u = (refl, tt)
  UniqueKeys-put ((i, w) ∷ d) k v u =
      ground (arith, get-put d k v i, UniqueKeys-put d k v u.1, e.same_iff i k, e.same_iff k i)

  pub UniqueKeys-remove : (d : Dict K V) (k : K) → UniqueKeys d → UniqueKeys (remove d k)
  unfolding get remove
  UniqueKeys-remove [] k u = tt
  UniqueKeys-remove ((i, w) ∷ d) k u =
      ground
        (arith, get-remove d k i u.1, UniqueKeys-remove d k u.1, e.same_iff i k, e.same_iff k i)

  module _ (f : K → V → ℕ) where
    pub total-put_new :
        (d : Dict K V) (k : K) (v : V) → get d k ≡ none → total f (put d k v) ≡ total f d + f k v
    unfolding get put
    total-put_new [] k v h = omega arith
    total-put_new ((i, w) ∷ d) k v h = ground (arith, total-put_new d k v)

    pub total-put_old :
        (d : Dict K V) (k : K) (v w : V)
        → get d k ≡ some w
        → total f (put d k v) + f k w ≡ total f d + f k v
    unfolding get put
    total-put_old [] k v w h = ground arith
    total-put_old ((i, x) ∷ d) k v w h = ground (arith, total-put_old d k v w, e.same_iff i k)

    pub total-remove :
        (d : Dict K V) (k : K) (w : V) → get d k ≡ some w → total f (remove d k) + f k w ≡ total f d
    unfolding get remove
    total-remove [] k w h = ground arith
    total-remove ((i, x) ∷ d) k w h = ground (arith, total-remove d k w, e.same_iff i k)

  pub remove_absent : (d : Dict K V) (k : K) → get d k ≡ none → remove d k ≡ d
  unfolding get remove
  remove_absent [] k h = refl
  remove_absent ((i, x) ∷ d) k h = ground (arith, remove_absent d k)

  pub length-put_new :
      (d : Dict K V) (k : K) (v : V) → get d k ≡ none → length (put d k v) ≡ length d + 1
  unfolding get put
  length-put_new [] k v h = omega arith
  length-put_new ((i, w) ∷ d) k v h = ground (arith, length-put_new d k v)

  pub length-put_old :
      (d : Dict K V) (k : K) (v w : V) → get d k ≡ some w → length (put d k v) ≡ length d
  unfolding get put
  length-put_old [] k v w h = ground arith
  length-put_old ((i, x) ∷ d) k v w h = ground (arith, length-put_old d k v w)

  pub length-put-le : (d : Dict K V) (k : K) (v : V) → length (put d k v) ≤ length d + 1
  unfolding put
  length-put-le [] k v = omega arith
  length-put-le ((i, w) ∷ d) k v = ground (arith, length-put-le d k v)

  pub length-remove-le : (d : Dict K V) (k : K) → length (remove d k) ≤ length d
  unfolding remove
  length-remove-le [] k = omega arith
  length-remove-le ((i, x) ∷ d) k = ground (arith, length-remove-le d k)

  pub length-remove_old :
      (d : Dict K V) (k : K) (w : V) → get d k ≡ some w → length (remove d k) + 1 ≡ length d
  unfolding get remove
  length-remove_old [] k w h = ground arith
  length-remove_old ((i, x) ∷ d) k w h = ground (arith, length-remove_old d k w)

  module _ {μ} (P : K → V → Type μ) where
    pub AllEntries-put :
        (d : Dict K V) (k : K) (v : V) → AllEntries P d → P k v → AllEntries P (put d k v)
    unfolding put
    AllEntries-put [] k v a p = (p, tt)
    AllEntries-put ((i, w) ∷ d) k v a p = elim (Bool-cases (i == k)) [
      | inl same ↦ rw same (subst (λ x. P x v) (sym ((e.same_iff i k).0 same)) p, a.1)
      | inr other ↦ rw other (a.0, AllEntries-put d k v a.1 p)
    ]

    pub AllEntries-remove : (d : Dict K V) (k : K) → AllEntries P d → AllEntries P (remove d k)
    unfolding remove
    AllEntries-remove [] k a = tt
    AllEntries-remove ((i, w) ∷ d) k a = elim (Bool-cases (i == k)) [
      | inl same ↦ rw same a.1
      | inr other ↦ rw other (a.0, AllEntries-remove d k a.1)
    ]

    pub AllEntries-get : (d : Dict K V) (k : K) (v : V) → AllEntries P d → get d k ≡ some v → P k v
    unfolding get
    AllEntries-get [] k v a h = absurd (ground arith)
    AllEntries-get ((i, w) ∷ d) k v a h = elim (Bool-cases (i == k)) [
      | inl same ↦
          let same_value : w ≡ v = ground arith in
          subst (λ x. P x v) ((e.same_iff i k).0 same) (subst (P i) same_value a.0)
      | inr other ↦ AllEntries-get d k v a.1 (ground arith)
    ]

  pub total-put :
      (f : K → V → ℕ) (d : Dict K V) (k : K) (v : V)
      → total f (put d k v) + share (f k) (get d k) ≡ total f d + f k v
  total-put f d k v = elim (Option-cases (get d k)) [
    | inl new ↦ rw new (omega (arith, total-put_new f d k v new))
    | inr (w, old) ↦ rw old (total-put_old f d k v w old)
  ]

  pub length-put :
      (d : Dict K V) (k : K) (v : V) → length (put d k v) ≡ length d + vacancy (get d k)
  length-put d k v = elim (Option-cases (get d k)) [
    | inl new ↦ rw new (length-put_new d k v new)
    | inr (w, old) ↦ rw old (omega (arith, length-put_old d k v w old))
  ]

  pub total-ge-share : (f : K → V → ℕ) (d : Dict K V) (k : K) → share (f k) (get d k) ≤ total f d
  total-ge-share f d k = elim (Option-cases (get d k)) [
    | inl new ↦ rw new (omega arith)
    | inr (w, old) ↦ rw old (omega (arith, total-remove f d k w old))
  ]

  module _ (p : K → V → Bool) where
    get-retain-none : (d : Dict K V) (k : K) → get d k ≡ none → get (retain p d) k ≡ none
    unfolding get retain
    get-retain-none [] k h = refl
    get-retain-none ((i, w) ∷ d) k h = ground (arith, get-retain-none d k)

    pub UniqueKeys-retain : (d : Dict K V) → UniqueKeys d → UniqueKeys (retain p d)
    unfolding retain
    UniqueKeys-retain [] u = tt
    UniqueKeys-retain ((i, w) ∷ d) u =
        ground (arith, UniqueKeys-retain d u.1, get-retain-none d i u.0)

    pub length-retain-le : (d : Dict K V) → length (retain p d) ≤ length d
    unfolding retain
    length-retain-le [] = omega arith
    length-retain-le ((i, w) ∷ d) = ground (arith, length-retain-le d)

    pub total-retain-le : (f : K → V → ℕ) (d : Dict K V) → total f (retain p d) ≤ total f d
    unfolding retain
    total-retain-le f [] = omega arith
    total-retain-le f ((i, w) ∷ d) = ground (arith, total-retain-le f d)

    pub AllEntries-retain {μ} :
        (P : K → V → Type μ) (d : Dict K V) → AllEntries P d → AllEntries P (retain p d)
    unfolding retain
    AllEntries-retain P [] a = tt
    AllEntries-retain P ((i, w) ∷ d) a = elim (Bool-cases (p i w)) [
      | inl kept ↦ rw kept (a.0, AllEntries-retain P d a.1)
      | inr dropped ↦ rw dropped (AllEntries-retain P d a.1)
    ]

    -- A share that is zero for every dropped entry is the same after the filter.
    pub share-retain :
        (f : V → ℕ) (d : Dict K V) (k : K)
        → UniqueKeys d
        → ((j : K) (v : V) → p j v ≡ false → f v ≡ 0)
        → share f (get (retain p d) k) ≡ share f (get d k)
    unfolding get retain
    share-retain f [] k u zero = refl
    share-retain f ((i, w) ∷ d) k u zero = elim (Bool-cases (p i w)) [
      | inl kept ↦ rw kept (ground (arith, share-retain f d k u.1 zero))
      | inr dropped ↦ rw dropped (elim (Bool-cases (i == k)) [
        | inl same ↦ rw same (
            let gone : get (retain p d) k ≡ none =
              subst (λ x. get (retain p d) x ≡ none) ((e.same_iff i k).0 same)
                (get-retain-none d i u.0) in
            rw gone (sym (zero i w dropped)))
        | inr other ↦ rw other (share-retain f d k u.1 zero)
      ])
    ]
