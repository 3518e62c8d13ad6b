-- ===== src/Ownership/Chains.antt =====
-- The chain of an owner, and what the loops find on it (src/debugbundle/operation_context.py,
-- src/debugbundle/scope_ownership.py).
use debugbundle_python.Prelude.{
  ℕ, zero, suc, ◌+◌, ◌≤◌, ◌<◌, ◌≡◌, refl, ap, Option, none, some, true, false, ◌&&◌, List, [], ◌∷◌,
  length, contains, All, arith, nat_eqb, nat_eqb_iff, nat_eq, inl, inr, Bool-cases, Option-cases,
}
use debugbundle_python.Prelude.Dict.{Dict, get, put, get-put, AllEntries}
use debugbundle_python.Prelude.Dict.Laws.{AllEntries-get}
use debugbundle_python.Ownership.{Owner, alive, find, depth}

-- An address before another: objects are numbered as they are made.
abbrev pub Below : ℕ → Option ℕ → Type 0
Below k none = Unit
Below k (some j) = j < k

module _ {A : Type 0} (owner : A → Owner) where
  -- The addresses from a cursor up, each the parent of the one before.
  abbrev pub IsChain : Dict ℕ A → Option ℕ → List ℕ → Type 0
  IsChain store none [] = Unit
  IsChain store none (k ∷ ks) = ⊥
  IsChain store (some j) [] = ⊥
  IsChain store (some j) (k ∷ ks) =
      (j ≡ k) × ((a : A) × (get store k ≡ some a) × IsChain store (owner a).parent ks)

  -- An owner that is active and of the stamp.
  abbrev pub IsLive : Dict ℕ A → ℕ → ℕ → Type 0
  IsLive store stamp k =
      (a : A) × (get store k ≡ some a) × ((owner a).active ≡ true) × ((owner a).stamp ≡ stamp)

  -- What a round of `alive` finds.
  pub alive-some :
      (n : ℕ) (store : Dict ℕ A) (stamp k : ℕ)
      → alive owner (suc n) store stamp (some k) ≡ true
      → (a : A) × (get store k ≡ some a)
        × ((owner a).active ≡ true)
        × ((owner a).stamp ≡ stamp)
        × (alive owner n store stamp (owner a).parent ≡ true)
  unfolding alive
  alive-some n store stamp k h = elim (Option-cases (get store k)) [
    | inl gone ↦ absurd (ground (arith, gone))
    | inr (a, found) ↦
        let h' : ((owner a).active
              && nat_eqb (owner a).stamp stamp
              && alive owner n store stamp (owner a).parent)
            ≡ true =
          ground (arith, found) in
        (a, found, ground (arith, h'), ground (arith, h'), ground (arith, h'))
  ]

  pub alive-IsChain :
      (n : ℕ) (store : Dict ℕ A) (stamp : ℕ) (cursor : Option ℕ)
      → alive owner (suc n) store stamp cursor ≡ true
      → (ks : List ℕ) × IsChain store cursor ks × All (IsLive store stamp) ks × (length ks ≤ n)
  alive-IsChain n store stamp none h = ([], tt, tt, omega arith)
  alive-IsChain zero store stamp (some k) h =
      let (a, found, active, same, up) = alive-some 0 store stamp k h in absurd (unfold alive in cc)
  alive-IsChain (suc n) store stamp (some k) h =
      let (a, found, active, same, up) = alive-some (suc n) store stamp k h in
      let (ks, chain, live, short) = alive-IsChain n store stamp (owner a).parent up in
      (k ∷ ks, (refl, (a, found, chain)), ((a, found, active, same), live), omega arith)

  pub alive_of_IsChain :
      (n : ℕ) (store : Dict ℕ A) (stamp : ℕ) (cursor : Option ℕ) (ks : List ℕ)
      → IsChain store cursor ks
      → All (IsLive store stamp) ks
      → length ks ≤ n
      → alive owner (suc n) store stamp cursor ≡ true
  unfolding alive
  alive_of_IsChain n store stamp none ks chain live short = refl
  alive_of_IsChain n store stamp (some j) [] chain live short = absurd chain
  alive_of_IsChain zero store stamp (some j) (k ∷ ks) chain live short = absurd (omega arith)
  alive_of_IsChain (suc n) store stamp (some j) (k ∷ ks) chain live short =
      let (same, (a, found, up)) = chain in
      let ((b, found', active, stamped), above) = live in
      let e : a ≡ b = cc in
      let rest = alive_of_IsChain n store stamp (owner a).parent ks up above (omega arith) in
      let active' : (owner a).active ≡ true = cc in
      let stamped' : nat_eqb (owner a).stamp stamp ≡ true = (nat_eqb_iff _ _).1 cc in
      rw (same, found, alive) (rw (active', stamped') rest)

  -- Replacing an owner changes nothing for the chains of older ones.
  module _ (store : Dict ℕ A) (older : AllEntries (λ k a. Below k (owner a).parent) store) where
    pub alive-put :
        (n stamp k : ℕ) (b : A) (cursor : Option ℕ)
        → Below k cursor
        → alive owner n (put store k b) stamp cursor ≡ alive owner n store stamp cursor
    unfolding alive
    alive-put zero stamp k b cursor below = refl
    alive-put (suc n) stamp k b none below = refl
    alive-put (suc n) stamp k b (some j) below =
        let same : get (put store k b) j ≡ get store j = ground (arith, get-put store k b j) in
        elim (Option-cases (get store j)) [
          | inl gone ↦ rw (same, gone, alive) refl
          | inr (a, found) ↦
              rw (same, found, alive)
                (ap (λ c. (owner a).active && nat_eqb (owner a).stamp stamp && c)
                  (alive-put n stamp k b (owner a).parent (
                    below_trans k j (owner a).parent below
                      (AllEntries-get _ store j a older found))))
        ]
      where
        below_trans : (k j : ℕ) (p : Option ℕ) → j < k → Below j p → Below k p
        below_trans k j none h b = tt
        below_trans k j (some i) h b = omega arith

  -- The loop that counts the chain counts all of it.
  pub depth-IsChain :
      (n : ℕ) (store : Dict ℕ A) (cursor : Option ℕ) (d : ℕ) (ks : List ℕ)
      → depth owner n store cursor ≡ some d
      → IsChain store cursor ks
      → length ks ≡ d
  unfolding depth
  depth-IsChain n store none d [] h chain = ground arith
  depth-IsChain n store none d (k ∷ ks) h chain = absurd chain
  depth-IsChain n store (some j) d [] h chain = absurd chain
  depth-IsChain zero store (some j) d (k ∷ ks) h chain = cc
  depth-IsChain (suc n) store (some j) d (k ∷ ks) h (same, (a, found, up)) =
      elim (Option-cases (depth owner n store (owner a).parent)) [
        | inl deep ↦ absurd (ground (arith, same, found, deep))
        | inr (e, at) ↦
            let shorter = depth-IsChain n store (owner a).parent e ks at up in
            let next : d ≡ e + 1 = ground (arith, same, found, at) in omega arith
      ]

  -- A chain is determined by its start, so a live chain has no owner that is not.
  pub IsLive-on_chain :
      (n : ℕ) (store : Dict ℕ A) (stamp k : ℕ) (cursor : Option ℕ) (ks : List ℕ)
      → alive owner n store stamp cursor ≡ true
      → IsChain store cursor ks
      → contains ks k ≡ true
      → IsLive store stamp k
  unfolding contains
  IsLive-on_chain n store stamp k cursor [] h chain mem = cc
  IsLive-on_chain n store stamp k none (j ∷ ks) h chain mem = absurd chain
  IsLive-on_chain zero store stamp k (some i) (j ∷ ks) h chain mem = absurd (unfold alive in cc)
  IsLive-on_chain (suc n) store stamp k (some i) (j ∷ ks) h (same, (a, found, up)) mem =
      let (b, found', active, stamped, above) = alive-some n store stamp i h in
      let e : a ≡ b = cc in
      elim (Bool-cases (nat_eqb j k)) [
        | inl here ↦ let q : j ≡ k = (nat_eqb_iff j k).0 here in (b, cc, active, stamped)
        | inr later ↦
            IsLive-on_chain n store stamp k (owner a).parent ks (rw e above) up
              (ground (arith, mem, later))
      ]

  pub find_here :
      (n : ℕ) (store : Dict ℕ A) (token k : ℕ) (a : A)
      → get store k ≡ some a
      → (owner a).token_id ≡ token
      → find owner (suc n) store token (some k) ≡ some k
  unfolding find
  find_here n store token k a found same =
      rw (found, find) (rw ((nat_eqb_iff (owner a).token_id token).1 same) refl)

  -- What `find` finds is stored.
  pub find-get :
      (n : ℕ) (store : Dict ℕ A) (token k : ℕ) (cursor : Option ℕ)
      → find owner n store token cursor ≡ some k
      → (a : A) × (get store k ≡ some a)
  unfolding find
  find-get zero store token k cursor h = cc
  find-get (suc n) store token k none h = cc
  find-get (suc n) store token k (some j) h = elim (Option-cases (get store j)) [
    | inl gone ↦ absurd (ground (arith, gone))
    | inr (a, found) ↦ elim (Bool-cases (nat_eqb (owner a).token_id token)) [
      | inl same ↦ let e : j ≡ k = ground (arith, found, same) in (a, cc)
      | inr other ↦ find-get n store token k (owner a).parent (ground (arith, found, other))
    ]
  ]

  pub IsChain-length :
      (store : Dict ℕ A) (cursor : Option ℕ) (ks js : List ℕ)
      → IsChain store cursor ks
      → IsChain store cursor js
      → length ks ≡ length js
  IsChain-length store none [] [] c d = refl
  IsChain-length store none (k ∷ ks) js c d = absurd c
  IsChain-length store none [] (j ∷ js) c d = absurd d
  IsChain-length store (some i) [] js c d = absurd c
  IsChain-length store (some i) (k ∷ ks) [] c d = absurd d
  IsChain-length store (some i) (k ∷ ks) (j ∷ js) (ik, (a, fa, up)) (ij, (b, fb, up')) =
      let e : b ≡ a = cc in
      let rest = IsChain-length store (owner a).parent ks js up (rw e at up') in omega arith

  -- A chain that is longer than the rounds is not alive.
  pub alive_too_long :
      (n : ℕ) (store : Dict ℕ A) (stamp : ℕ) (cursor : Option ℕ) (ks : List ℕ)
      → IsChain store cursor ks
      → n ≤ length ks
      → alive owner n store stamp cursor ≡ false
  alive_too_long zero store stamp cursor ks chain long = unfold alive in refl
  alive_too_long (suc n) store stamp cursor ks chain long =
      elim (Bool-cases (alive owner (suc n) store stamp cursor)) [
        | inr dead ↦ dead
        | inl up ↦
            let (js, chain', live, short) = alive-IsChain n store stamp cursor up in
            absurd (omega (arith, IsChain-length store cursor ks js chain chain', short, long))
      ]
