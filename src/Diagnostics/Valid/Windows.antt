-- ===== src/Diagnostics/Valid/Windows.antt =====
-- Operations that write windows only: pruning and storing one
-- (src/debugbundle/diagnostic_budget.py).
use debugbundle_python.Prelude.{
  ℕ, ◌+◌, ◌≤◌, String, ◌≡◌, refl, sym, ◌∙◌, subst, false, length, arith, string_eq, ◌==◌, inl, inr,
  Bool-cases, if◌then◌else◌,
}
use text.Mathlib.TextEquality.{eq_iff}
use debugbundle_python.Prelude.Dict.{Dict, get, put, retain, get-put}
use debugbundle_python.Prelude.Dict.Laws.{
  share, vacancy, UniqueKeys-put, AllEntries-put, total-put, length-put, UniqueKeys-retain,
  AllEntries-retain, length-retain-le, total-retain-le, share-retain,
}
use debugbundle_python.Diagnostics.{
  Window, BudgetJson, DiagnosticCaptureBudget, prune, alive, accounted_bytes, max_accounted_bytes,
}
use debugbundle_python.Diagnostics.Valid.{WindowOk, WindowsOk, IsValid, in_scope}

alive-pending : (now : ℕ) (w : Window) → alive now w ≡ false → w.pending ≡ 0
alive-pending now w h = ground arith

module _ (json : BudgetJson) where
  prune-WindowsOk :
      (d : Dict String Window) (now : ℕ)
      → WindowsOk json d
      → WindowsOk json (retain (λ _ w. alive now w) d)
  prune-WindowsOk d now h = record {
    unique = UniqueKeys-retain (λ _ w. alive now w) d h.unique;
    room = omega (arith, length-retain-le (λ (_ : String) w. alive now w) d, h.room);
    each = AllEntries-retain (λ _ w. alive now w) (WindowOk json) d h.each;
  }

  -- A window that pending payloads need is never pruned.
  pub prune-IsValid :
      (b : DiagnosticCaptureBudget) (now : ℕ) → IsValid json b → IsValid json (prune b now)
  unfolding prune
  prune-IsValid b now h = record {
    windows = prune-WindowsOk b.windows now h.windows;
    entries = h.entries;
    held = h.held;
    within = omega (
      arith,
      h.within,
      total-retain-le (λ (_ : String) w. alive now w) (λ _ w. w.cost) b.windows,
    );
    counted = λ k.
        share-retain (λ _ w. alive now w) (λ w. w.pending) b.windows k h.windows.unique
          (λ j w dead. alive-pending now w dead)
        ∙ h.counted k;
  }

  -- A window stored at its present length, where there is room for it.
  pub put-WindowsOk :
      (d : Dict String Window) (k : String) (w : Window)
      → WindowsOk json d
      → WindowOk json k w
      → length d + vacancy (get d k) ≤ 50
      → WindowsOk json (put d k w)
  put-WindowsOk d k w h ok room = record {
    unique = UniqueKeys-put d k w h.unique;
    room = omega (arith, room, length-put d k w);
    each = AllEntries-put (WindowOk json) d k w h.each ok;
  }

  pub share-put :
      (d : Dict String Window) (k j : String) (w : Window)
      → share (λ (w : Window). w.pending) (get (put d k w) j)
        ≡ (if k == j then w.pending else share (λ (w : Window). w.pending) (get d j))
  share-put d k j w =
      rw get-put
        (elim (Bool-cases (k == j)) [ inl same ↦ rw same refl | inr other ↦ rw other refl ])

  -- A stored window that keeps the count of its scope.
  pub put-IsValid :
      (b : DiagnosticCaptureBudget) (k : String) (w : Window)
      → IsValid json b
      → WindowOk json k w
      → length b.windows + vacancy (get b.windows k) ≤ 50
      → w.pending ≡ share (λ (w : Window). w.pending) (get b.windows k)
      → accounted_bytes b + w.cost
        ≤ max_accounted_bytes + share (λ (w : Window). w.cost) (get b.windows k)
      → IsValid json (record b { windows = put b.windows k w })
  put-IsValid b k w h ok room same fits = record {
    windows = put-WindowsOk b.windows k w h.windows ok room;
    entries = h.entries;
    held = h.held;
    within = omega (arith, fits, total-put (λ _ w. w.cost) b.windows k w);
    counted = λ j. share-put b.windows k j w ∙ kept j;
  }
    where
      kept :
          (j : String)
          → (if k == j then w.pending else share (λ (w : Window). w.pending) (get b.windows j))
            ≡ in_scope j b.pending
      kept j = elim (Bool-cases (k == j)) [
        | inl e ↦ rw e (
            same
            ∙ subst
                (λ x. share (λ (w : Window). w.pending) (get b.windows x) ≡ in_scope j b.pending)
                (sym ((eq_iff k j).0 e)) (h.counted j))
        | inr e ↦ rw e (h.counted j)
      ]
