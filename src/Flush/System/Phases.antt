-- ===== src/Flush/System/Phases.antt =====
-- What each phase of a flush relies on, which offers and calls of `flush` keep
-- (src/debugbundle/flush_delivery.py).
use debugbundle_python.Prelude.{
  ℕ, ◌≡◌, refl, ap, sym, subst, ◌∙◌, some, Bool, true, List, ◌++◌, length, arith, nat_eq,
  eq_of_some, ◌⊎◌, inl, inr,
}
use debugbundle_python.Diagnostics.Valid.{IsValid}
use debugbundle_python.Suppression.{Aggregate}
use debugbundle_python.Sdk.{Sdk, Event}
use debugbundle_python.Queue.{offer_protected_event}
use debugbundle_python.Queue.Shape.{Fresh, IsSized, IsSized-same}
use debugbundle_python.Queue.Offers.{Offered}
use debugbundle_python.Flush.Beginning.{
  idle, started, begin_flush, BegunFrom, begin_flush-BegunFrom, begin_flush_busy,
}
use debugbundle_python.Flush.Commit.Grown.{offer-Offered}
use debugbundle_python.Flush.Rested.{Resting, Resting-timer}
use debugbundle_python.Flush.System.{Phase, resting, begun, finalizing, waiting, Setting}
use debugbundle_python.Flush.System.Moves.{IsHead, Busy, offer-Busy, offer-IsHead, offer-Resting}

module _ (g : Setting) where
  -- Where no flush is under way, the queue is sized within its limits, with a valid budget, and no
  -- event is in flight. While one is, the same holds of the queue, the batch is its head, as many
  -- events are in flight as the batch has, and no timer is set.
  abbrev pub Inv : Phase → Sdk → Type 0
  Inv resting s = Resting g.host g.max_events g.max_bytes s
  Inv (begun generation at drops) s = Busy g.host g.max_events g.max_bytes s generation 0
  Inv (finalizing generation front rest) s =
      Busy g.host g.max_events g.max_bytes s generation (length (front ++ rest))
      × IsHead (front ++ rest) s.buffer
  Inv (waiting generation batch http) s =
      Busy g.host g.max_events g.max_bytes s generation (length batch) × IsHead batch s.buffer

  Inv-IsSized : (phase : Phase) (s : Sdk) → Inv phase s → IsSized s g.max_events g.max_bytes
  Inv-IsSized resting s i = i.sized
  Inv-IsSized (begun generation at drops) s i = i.sized
  Inv-IsSized (finalizing generation front rest) s (b, head) = b.sized
  Inv-IsSized (waiting generation batch http) s (b, head) = b.sized

  Inv-IsValid : (phase : Phase) (s : Sdk) → Inv phase s → IsValid g.host.json s.diagnostics
  Inv-IsValid resting s i = i.valid
  Inv-IsValid (begun generation at drops) s i = i.valid
  Inv-IsValid (finalizing generation front rest) s (b, head) = b.valid
  Inv-IsValid (waiting generation batch http) s (b, head) = b.valid

  -- An offer keeps what the phase relies on.
  Offered-Inv :
      (phase : Phase) (s s' : Sdk) (e : Event) (accepted : Bool)
      → Offered g.host g.max_events g.max_bytes s e s' accepted
      → Inv phase s
      → Inv phase s'
  Offered-Inv resting s s' e accepted o i =
      offer-Resting g.host g.max_events g.max_bytes s s' e accepted o i
  Offered-Inv (begun generation at drops) s s' e accepted o i =
      offer-Busy g.host g.max_events g.max_bytes s s' e accepted generation 0 o i
  Offered-Inv (finalizing generation front rest) s s' e accepted o (b, head) = (
    offer-Busy g.host g.max_events g.max_bytes s s' e accepted generation _ o b,
    offer-IsHead g.host g.max_events g.max_bytes s s' e accepted generation (front ++ rest) o b
        head,
  )
  Offered-Inv (waiting generation batch http) s s' e accepted o (b, head) = (
    offer-Busy g.host g.max_events g.max_bytes s s' e accepted generation _ o b,
    offer-IsHead g.host g.max_events g.max_bytes s s' e accepted generation batch o b head,
  )

  pub offer-Inv :
      (phase : Phase) (s s' : Sdk) (accepted : Bool) (e : Event) (bytes now monotonic : ℕ)
      → Fresh e.ident s.buffer
      → offer_protected_event g.host s e bytes g.max_events g.max_bytes now monotonic
        ≡ some (s', accepted)
      → Inv phase s
      → Inv phase s'
  offer-Inv phase s s' accepted e bytes now monotonic fresh done i =
      let (t, taken, ended, o) =
        offer-Offered g.host g.max_events g.max_bytes s e bytes now monotonic
          (Inv-IsSized phase s i) (Inv-IsValid phase s i) fresh in
      let same : ◌≡◌ {A = Sdk × Bool} (t, taken) (s', accepted) = eq_of_some (sym ended ∙ done) in
      subst (λ (r : Sdk × Bool). Inv phase r.0) same (Offered-Inv phase s t e taken o i)

  -- The marks of a flush under way
  pub Inv-sending : (phase : Phase) (s : Sdk) → Inv phase s → (phase ≡ resting) ⊎ (s.sending ≡ true)
  Inv-sending resting s i = inl refl
  Inv-sending (begun generation at drops) s i = inr i.sending
  Inv-sending (finalizing generation front rest) s (b, head) = inr b.sending
  Inv-sending (waiting generation batch http) s (b, head) = inr b.sending

  pub no_flush-Inv :
      (phase : Phase) (s s' : Sdk) (now monotonic : ℕ)
      → begin_flush g.to_iso s g.max_events now monotonic ≡ idle s'
      → Inv phase s
      → Inv phase s'
  no_flush-Inv phase s s' now monotonic done i = elim (Inv-sending phase s i) [
    | inl at_rest ↦
        let only =
          subst (BegunFrom g.to_iso s now) done
            (begin_flush-BegunFrom g.to_iso s g.max_events now monotonic) in
        subst (λ p. Inv p s') (sym at_rest)
          (Resting-timer g.host g.max_events g.max_bytes s s' only (subst (λ p. Inv p s) at_rest i))
    | inr busy ↦
        let same : s ≡ s' =
          idle_same s s'
            (sym (begin_flush_busy g.to_iso s g.max_events now monotonic busy) ∙ done) in
        subst (Inv phase) same i
  ]
    where
      idle_same : (a b : Sdk) → idle a ≡ idle b → a ≡ b
      idle_same a b e = cc

  pub begin-Inv :
      (phase : Phase) (s s' : Sdk) (aggregates : List Aggregate) (drops now monotonic : ℕ)
      → begin_flush g.to_iso s g.max_events now monotonic ≡ started s' aggregates drops
      → Inv phase s
      → Inv (begun s'.generation now drops) s'
  begin-Inv phase s s' aggregates drops now monotonic done i =
      let from =
        subst (BegunFrom g.to_iso s now) done
          (begin_flush-BegunFrom g.to_iso s g.max_events now monotonic) in
      elim (Inv-sending phase s i) [
        | inr busy ↦ absurd (ground (arith, busy, from.2))
        | inl at_rest ↦
            let r : Resting g.host g.max_events g.max_bytes s = subst (λ p. Inv p s) at_rest i in
            subst (λ x. Busy g.host g.max_events g.max_bytes x s'.generation 0) (sym from.9)
              (record {
                sized = IsSized-same s _ g.max_events g.max_bytes refl refl refl r.sized;
                valid = r.valid;
                sending = refl;
                timer = refl;
                flight = r.landed;
                same = sym (ap {A = Sdk} (λ x. x.generation) from.9);
              })
      ]
