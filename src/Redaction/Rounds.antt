-- ===== src/Redaction/Rounds.antt =====
-- How one round of the loops of `visit` (src/debugbundle/redaction.py) ends.
use debugbundle_python.Prelude.{
  either, ℕ, ◌+◌, ◌≤◌, ◌≡◌, sym, ap, ◌⊎◌, inl, inr, String, Option, some, true, false, List, length,
  ltb, arith, ltb→ge, >>=-eq-some, if◌then◌else◌, eq_of_some,
}
use debugbundle_python.Prelude.Text.{codes}
use debugbundle_python.Json.{Json, Items, Fields, str, nil, cons, field, elements}
use debugbundle_python.Redaction.{RedactHost, redacted_value}
use debugbundle_python.Redaction.Walk.{
  State, Walk, spend, key_kept, key_sensitive, at_depth, with_value, visit_field, visit_value,
  visit_items,
}

pub value_of {ℓ} :
    {A : Type ℓ} {s t : State} {j k : A}
    → ◌≡◌ {A = Option (State × A)} (some (s, j)) (some (t, k))
    → k ≡ j
value_of e = ap (λ p. p.1) (sym (eq_of_some e))

module _ (h : RedactHost) (extra : List String) where
  module _ (texts : State → String → Walk) where
    pub visit_items-length :
        (depth : ℕ) (s : State) (xs : Items) (s' : State) (outs : Items)
        → visit_items h extra texts depth s xs ≡ some (s', outs)
        → length (elements outs) ≡ length (elements xs)
    unfolding visit_items
    visit_items-length depth s nil s' outs e = ap (λ o. length (elements o)) (value_of e)
    visit_items-length depth s (cons x xs) s' outs e =
        let ((s1, out), one, e1) =
          >>=-eq-some
            (at_depth h extra (depth + 1) s (λ t. visit_value h extra texts (depth + 1) t x)) _ e in
        let ((s2, rest), two, e2) = >>=-eq-some (visit_items h extra texts depth s1 xs) _ e1 in
        let same : outs ≡ cons out rest = value_of e2 in
        omega
          (arith, ap (λ o. length (elements o)) same, visit_items-length depth s1 xs s2 rest two)

  -- The two ways in which a round of the loop over a mapping ends.
  pub visit_field-cases :
      (key : String) (visit_it : State → Walk) (rest : State → Option (State × Fields))
      (s s' : State) (out : Fields)
      → visit_field h extra key visit_it rest s ≡ some (s', out)
      → ((t : State) × (rest t ≡ some (s', out)))
        ⊎ ((t : State) × (length (codes key) ≤ 128)
            × (key_kept h extra key ≡ true)
            × (with_value h extra key visit_it rest t ≡ some (s', out)))
  visit_field-cases key visit_it rest s s' out e =
      elim (either (ltb 128 (length (codes key))) (rest s) _ (some (s', out)) e) [
        | inl (long, e1) ↦ inl (s, e1)
        | inr (short, e1) ↦
            let (n, size, e2) = >>=-eq-some (h.encoded key) _ e1 in
            let (spent, paid, e3) = >>=-eq-some (spend s n) _ e2 in
            elim (either (key_kept h extra key) (with_value h extra key visit_it rest spent)
              (rest spent) (some (s', out)) e3) [
                | inl (clean, e4) ↦ inr (spent, ltb→ge 128 _ short, clean, e4)
                | inr (dirty, e4) ↦ inl (spent, e4)
              ]
      ]

  -- What `with_value` leaves: the key with a value that is hidden or visited, and the rest.
  pub with_value-cases :
      (key : String) (visit_it : State → Walk) (rest : State → Option (State × Fields))
      (s s' : State) (out : Fields)
      → with_value h extra key visit_it rest s ≡ some (s', out)
      → (v : Json) × (outs : Fields) × (t : State) × (t' : State) × (out ≡ field key v outs)
        × (rest t ≡ some (t', outs))
        × ((v ≡ str redacted_value)
            ⊎ ((key_sensitive h extra key ≡ false) × ((u : State) × (visit_it u ≡ some (t, v)))))
  with_value-cases key visit_it rest s s' out e =
      let ((t, v), one, e1) =
        >>=-eq-some (if key_sensitive h extra key then some (s, str redacted_value) else visit_it s)
          _ e in
      let ((t', outs), two, e2) = >>=-eq-some (rest t) _ e1 in
      let shape : out ≡ field key v outs = value_of e2 in
      elim (either (key_sensitive h extra key) (some (s, str redacted_value)) (visit_it s)
        (some (t, v)) one) [
          | inl (secret, same) ↦ (v, outs, t, t', shape, two, inl (value_of same))
          | inr (open_key, visited) ↦ (v, outs, t, t', shape, two, inr (open_key, (s, visited)))
        ]
