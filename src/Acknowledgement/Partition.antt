-- ===== src/Acknowledgement/Partition.antt =====
-- An acknowledged batch is split: each index is accepted, retryable or terminal.
use debugbundle_python.Prelude.{
  ◌≢◌, ◌↔◌, not, ◌||◌, string_eq, subst, suc, ℕ, ◌+◌, ◌≤◌, String, ◌≡◌, refl, Option, none, some,
  Bool, false, List, [], ◌∷◌, ◌++◌, length, contains, arith, one_if, nat_eqb, nat_eq, sum_map,
  sum_map-append, length-append, inl, inr, Option-cases, Bool-cases,
}
use debugbundle_python.Prelude.Int.{pos}
use debugbundle_python.Json.{elements, has, Fields, Json, int, str, list, dict}
use debugbundle_python.Acknowledgement.{
  retryable_reasons, check_fields, of_kind, protocol_failure, legacy, without_counts, acknowledged,
  AcknowledgementDecision, check_error, Scan, note, scan, conclusion, decide_counts,
  decide_acknowledgement,
}

abbrev pub occurrences : ℕ → List ℕ → ℕ
occurrences i = sum_map (λ j. one_if (nat_eqb i j))

abbrev pub reported : ℕ → List (ℕ × String) → ℕ
reported i = sum_map (λ e. one_if (nat_eqb i e.0))

contains-occurrences : (xs : List ℕ) (i : ℕ) → contains xs i ≡ false → occurrences i xs ≡ 0
unfolding contains
contains-occurrences [] i h = refl
contains-occurrences (x ∷ xs) i h = ground (arith, contains-occurrences xs i)

check_fields-fresh :
    (index reason : Json) (n : ℕ) (seen : List ℕ) (i : ℕ) (r : String)
    → check_fields index reason n seen ≡ some (i, r)
    → (i + 1 ≤ n) × (contains seen i ≡ false)
unfolding check_fields
check_fields-fresh (int (pos j)) (str q) n seen i r h = ground arith
check_fields-fresh _ _ n seen i r h = cc

check_error-fresh :
    (error : Json) (n : ℕ) (seen : List ℕ) (i : ℕ) (r : String)
    → check_error error n seen ≡ some (i, r)
    → (i + 1 ≤ n) × (contains seen i ≡ false)
unfolding check_error
check_error-fresh (dict error) n seen i r h = check_fields-fresh _ _ n seen i r h
check_error-fresh _ n seen i r h = cc

-- The loop's invariant: an index occurs at most once among both lists, and only below `n`.
record IsSplit (n : ℕ) (s : Scan) : Type 0 where
  tally : (i : ℕ) → occurrences i s.retryable + reported i s.terminal ≡ occurrences i s.seen
  once : (i : ℕ) → occurrences i s.seen ≤ 1
  below : (i : ℕ) → n ≤ i → occurrences i s.seen ≡ 0
  size : length s.retryable + length s.terminal ≡ length s.seen

seen_once :
    (n : ℕ) (seen : List ℕ) (j : ℕ)
    → ((i : ℕ) → occurrences i seen ≤ 1)
    → contains seen j ≡ false
    → (i : ℕ) → occurrences i (j ∷ seen) ≤ 1
seen_once n seen j once fresh i = ground (arith, once i, contains-occurrences seen j fresh)

module _ (n : ℕ) (s : Scan) (j : ℕ) (r : String) (h : IsSplit n s) (lt : j + 1 ≤ n) where
  note-retryable :
      contains s.seen j ≡ false
      → IsSplit n (record s { seen = j ∷ s.seen; retryable = s.retryable ++ j ∷ [] })
  note-retryable fresh = record {
    tally = λ i.
        omega (arith, h.tally i, sum_map-append (λ k. one_if (nat_eqb i k)) s.retryable (j ∷ []));
    once = seen_once n s.seen j h.once fresh;
    below = λ i le. ground (arith, h.below i le);
    size = omega (arith, h.size, length-append s.retryable (j ∷ []));
  }

  note-terminal :
      contains s.seen j ≡ false
      → IsSplit n (record s { seen = j ∷ s.seen; terminal = s.terminal ++ (j, r) ∷ [] })
  note-terminal fresh = record {
    tally = λ i. omega (
      arith,
      h.tally i,
      sum_map-append (λ (e : ℕ × String). one_if (nat_eqb i e.0)) s.terminal ((j, r) ∷ []),
    );
    once = seen_once n s.seen j h.once fresh;
    below = λ i le. ground (arith, h.below i le);
    size = omega (arith, h.size, length-append s.terminal ((j, r) ∷ []));
  }

  note-IsSplit : contains s.seen j ≡ false → IsSplit n (note s j r)
  unfolding note
  note-IsSplit fresh = elim (Bool-cases (contains retryable_reasons r)) [
    | inl again ↦ rw again (note-retryable fresh)
    | inr final ↦ rw final (note-terminal fresh)
  ]

  note-length : length (note s j r).seen ≡ suc (length s.seen)
  unfolding note
  note-length = ground arith

scan-IsSplit :
    (errors : List Json) (n : ℕ) (s s' : Scan)
    → IsSplit n s
    → scan errors n s ≡ some s'
    → IsSplit n s' × (length s'.seen ≡ length errors + length s.seen)
unfolding scan
scan-IsSplit [] n s s' h e =
    let same : s ≡ s' = cc in
    subst (λ x. IsSplit n x × (length x.seen ≡ 0 + length s.seen)) same (h, omega arith)
scan-IsSplit (error ∷ errors) n s s' h e = elim (Option-cases (check_error error n s.seen)) [
  | inl bad ↦ absurd (ground arith)
  | inr ((j, r), good) ↦
      let (lt, fresh) = check_error-fresh error n s.seen j r good in
      let (split, size) =
        scan-IsSplit errors n (note s j r) s' (note-IsSplit n s j r h lt fresh)
          (rw (good, scan) at e) in
      (split, omega (arith, size, note-length n s j r h lt))
]

-- The events of an acknowledged batch: each index stands at most once among the retryable and the
-- terminal ones, none is out of range, and with the accepted ones they number the batch.
pub record IsPartition (batch_length : ℕ) (d : AcknowledgementDecision) : Type 0 where
  pub once : (i : ℕ) → occurrences i d.retryable_indices + reported i d.terminal_errors ≤ 1
  pub in_range :
      (i : ℕ)
      → batch_length ≤ i
      → occurrences i d.retryable_indices + reported i d.terminal_errors ≡ 0
  pub complete : d.accepted + length d.retryable_indices + length d.terminal_errors ≡ batch_length

conclusion-IsPartition :
    (accepted : ℕ) (errors : List Json) (n : ℕ) (o : Option Scan)
    → scan errors n (record { seen = []; retryable = []; terminal = [] }) ≡ o
    → accepted + length errors ≡ n
    → (conclusion accepted o).kind ≡ acknowledged
    → IsPartition n (conclusion accepted o)
unfolding conclusion
conclusion-IsPartition accepted errors n none e size k = absurd (ground arith)
conclusion-IsPartition accepted errors n (some s) e size k =
    let (h, seen) =
      scan-IsSplit errors n (record { seen = []; retryable = []; terminal = [] }) s
        (record { tally = λ i. refl; once = λ i. omega arith; below = λ i le. refl; size = refl })
        e in
    record {
      once = λ i. omega (arith, h.tally i, h.once i);
      in_range = λ i le. omega (arith, h.tally i, h.below i le);
      complete = omega (arith, h.size, seen);
    }

decide_counts-IsPartition :
    (accepted rejected : Option ℕ) (errors : Json) (n : ℕ)
    → (decide_counts accepted rejected errors n).kind ≡ acknowledged
    → IsPartition n (decide_counts accepted rejected errors n)
unfolding decide_counts
decide_counts-IsPartition (some a) (some r) (list errors) n k =
    let bad = not (nat_eqb (a + r) n) || not (nat_eqb (length (elements errors)) r) in
    elim (Bool-cases bad) [
      | inl wrong ↦
          let k' : (of_kind protocol_failure (some "inconsistent_counts")).kind ≡ acknowledged =
            rw wrong at k in
          cc
      | inr right ↦
          rw right
            (conclusion-IsPartition a (elements errors) n _ refl (ground arith) (rw right at k))
    ]
decide_counts-IsPartition _ _ _ n k = cc

not_acknowledged : (required : Bool) → (without_counts required).kind ≢ acknowledged
unfolding without_counts
not_acknowledged required k = ground arith

-- A decision that a batch was acknowledged splits the batch: no index is in both lists or twice in
-- one, none is out of range, and the accepted, retryable and terminal parts number the batch.
pub decide_acknowledgement-IsPartition :
    (body : Json) (batch_length : ℕ) (required : Bool)
    → (decide_acknowledgement body batch_length required).kind ≡ acknowledged
    → IsPartition batch_length (decide_acknowledgement body batch_length required)
unfolding decide_acknowledgement
decide_acknowledgement-IsPartition (dict body) n required k =
    elim (Bool-cases (has body "accepted" || has body "rejected" || has body "errors")) [
      | inl some_key ↦ rw some_key (decide_counts-IsPartition _ _ _ n (rw some_key at k))
      | inr no_key ↦ absurd (not_acknowledged required (rw no_key at k))
    ]
decide_acknowledgement-IsPartition _ n required k = absurd (not_acknowledged required k)

decide_counts-ne-legacy :
    (accepted rejected : Option ℕ) (errors : Json) (n : ℕ)
    → (decide_counts accepted rejected errors n).kind ≢ legacy
unfolding decide_counts
decide_counts-ne-legacy (some a) (some r) (list errors) n k = ground arith
decide_counts-ne-legacy _ _ _ n k = cc

-- For a body that is an object, the decision is legacy exactly when no acknowledgement is required
-- and the body has none of the three keys.
legacy_iff :
    (body : Fields) (batch_length : ℕ) (required : Bool)
    → ((decide_acknowledgement (dict body) batch_length required).kind ≡ legacy) ↔ (
        (required ≡ false)
        × ((has body "accepted" || has body "rejected" || has body "errors") ≡ false))
unfolding decide_acknowledgement
legacy_iff body n required =
    elim (Bool-cases (has body "accepted" || has body "rejected" || has body "errors")) [
      | inl some_key ↦
          rw some_key (λ k. absurd (decide_counts-ne-legacy _ _ _ n k), λ h. absurd (ground arith))
      | inr no_key ↦ rw no_key (λ k. ground arith, λ h. ground arith)
    ]
