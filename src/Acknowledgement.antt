-- ===== src/Acknowledgement.antt =====
-- src/debugbundle/acknowledgement.py: what a response body says about each event of a batch.
pub mod Partition
use debugbundle_python.Prelude.{
  ℕ, ◌+◌, String, Option, none, some, Bool, true, false, ◌&&◌, ◌||◌, not, List, [], ◌∷◌, ◌++◌,
  length, contains, ltb, nat_eqb, nat_eq, string_eq, if◌then◌else◌, ◌==◌,
}
use debugbundle_python.Prelude.Int.{ℤ, pos}
use debugbundle_python.Json.{Json, Fields, int, str, list, dict, elements, get, has}

abbrev pub retryable_reasons : List String
retryable_reasons = "rate_limited" ∷ "monthly_quota_exceeded" ∷ "analytics_quota_exceeded" ∷ []

pub data Kind : Type 0 where
  legacy protocol_failure acknowledged : Kind

pub record AcknowledgementDecision : Type 0 where
  pub kind : Kind
  pub accepted : ℕ
  pub retryable_indices : List ℕ
  pub terminal_errors : List (ℕ × String)
  pub reason : Option String

abbrev pub of_kind : Kind → Option String → AcknowledgementDecision
of_kind kind reason = record {
  kind = kind;
  accepted = 0;
  retryable_indices = [];
  terminal_errors = [];
  reason = reason;
}

-- `_is_count(value)`, with the count
pub count : Json → Option ℕ
count (int (pos n)) = some n
count _ = none

-- The checks on one error: its index and its reason, or `none` for an invalid one.
pub check_fields : Json → Json → ℕ → List ℕ → Option (ℕ × String)
check_fields (int (pos index)) (str reason) batch_length seen =
    if not (ltb index batch_length) || contains seen index || reason == ""
    then none
    else some (index, reason)
check_fields _ _ batch_length seen = none

pub check_error : Json → ℕ → List ℕ → Option (ℕ × String)
unfolding check_fields
check_error (dict error) batch_length seen =
    check_fields (get error "index") (get error "reason") batch_length seen
check_error _ batch_length seen = none

-- `seen`, `retryable` and `terminal` of the loop
pub record Scan : Type 0 where
  pub seen : List ℕ
  pub retryable : List ℕ
  pub terminal : List (ℕ × String)

pub note : Scan → ℕ → String → Scan
note s index reason =
    if contains retryable_reasons reason
    then record s { seen = index ∷ s.seen; retryable = s.retryable ++ index ∷ [] }
    else record s { seen = index ∷ s.seen; terminal = s.terminal ++ (index, reason) ∷ [] }

-- The loop over the errors; `none` is the early return with `invalid_error_index`.
pub scan : List Json → ℕ → Scan → Option Scan
unfolding check_error note
scan [] batch_length s = some s
scan (error ∷ errors) batch_length s = elim (check_error error batch_length s.seen) [
  | none ↦ none
  | some (index, reason) ↦ scan errors batch_length (note s index reason)
]

pub conclusion : ℕ → Option Scan → AcknowledgementDecision
conclusion accepted none = of_kind protocol_failure (some "invalid_error_index")
conclusion accepted (some s) = record {
  kind = acknowledged;
  accepted = accepted;
  retryable_indices = s.retryable;
  terminal_errors = s.terminal;
  reason = none;
}

pub decide_counts : Option ℕ → Option ℕ → Json → ℕ → AcknowledgementDecision
unfolding scan conclusion
decide_counts (some accepted) (some rejected) (list errors) batch_length =
    if not (nat_eqb (accepted + rejected) batch_length)
      || not (nat_eqb (length (elements errors)) rejected)
    then of_kind protocol_failure (some "inconsistent_counts")
    else conclusion accepted
        (scan (elements errors) batch_length (record { seen = []; retryable = []; terminal = [] }))
decide_counts _ _ _ batch_length = of_kind protocol_failure (some "inconsistent_counts")

pub without_counts : Bool → AcknowledgementDecision
without_counts required =
    if required
    then of_kind protocol_failure (some "missing_acknowledgement")
    else of_kind legacy none

unfoldable pub decide_acknowledgement : Json → ℕ → Bool → AcknowledgementDecision
unfolding count decide_counts without_counts
decide_acknowledgement (dict body) batch_length required =
    if has body "accepted" || has body "rejected" || has body "errors"
    then decide_counts (count (get body "accepted")) (count (get body "rejected"))
        (get body "errors") batch_length
    else without_counts required
decide_acknowledgement _ batch_length required = without_counts required
