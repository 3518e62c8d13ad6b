-- ===== src/Tests/AcknowledgementTests.antt =====
-- Decisions of src/debugbundle/acknowledgement.py.
use debugbundle_python.Prelude.{ℕ, ◌↔◌, ◌||◌, ◌≡◌, refl, true, false}
use debugbundle_python.Prelude.Int.{pos}
use debugbundle_python.Json.{Json, Fields, int, str, list, dict, nil, cons, end, field, has}
use debugbundle_python.Acknowledgement.{decide_acknowledgement}
use debugbundle_python.Acknowledgement.Partition.{IsPartition, decide_acknowledgement-IsPartition}

abbrev refusal : ℕ → Json → Json
refusal index reason = dict (field "index" (int (pos index)) (field "reason" reason end))

-- One of three events is accepted, one is to be sent again and one is refused for good.
abbrev body : Fields
body = field "accepted" (int (pos 1)) (
    field "rejected" (int (pos 2)) (
      field "errors"
        (list (cons (refusal 2 (str "rate_limited")) (cons (refusal 0 (str "invalid_event")) nil)))
        end))

decide_acknowledgement-IsPartition_example :
    IsPartition 3 (decide_acknowledgement (dict body) 3 true)
unfolding decide_acknowledgement has debugbundle_python.Prelude.Dict.get debugbundle_python.Json.get
    debugbundle_python.Prelude.contains
decide_acknowledgement-IsPartition_example =
    decide_acknowledgement-IsPartition (dict body) 3 true refl
