-- ===== src/Tests/IngestionTests.antt =====
-- Requests cut by src/debugbundle/ingestion_wire.py.
use mathlib.Core.List.{flatten}
use debugbundle_python.Prelude.{
  ℕ, zero, suc, ◌+◌, ◌≤◌, ◌≡◌, refl, ◌++◌, some, List, [], ◌∷◌, length, All, arith,
}
use debugbundle_python.Transport.{max_body_bytes, TransportResponse, value_error, send_until}
use debugbundle_python.Json.{null}
use debugbundle_python.Ingestion.{opening, closing, joined, JsonEncoder, prefix, chunks}
use debugbundle_python.Ingestion.Bodies.{chunks-total, length-encode_body}
use debugbundle_python.Ingestion.Cutting.{AllFit}
use debugbundle_python.Ingestion.Overshoot.{send_until-prefix_overshoots}

-- Events of a length each, written with as many blanks.
abbrev spaces : ℕ → List ℕ
spaces zero = []
spaces (suc n) = b' ' ∷ spaces n

abbrev blanks : JsonEncoder ℕ
blanks = record {
  dumps = spaces;
  encode_body = λ events. opening ++ joined spaces events ++ closing;
  encode_body-form = λ events. refl;
}

length-spaces : (n : ℕ) → length (spaces n) ≡ n
length-spaces zero = refl
length-spaces (suc n) = omega (arith, length-spaces n)

abbrev no_answer : List ℕ → TransportResponse
no_answer body = record { status_code = 202; retry_after_ms = null; body = null }

-- Two events, and their body of 262145 bytes.
abbrev large : List ℕ
large = 131_065 ∷ 131_066 ∷ []

large-AllFit : AllFit blanks.dumps large
large-AllFit = (omega (arith, length-spaces 131_065), (omega (arith, length-spaces 131_066), tt))

large_over : length (blanks.encode_body large) ≡ max_body_bytes + 1
large_over =
    omega (arith, length-encode_body blanks large, length-spaces 131_065, length-spaces 131_066)

send_until-prefix_overshoots_example :
    (prefix blanks.dumps large ≡ some large)
    × (send_until no_answer (blanks.encode_body large) 20 10 ≡ value_error)
send_until-prefix_overshoots_example =
    send_until-prefix_overshoots blanks no_answer large 20 10 large-AllFit large_over (omega arith)

chunks-total_example :
    (requests : List (List ℕ)) × (chunks blanks.dumps large ≡ some requests)
    × (flatten requests ≡ large)
    × All (λ r. (1 ≤ length r) × (length (blanks.encode_body r) ≤ max_body_bytes + 1)) requests
chunks-total_example = chunks-total blanks large large-AllFit
