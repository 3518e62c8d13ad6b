-- ===== src/Redaction.antt =====
-- src/debugbundle/redaction.py: which keys are sensitive, and what the redaction takes from
-- libraries. Texts are lists of code points where the code looks into them.
pub mod Keys
pub mod Texts
pub mod Walk
pub mod Rounds
pub mod Safe
use debugbundle_python.Prelude.{
  ℕ, ◌-◌, String, Option, Bool, true, false, not, ◌&&◌, ◌||◌, List, [], ◌∷◌, ◌++◌, map, leb,
  nat_eqb, if◌then◌else◌,
}
use debugbundle_python.Prelude.Text.{codes, same_codes}
use debugbundle_python.Json.{Json}

-- The compiled expressions of the module, by their names; `named` is the one that `_scrub_text`
-- builds for a field, `percent_named` and `label` those of its searches, `closing` is `[).,;]+$`.
pub data Pattern : Type 0 where
  pem_start pem header bearer token assignment card url percent_named label closing : Pattern
  named : String → Pattern

-- `urlsplit`, with its properties, where `port` does not raise; an absent part is "".
pub record SplitUrl : Type 0 where
  pub scheme : String
  pub hostname : String
  pub netloc : String
  pub username : String
  pub password : String
  pub path : String
  pub query : String

-- What `json.loads` does: a value, a ValueError, or an error of another kind.
pub data Loaded : Type 0 where
  parsed : Json → Loaded
  malformed refused : Loaded

-- What the redaction takes from libraries: `search` gives the groups of the first match, `sub` puts a
-- function of the groups for each match, `encoded` is the length of the UTF-8 form of a text, and
-- `none` stands for an error.
pub record RedactHost : Type 0 where
  pub search : Pattern → String → Option (List String)
  pub sub : Pattern → (List String → String) → String → String
  pub unquote : String → Option String
  pub urlsplit : String → Option SplitUrl
  pub parse_qsl : String → List (String × String)
  pub urlencode : List (String × String) → String
  pub urlunsplit : String → String → String → String → String
  pub encoded : String → Option ℕ
  pub loads : String → Loaded
  pub dumps : Json → String
  pub strip : List ℕ → List ℕ
  pub lower : List ℕ → List ℕ
  pub lower_text : String → String

abbrev pub redacted_value : String
redacted_value = "[REDACTED]"

abbrev default_redact_fields : List String
default_redact_fields =
    "authorization" ∷ "cookie" ∷ "credit_card" ∷ "password" ∷ "secret" ∷ "ssn" ∷ "token" ∷ []

abbrev pub mandatory_fields : List String
mandatory_fields =
    default_redact_fields
    ++ ("api_key" ∷ "apikey" ∷ "access_token" ∷ "refresh_token" ∷ "private_key" ∷ "bearer"
        ∷ "session_id" ∷ "passwd" ∷ "card_number" ∷ "cvv" ∷ "cvc" ∷ "pin" ∷ "expiry" ∷ "phone"
        ∷ "otp" ∷ "verification_code" ∷ [])

abbrev pub is_digit : ℕ → Bool
is_digit c = leb b'0' c && leb c b'9'

abbrev is_upper : ℕ → Bool
is_upper c = leb b'A' c && leb c b'Z'

abbrev is_plain : ℕ → Bool
is_plain c = (leb b'a' c && leb c b'z') || is_digit c

-- `re.sub(r"([a-z0-9])([A-Z])", r"\1_\2", key)`
abbrev pub split_camel : List ℕ → List ℕ
split_camel [] = []
split_camel (c ∷ []) = c ∷ []
split_camel (c ∷ d ∷ cs) =
    let rest = split_camel (d ∷ cs) in
    if is_plain c && is_upper d then c ∷ b'_' ∷ rest else c ∷ rest

abbrev push_segment : List ℕ → List (List ℕ) → List (List ℕ)
push_segment [] segments = segments
push_segment (c ∷ cs) segments = (c ∷ cs) ∷ segments

-- The segments of `re.split(r"[^a-z0-9]+", text)` that are not empty: the first, and those behind it.
abbrev cut_segments : List ℕ → List ℕ × List (List ℕ)
cut_segments [] = ([], [])
cut_segments (c ∷ cs) =
    let (first, rest) = cut_segments cs in
    if is_plain c then (c ∷ first, rest) else ([], push_segment first rest)

abbrev pub segments_of : List ℕ → List (List ℕ)
segments_of cs = let (first, rest) = cut_segments cs in push_segment first rest

-- `re.sub(r"[^a-z0-9]", "", text)`
abbrev pub plain_codes : List ℕ → List ℕ
plain_codes [] = []
plain_codes (c ∷ cs) = let rest = plain_codes cs in if is_plain c then c ∷ rest else rest

-- `combined in canonical`
abbrev pub is_canonical : List (List ℕ) → List ℕ → Bool
is_canonical [] cs = false
is_canonical (f ∷ fs) cs = same_codes f cs || is_canonical fs cs

-- The inner loop: the text so far, and the segments that are joined to it one by one.
abbrev pub joins : List (List ℕ) → List ℕ → List (List ℕ) → Bool
joins canonical combined [] = false
joins canonical combined (segment ∷ rest) =
    let later = joins canonical (combined ++ segment) rest in
    is_canonical canonical (combined ++ segment) || later

-- The outer loop over the starts
abbrev pub any_run : List (List ℕ) → List (List ℕ) → Bool
any_run canonical [] = false
any_run canonical (segment ∷ rest) =
    let later = any_run canonical rest in joins canonical [] (segment ∷ rest) || later

module _ (h : RedactHost) where
  abbrev pub canonical_fields : List String → List (List ℕ)
  canonical_fields fields = map (λ field. plain_codes (h.lower (codes field))) fields

  abbrev pub key_segments : String → List (List ℕ)
  key_segments key = segments_of (h.lower (split_camel (h.strip (codes key))))

  -- `_sensitive_key`
  unfoldable pub sensitive_key : String → List String → Bool
  sensitive_key key fields = any_run (canonical_fields fields) (key_segments key)
