-- ===== src/Redaction/Texts.antt =====
-- `_luhn`, `_scrub_url` and `_scrub_text` (src/debugbundle/redaction.py).
use Prim.Native.Char.{code}
use Prim.Native.String
use mathlib.Core.List.{reverse}
use debugbundle_python.Prelude.{
  ℕ, zero, suc, ◌+◌, ◌-◌, ◌*◌, ◌%◌, String, Option, none, some, Bool, true, false, not, ◌&&◌, ◌||◌,
  List, [], ◌∷◌, ◌++◌, length, leb, ltb, nat_eqb, string_eq, ◌==◌, if◌then◌else◌, is_some, or_else,
  get_elem?,
}
use debugbundle_python.Prelude.Text.{codes}
use debugbundle_python.Redaction.{
  pem_start, pem, header, bearer, token, assignment, card, url, percent_named, closing, named,
  SplitUrl, RedactHost, redacted_value, mandatory_fields, is_digit, sensitive_key,
}

abbrev digits_of : List ℕ → List ℕ
digits_of [] = []
digits_of (c ∷ cs) = let rest = digits_of cs in if is_digit c then (c - b'0') ∷ rest else rest

abbrev all_same : ℕ → List ℕ → Bool
all_same d [] = true
all_same d (e ∷ es) = nat_eqb e d && all_same d es

-- `len(set(digits)) == 1`
abbrev one_digit : List ℕ → Bool
one_digit [] = false
one_digit (d ∷ ds) = all_same d ds

abbrev doubled : ℕ → ℕ
doubled d = if ltb 9 (d * 2) then d * 2 - 9 else d * 2

-- The loop over the digits from the last, where the second digit and then each other one is doubled.
abbrev luhn_total : Bool → List ℕ → ℕ
luhn_total odd [] = 0
luhn_total odd (d ∷ ds) = (if odd then doubled d else d) + luhn_total (not odd) ds

abbrev luhn_digits : List ℕ → Bool
luhn_digits digits =
    if not (leb 13 (length digits) && leb (length digits) 19) || one_digit digits
    then false
    else nat_eqb (luhn_total false (reverse digits) % 10) 0

-- `_luhn`
unfoldable pub luhn : String → Bool
luhn candidate = luhn_digits (digits_of (codes candidate))

-- The text behind the last "@", and the first characters of a text.
abbrev after_at : String → Option String
after_at String.[] = none
after_at (String.◌∷◌ c s) =
    let later = after_at s in
    elim later [ some t ↦ some t | none ↦ if nat_eqb (code c) b'@' then some s else none ]

abbrev take_text : ℕ → String → String
take_text zero s = ""
take_text (suc n) String.[] = ""
take_text (suc n) (String.◌∷◌ c s) = String.◌∷◌ c (take_text n s)

infixr 66 ◌&◌
abbrev ◌&◌ : String → String → String
a & b = String.◌++◌ a b

-- `match.group(n)`
abbrev pub group : List String → ℕ → String
group groups n = or_else (get_elem? groups n) ""

abbrev pub assign : List String → String
assign groups = group groups 1 & (group groups 2 & redacted_value)

abbrev pub replace_card : List String → String
replace_card groups = if luhn (group groups 0) then redacted_value else group groups 0

module _ (h : RedactHost) where
  abbrev pub sub_named : List String → String → String
  sub_named [] result = result
  sub_named (field ∷ fields) result = sub_named fields (h.sub (named field) assign result)

  -- The substitutions of `_scrub_text` before that of URLs
  abbrev pub scrub_result : List String → String → String
  scrub_result extra value =
      let result = h.sub pem (λ groups. redacted_value) value in
      let result = h.sub header (λ groups. group groups 1 & (": " & redacted_value)) result in
      let result = h.sub bearer (λ groups. group groups 1 & (" " & redacted_value)) result in
      let result = h.sub token (λ groups. redacted_value) result in
      let result = h.sub assignment assign result in
      h.sub card replace_card (sub_named extra result)

  -- `_scrub_text` up to its substitutions: a text that has to go as a whole, or what is scrubbed.
  abbrev pub readable : String → Option String
  readable value =
      if is_some (h.search pem_start value) && not (is_some (h.search pem value))
      then none
      else if is_some (h.search percent_named value)
      then h.unquote value
      else some value

  -- `_scrub_text(value, extra, False)`
  unfoldable pub scrub_plain : List String → String → String
  unfolding luhn
  scrub_plain extra value = elim (readable value) [
    | none ↦ redacted_value
    | some text ↦ scrub_result extra text
  ]

  -- The list comprehension of `_scrub_url`
  abbrev pub scrub_query : List String → List (String × String) → List (String × String)
  scrub_query fields [] = []
  scrub_query fields ((key, value) ∷ rest) =
      let later = scrub_query fields rest in
      if leb (length (codes key)) 128 && (scrub_plain fields key == key)
      then (
        key,
        if sensitive_key h key fields || not (scrub_plain fields value == value)
            then redacted_value
            else value,
      )
        ∷ later
      else later

  abbrev or_root : String → String
  or_root path = if path == "" then "/" else path

  abbrev authority_of : SplitUrl → String → String
  authority_of parsed host =
      if not (parsed.username == "") || not (parsed.password == "")
      then "REDACTED@" & host
      else host

  -- `_scrub_url`, with `netloc.rsplit("@", 1)[-1]`
  unfoldable pub scrub_url : String → List String → String
  unfolding scrub_plain sensitive_key
  scrub_url raw fields = elim (h.urlsplit raw) [
    | none ↦ redacted_value
    | some parsed ↦
        if parsed.scheme == "" || parsed.hostname == ""
        then redacted_value
        else h.urlunsplit (h.lower_text parsed.scheme)
            (authority_of parsed (or_else (after_at parsed.netloc) parsed.netloc))
            (or_root parsed.path) (h.urlencode (scrub_query fields (h.parse_qsl parsed.query)))
  ]

  -- `replace_url`, with the punctuation at the end of the match
  abbrev pub replace_url : List String → List String → String
  replace_url extra groups = elim (h.search closing (group groups 0)) [
    | none ↦ scrub_url (group groups 0) (mandatory_fields ++ extra)
    | some suffix ↦
        scrub_url
          (take_text (length (codes (group groups 0)) - length (codes (group suffix 0)))
            (group groups 0))
          (mandatory_fields ++ extra)
        & group suffix 0
  ]

  -- `_scrub_text(value, extra)`
  unfoldable pub scrub_text : List String → String → String
  unfolding scrub_url luhn
  scrub_text extra value = elim (readable value) [
    | none ↦ redacted_value
    | some text ↦ h.sub url (replace_url extra) (scrub_result extra text)
  ]
