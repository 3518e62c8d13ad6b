-- ===== src/Evidence/Shapes.antt =====
-- The tests on values of src/debugbundle/evidence_wire.py: closed objects, numbers, texts, times and URLs.
use debugbundle_python.Prelude.{
  ℕ, ◌+◌, ◌-◌, ◌*◌, ◌/◌, ◌%◌, ◌^◌, String, Option, none, some, Bool, true, false, not, ◌&&◌, ◌||◌,
  List, [], ◌∷◌, ◌++◌, length, contains, ltb, leb, nat_eqb, string_eq, nat_eq, ◌==◌, if◌then◌else◌,
  take, drop,
}
use debugbundle_python.Prelude.Int.{ℤ, pos}
use debugbundle_python.Prelude.Text.{codes, starts_with}
use debugbundle_python.Json.{Json, Fields, finite, null, int, float, str, dict, entries}
use debugbundle_python.Evidence.{is_digit, has_all, only_keys}

-- What `urlsplit` reads of a URL, its port included.
pub record UrlParts : Type 0 where
  pub has_hostname : Bool
  pub has_username : Bool
  pub has_password : Bool
  pub has_query : Bool
  pub has_fragment : Bool

-- What the program takes from libraries: the length of `str.encode`, or its error; `urlsplit`, or
-- its error; the length of a text that `json.dumps` writes, or its error; `str.strip`; and the digits
-- of a number, as a float, that `repr` writes, or its `OverflowError`.
pub record NumberShape : Type 0 where
  pub digits : ℕ
  pub position : ℤ
  pub negative : Bool

pub record WireHost : Type 0 where
  pub utf8_length : String → Option ℕ
  pub url_parts : String → Option UrlParts
  pub dumps_length : String → Option ℕ
  pub number_shape : Json → Option NumberShape
  pub strip : String → String

-- `_mapping(value, maximum)`, and `_mapping(value)`
abbrev pub mapping_of : Json → ℕ → Option Fields
mapping_of (dict value) maximum = if leb (length (entries value)) maximum then some value else none
mapping_of _ maximum = none

abbrev pub mapping : Json → Option Fields
mapping value = mapping_of value 256

-- `_closed(value, required, optional)` for an object
unfoldable pub closed_with : Fields → List String → List String → Bool
closed_with value required optional =
    leb (length (entries value)) (length required + length optional)
    && has_all value required
    && only_keys (entries value) (required ++ optional)

-- `_one_of(value, options)`, without and with `None` among the options
abbrev pub one_of : Json → List String → Bool
one_of (str s) options = contains options s
one_of _ options = false

abbrev pub nullable : (Json → Bool) → Json → Bool
nullable test null = true
nullable test value = test value

-- 1.7976931348623157e308, the greatest float
abbrev pub greatest_float : ℕ
greatest_float = (2 ^ 53 - 1) * 2 ^ 971

-- `_number`
unfoldable pub number : Json → Bool
number (int (pos n)) = leb n greatest_float
number (float (finite (pos m) e)) = true
number _ = false

-- A number that `_number` takes and that equals its floor.
unfoldable pub whole : Json → Option ℕ
whole (int (pos n)) = if leb n greatest_float then some n else none
whole (float (finite (pos m) e)) = if nat_eqb (m % 2 ^ e) 0 then some (m / 2 ^ e) else none
whole _ = none

-- `_integer(value, minimum)`, and `_integer(value, minimum, maximum)`
unfoldable pub at_least : Json → ℕ → Bool
unfolding whole
at_least value minimum = elim (whole value) [ none ↦ false | some n ↦ leb minimum n ]

unfoldable pub integer : Json → ℕ → ℕ → Bool
unfolding whole
integer value minimum maximum = elim (whole value) [
  | none ↦ false
  | some n ↦ leb minimum n && leb n maximum
]

-- `int(digits)`
abbrev pub decimal : ℕ → List ℕ → ℕ
decimal n [] = n
decimal n (c ∷ cs) = decimal (n * 10 + (c - b'0')) cs

-- A place of the pattern `_TIME`, and `None` for a digit.
abbrev time_places : List (Option ℕ)
time_places =
    none
    ∷ none
    ∷ none
    ∷ none
    ∷ some b'-'
    ∷ none
    ∷ none
    ∷ some b'-'
    ∷ none
    ∷ none
    ∷ some b'T'
    ∷ none
    ∷ none
    ∷ some b':'
    ∷ none
    ∷ none
    ∷ some b':'
    ∷ none
    ∷ none
    ∷ []

-- The text after the places, where it fits them.
abbrev after_places : List (Option ℕ) → List ℕ → Option (List ℕ)
after_places [] cs = some cs
after_places (p ∷ ps) [] = none
after_places (none ∷ ps) (c ∷ cs) = if is_digit c then after_places ps cs else none
after_places (some d ∷ ps) (c ∷ cs) = if nat_eqb c d then after_places ps cs else none

-- `[0-9]*Z`
abbrev digits_then_z : List ℕ → Bool
digits_then_z [] = false
digits_then_z (c ∷ []) = nat_eqb c b'Z'
digits_then_z (c ∷ d ∷ cs) = is_digit c && digits_then_z (d ∷ cs)

-- `(?:\.[0-9]+)?Z`
abbrev fraction_then_z : List ℕ → Bool
fraction_then_z [] = false
fraction_then_z (c ∷ []) = nat_eqb c b'Z'
fraction_then_z (c ∷ d ∷ cs) = nat_eqb c b'.' && is_digit d && digits_then_z cs

abbrev fits_time : List ℕ → Bool
fits_time cs = elim (after_places time_places cs) [
  | none ↦ false
  | some rest ↦ fraction_then_z rest
]

abbrev pub is_leap : ℕ → Bool
is_leap year = nat_eqb (year % 4) 0 && (not (nat_eqb (year % 100) 0) || nat_eqb (year % 400) 0)

abbrev pub days_in : ℕ → ℕ → ℕ
days_in year month =
    if nat_eqb month 2
    then (if is_leap year then 29 else 28)
    else if contains (4 ∷ 6 ∷ 9 ∷ 11 ∷ []) month
    then 30
    else 31

-- `int(value[start:start + count])`
abbrev part : List ℕ → ℕ → ℕ → ℕ
part cs start count = decimal 0 (take count (drop start cs))

unfoldable pub is_calendar_time : List ℕ → Bool
is_calendar_time cs =
    leb 1 (part cs 5 2)
    && leb (part cs 5 2) 12
    && leb (part cs 11 2) 23
    && leb (part cs 14 2) 59
    && leb (part cs 17 2) 59
    && leb 1 (part cs 8 2)
    && leb (part cs 8 2) (days_in (part cs 0 4) (part cs 5 2))

-- `[\x00-\x20\x7f\\?#]`
abbrev has_unsafe : List ℕ → Bool
has_unsafe [] = false
has_unsafe (c ∷ cs) =
    leb c 32 || nat_eqb c 127 || nat_eqb c 92 || nat_eqb c b'?' || nat_eqb c b'#' || has_unsafe cs

-- The letter that a code point matches where case is ignored; U+017F matches `s`.
abbrev lower_code : ℕ → ℕ
lower_code c = if leb b'A' c && leb c b'Z' then c + 32 else if nat_eqb c 383 then b's' else c

abbrev lower_codes : List ℕ → List ℕ
lower_codes [] = []
lower_codes (c ∷ cs) = lower_code c ∷ lower_codes cs

-- `^https?://` in either case
abbrev is_http : List ℕ → Bool
is_http cs =
    starts_with (lower_codes cs) (codes "http://")
    || starts_with (lower_codes cs) (codes "https://")

-- `[a-z-]{1,64}`
abbrev all_directive : List ℕ → Bool
all_directive [] = true
all_directive (c ∷ cs) = ((leb b'a' c && leb c b'z') || nat_eqb c b'-') && all_directive cs

unfoldable pub is_directive : Json → Bool
is_directive (str s) =
    leb 1 (length (codes s)) && leb (length (codes s)) 64 && all_directive (codes s)
is_directive _ = false

module _ (h : WireHost) where
  -- `_text(value, maximum)`
  unfoldable pub text : Json → ℕ → Bool
  text (str s) maximum =
      not (ltb maximum (length (codes s)))
      && (elim (h.utf8_length s) [ none ↦ false | some n ↦ leb n maximum ])
  text _ maximum = false

  -- `_timestamp`
  unfoldable pub timestamp : Json → Bool
  unfolding text is_calendar_time
  timestamp (str s) = text (str s) 32_768 && fits_time (codes s) && is_calendar_time (codes s)
  timestamp _ = false

  abbrev url_parts_ok : Bool → Option UrlParts → Bool
  url_parts_ok rooted none = false
  url_parts_ok rooted (some p) =
      (rooted || p.has_hostname)
      && not p.has_username
      && not p.has_password
      && not p.has_query
      && not p.has_fragment

  -- `_url`
  unfoldable pub url : Json → Bool
  unfolding text
  url (str s) =
      let cs = codes s in
      let rooted = starts_with cs (b'/' ∷ []) in
      text (str s) 2_048
      && not (s == "")
      && not (starts_with cs (b'/' ∷ b'/' ∷ []))
      && not (has_unsafe cs)
      && (rooted || is_http cs)
      && url_parts_ok rooted (h.url_parts s)
  url _ = false
