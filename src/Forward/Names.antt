-- ===== src/Forward/Names.antt =====
-- The names of services in the names of event files (`_sanitize_service_name` of
-- src/debugbundle/relay_delivery.py).
use Prim.Native.Char.{code}
use debugbundle_python.Prelude.{
  ℕ, ◌≡◌, refl, String, Bool, true, false, ◌&&◌, ◌||◌, leb, nat_eqb, string_eq, ◌==◌, if◌then◌else◌,
  arith, inl, inr, Bool-cases,
}
use debugbundle_python.Forward.Files.{FileTransport}

-- `[A-Za-z0-9._-]`
abbrev pub is_name_code : ℕ → Bool
is_name_code c =
    (leb b'A' c && leb c b'Z')
    || (leb b'a' c && leb c b'z')
    || (leb b'0' c && leb c b'9')
    || nat_eqb c b'.'
    || nat_eqb c b'_'
    || nat_eqb c b'-'

abbrev dash : String → String
dash s = String.◌∷◌ "-" s

-- `re.sub(r"[^A-Za-z0-9._-]+", "-", text)`, but with a dash for each character of a run; the next step
-- makes one of them.
abbrev dashed : String → String
dashed String.[] = ""
dashed (String.◌∷◌ c s) =
    let rest = dashed s in if is_name_code (code c) then String.◌∷◌ c rest else dash rest

abbrev starts_dash : String → Bool
starts_dash String.[] = false
starts_dash (String.◌∷◌ c s) = nat_eqb (code c) b'-'

-- `re.sub(r"-+", "-", text)`
abbrev single_dashes : String → String
single_dashes String.[] = ""
single_dashes (String.◌∷◌ c s) =
    let rest = single_dashes s in
    if nat_eqb (code c) b'-' && starts_dash rest then rest else String.◌∷◌ c rest

-- `text.strip("-")`
abbrev without_first : String → String
without_first String.[] = ""
without_first (String.◌∷◌ c s) =
    let rest = without_first s in if nat_eqb (code c) b'-' then rest else String.◌∷◌ c s

abbrev without_last_dashes : String → String
without_last_dashes String.[] = ""
without_last_dashes (String.◌∷◌ c s) =
    let rest = without_last_dashes s in
    if nat_eqb (code c) b'-' && (rest == "") then "" else String.◌∷◌ c rest

abbrev or_service : String → String
or_service normalized = if normalized == "" then "service" else normalized

module _ (strip : String → String) where
  unfoldable pub sanitize_service_name : String → String
  sanitize_service_name service_name =
      or_service (without_last_dashes (without_first (single_dashes (dashed (strip service_name)))))

  -- `AtomicRelayFileTransport(events_dir, service_name)`
  abbrev pub new_transport : String → FileTransport
  new_transport service_name = record {
    service_name = sanitize_service_name service_name;
    sequence = 0;
    dir_ensured = false;
  }

-- The characters of a name
abbrev pub all_name_codes : String → Bool
all_name_codes String.[] = true
all_name_codes (String.◌∷◌ c s) = is_name_code (code c) && all_name_codes s

and_left : (a b : Bool) → (a && b) ≡ true → a ≡ true
and_left true b e = refl
and_left false b e = e

and_right : (a b : Bool) → (a && b) ≡ true → b ≡ true
and_right true b e = e
and_right false b e = absurd (cc)

and_both : (a b : Bool) → a ≡ true → b ≡ true → (a && b) ≡ true
and_both true b p q = q
and_both false b p q = p

dashed-IsName : (s : String) → all_name_codes (dashed s) ≡ true
dashed-IsName String.[] = refl
dashed-IsName (String.◌∷◌ c s) = elim (Bool-cases (is_name_code (code c))) [
  | inl good ↦ rw good (ground (arith, good, dashed-IsName s))
  | inr bad ↦ rw bad (dashed-IsName s)
]

single-IsName : (s : String) → all_name_codes s ≡ true → all_name_codes (single_dashes s) ≡ true
single-IsName String.[] e = refl
single-IsName (String.◌∷◌ c s) e =
    elim (Bool-cases (nat_eqb (code c) b'-' && starts_dash (single_dashes s))) [
      | inl double ↦ rw double (single-IsName s (and_right _ _ e))
      | inr single ↦ rw single (and_both _ _ (and_left _ _ e) (single-IsName s (and_right _ _ e)))
    ]

first-IsName : (s : String) → all_name_codes s ≡ true → all_name_codes (without_first s) ≡ true
first-IsName String.[] e = refl
first-IsName (String.◌∷◌ c s) e = elim (Bool-cases (nat_eqb (code c) b'-')) [
  | inl first ↦ rw first (first-IsName s (and_right _ _ e))
  | inr other ↦ rw other e
]

last-IsName : (s : String) → all_name_codes s ≡ true → all_name_codes (without_last_dashes s) ≡ true
last-IsName String.[] e = refl
last-IsName (String.◌∷◌ c s) e =
    elim (Bool-cases (nat_eqb (code c) b'-' && (without_last_dashes s == ""))) [
      | inl last ↦ rw last refl
      | inr other ↦ rw other (and_both _ _ (and_left _ _ e) (last-IsName s (and_right _ _ e)))
    ]

-- A name of a service in a file name is not empty and has letters, digits, ".", "_" and "-" only, and so
-- no separator of paths.
sanitize_service_name-IsName :
    (strip : String → String) (service_name : String)
    → (all_name_codes (sanitize_service_name strip service_name) ≡ true)
      × ((sanitize_service_name strip service_name == "") ≡ false)
unfolding sanitize_service_name
sanitize_service_name-IsName strip service_name =
    let single : String = single_dashes (dashed (strip service_name)) in
    let plain : String = without_last_dashes (without_first single) in
    let single_good : all_name_codes single ≡ true =
      single-IsName (dashed (strip service_name)) (dashed-IsName (strip service_name)) in
    let good : all_name_codes plain ≡ true =
      last-IsName (without_first single) (first-IsName single single_good) in
    elim (Bool-cases (plain == "")) [
      | inl empty ↦ rw empty (refl, refl)
      | inr full ↦ rw full (good, full)
    ]
