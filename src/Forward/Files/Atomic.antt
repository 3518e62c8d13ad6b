-- ===== src/Forward/Files/Atomic.antt =====
-- What a write of src/debugbundle/relay_delivery.py leaves in the files.
use Prim.Native.Char.{code}
use text.Mathlib.TextLemmas.{nil-append, cons-append}
use debugbundle_python.Prelude.{
  or_true, ℕ, zero, suc, ◌<◌, length, arith, ◌≡◌, ◌∙◌, refl, sym, ap, ◌⊎◌, String, none, some, Bool,
  true, false, not, ◌&&◌, ◌||◌, List, [], ◌∷◌, ◌++◌, string_eq, ◌==◌, ==_iff, if◌then◌else◌,
  is_some, Bool-cases, Option, inl, inr, take,
}
use debugbundle_python.Prelude.Text.{codes, holds}
use debugbundle_python.Prelude.Dict
use debugbundle_python.Prelude.Dict.{Dict, get-put}
use debugbundle_python.Prelude.Dict.Laws.{get-put_self}
use debugbundle_python.Json.{Fields}
use debugbundle_python.Forward.Files.{
  Attempt, written_bytes, renamed, FileTransport, RelayWriteResult, Files, ◌&◌, is_temp,
  remove_temp, cleanup, final_name, temp_name, write_files, result_of, write,
}

codes-append : (s t : String) → codes (s & t) ≡ codes s ++ codes t
codes-append String.[] t = ap codes (nil-append t)
codes-append (String.◌∷◌ c s) t =
    ap codes (cons-append c s t) ∙ ap (λ cs. code c ∷ cs) (codes-append s t)

holds-temp :
    (before after : List ℕ) → holds (codes ".tmp-") (before ++ (codes ".tmp-" ++ after)) ≡ true
holds-temp [] after = refl
holds-temp (c ∷ cs) after = or_true _ _ (holds-temp cs after)

temp-is_temp : (final token : String) → is_temp (final & (".tmp-" & token)) ≡ true
temp-is_temp final token =
    ap (holds (codes ".tmp-")) (
      codes-append final (".tmp-" & token)
      ∙ ap (λ cs. codes final ++ cs) (codes-append ".tmp-" token))
    ∙ holds-temp (codes final) (codes token)

apart : (temp name : String) → is_temp temp ≡ true → is_temp name ≡ false → (temp == name) ≡ false
apart temp name t n = elim (Bool-cases (temp == name)) [
  | inl same ↦
      absurd (let no : true ≡ false = sym t ∙ ap is_temp ((==_iff temp name).0 same) ∙ n in cc)
  | inr other ↦ other
]

left_true : (a b : Bool) → (a && b) ≡ true → a ≡ true
left_true true b e = refl
left_true false b e = e

get-remove_temp :
    (removable : String → Bool) (files : Files) (name : String)
    → is_temp name ≡ false
    → Dict.get (remove_temp removable files) name ≡ Dict.get files name
unfolding Dict.get
get-remove_temp removable [] name plain = refl
get-remove_temp removable ((n, content) ∷ rest) name plain =
    elim (Bool-cases (is_temp n && removable n)) [
      | inl gone ↦
          let temp : is_temp n ≡ true = left_true (is_temp n) (removable n) gone in
          rw gone (rw (apart n name temp plain) (get-remove_temp removable rest name plain))
      | inr kept ↦ rw kept (elim (Bool-cases (n == name)) [
        | inl same ↦ rw same refl
        | inr other ↦ rw other (get-remove_temp removable rest name plain)
      ])
    ]

-- Nothing but files that are for the moment differs.
abbrev pub SameFiles : Files → Files → Type 0
SameFiles files files' =
    (name : String) → is_temp name ≡ false → Dict.get files' name ≡ Dict.get files name

cleanup-SameFiles :
    (a : Attempt) (files files' : Files)
    → SameFiles files files'
    → SameFiles files (cleanup a files')
cleanup-SameFiles a files files' same name plain = elim (Bool-cases a.listed) [
  | inl listed ↦ rw listed (get-remove_temp a.removable files' name plain ∙ same name plain)
  | inr unlisted ↦ rw unlisted (same name plain)
]

put-SameFiles :
    (files : Files) (temp : String) (c : List ℕ)
    → is_temp temp ≡ true
    → SameFiles files (Dict.put files temp c)
put-SameFiles files temp c t name plain =
    get-put files temp c name ∙ (rw (apart temp name t plain) refl)

-- How a write ends: with a failure and no change to the files that stay, or with a success and one new file,
-- of as many bytes of the events as `os.write` has taken.
abbrev pub Written : Attempt → Files → String → List Fields → Files × RelayWriteResult → Type 0
Written a files final es (files', r) =
    ((r ≡ record { status_code = 500; written_file_path = none }) × SameFiles files files')
    ⊎ ((r ≡ record { status_code = 202; written_file_path = some final })
        × ((bytes : List ℕ) × (written_bytes a.written (a.encoded es) ≡ some bytes)
            × ((name : String)
                → Dict.get files' name
                  ≡ (if final == name then some bytes else Dict.get files name))))

result-Written :
    (a : Attempt) (files : Files) (final : String) (es : List Fields) (out : Files)
    → SameFiles files out
    → Written a files final es (result_of a final (out, false))
result-Written a files final es out same = inl (refl, cleanup-SameFiles a files out same)

renamed-Written :
    (a : Attempt) (files : Files) (final temp : String) (es : List Fields)
    → is_temp temp ≡ true
    → (replaced : Bool) (put : Option (List ℕ)) → written_bytes a.written (a.encoded es) ≡ put
    → Written a files final es (result_of a final (renamed replaced final temp files put))
renamed-Written a files final temp es t replaced none e =
    result-Written a files final es _ (put-SameFiles files temp [] t)
renamed-Written a files final temp es t false (some bytes) e =
    result-Written a files final es _ (put-SameFiles files temp bytes t)
renamed-Written a files final temp es t true (some bytes) e =
    inr (refl, (bytes, e, λ name. get-put files final bytes name))

steps-Written :
    (a : Attempt) (files : Files) (final temp : String) (es : List Fields)
    → is_temp temp ≡ true
    → Written a files final es (result_of a final (write_files a final temp es files))
steps-Written a files final temp es t =
    elim (Bool-cases (a.is_link || is_some (Dict.get files temp) || not a.opened)) [
      | inl stopped ↦ rw stopped (result-Written a files final es files (λ name plain. refl))
      | inr opened ↦ rw opened (
          renamed-Written a files final temp es t a.replaced
            (written_bytes a.written (a.encoded es)) refl)
    ]

-- A write of events either fails with 500 and leaves each file whose name has no ".tmp-" as it was,
-- or succeeds with 202 and its path, where the file of that path holds the bytes of the events that
-- os.write has taken and no other file has changed; whatever step of it fails, and whatever is
-- removed.
pub write-Written :
    (show : ℕ → String) (a : Attempt) (t : FileTransport) (e : Fields) (es : List Fields)
    (files : Files)
    → Written a files
        (final_name show (write show a t (e ∷ es) files).0 a)
        (e ∷ es)
        (write show a t (e ∷ es) files).1
unfolding write
write-Written show a t e es files = elim (Bool-cases (not t.dir_ensured && not a.made_directory)) [
  | inl no_directory ↦
      rw no_directory (inl (refl, cleanup-SameFiles a files files (λ name plain. refl)))
  | inr directory ↦
      let t' : FileTransport = record t { dir_ensured = true; sequence = suc t.sequence } in
      rw directory (
        steps-Written a files (final_name show t' a) (temp_name show t' a) (e ∷ es)
          (temp-is_temp (final_name show t' a) a.token))
]

length-take_short : (n : ℕ) (xs : List ℕ) → n < length xs → length (take n xs) < length xs
length-take_short n [] lt = absurd (omega arith)
length-take_short zero (x ∷ xs) lt = omega arith
length-take_short (suc n) (x ∷ xs) lt = omega (arith, length-take_short n xs (omega (arith, lt)))

-- Where os.write takes fewer bytes than the events have and no other step fails, the write succeeds with
-- 202, and its file holds those bytes only.
pub write_short-accepts :
    (show : ℕ → String) (a : Attempt) (t : FileTransport) (e : Fields) (es : List Fields)
    (files : Files) (n : ℕ)
    → (not t.dir_ensured && not a.made_directory) ≡ false
    → (a.is_link
        || is_some (
            Dict.get files
              (temp_name show (record t { dir_ensured = true; sequence = suc t.sequence }) a))
        || not a.opened)
      ≡ false
    → a.replaced ≡ true
    → a.written ≡ some n
    → n < length (a.encoded (e ∷ es))
    → let (t', (files', r)) = write show a t (e ∷ es) files in
      (r.status_code ≡ 202)
      × (Dict.get files' (final_name show t' a) ≡ some (take n (a.encoded (e ∷ es))))
      × (length (take n (a.encoded (e ∷ es))) < length (a.encoded (e ∷ es)))
unfolding write
write_short-accepts show a t e es files n directory opened moved part short =
    let t' : FileTransport = record t { dir_ensured = true; sequence = suc t.sequence } in
    let bytes : List ℕ = take n (a.encoded (e ∷ es)) in
    let put : written_bytes a.written (a.encoded (e ∷ es)) ≡ some bytes =
      ap (λ w. written_bytes w (a.encoded (e ∷ es))) part in
    let steps : write_files a (final_name show t' a) (temp_name show t' a) (e ∷ es) files
        ≡ (Dict.put files (final_name show t' a) bytes, true) =
      rw opened (
        ap (λ p. renamed a.replaced (final_name show t' a) (temp_name show t' a) files p) put
        ∙ ap (λ b. renamed b (final_name show t' a) (temp_name show t' a) files (some bytes))
            moved) in
    rw directory (
      rw steps (
        refl,
        get-put_self files (final_name show t' a) bytes,
        length-take_short n (a.encoded (e ∷ es)) short,
      ))
