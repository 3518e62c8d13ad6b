-- ===== src/Forward/Files.antt =====
-- `AtomicRelayFileTransport` and the spool markers of src/debugbundle/relay_delivery.py, on the files
-- of one directory by their names.
pub mod Atomic
use Prim.Native.String
use debugbundle_python.Prelude.{
  ℕ, suc, ◌+◌, String, Option, none, some, Bool, true, false, not, ◌&&◌, ◌||◌, List, [], ◌∷◌, ◌++◌,
  length, take, nat_eqb, string_eq, if◌then◌else◌, is_some,
}
use debugbundle_python.Prelude.Text.{codes, holds}
use debugbundle_python.Prelude.Dict
use debugbundle_python.Prelude.Dict.{Dict}
use debugbundle_python.Json.{Fields}

-- What a write meets: whether each call of the operating system succeeds, and how many bytes `os.write`
-- takes where it does (it may take a part of them), the names that may be removed, the time, the random
-- digits of the name, and the bytes of `json.dumps`.
pub record Attempt : Type 0 where
  pub made_directory : Bool
  pub is_link : Bool
  pub opened : Bool
  pub written : Option ℕ
  pub replaced : Bool
  pub listed : Bool
  pub removable : String → Bool
  pub timestamp : String
  pub token : String
  pub encoded : List Fields → List ℕ

pub record FileTransport : Type 0 where
  pub service_name : String
  pub sequence : ℕ
  pub dir_ensured : Bool

pub record RelayWriteResult : Type 0 where
  pub status_code : ℕ
  pub written_file_path : Option String

-- The bytes of each file
abbrev pub Files : Type 0
Files = Dict String (List ℕ)

infixr 66 ◌&◌
abbrev pub ◌&◌ : String → String → String
a & b = String.◌++◌ a b

-- `".tmp-" in entry`
abbrev pub is_temp : String → Bool
is_temp entry = holds (codes ".tmp-") (codes entry)

-- `_cleanup_temp_files`, the loop over the names and whether there is one
abbrev pub remove_temp : (String → Bool) → Files → Files
remove_temp removable [] = []
remove_temp removable ((name, content) ∷ rest) =
    let kept = remove_temp removable rest in
    if is_temp name && removable name then kept else (name, content) ∷ kept

abbrev pub cleanup : Attempt → Files → Files
cleanup a files = if a.listed then remove_temp a.removable files else files

-- What `os.write` has put into the file, or `none` where it raises
abbrev pub written_bytes : Option ℕ → List ℕ → Option (List ℕ)
written_bytes none encoded = none
written_bytes (some n) encoded = some (take n encoded)

-- `os.replace`, behind `_write_secure_temp_file`
abbrev pub renamed : Bool → String → String → Files → Option (List ℕ) → Files × Bool
renamed replaced final temp files none = (Dict.put files temp [], false)
renamed false final temp files (some bytes) = (Dict.put files temp bytes, false)
renamed true final temp files (some bytes) = (Dict.put files final bytes, true)

-- The files after the steps of the `try`, and whether none of them raised, from the name on. The number
-- of bytes that `os.write` has taken is not looked at.
abbrev pub write_files : Attempt → String → String → List Fields → Files → Files × Bool
write_files a final temp es files =
    if a.is_link || is_some (Dict.get files temp) || not a.opened
    then (files, false)
    else renamed a.replaced final temp files (written_bytes a.written (a.encoded es))

abbrev pub result_of : Attempt → String → Files × Bool → Files × RelayWriteResult
result_of a final (files, true) =
    (files, record { status_code = 202; written_file_path = some final })
result_of a final (files, false) =
    (cleanup a files, record { status_code = 500; written_file_path = none })

module _ (show : ℕ → String) where
  abbrev pub final_name : FileTransport → Attempt → String
  final_name t a =
      a.timestamp & ("-" & (show t.sequence & ("-" & (t.service_name & ".events.json"))))

  abbrev pub temp_name : FileTransport → Attempt → String
  temp_name t a = final_name t a & (".tmp-" & a.token)

  -- `write`
  unfoldable pub write :
      Attempt → FileTransport → List Fields → Files → FileTransport × (Files × RelayWriteResult)
  write a t [] files = (t, (files, record { status_code = 202; written_file_path = none }))
  write a t (e ∷ es) files =
      if not t.dir_ensured && not a.made_directory
      then (t, result_of a "" (files, false))
      else (let t' = record t { dir_ensured = true; sequence = suc t.sequence } in
          (
            t',
            result_of a (final_name t' a)
                (write_files a (final_name t' a) (temp_name t' a) (e ∷ es) files),
          ))

  -- `mark_spool_file_delivered`, where the path is a regular file and where the marker can be made
  unfoldable pub mark_spool_file_delivered : Bool → Bool → String → Files → Files
  mark_spool_file_delivered is_regular can_open path files =
      if is_regular && can_open && not (is_some (Dict.get files (path & ".delivered")))
      then Dict.put files (path & ".delivered") []
      else files
