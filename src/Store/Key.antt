-- ===== src/Store/Key.antt =====
-- crates/clippo-store/src/key.rs: the database key, its text, and where it is found.
pub mod Hex
pub mod KeyFile
pub mod Acquired
pub mod Created
pub mod Private
use clippo.Prelude.{
  ℕ, zero, suc, ◌+◌, ◌-◌, ◌*◌, ◌/◌, ◌%◌, Bool, true, false, not, ◌&&◌, ◌||◌, List, [], ◌∷◌, ◌++◌,
  Option, none, some, Result, ok, err, if◌then◌else◌, ltb, ◌==◌,
}
use clippo.Core.Display.{hex_digit}
use clippo.Prelude.Text.{Text, codes, trim, len, as_bytes, between}

-- a key is its 32 bytes
abbrev pub Key : Type 0
Key = List ℕ

abbrev pub key_bytes : ℕ
key_bytes = 32

-- a byte is `{byte:02x}`
unfoldable pub to_hex : Key → Text
to_hex [] = []
to_hex (b ∷ bytes) = hex_digit (b / 16) ∷ hex_digit (b % 16) ∷ to_hex bytes

unfoldable pragma : Key → Text
pragma key = codes "PRAGMA key = \"x'" ++ (to_hex key ++ codes "'\";")

-- `char::to_digit(16)`
unfoldable pub digit_value : ℕ → Option ℕ
digit_value c =
    if between 48 57 c
    then some (c - 48)
    else if between 97 102 c
    then some (c - 87)
    else if between 65 70 c
    then some (c - 55)
    else none

abbrev two_digits : Option ℕ → Option ℕ → Option ℕ
two_digits (some high) (some low) = some (high * 16 + low)
two_digits _ _ = none

-- `u8::from_str_radix(pair, 16)` on two bytes, which may begin with a plus sign; a byte that is not
-- ASCII is no digit, whether or not the pair is UTF-8
unfoldable pub from_pair : ℕ → ℕ → Option ℕ
from_pair a b = if a == 43 then digit_value b else two_digits (digit_value a) (digit_value b)

abbrev cons_byte : Option ℕ → Option (List ℕ) → Option (List ℕ)
cons_byte (some byte) (some bytes) = some (byte ∷ bytes)
cons_byte _ _ = none

-- over `chunks_exact(2)`
unfoldable pub from_pairs : List ℕ → Option (List ℕ)
from_pairs [] = some []
from_pairs (a ∷ []) = some []
from_pairs (a ∷ b ∷ rest) = cons_byte (from_pair a b) (from_pairs rest)

unfoldable pub from_hex : Text → Option Key
from_hex text =
    if not (len (trim text) == key_bytes * 2) then none else from_pairs (as_bytes (trim text))

pub data KeySource : Type 0 where
  secret_service : KeySource
  file : Text → KeySource

pub data IoError : Type 0 where
  not_found already_exists : IoError
  other : Text → IoError

pub data KeyError : Type 0 where
  no_random : Text → KeyError
  file_permissions : Text → ℕ → KeyError
  malformed_file : Text → KeyError
  read_file write_file create_dir : Text → IoError → KeyError
  dir_permissions : Text → ℕ → IoError → KeyError
  no_service_for_database : Text → Text → Text → KeyError
  malformed_secret : KeyError

pub record Metadata : Type 0 where
  pub is_file : Bool
  pub is_dir : Bool
  pub mode : ℕ

-- `mode & 0o777`
abbrev pub bits : Metadata → ℕ
bits m = m.mode % 512

-- `mode & 0o077 != 0`
abbrev pub is_shared : ℕ → Bool
is_shared mode = not (mode % 64 == 0)

abbrev pub hex_or_malformed : Text → Option Key → Result (Option Key) KeyError
hex_or_malformed path none = err (malformed_file path)
hex_or_malformed path (some key) = ok (some key)

abbrev pub read_text : Text → Result Text IoError → Result (Option Key) KeyError
read_text path (err e) = err (read_file path e)
read_text path (ok text) = hex_or_malformed path (from_hex text)

abbrev read_meta :
    Text → Result Metadata IoError → Result Text IoError → Result (Option Key) KeyError
read_meta path (err not_found) text = ok none
read_meta path (err already_exists) text = err (read_file path already_exists)
read_meta path (err (other e)) text = err (read_file path (other e))
read_meta path (ok meta) text =
    if not meta.is_file
    then err (malformed_file path)
    else if is_shared (bits meta)
    then err (file_permissions path (bits meta))
    else read_text path text

-- by what `metadata` and `read_to_string` answer
unfoldable pub read_key_file :
    Text → Result Metadata IoError → Result Text IoError → Result (Option Key) KeyError
read_key_file path meta text = read_meta path meta text

-- what the program writes
pub data Act : Type 0 where
  create_dir_all : Text → Act
  make_dir : Text → ℕ → Act
  set_permissions : Text → ℕ → Act
  create_file : Text → ℕ → Text → Act
  store_item : Text → Act

-- What the system answers while a data directory is made. `parent` is the directory's, where it has one.
pub record DirAnswers : Type 0 where
  pub parent : Option Text
  pub parents : Option IoError
  pub create : Option IoError
  pub before : Result Metadata IoError
  pub chmod : Option IoError
  pub after : Result Metadata IoError

abbrev pub dir_mode : Text → Result Metadata IoError → Result ℕ KeyError
dir_mode dir (err e) = err (create_dir dir e)
dir_mode dir (ok meta) = if meta.is_dir then ok (bits meta) else err (create_dir dir already_exists)

abbrev pub check_again : Text → Result ℕ KeyError → Option KeyError
check_again dir (err e) = some e
check_again dir (ok now) =
    if is_shared now
    then some (
        dir_permissions dir now (
          other (
            codes
              "chmod reported success but the mode did not change; the filesystem may not support unix permissions")))
    else none

abbrev pub chmod_done :
    Text → ℕ → Option IoError → Result Metadata IoError → List Act × Option KeyError
chmod_done dir mode (some e) after = ([], some (dir_permissions dir mode e))
chmod_done dir mode none after =
    (set_permissions dir 448 ∷ [], check_again dir (dir_mode dir after))

abbrev pub narrow_from :
    Text → Result ℕ KeyError → Option IoError → Result Metadata IoError → List Act × Option KeyError
narrow_from dir (err e) chmod after = ([], some e)
narrow_from dir (ok mode) chmod after =
    if is_shared mode then chmod_done dir mode chmod after else ([], none)

-- `narrow_data_dir_with`; no error is `Ok(())`
unfoldable pub narrow_data_dir : Text → DirAnswers → List Act × Option KeyError
narrow_data_dir dir a = narrow_from dir (dir_mode dir a.before) a.chmod a.after

abbrev and_then : List Act → List Act × Option KeyError → List Act × Option KeyError
and_then acts (more, e) = (acts ++ more, e)

abbrev pub make : Text → Option IoError → DirAnswers → List Act × Option KeyError
make dir none a = (make_dir dir 448 ∷ [], none)
make dir (some already_exists) a = narrow_data_dir dir a
make dir (some not_found) a = ([], some (create_dir dir not_found))
make dir (some (other e)) a = ([], some (create_dir dir (other e)))

abbrev pub make_below :
    Text → Option Text → Option IoError → DirAnswers → List Act × Option KeyError
make_below dir none e a = make dir a.create a
make_below dir (some parent) (some e) a = ([], some (create_dir parent e))
make_below dir (some parent) none a = and_then (create_dir_all parent ∷ []) (make dir a.create a)

unfoldable pub create_data_dir : Text → DirAnswers → List Act × Option KeyError
create_data_dir dir a = make_below dir a.parent a.parents a

-- what the system answers while a key file is made
pub record FileAnswers : Type 0 where
  pub dir : DirAnswers
  pub random : Result Key Text
  pub create : Option IoError
  pub write : Option IoError

abbrev pub wrote : Text → Key → Option IoError → Option IoError → List Act × Result Key KeyError
wrote path key (some e) write = ([], err (write_file path e))
wrote path key none (some e) = (create_file path 384 [] ∷ [], err (write_file path e))
wrote path key none none = (create_file path 384 (to_hex key ++ 10 ∷ []) ∷ [], ok key)

abbrev pub with_random : Text → Result Key Text → FileAnswers → List Act × Result Key KeyError
with_random path (err e) a = ([], err (no_random e))
with_random path (ok key) a = wrote path key a.create a.write

abbrev pub after_dir :
    List Act × Option KeyError → List Act × Result Key KeyError → List Act × Result Key KeyError
after_dir (acts, some e) rest = (acts, err e)
after_dir (acts, none) (more, key) = (acts ++ more, key)

abbrev pub in_parent : Text → Option Text → FileAnswers → List Act × Result Key KeyError
in_parent path none a = with_random path a.random a
in_parent path (some dir) a = after_dir (create_data_dir dir a.dir) (with_random path a.random a)

-- `parent`: `path.parent()`
unfoldable pub create_key_file : Text → Option Text → FileAnswers → List Act × Result Key KeyError
create_key_file path parent a = in_parent path parent a

-- `try_exists().unwrap_or(true)`
abbrev may_exist : Result Bool IoError → Bool
may_exist (ok there) = there
may_exist (err e) = true

unfoldable pub fall_back_to_file :
    Text
    → Option Text
    → Text
    → Text
    → Result Bool IoError
    → FileAnswers
    → List Act × Result Key KeyError
fall_back_to_file path parent database reason exists a =
    if may_exist exists
    then ([], err (no_service_for_database database path reason))
    else create_key_file path parent a

-- The errors of `oo7` and of a key, as the text that is shown of them
abbrev malformed_text : Text
malformed_text =
    codes
      "the secret stored in the Secret Service under com.nilfactor.Clippo.DatabaseKey is not a 32-byte clippo key; delete it and let clippo create a new one"

-- What the Secret Service answers: the errors of `Keyring::new` and of `unlock`, the first item found
-- with its secret, the random bytes, and the error of `create_item`.
pub record ServiceAnswers : Type 0 where
  pub keyring : Option Text
  pub unlock : Option Text
  pub search : Result (Option (Result (List ℕ) Text)) Text
  pub random : Result Key Text
  pub create : Option Text

abbrev pub key_of_secret : Option Key → Result Key Text
key_of_secret none = err malformed_text
key_of_secret (some key) = ok key

abbrev pub new_item : Result Key Text → Option Text → List Act × Result Key Text
new_item (err e) create = ([], err e)
new_item (ok key) (some e) = ([], err e)
new_item (ok key) none = (store_item (to_hex key) ∷ [], ok key)

-- all that `acquire_in` asks of the system
pub record Answers : Type 0 where
  pub meta : Result Metadata IoError
  pub text : Result Text IoError
  pub service : ServiceAnswers
  pub database : Result Bool IoError
  pub file_made : FileAnswers

-- `lossy` is `String::from_utf8_lossy`
module _ (lossy : List ℕ → Text) where
  abbrev pub found_item :
      Result (Option (Result (List ℕ) Text)) Text → ServiceAnswers → List Act × Result Key Text
  found_item (err e) a = ([], err e)
  found_item (ok none) a = new_item a.random a.create
  found_item (ok (some (err e))) a = ([], err e)
  found_item (ok (some (ok secret))) a = ([], key_of_secret (from_hex (lossy secret)))

  abbrev pub with_keyring : Option Text → Option Text → ServiceAnswers → List Act × Result Key Text
  with_keyring (some e) unlock a = ([], err e)
  with_keyring none (some e) a = ([], err e)
  with_keyring none none a = found_item a.search a

  unfoldable pub from_secret_service : ServiceAnswers → List Act × Result Key Text
  from_secret_service a = with_keyring a.keyring a.unlock a

  abbrev pub from_file :
      Text → List Act × Result Key KeyError → List Act × Result (Key × KeySource) KeyError
  from_file path (acts, err e) = (acts, err e)
  from_file path (acts, ok key) = (acts, ok (key, file path))

  abbrev preceded :
      List Act
      → List Act × Result (Key × KeySource) KeyError
      → List Act × Result (Key × KeySource) KeyError
  preceded acts (more, r) = (acts ++ more, r)

  abbrev pub by_service :
      Text
      → Text
      → Answers
      → List Act × Result Key Text
      → List Act × Result (Key × KeySource) KeyError
  by_service dir path a (acts, ok key) = (acts, ok (key, secret_service))
  by_service dir path a (acts, err reason) = preceded acts (
      from_file path (
        fall_back_to_file path (some dir) (dir ++ codes "/history.db") reason a.database
          a.file_made))

  abbrev pub by_file :
      Text
      → Text
      → Answers
      → Result (Option Key) KeyError
      → List Act × Result (Key × KeySource) KeyError
  by_file dir path a (err e) = ([], err e)
  by_file dir path a (ok (some key)) = ([], ok (key, file path))
  by_file dir path a (ok none) = by_service dir path a (from_secret_service a.service)

  unfoldable pub acquire_in : Text → Answers → List Act × Result (Key × KeySource) KeyError
  acquire_in dir a =
      let path = dir ++ codes "/key" in by_file dir path a (read_key_file path a.meta a.text)
