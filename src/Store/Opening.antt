-- ===== src/Store/Opening.antt =====
-- crates/clippo-store/src/store.rs and schema.rs: opening the database. What SQLite and the file system
-- answer is given.
pub mod Opened
pub mod Safe
use clippo.Prelude.{
  ℕ, ◌%◌, Bool, true, false, not, List, [], ◌∷◌, ◌++◌, Option, none, some, Result, ok, err,
  if◌then◌else◌, ◌==◌,
}
use clippo.Prelude.Int.{ℤ, pos, ltb_ℤ, eqb_ℤ}

abbrev schema_version : ℤ
schema_version = pos 1

-- `DB_FILE_MODE`
abbrev pub db_file_mode : ℕ
db_file_mode = 384

abbrev auto_vacuum_incremental : ℕ
auto_vacuum_incremental = 2

-- what is asked of SQLite and of the file system
pub data Call : Type 0 where
  open_file read_metadata : Call
  set_mode : ℕ → Call
  give_key read_master foreign_keys_on set_auto_vacuum : Call
  read_version count_tables create_schema : Call
  read_auto_vacuum vacuum : Call

-- `StoreError`, by the error of the call
pub data OpenError (E : Type 0) : Type 0 where
  cannot_open file_permissions sqlite : E → OpenError E
  wrong_key schema_unversioned : OpenError E
  schema_too_new schema_too_old : ℤ → OpenError E

-- the answers; no error is `Ok(())`
pub record Answers (E : Type 0) : Type 0 where
  pub opened : Option E
  pub mode : Result ℕ E
  pub mode_set : Option E
  pub keyed : Option E
  pub master : Option E
  pub foreign_keys : Option E
  pub auto_vacuum_set : Option E
  pub version : Result ℤ E
  pub tables : Result ℕ E
  pub created : Option E
  pub auto_vacuum : Result ℕ E
  pub vacuumed : Option E

-- the calls made, and the error that ended them
abbrev pub Run : Type 0 → Type 0
Run E = List Call × Option (OpenError E)

-- `?` on a call, then the rest
abbrev pub call : {E : Type 0} → Call → (E → OpenError E) → Option E → Run E → Run E
call made wrap (some e) rest = (made ∷ [], some (wrap e))
call made wrap none (calls, end) = (made ∷ calls, end)

-- a call that answers with a value
abbrev pub ask : {E A : Type 0} → Call → (E → OpenError E) → Result A E → (A → Run E) → Run E
ask made wrap (err e) rest = (made ∷ [], some (wrap e))
ask made wrap (ok a) rest = let (calls, end) = rest a in (made ∷ calls, end)

abbrev pub stop : {E : Type 0} → OpenError E → Run E
stop e = ([], some e)

-- the mode has no bit of `DB_FORBIDDEN_MODE_BITS`
abbrev pub is_private : ℕ → Bool
is_private mode = mode % 512 % 64 == 0

-- `is_not_a_database`: whether an error of SQLite says that the key does not fit
module _ {E : Type 0} (is_not_a_database : E → Bool) where
  unfoldable pub restrict_db_file : Answers E → Run E → Run E
  restrict_db_file a rest = ask read_metadata file_permissions a.mode (λ mode.
      if is_private mode
      then rest
      else call (set_mode db_file_mode) file_permissions a.mode_set rest)

  abbrev pub create : Answers E → Run E → Run E
  create a rest = call create_schema sqlite a.created rest

  abbrev pub by_version : ℤ → Answers E → Run E → Run E
  by_version found a rest =
      if eqb_ℤ found (pos 0)
      then ask count_tables sqlite a.tables
          (λ n. if n == 0 then create a rest else stop schema_unversioned)
      else if eqb_ℤ found schema_version
      then rest
      else if ltb_ℤ schema_version found
      then stop (schema_too_new found)
      else stop (schema_too_old found)

  unfoldable pub ensure : Answers E → Run E → Run E
  ensure a rest = ask read_version sqlite a.version (λ found. by_version found a rest)

  unfoldable pub convert_to_incremental_vacuum : Answers E → Run E
  convert_to_incremental_vacuum a = ask read_auto_vacuum sqlite a.auto_vacuum (λ mode.
      if not (mode == auto_vacuum_incremental)
      then call vacuum sqlite a.vacuumed ([], none)
      else ([], none))

  abbrev pub master_error : E → OpenError E
  master_error e = if is_not_a_database e then wrong_key else cannot_open e

  unfoldable pub open_at : Answers E → Run E
  open_at a = call open_file cannot_open a.opened (
      restrict_db_file a (
        call give_key cannot_open a.keyed (
          call read_master master_error a.master (
            call foreign_keys_on sqlite a.foreign_keys (
              call set_auto_vacuum sqlite a.auto_vacuum_set
                (ensure a (convert_to_incremental_vacuum a)))))))
