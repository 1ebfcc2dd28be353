-- ===== src/Store/Opening/Opened.antt =====
-- store.rs, schema.rs: what an opened database is, and when a schema is made.
use clippo.Prelude.{
  ℕ, ◌≡◌, refl, Bool, true, false, not, [], Option, none, some, Result, ok, err, if◌then◌else◌,
  ◌==◌, any, Bool-cases, inl, inr, ◌⊎◌, arith,
}
use clippo.Prelude.Int.{ℤ, pos, ltb_ℤ, eqb_ℤ}
use clippo.Store.Opening.{
  Call, create_schema, set_mode, db_file_mode, read_metadata, count_tables, read_auto_vacuum,
  vacuum, Answers, OpenError, sqlite, file_permissions, schema_unversioned, schema_too_new,
  schema_too_old, Run, call, ask, stop, is_private, restrict_db_file, create, by_version,
  convert_to_incremental_vacuum,
}

abbrev is_creation : Call → Bool
is_creation create_schema = true
is_creation _ = false

module _ {E : Type 0} where
  -- the run ends well, or has made the schema
  abbrev pub Ends : Run E → Type 0
  Ends r = r.1 ≡ none

  abbrev pub Creates : Run E → Type 0
  Creates r = any is_creation r.0 ≡ true

  pub call-Ends :
      (made : Call) (wrap : E → OpenError E) (o : Option E) (rest : Run E)
      → Ends (call made wrap o rest)
      → (o ≡ none) × Ends rest
  call-Ends made wrap (some e) rest h = cc
  call-Ends made wrap none rest h = (refl, h)

  pub ask-Ends :
      {A : Type 0} (made : Call) (wrap : E → OpenError E) (r : Result A E) (rest : A → Run E)
      → Ends (ask made wrap r rest)
      → (a : A) × (r ≡ ok a) × Ends (rest a)
  ask-Ends made wrap (err e) rest h = cc
  ask-Ends made wrap (ok a) rest h = (a, refl, h)

  pub call-Creates :
      (made : Call) (wrap : E → OpenError E) (o : Option E) (rest : Run E)
      → is_creation made ≡ false
      → Creates (call made wrap o rest)
      → (o ≡ none) × Creates rest
  call-Creates made wrap (some e) rest m h = ground (arith, m, h)
  call-Creates made wrap none rest m h = (refl, ground (arith, m, h))

  pub ask-Creates :
      {A : Type 0} (made : Call) (wrap : E → OpenError E) (r : Result A E) (rest : A → Run E)
      → is_creation made ≡ false
      → Creates (ask made wrap r rest)
      → (a : A) × (r ≡ ok a) × Creates (rest a)
  ask-Creates made wrap (err e) rest m h = ground (arith, m, h)
  ask-Creates made wrap (ok a) rest m h = (a, refl, ground (arith, m, h))

module _ {E : Type 0} (is_not_a_database : E → Bool) where
  -- the file is one that others cannot read
  abbrev pub WasRestricted : Answers E → Type 0
  WasRestricted a =
      (mode : ℕ) × (a.mode ≡ ok mode) × ((is_private mode ≡ true) ⊎ (a.mode_set ≡ none))

  -- nothing is in the database, and nothing says what it is
  abbrev pub WasNew : Answers E → Type 0
  WasNew a =
      (found : ℤ) × (n : ℕ) × (a.version ≡ ok found)
      × (eqb_ℤ found (pos 0) ≡ true)
      × (a.tables ≡ ok n)
      × ((n == 0) ≡ true)

  abbrev pub HasSchema : Answers E → Type 0
  HasSchema a = (a.version ≡ ok (pos 1)) ⊎ (WasNew a × (a.created ≡ none))

  restricted-Ends :
      (b : Bool) (o : Option E) (rest : Run E)
      → Ends (if b then rest else call (set_mode db_file_mode) file_permissions o rest)
      → ((b ≡ true) ⊎ (o ≡ none)) × Ends rest
  restricted-Ends true o rest h = (inl refl, h)
  restricted-Ends false o rest h =
      let (e, k) = call-Ends (set_mode db_file_mode) file_permissions o rest h in (inr e, k)

  restricted-Creates :
      (b : Bool) (o : Option E) (rest : Run E)
      → Creates (if b then rest else call (set_mode db_file_mode) file_permissions o rest)
      → ((b ≡ true) ⊎ (o ≡ none)) × Creates rest
  restricted-Creates true o rest h = (inl refl, h)
  restricted-Creates false o rest h =
      let (e, k) = call-Creates (set_mode db_file_mode) file_permissions o rest refl h in (inr e, k)

  pub restrict-Ends :
      (a : Answers E) (rest : Run E)
      → Ends (restrict_db_file is_not_a_database a rest)
      → WasRestricted a × Ends rest
  unfolding restrict_db_file
  restrict-Ends a rest h =
      let (mode, q, k) = ask-Ends read_metadata file_permissions a.mode _ h in
      let (e, end) = restricted-Ends (is_private mode) a.mode_set rest k in ((mode, q, e), end)

  pub restrict-Creates :
      (a : Answers E) (rest : Run E)
      → Creates (restrict_db_file is_not_a_database a rest)
      → WasRestricted a × Creates rest
  unfolding restrict_db_file
  restrict-Creates a rest h =
      let (mode, q, k) = ask-Creates read_metadata file_permissions a.mode _ refl h in
      let (e, end) = restricted-Creates (is_private mode) a.mode_set rest k in ((mode, q, e), end)

  -- what `ensure` found where it went on
  abbrev pub Found : ℤ → Answers E → Type 0
  Found found a =
      (eqb_ℤ found (pos 1) ≡ true)
      ⊎ ((eqb_ℤ found (pos 0) ≡ true)
          × ((n : ℕ) × (a.tables ≡ ok n) × ((n == 0) ≡ true))
          × (a.created ≡ none))

  counted-Ends :
      (b : Bool) (a : Answers E) (rest : Run E)
      → Ends (if b then create is_not_a_database a rest else stop schema_unversioned)
      → (b ≡ true) × (a.created ≡ none) × Ends rest
  counted-Ends true a rest h =
      let (e, end) = call-Ends create_schema sqlite a.created rest h in (refl, e, end)
  counted-Ends false a rest h = cc

  known-Ends :
      (same newer : Bool) (found : ℤ) (rest : Run E)
      → Ends (
          if same
          then rest
          else if newer
          then stop (schema_too_new found)
          else stop (schema_too_old found))
      → (same ≡ true) × Ends rest
  known-Ends true newer found rest h = (refl, h)
  known-Ends false true found rest h = cc
  known-Ends false false found rest h = cc

  pub by_version-Ends :
      (found : ℤ) (a : Answers E) (rest : Run E)
      → Ends (by_version is_not_a_database found a rest)
      → Found found a × Ends rest
  by_version-Ends found a rest = elim (Bool-cases (eqb_ℤ found (pos 0))) [
    | inl e ↦ rw e (λ h.
        let (n, q, k) = ask-Ends count_tables sqlite a.tables _ h in
        let (z, c, end) = counted-Ends (n == 0) a rest k in (inr (refl, (n, q, z), c), end))
    | inr e ↦ rw e (λ h.
        let (same, end) = known-Ends (eqb_ℤ found (pos 1)) (ltb_ℤ (pos 1) found) found rest h in
        (inl same, end))
  ]

  counted-Creates :
      (b : Bool) (a : Answers E) (rest : Run E)
      → Creates (if b then create is_not_a_database a rest else stop schema_unversioned)
      → b ≡ true
  counted-Creates true a rest h = refl
  counted-Creates false a rest h = cc

  known-Creates :
      (same newer : Bool) (found : ℤ) (rest : Run E)
      → Creates (
          if same
          then rest
          else if newer
          then stop (schema_too_new found)
          else stop (schema_too_old found))
      → Creates rest
  known-Creates true newer found rest h = h
  known-Creates false true found rest h = cc
  known-Creates false false found rest h = cc

  pub by_version-Creates :
      (found : ℤ) (a : Answers E) (rest : Run E)
      → (Creates rest → ⊥)
      → Creates (by_version is_not_a_database found a rest)
      → (eqb_ℤ found (pos 0) ≡ true) × ((n : ℕ) × (a.tables ≡ ok n) × ((n == 0) ≡ true))
  by_version-Creates found a rest never = elim (Bool-cases (eqb_ℤ found (pos 0))) [
    | inl e ↦ rw e (λ h.
        let (n, q, k) = ask-Creates count_tables sqlite a.tables _ refl h in
        (refl, (n, q, counted-Creates (n == 0) a rest k)))
    | inr e ↦ rw e (λ h.
        absurd (never (known-Creates (eqb_ℤ found (pos 1)) (ltb_ℤ (pos 1) found) found rest h)))
  ]

  abbrev pub WasVacuumed : Answers E → Type 0
  WasVacuumed a =
      (mode : ℕ) × (a.auto_vacuum ≡ ok mode) × (((mode == 2) ≡ true) ⊎ (a.vacuumed ≡ none))

  vacuumed-Ends :
      (b : Bool) (o : Option E)
      → Ends (if not b then call vacuum sqlite o ([], none) else ([], none))
      → (b ≡ true) ⊎ (o ≡ none)
  vacuumed-Ends true o h = inl refl
  vacuumed-Ends false o h = inr (call-Ends vacuum sqlite o ([], none) h).0

  vacuumed-Creates :
      (b : Bool) (o : Option E)
      → Creates (if not b then call vacuum sqlite o ([], none) else ([], none))
      → ⊥
  vacuumed-Creates true o h = cc
  vacuumed-Creates false none h = cc
  vacuumed-Creates false (some e) h = cc

  pub convert-Ends :
      (a : Answers E) → Ends (convert_to_incremental_vacuum is_not_a_database a) → WasVacuumed a
  unfolding convert_to_incremental_vacuum
  convert-Ends a h =
      let (mode, q, k) = ask-Ends read_auto_vacuum sqlite a.auto_vacuum _ h in
      (mode, q, vacuumed-Ends (mode == 2) a.vacuumed k)

  pub convert-Creates :
      (a : Answers E) → Creates (convert_to_incremental_vacuum is_not_a_database a) → ⊥
  unfolding convert_to_incremental_vacuum
  convert-Creates a h =
      let (mode, q, k) = ask-Creates read_auto_vacuum sqlite a.auto_vacuum _ refl h in
      vacuumed-Creates (mode == 2) a.vacuumed k
