-- ===== src/Store/Opening/Safe.antt =====
-- store.rs: opening a database, from its file to its schema.
use clippo.Prelude.{ℕ, ◌≡◌, Bool, true, none, ok, ◌==◌}
use clippo.Prelude.Int.{ℤ, pos, eqb_ℤ}
use clippo.Store.Opening.{
  open_file, give_key, read_master, foreign_keys_on, set_auto_vacuum, read_version, Answers, sqlite,
  cannot_open, master_error, ensure, open_at,
}
use clippo.Store.Opening.Opened.{
  Ends, call-Ends, ask-Ends, WasRestricted, restrict-Ends, Found, by_version-Ends, WasVacuumed,
  convert-Ends,
}

module _ {E : Type 0} (is_not_a_database : E → Bool) where
  -- every step of opening is done
  abbrev pub IsOpened : Answers E → Type 0
  IsOpened a =
      (a.opened ≡ none)
      × WasRestricted is_not_a_database a
      × (a.keyed ≡ none)
      × (a.master ≡ none)
      × (a.foreign_keys ≡ none)
      × (a.auto_vacuum_set ≡ none)
      × ((found : ℤ) × (a.version ≡ ok found) × Found is_not_a_database found a)
      × WasVacuumed is_not_a_database a

  -- the key fits a private file that has no version and no table
  abbrev pub WasEmpty : Answers E → Type 0
  WasEmpty a =
      WasRestricted is_not_a_database a
      × (a.keyed ≡ none)
      × (a.master ≡ none)
      × ((found : ℤ) × (a.version ≡ ok found) × (eqb_ℤ found (pos 0) ≡ true))
      × ((n : ℕ) × (a.tables ≡ ok n) × ((n == 0) ≡ true))

  opened : (a : Answers E) → Ends (open_at is_not_a_database a) → IsOpened a
  unfolding open_at ensure
  opened a h =
      let (o, h1) = call-Ends open_file cannot_open a.opened _ h in
      let (r, h2) = restrict-Ends is_not_a_database a _ h1 in
      let (k, h3) = call-Ends give_key cannot_open a.keyed _ h2 in
      let (m, h4) = call-Ends read_master (master_error is_not_a_database) a.master _ h3 in
      let (f, h5) = call-Ends foreign_keys_on sqlite a.foreign_keys _ h4 in
      let (s, h6) = call-Ends set_auto_vacuum sqlite a.auto_vacuum_set _ h5 in
      let (found, q, h7) = ask-Ends read_version sqlite a.version _ h6 in
      let (v, h8) = by_version-Ends is_not_a_database found a _ h7 in
      (o, r, k, m, f, s, (found, q, v), convert-Ends is_not_a_database a h8)
