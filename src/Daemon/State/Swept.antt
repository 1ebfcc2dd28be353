-- ===== src/Daemon/State/Swept.antt =====
-- daemon.rs: the sweep that runs by the clock.
use clippo.Prelude.{
  ℕ, ◌+◌, ◌≡◌, refl, ◌∙◌, Bool, false, not, Option, none, some, Result, ok, err, ltb, ◌==◌, arith,
}
use clippo.Core.Entry.{Timestamp, Duration, Entry, saturating_sub}
use clippo.Store.Tables.{Db, delete_where}
use clippo.Store.Sql.{
  Statement, exec, StoreError, Backend, proceed, delete_expired, delete_over_capacity, select_list,
}
use clippo.Store.Retention.{
  Retention, Sweep, is_empty_sweep, is_expired, is_over_capacity, limit_of, sweep_expired,
  sweep_over_capacity, sweep_rest, sweep,
}
use clippo.Store.Capture.{set_config}
use clippo.Store.History
use clippo.Daemon.State.{Daemon, World, swept_with, sweep_retention}
use clippo.Daemon.State.Commit.{Honest, Honest-exec, delete_where_none}
use clippo.Daemon.State.Mirrors.{Outcome, commit-Outcome}

-- as `Honest`, with nothing said of a failure
abbrev HonestSweep : Db → Db × Result Sweep StoreError → Type 0
HonestSweep db (after, ok s) = not (is_empty_sweep s) ≡ false → after ≡ db
HonestSweep db (after, err e) = Unit

sum_none : (n k : ℕ) → not (n + k == 0) ≡ false → (ltb 0 n ≡ false) × (ltb 0 k ≡ false)
sum_none n k h = ground arith

deleted_none : (n : ℕ) → ltb 0 n ≡ false → n ≡ 0
deleted_none n h = ground arith

module _ (b : Backend) where
  delete-Honest :
      (s : Statement) (p : Db → Entry → Bool) (db : Db)
      → Honest (ltb 0) db (exec b s (λ db. delete_where (p db) db) db)
  delete-Honest s p db =
      Honest-exec b (ltb 0) s (λ db. delete_where (p db) db) db
        (λ h. delete_where_none (p db) db (deleted_none (delete_where (p db) db).1 h))

  expired-Honest :
      (age : Option Duration) (now : Timestamp) (db : Db)
      → Honest (ltb 0) db (sweep_expired b age now db)
  unfolding sweep_expired
  expired-Honest none now db = λ h. refl
  expired-Honest (some age) now db =
      delete-Honest delete_expired (λ d. is_expired (saturating_sub now age)) db

  over-Honest : (limit : ℕ) (db : Db) → Honest (ltb 0) db (sweep_over_capacity b limit db)
  unfolding sweep_over_capacity
  over-Honest limit db =
      delete-Honest delete_over_capacity (λ d. is_over_capacity limit d.entries) db

  counted :
      (n : ℕ) (before db : Db) (r : Db × Result ℕ StoreError)
      → (ltb 0 n ≡ false → db ≡ before)
      → Honest (ltb 0) db r
      → HonestSweep before (proceed (λ k d. (d, ok (record { expired = n; over_capacity = k }))) r)
  counted n before db (after, err e) h k = tt
  counted n before db (after, ok m) h k = λ q. let (p, r) = sum_none n m q in k r ∙ h p

  rest-Honest :
      (policy : Retention) (before : Db) (r : Db × Result ℕ StoreError)
      → Honest (ltb 0) before r
      → HonestSweep before (proceed (sweep_rest b policy) r)
  unfolding sweep_rest
  rest-Honest policy before (db, err e) h = tt
  rest-Honest policy before (db, ok n) h =
      counted n before db (sweep_over_capacity b (limit_of policy) db) h
        (over-Honest (limit_of policy) db)

  enforce_retention-Honest :
      (policy : Retention) (now : Timestamp) (db : Db)
      → HonestSweep db (History.enforce_retention b policy now db)
  unfolding History.enforce_retention sweep
  enforce_retention-Honest policy now db =
      rest-Honest policy db (sweep_expired b policy.max_age now db)
        (expired-Honest policy.max_age now db)

-- what is said of a sweep by the clock
abbrev pub SweepOutcome : Daemon → Daemon × Result (Unit {0}) StoreError → Type 0
SweepOutcome d (d', ok u) = Outcome d d'
SweepOutcome d (d', err e) = (d'.cache ≡ d.cache) × (d'.emitted ≡ d.emitted)

module _ (w : World) (lists : (db : Db) → w.backend.fault select_list db ≡ false) where
  swept_with-SweepOutcome :
      (d : Daemon) (r : Db × Result Sweep StoreError)
      → HonestSweep d.store r
      → SweepOutcome d (swept_with w d r)
  swept_with-SweepOutcome d (db, err e) h = (refl, refl)
  swept_with-SweepOutcome d (db, ok s) h =
      commit-Outcome w lists d (record d { store = db }) (not (is_empty_sweep s)) refl refl h

  -- A sweep that succeeds, where reading the list back does not fail, leaves the tables, the cache and
  -- the announcements as they were, or ends with the cache showing what is stored and one
  -- announcement more. One that fails leaves the cache and the announcements as they were, although its
  -- first statement may have deleted entries.
  pub sweep_retention-SweepOutcome :
      (now : Timestamp) (d : Daemon) → SweepOutcome d (sweep_retention w now d)
  unfolding sweep_retention
  sweep_retention-SweepOutcome now d =
      swept_with-SweepOutcome d
        (History.enforce_retention w.backend (set_config w.config).retention now d.store)
        (enforce_retention-Honest w.backend (set_config w.config).retention now d.store)
