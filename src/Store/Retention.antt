-- ===== src/Store/Retention.antt =====
-- crates/clippo-store/src/retention.rs: the entries that no longer belong.
pub mod Rank
use clippo.Prelude.{
  ℕ, zero, ◌+◌, ◌-◌, ◌^◌, Bool, true, false, not, ◌&&◌, List, [], ◌∷◌, map, Option, none, some,
  ◌==◌, min, if◌then◌else◌, filter, any, take,
}
use clippo.Prelude.Int.{ℤ, ltb_ℤ, eqb_ℤ}
use clippo.Core.Entry.{EntryId, Timestamp, Duration, Entry, saturating_sub}
use clippo.Core.Config.{Config, max_age}
use clippo.Store.Tables.{Db, delete_where, by_recency}
use clippo.Store.Sql.{Backend, Sql, pure, exec, ◌>>=◌, delete_expired, delete_over_capacity}

pub record Retention : Type 0 where
  pub max_entries : ℕ
  pub max_age : Option Duration

unfoldable pub from_config : Config → Retention
from_config config = record { max_entries = config.max_entries; max_age = max_age config }

abbrev unlimited : Retention
unlimited = record { max_entries = 2 ^ 64 - 1; max_age = none }

pub record Sweep : Type 0 where
  pub expired : ℕ
  pub over_capacity : ℕ

abbrev pub total : Sweep → ℕ
total s = s.expired + s.over_capacity

abbrev pub is_empty_sweep : Sweep → Bool
is_empty_sweep s = total s == 0

-- `WHERE pinned = 0 AND last_used_at < ?1`
abbrev pub is_expired : Timestamp → Entry → Bool
is_expired cutoff e = not e.pinned && ltb_ℤ e.last_used_at cutoff

-- the ids that the sub-select keeps
unfoldable pub kept_ids : ℕ → List Entry → List EntryId
kept_ids limit es = map (λ e. e.id) (take limit (by_recency (filter (λ e. not e.pinned) es)))

-- `WHERE pinned = 0 AND id NOT IN (SELECT …)`
unfoldable pub is_over_capacity : ℕ → List Entry → Entry → Bool
is_over_capacity limit es e = not e.pinned && not (any (λ id. eqb_ℤ e.id id) (kept_ids limit es))

-- `i64::try_from(policy.max_entries).unwrap_or(i64::MAX)`
abbrev pub limit_of : Retention → ℕ
limit_of policy = min policy.max_entries (2 ^ 63 - 1)

module _ (b : Backend) where
  unfoldable pub sweep_expired : Option Duration → Timestamp → Sql ℕ
  sweep_expired none now = pure 0
  sweep_expired (some age) now =
      exec b delete_expired (delete_where (is_expired (saturating_sub now age)))

  unfoldable pub sweep_over_capacity : ℕ → Sql ℕ
  sweep_over_capacity limit =
      exec b delete_over_capacity (λ db. delete_where (is_over_capacity limit db.entries) db)

  unfoldable pub sweep_rest : Retention → ℕ → Sql Sweep
  sweep_rest policy expired = do
    over_capacity ← sweep_over_capacity (limit_of policy)
    pure (record { expired = expired; over_capacity = over_capacity })

  unfoldable pub sweep : Retention → Timestamp → Sql Sweep
  sweep policy now = do expired ← sweep_expired policy.max_age now; sweep_rest policy expired
