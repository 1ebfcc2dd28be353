-- ===== src/Store/Retention/Rank.antt =====
-- retention.rs: which entries a sweep keeps.
use clippo.Prelude.{
  ℕ, ◌≡◌, refl, ap, ◌∙◌, Bool, true, false, not, ◌&&◌, ◌||◌, List, [], ◌∷◌, Option, none, some,
  Result, ok, err, inl, inr, ltb, filter, arith, Bool-cases,
}
use clippo.Prelude.Int.{ltb_ℤ}
use clippo.Core.Entry.{Entry, Timestamp, Duration, saturating_sub}
use clippo.Store.Tables.{Db, more_recent, by_recency, count_where, delete_where}
use clippo.Store.Tables.Order.{
  distinct_ids, distinct_ids-filter, In, In-filter, In-by_recency, filter_congr, any-take-sorted,
  by_recency-is_sorted, by_recency-distinct_ids, count_where-by_recency,
}
use clippo.Store.Sql.{Sql, StoreError, pure, proceed, Backend, delete_expired, delete_over_capacity}
use clippo.Store.Retention.{
  Retention, kept_ids, is_over_capacity, limit_of, sweep_expired, sweep_over_capacity, sweep_rest,
  sweep,
}

count_where-filter :
    (p q : Entry → Bool) (es : List Entry)
    → count_where p (filter q es) ≡ count_where (λ e. q e && p e) es
count_where-filter p q [] = refl
count_where-filter p q (e ∷ es) = ground (arith, count_where-filter p q es)

-- how many unpinned rows are more recent than a row
abbrev newer : Entry → List Entry → ℕ
newer e es = count_where (λ f. not f.pinned && more_recent f e) es

-- An unpinned row is over capacity exactly when `limit` unpinned rows are more recent.
is_over_capacity-eq :
    (limit : ℕ) (es : List Entry) (e : Entry)
    → distinct_ids es ≡ true
    → In e es
    → is_over_capacity limit es e ≡ (not e.pinned && not (ltb (newer e es) limit))
unfolding is_over_capacity kept_ids
is_over_capacity-eq limit es e d m = elim (Bool-cases e.pinned) [
  | inl p ↦ rw p refl
  | inr p ↦
      let us = filter (λ f. not f.pinned) es in
      let loose = distinct_ids-filter (λ f. not f.pinned) es d in
      ground (
        arith,
        any-take-sorted limit e (by_recency us)
            (In-by_recency e us (In-filter (λ f. not f.pinned) e es m (ground arith)))
            (by_recency-is_sorted us loose) (by_recency-distinct_ids us loose),
        count_where-by_recency (λ f. more_recent f e) us,
        count_where-filter (λ f. more_recent f e) (λ f. not f.pinned) es,
      )
]

not_and : (p q : Bool) → not (not p && q) ≡ (p || not q)
not_and p q = ground arith

not_and_not : (p q : Bool) → not (not p && not q) ≡ (p || q)
not_and_not p q = ground arith

proceed_fst :
    {A B : Type 0} (a : A) (f : A → Sql B) (r : Db × Result A StoreError)
    → r.1 ≡ ok a
    → (proceed f r).0 ≡ (f a r.0).0
proceed_fst {A} a f (db, ok a') e = ap (λ (z : Result A StoreError). (proceed f (db, z)).0) e
proceed_fst {A} a f (db, err x) e = cc

proceed-pure :
    {A B : Type 0} (f : A → B) (r : Db × Result A StoreError)
    → (proceed (λ a. pure (f a)) r).0 ≡ r.0
proceed-pure f (db, ok a) = refl
proceed-pure f (db, err e) = refl

module _ (b : Backend) where
  -- what the age limit keeps
  abbrev pub young : Option Duration → Timestamp → List Entry → List Entry
  young none now es = es
  young (some age) now es =
      filter (λ e. e.pinned || not (ltb_ℤ e.last_used_at (saturating_sub now age))) es

  -- what the limit on their number keeps
  abbrev pub newest : ℕ → List Entry → List Entry
  newest limit es = filter (λ e. e.pinned || ltb (newer e es) limit) es

  expired_entries :
      (age : Option Duration) (now : Timestamp) (db : Db)
      → b.fault delete_expired db ≡ false
      → (sweep_expired b age now db).0.entries ≡ young age now db.entries
  unfolding sweep_expired delete_where
  expired_entries none now db f = refl
  expired_entries (some age) now db f = rw f (
      filter_congr _ _ db.entries
        (λ e m. not_and e.pinned (ltb_ℤ e.last_used_at (saturating_sub now age))))

  over_capacity_entries :
      (limit : ℕ) (db : Db)
      → b.fault delete_over_capacity db ≡ false
      → distinct_ids db.entries ≡ true
      → (sweep_over_capacity b limit db).0.entries ≡ newest limit db.entries
  unfolding sweep_over_capacity delete_where
  over_capacity_entries limit db f d = rw f (
      filter_congr _ _ db.entries (λ e m.
        ap not (is_over_capacity-eq limit db.entries e d m)
        ∙ not_and_not e.pinned (ltb (newer e db.entries) limit)))

  expired_ok :
      (age : Option Duration) (now : Timestamp) (db : Db)
      → b.fault delete_expired db ≡ false
      → (n : ℕ) × ((sweep_expired b age now db).1 ≡ ok n)
  unfolding sweep_expired
  expired_ok none now db f = (0, refl)
  expired_ok (some age) now db f = rw f (_, refl)

  young-distinct_ids :
      (age : Option Duration) (now : Timestamp) (es : List Entry)
      → distinct_ids es ≡ true
      → distinct_ids (young age now es) ≡ true
  young-distinct_ids none now es d = d
  young-distinct_ids (some age) now es d = distinct_ids-filter _ es d

  sweep_rest_fst :
      (policy : Retention) (n : ℕ) (db : Db)
      → (sweep_rest b policy n db).0 ≡ (sweep_over_capacity b (limit_of policy) db).0
  unfolding sweep_rest
  sweep_rest_fst policy n db =
      proceed-pure (λ (k : ℕ). record { expired = n; over_capacity = k })
        (sweep_over_capacity b (limit_of policy) db)

  -- A sweep whose statements do not fail keeps every pinned entry; of the others it drops those
  -- older than the age limit, and of the rest it keeps an entry exactly when fewer unpinned ones are
  -- more recent than `max_entries`, or than 2 ^ 63 - 1 if that is less. Ids are taken to be distinct.
  pub sweep-keeps :
      (policy : Retention) (now : Timestamp) (db : Db)
      → ((d : Db) → b.fault delete_expired d ≡ false)
      → ((d : Db) → b.fault delete_over_capacity d ≡ false)
      → distinct_ids db.entries ≡ true
      → (sweep b policy now db).0.entries
        ≡ newest (limit_of policy) (young policy.max_age now db.entries)
  unfolding sweep
  sweep-keeps policy now db f g d =
      let mid = (sweep_expired b policy.max_age now db).0 in
      let (n, ran) = expired_ok policy.max_age now db (f db) in
      let first = expired_entries policy.max_age now db (f db) in
      let kept : distinct_ids mid.entries ≡ true =
        rw first (young-distinct_ids policy.max_age now db.entries d) in
      ap (λ (d : Db). d.entries)
        (proceed_fst n (sweep_rest b policy) (sweep_expired b policy.max_age now db) ran)
      ∙ ap (λ (d : Db). d.entries) (sweep_rest_fst policy n mid)
      ∙ over_capacity_entries (limit_of policy) mid (g mid) kept
      ∙ ap (newest (limit_of policy)) first
