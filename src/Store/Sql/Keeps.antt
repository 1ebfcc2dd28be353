-- ===== src/Store/Sql/Keeps.antt =====
-- What an action on the tables keeps, whether it succeeds or fails.
use clippo.Prelude.{Result, ok, err, Bool-cases, inl, inr}
use clippo.Store.Tables.{Db}
use clippo.Store.Sql.{
  StoreError, Statement, Backend, Sql, pure, raise, ◌>>=◌, proceed, settle, exec, transaction,
  commit, begin,
}

-- what an action keeps of the tables, whether it succeeds or fails
pub record Keeps (P : Db → Type 0) {A : Type 0} (m : Sql A) : Type 0 where
  pub at : (db : Db) → P db → P (m db).0

settle-keeps :
    {A : Type 0} (P : Db → Type 0) (b : Backend) (before : Db) (r : Db × Result A StoreError)
    → P before
    → P r.0
    → P (settle b before r).0
settle-keeps P b before (after, err e) v w = v
settle-keeps P b before (after, ok a) v w = elim (Bool-cases (b.fault commit after)) [
  | inl e ↦ rw e v
  | inr e ↦ rw e w
]

module _ {P : Db → Type 0} where
  pub Keeps-pure : {A : Type 0} (a : A) → Keeps P (pure a)
  Keeps-pure a = record { at = λ db v. v }

  pub Keeps-raise : {A : Type 0} (e : StoreError) → Keeps P (raise {A = A} e)
  Keeps-raise e = record { at = λ db v. v }

  proceed-keeps :
      {A B : Type 0} (f : A → Sql B) (r : Db × Result A StoreError)
      → ((a : A) → Keeps P (f a))
      → P r.0
      → P (proceed f r).0
  proceed-keeps f (db, ok a) k v = (k a).at db v
  proceed-keeps f (db, err e) k v = v

  pub Keeps-bind :
      {A B : Type 0} (m : Sql A) (f : A → Sql B)
      → Keeps P m
      → ((a : A) → Keeps P (f a))
      → Keeps P (m >>= f)
  Keeps-bind m f k l = record { at = λ db v. proceed-keeps f (m db) l (k.at db v) }

  pub Keeps-exec :
      {A : Type 0} (b : Backend) (s : Statement) (run : Db → Db × A)
      → ((db : Db) → P db → P (run db).0)
      → Keeps P (exec b s run)
  Keeps-exec b s run k = record {
    at = λ db v. elim (Bool-cases (b.fault s db)) [ inl e ↦ rw e v | inr e ↦ rw e (k db v) ];
  }

  pub Keeps-transaction :
      {A : Type 0} (b : Backend) (body : Sql A) → Keeps P body → Keeps P (transaction b body)
  Keeps-transaction b body k = record {
    at = λ db v. elim (Bool-cases (b.fault begin db)) [
      | inl e ↦ rw e v
      | inr e ↦ rw e (settle-keeps P b db (body db) v (k.at db v))
    ];
  }
