-- ===== src/Store/Tables/Rows.antt =====
-- A new row at the end of a table keeps its constraints.
use clippo.Prelude.{◌≡◌, refl, true, false, List, [], ◌∷◌, ◌++◌, any, all, arith, any-append}
use clippo.Prelude.Text.{text_eq_comm}
use clippo.Core.Entry.{Entry}
use clippo.Store.Tables.{FlavorRow, has_id}
use clippo.Store.Tables.Order.{distinct_ids}
use clippo.Store.Tables.Valid.{distinct_hashes, distinct_keys, hash_is, owned_in, same_key}

-- A new row at the end.
pub distinct_ids-append :
    (e : Entry) (es : List Entry)
    → any (has_id e.id) es ≡ false
    → distinct_ids es ≡ true
    → distinct_ids (es ++ e ∷ []) ≡ true
unfolding distinct_ids
distinct_ids-append e [] h k = refl
distinct_ids-append e (f ∷ fs) h k =
    ground (arith, any-append (has_id f.id) fs (e ∷ []), distinct_ids-append e fs)

pub distinct_hashes-append :
    (e : Entry) (es : List Entry)
    → any (hash_is e.hash) es ≡ false
    → distinct_hashes es ≡ true
    → distinct_hashes (es ++ e ∷ []) ≡ true
unfolding distinct_hashes
distinct_hashes-append e [] h k = refl
distinct_hashes-append e (f ∷ fs) h k = ground (
  arith,
  text_eq_comm f.hash e.hash,
  any-append (hash_is f.hash) fs (e ∷ []),
  distinct_hashes-append e fs,
)

pub distinct_keys-append :
    (r : FlavorRow) (rs : List FlavorRow)
    → any (same_key r) rs ≡ false
    → distinct_keys rs ≡ true
    → distinct_keys (rs ++ r ∷ []) ≡ true
unfolding distinct_keys
distinct_keys-append r [] h k = refl
distinct_keys-append r (s ∷ rs) h k = ground (
  arith,
  text_eq_comm s.mime r.mime,
  any-append (same_key s) rs (r ∷ []),
  distinct_keys-append r rs,
)

pub all-owned-append :
    (es : List Entry) (e : Entry) (rs : List FlavorRow)
    → all (owned_in es) rs ≡ true
    → all (owned_in (es ++ e ∷ [])) rs ≡ true
all-owned-append es e [] h = refl
all-owned-append es e (r ∷ rs) h =
    ground (arith, any-append (has_id r.entry_id) es (e ∷ []), all-owned-append es e rs)
