-- ===== src/Store/Tables/Valid.antt =====
-- The constraints that the schema declares, as an invariant of the tables.
use clippo.Prelude.{
  ◌≡◌, refl, ap, Bool, true, false, not, ◌&&◌, List, [], ◌∷◌, filter, any, all, arith, ◌∙◌,
}
use clippo.Prelude.Int.{ℤ, eqb_ℤ}
use clippo.Prelude.Text.{Text, text_eq}
use clippo.Core.Entry.{EntryId, Entry}
use clippo.Store.Tables.{Db, FlavorRow, has_id, orphaned, delete_where, update_id}
use clippo.Store.Tables.Order.{distinct_ids, distinct_ids-filter, any-filter_of_any}

abbrev pub hash_is : Text → Entry → Bool
hash_is h e = text_eq e.hash h

-- `hash TEXT NOT NULL UNIQUE`
unfoldable pub distinct_hashes : List Entry → Bool
distinct_hashes [] = true
distinct_hashes (e ∷ es) = not (any (hash_is e.hash) es) && distinct_hashes es

-- `REFERENCES entries (id)`
abbrev pub owned_in : List Entry → FlavorRow → Bool
owned_in es row = any (has_id row.entry_id) es

abbrev pub same_key : FlavorRow → FlavorRow → Bool
same_key r s = eqb_ℤ s.entry_id r.entry_id && text_eq s.mime r.mime

-- `PRIMARY KEY (entry_id, mime)`
unfoldable pub distinct_keys : List FlavorRow → Bool
distinct_keys [] = true
distinct_keys (r ∷ rs) = not (any (same_key r) rs) && distinct_keys rs

pub record IsValid (db : Db) : Type 0 where
  pub ids : distinct_ids db.entries ≡ true
  pub hashes : distinct_hashes db.entries ≡ true
  pub owned : all (owned_in db.entries) db.flavors ≡ true
  pub keys : distinct_keys db.flavors ≡ true

distinct_hashes-filter :
    (p : Entry → Bool) (es : List Entry)
    → distinct_hashes es ≡ true
    → distinct_hashes (filter p es) ≡ true
unfolding distinct_hashes
distinct_hashes-filter p [] h = refl
distinct_hashes-filter p (e ∷ es) h =
    ground (arith, any-filter_of_any p (hash_is e.hash) es, distinct_hashes-filter p es)

any-filter_row :
    (p q : FlavorRow → Bool) (rs : List FlavorRow) → any q rs ≡ false → any q (filter p rs) ≡ false
any-filter_row p q [] h = refl
any-filter_row p q (r ∷ rs) h = ground (arith, any-filter_row p q rs)

distinct_keys-filter :
    (p : FlavorRow → Bool) (rs : List FlavorRow)
    → distinct_keys rs ≡ true
    → distinct_keys (filter p rs) ≡ true
unfolding distinct_keys
distinct_keys-filter p [] h = refl
distinct_keys-filter p (r ∷ rs) h =
    ground (arith, any-filter_row p (same_key r) rs, distinct_keys-filter p rs)

-- A row that is not orphaned by a deletion still has its entry.
still_owned :
    (p : Entry → Bool) (row : FlavorRow) (es : List Entry)
    → owned_in es row ≡ true
    → orphaned p es row ≡ false
    → owned_in (filter (λ e. not (p e)) es) row ≡ true
still_owned p row [] h k = h
still_owned p row (e ∷ es) h k = ground (arith, still_owned p row es)

owned-cascade :
    (p : Entry → Bool) (es : List Entry) (rs : List FlavorRow)
    → all (owned_in es) rs ≡ true
    → all (owned_in (filter (λ e. not (p e)) es)) (filter (λ row. not (orphaned p es row)) rs)
      ≡ true
owned-cascade p es [] h = refl
owned-cascade p es (r ∷ rs) h = ground (arith, still_owned p r es, owned-cascade p es rs)

-- A deletion, with its cascade, keeps the constraints.
pub delete_where-IsValid : (p : Entry → Bool) (db : Db) → IsValid db → IsValid (delete_where p db).0
unfolding delete_where
delete_where-IsValid p db v = record {
  ids = distinct_ids-filter _ db.entries v.ids;
  hashes = distinct_hashes-filter _ db.entries v.hashes;
  owned = owned-cascade p db.entries db.flavors v.owned;
  keys = distinct_keys-filter _ db.flavors v.keys;
}

-- A test that a change does not alter has the same answer after an update.
any-update_id :
    (q : Entry → Bool) (id : EntryId) (change : Entry → Entry) (es : List Entry)
    → ((e : Entry) → q (change e) ≡ q e)
    → any q (update_id id change es) ≡ any q es
unfolding update_id
any-update_id q id change [] h = refl
any-update_id q id change (e ∷ es) h = ground (arith, h e, any-update_id q id change es h)

module _ (id : EntryId) (change : Entry → Entry) where
  -- a change of columns that no constraint names
  pub record KeepsKeys : Type 0 where
    pub same_id : (e : Entry) → (change e).id ≡ e.id
    pub same_hash : (e : Entry) → (change e).hash ≡ e.hash

  module _ (k : KeepsKeys) where
    any_id :
        (i : EntryId) (es : List Entry)
        → any (has_id i) (update_id id change es) ≡ any (has_id i) es
    any_id i es =
        any-update_id (has_id i) id change es (λ e. ap (λ (j : ℤ). eqb_ℤ j i) (k.same_id e))

    any_hash :
        (t : Text) (es : List Entry) → any (hash_is t) (update_id id change es) ≡ any (hash_is t) es
    any_hash t es =
        any-update_id (hash_is t) id change es (λ e. ap (λ (u : Text). text_eq u t) (k.same_hash e))

    distinct_ids-update_id :
        (es : List Entry) → distinct_ids (update_id id change es) ≡ distinct_ids es
    unfolding distinct_ids update_id
    distinct_ids-update_id [] = refl
    distinct_ids-update_id (e ∷ es) =
        ground
          (arith, k.same_id e, any_id e.id es, any_id (change e).id es, distinct_ids-update_id es)

    distinct_hashes-update_id :
        (es : List Entry) → distinct_hashes (update_id id change es) ≡ distinct_hashes es
    unfolding distinct_hashes update_id
    distinct_hashes-update_id [] = refl
    distinct_hashes-update_id (e ∷ es) = ground (
      arith,
      k.same_hash e,
      any_hash e.hash es,
      any_hash (change e).hash es,
      distinct_hashes-update_id es,
    )

    all-owned :
        (es : List Entry) (rs : List FlavorRow)
        → all (owned_in (update_id id change es)) rs ≡ all (owned_in es) rs
    all-owned es [] = refl
    all-owned es (r ∷ rs) = ground (arith, any_id r.entry_id es, all-owned es rs)

    pub update_id-IsValid :
        (db : Db) → IsValid db → IsValid (record db { entries = update_id id change db.entries })
    update_id-IsValid db v = record {
      ids = distinct_ids-update_id db.entries ∙ v.ids;
      hashes = distinct_hashes-update_id db.entries ∙ v.hashes;
      owned = all-owned db.entries db.flavors ∙ v.owned;
      keys = v.keys;
    }
