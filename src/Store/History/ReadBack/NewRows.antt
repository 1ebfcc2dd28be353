-- ===== src/Store/History/ReadBack/NewRows.antt =====
-- store.rs: the rows that a new entry adds.
use clippo.Prelude.{
  ◌≡◌, refl, sym, ap, ◌∙◌, subst, Bool, true, false, ◌&&◌, List, [], ◌∷◌, ◌++◌, none, some, Result,
  ok, err, any, all, find?, arith, Bool-cases, append-nil, append_assoc, inl, inr,
}
use clippo.Prelude.Int.{eqb_ℤ, eqb_ℤ_iff}
use clippo.Prelude.Text.{text_eq}
use clippo.Core.Entry.{EntryId, Entry, Flavor}
use clippo.Store.Tables.{Db, FlavorRow, has_id, flavors_of}
use clippo.Store.Tables.Valid.{owned_in}
use clippo.Store.Sql.{StoreError, Backend, proceed, insert_flavor}
use clippo.Store.Capture.{add_flavor, add_flavors}

abbrev pub those : Bool → List Flavor → List Flavor
those true fs = fs
those false fs = []

flavors_of-snoc :
    (id : EntryId) (rows : List FlavorRow) (row : FlavorRow)
    → flavors_of id (rows ++ row ∷ [])
      ≡ flavors_of id rows
        ++ those (eqb_ℤ row.entry_id id) (record { mime = row.mime; content = row.content } ∷ [])
flavors_of-snoc id [] row = elim (Bool-cases (eqb_ℤ row.entry_id id)) [
  | inl e ↦ rw e refl
  | inr e ↦ rw e refl
]
flavors_of-snoc id (r ∷ rows) row = elim (Bool-cases (eqb_ℤ r.entry_id id)) [
  | inl e ↦ rw e (
      ap (λ (l : List Flavor). record { mime = r.mime; content = r.content } ∷ l)
        (flavors_of-snoc id rows row))
  | inr e ↦ rw e (flavors_of-snoc id rows row)
]

-- the flavors of one entry are longer by some, and nothing else is different
abbrev pub Added : EntryId → List Flavor → Db → Db → Type 0
Added id fs db db' =
    (db'.entries ≡ db.entries)
    × ((other : EntryId)
        → flavors_of other db'.flavors ≡ flavors_of other db.flavors ++ those (eqb_ℤ id other) fs)

those_cons :
    (xs : List Flavor) (b : Bool) (f : Flavor) (fs : List Flavor)
    → (xs ++ those b (f ∷ [])) ++ those b fs ≡ xs ++ those b (f ∷ fs)
those_cons xs true f fs = append_assoc xs (f ∷ []) fs
those_cons xs false f fs = append-nil (xs ++ [])

pub those_nil : (xs : List Flavor) (b : Bool) → xs ≡ xs ++ those b []
those_nil xs true = sym (append-nil xs)
those_nil xs false = sym (append-nil xs)

Added-trans :
    (id : EntryId) (f : Flavor) (fs : List Flavor) (db db1 db2 : Db)
    → Added id (f ∷ []) db db1
    → Added id fs db1 db2
    → Added id (f ∷ fs) db db2
Added-trans id f fs db db1 db2 (e, h) (e', h') = (
  e' ∙ e,
  λ other.
      h' other
      ∙ ap (λ (l : List Flavor). l ++ those (eqb_ℤ id other) fs) (h other)
      ∙ those_cons (flavors_of other db.flavors) (eqb_ℤ id other) f fs,
)

clash : {b : Bool} → b ≡ true → b ≡ false → ⊥
clash h k = cc

-- an id that no row has, has no flavors
pub flavors_of-fresh :
    (id : EntryId) (es : List Entry) (rows : List FlavorRow)
    → all (owned_in es) rows ≡ true
    → any (has_id id) es ≡ false
    → flavors_of id rows ≡ []
flavors_of-fresh id es [] owned fresh = refl
flavors_of-fresh id es (row ∷ rows) owned fresh = elim (Bool-cases (eqb_ℤ row.entry_id id)) [
  | inl e ↦
      let same = (eqb_ℤ_iff row.entry_id id).0 e in
      let held : any (has_id row.entry_id) es ≡ true = ground arith in
      absurd (clash (subst (λ (i : EntryId). any (has_id i) es ≡ true) same held) fresh)
  | inr e ↦ rw e (flavors_of-fresh id es rows (ground arith) fresh)
]

pub find?-snoc :
    (p : Entry → Bool) (es : List Entry) (e : Entry)
    → any p es ≡ false
    → p e ≡ true
    → find? p (es ++ e ∷ []) ≡ some e
find?-snoc p [] e h k = rw k refl
find?-snoc p (f ∷ es) e h k = ground (arith, find?-snoc p es e)

pub find?-snoc_other :
    (p : Entry → Bool) (es : List Entry) (e : Entry)
    → p e ≡ false
    → find? p (es ++ e ∷ []) ≡ find? p es
find?-snoc_other p [] e k = rw k refl
find?-snoc_other p (f ∷ es) e k = ground (arith, find?-snoc_other p es e)

pub find?-holds :
    (p : Entry → Bool) (es : List Entry) (e : Entry) → find? p es ≡ some e → p e ≡ true
find?-holds p [] e = λ h. cc
find?-holds p (f ∷ es) e = elim (Bool-cases (p f)) [
  | inl k ↦ rw k (λ h. let same : f ≡ e = cc in subst (λ (x : Entry). p x ≡ true) same k)
  | inr k ↦ rw k (find?-holds p es e)
]

pub find?-any : (p : Entry → Bool) (es : List Entry) → any p es ≡ false → find? p es ≡ none
find?-any p [] h = refl
find?-any p (f ∷ es) h = ground (arith, find?-any p es)

module _ (b : Backend) where
  add_flavor-Added :
      (id : EntryId) (f : Flavor) (db : Db)
      → (add_flavor b id f db).1 ≡ ok tt
      → Added id (f ∷ []) db (add_flavor b id f db).0
  unfolding add_flavor
  add_flavor-Added id f db =
      elim (Bool-cases (any (λ row. eqb_ℤ row.entry_id id && text_eq row.mime f.mime) db.flavors)) [
        | inl taken ↦ rw taken (λ h. cc)
        | inr free ↦ rw free (elim (Bool-cases (b.fault insert_flavor db)) [
          | inl e ↦ rw e (λ h. cc)
          | inr e ↦ rw e (λ h. (
            refl,
            λ other.
                flavors_of-snoc other db.flavors
                  (record { entry_id = id; mime = f.mime; content = f.content }),
          ))
        ])
      ]

  then_Added :
      (id : EntryId) (f : Flavor) (fs : List Flavor) (db : Db)
      (r : Db × Result (Unit {0}) StoreError)
      → (r.1 ≡ ok tt → Added id (f ∷ []) db r.0)
      → ((d : Db) → (add_flavors b id fs d).1 ≡ ok tt → Added id fs d (add_flavors b id fs d).0)
      → (proceed (λ u. add_flavors b id fs) r).1 ≡ ok tt
      → Added id (f ∷ fs) db (proceed (λ u. add_flavors b id fs) r).0
  then_Added id f fs db (d, err e) one rest h = cc
  then_Added id f fs db (d, ok u) one rest h =
      Added-trans id f fs db d (add_flavors b id fs d).0 (one refl) (rest d h)

  pub add_flavors-Added :
      (id : EntryId) (fs : List Flavor) (db : Db)
      → (add_flavors b id fs db).1 ≡ ok tt
      → Added id fs db (add_flavors b id fs db).0
  unfolding add_flavors
  add_flavors-Added id [] db h =
      (refl, λ other. those_nil (flavors_of other db.flavors) (eqb_ℤ id other))
  add_flavors-Added id (f ∷ fs) db h =
      then_Added id f fs db (add_flavor b id f db) (add_flavor-Added id f db)
        (add_flavors-Added id fs) h
