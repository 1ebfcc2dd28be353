-- ===== src/Store/Tables/Order.antt =====
-- The order of recency: total on rows with different ids, and what sorting by it keeps.
use clippo.Prelude.{
  ℕ, zero, suc, ◌≡◌, refl, sym, subst, Bool, true, false, not, ◌&&◌, ◌||◌, List, [], ◌∷◌, inl, inr,
  ◌⊎◌, ltb, filter, any, all, take, map, arith, Bool-cases,
}
use clippo.Prelude.Int.{eqb_ℤ}
use clippo.Core.Entry.{Entry}
use clippo.Store.Tables.{has_id, more_recent, insert_sorted, by_recency, count_where}

more_recent_irrefl : (e : Entry) → more_recent e e ≡ false
unfolding more_recent
more_recent_irrefl e = ground arith

more_recent_asymm : (e f : Entry) → more_recent e f ≡ true → more_recent f e ≡ false
unfolding more_recent
more_recent_asymm e f h = ground arith

more_recent_total :
    (e f : Entry) → eqb_ℤ f.id e.id ≡ false → more_recent f e ≡ false → more_recent e f ≡ true
unfolding more_recent
more_recent_total e f d h = ground arith

more_recent_trans :
    (e f g : Entry) → more_recent e f ≡ true → more_recent f g ≡ true → more_recent e g ≡ true
unfolding more_recent
more_recent_trans e f g h k = ground arith

-- Sorting keeps what holds of all, of some, and how many.
all-insert_sorted :
    (p : Entry → Bool) (e : Entry) (es : List Entry)
    → all p (insert_sorted e es) ≡ (p e && all p es)
unfolding insert_sorted
all-insert_sorted p e [] = refl
all-insert_sorted p e (f ∷ fs) = ground (arith, all-insert_sorted p e fs)

any-insert_sorted :
    (p : Entry → Bool) (e : Entry) (es : List Entry)
    → any p (insert_sorted e es) ≡ (p e || any p es)
unfolding insert_sorted
any-insert_sorted p e [] = refl
any-insert_sorted p e (f ∷ fs) = ground (arith, any-insert_sorted p e fs)

count_where-insert_sorted :
    (p : Entry → Bool) (e : Entry) (es : List Entry)
    → count_where p (insert_sorted e es) ≡ count_where p (e ∷ es)
unfolding insert_sorted
count_where-insert_sorted p e [] = refl
count_where-insert_sorted p e (f ∷ fs) = ground (arith, count_where-insert_sorted p e fs)

any-by_recency : (p : Entry → Bool) (es : List Entry) → any p (by_recency es) ≡ any p es
unfolding by_recency
any-by_recency p [] = refl
any-by_recency p (e ∷ es) =
    ground (arith, any-insert_sorted p e (by_recency es), any-by_recency p es)

all-by_recency : (p : Entry → Bool) (es : List Entry) → all p (by_recency es) ≡ all p es
unfolding by_recency
all-by_recency p [] = refl
all-by_recency p (e ∷ es) =
    ground (arith, all-insert_sorted p e (by_recency es), all-by_recency p es)

pub count_where-by_recency :
    (p : Entry → Bool) (es : List Entry) → count_where p (by_recency es) ≡ count_where p es
unfolding by_recency
count_where-by_recency p [] = refl
count_where-by_recency p (e ∷ es) =
    ground (arith, count_where-insert_sorted p e (by_recency es), count_where-by_recency p es)

-- no two rows have the same id
unfoldable pub distinct_ids : List Entry → Bool
distinct_ids [] = true
distinct_ids (e ∷ es) = not (any (has_id e.id) es) && distinct_ids es

-- each row is more recent than all behind it
unfoldable pub is_sorted : List Entry → Bool
is_sorted [] = true
is_sorted (e ∷ es) = all (more_recent e) es && is_sorted es

all-more_recent :
    (e f : Entry) (es : List Entry)
    → more_recent e f ≡ true
    → all (more_recent f) es ≡ true
    → all (more_recent e) es ≡ true
all-more_recent e f [] h k = refl
all-more_recent e f (g ∷ es) h k = ground (arith, more_recent_trans e f g, all-more_recent e f es)

insert_sorted-is_sorted :
    (e : Entry) (es : List Entry)
    → any (has_id e.id) es ≡ false
    → is_sorted es ≡ true
    → is_sorted (insert_sorted e es) ≡ true
unfolding is_sorted insert_sorted
insert_sorted-is_sorted e [] d h = refl
insert_sorted-is_sorted e (f ∷ fs) d h = ground (
  arith,
  more_recent_total e f,
  all-more_recent e f fs,
  all-insert_sorted (more_recent f) e fs,
  insert_sorted-is_sorted e fs,
)

insert_sorted-distinct_ids :
    (e : Entry) (es : List Entry)
    → any (has_id e.id) es ≡ false
    → distinct_ids es ≡ true
    → distinct_ids (insert_sorted e es) ≡ true
unfolding distinct_ids insert_sorted
insert_sorted-distinct_ids e [] d h = refl
insert_sorted-distinct_ids e (f ∷ fs) d h =
    ground (arith, any-insert_sorted (has_id f.id) e fs, insert_sorted-distinct_ids e fs)

pub by_recency-is_sorted :
    (es : List Entry) → distinct_ids es ≡ true → is_sorted (by_recency es) ≡ true
unfolding by_recency distinct_ids is_sorted
by_recency-is_sorted [] h = refl
by_recency-is_sorted (e ∷ es) h = ground (
  arith,
  any-by_recency (has_id e.id) es,
  insert_sorted-is_sorted e (by_recency es),
  by_recency-is_sorted es,
)

pub by_recency-distinct_ids :
    (es : List Entry) → distinct_ids es ≡ true → distinct_ids (by_recency es) ≡ true
unfolding by_recency distinct_ids
by_recency-distinct_ids [] h = refl
by_recency-distinct_ids (e ∷ es) h = ground (
  arith,
  any-by_recency (has_id e.id) es,
  insert_sorted-distinct_ids e (by_recency es),
  by_recency-distinct_ids es,
)

-- a row of the list
abbrev pub In : Entry → List Entry → Type 0
In e [] = ⊥
In e (f ∷ fs) = (e ≡ f) ⊎ In e fs

all_at : (p : Entry → Bool) (e : Entry) (es : List Entry) → In e es → all p es ≡ true → p e ≡ true
all_at p e [] m h = elim m [ ]
all_at p e (f ∷ fs) (inl q) h = rw q (ground arith)
all_at p e (f ∷ fs) (inr m) h = all_at p e fs m (ground arith)

any_at : (p : Entry → Bool) (e : Entry) (es : List Entry) → In e es → any p es ≡ false → p e ≡ false
any_at p e [] m h = elim m [ ]
any_at p e (f ∷ fs) (inl q) h = rw q (ground arith)
any_at p e (f ∷ fs) (inr m) h = any_at p e fs m (ground arith)

none_before_first :
    (x : Entry) (es : List Entry)
    → all (more_recent x) es ≡ true
    → count_where (λ f. more_recent f x) es ≡ 0
none_before_first x [] h = refl
none_before_first x (f ∷ fs) h = ground (arith, more_recent_asymm x f, none_before_first x fs)

In-insert_sorted_self : (e f : Entry) (fs : List Entry) → e ≡ f → In e (insert_sorted f fs)
unfolding insert_sorted
In-insert_sorted_self e f [] q = inl q
In-insert_sorted_self e f (g ∷ gs) q = elim (Bool-cases (more_recent g f)) [
  | inl k ↦ rw k (inr (In-insert_sorted_self e f gs q))
  | inr k ↦ rw k (inl q)
]

In-insert_sorted : (e f : Entry) (fs : List Entry) → In e fs → In e (insert_sorted f fs)
unfolding insert_sorted
In-insert_sorted e f [] m = elim m [ ]
In-insert_sorted e f (g ∷ gs) (inl q) = elim (Bool-cases (more_recent g f)) [
  | inl k ↦ rw k (inl q)
  | inr k ↦ rw k (inr (inl q))
]
In-insert_sorted e f (g ∷ gs) (inr m) = elim (Bool-cases (more_recent g f)) [
  | inl k ↦ rw k (inr (In-insert_sorted e f gs m))
  | inr k ↦ rw k (inr (inr m))
]

-- Two tests that agree on the rows of a list keep the same rows of it.
pub filter_congr :
    (p q : Entry → Bool) (es : List Entry)
    → ((e : Entry) → In e es → p e ≡ q e)
    → filter p es ≡ filter q es
filter_congr p q [] h = refl
filter_congr p q (e ∷ es) h =
    ground (arith, h e (inl refl), filter_congr p q es (λ f m. h f (inr m)))

pub In-filter :
    (p : Entry → Bool) (e : Entry) (es : List Entry) → In e es → p e ≡ true → In e (filter p es)
In-filter p e [] m h = elim m [ ]
In-filter p e (f ∷ fs) (inl q) h = rw (sym q, h) (inl refl)
In-filter p e (f ∷ fs) (inr m) h = elim (Bool-cases (p f)) [
  | inl k ↦ rw k (inr (In-filter p e fs m h))
  | inr k ↦ rw k (In-filter p e fs m h)
]

pub any-filter_of_any :
    (p q : Entry → Bool) (es : List Entry) → any q es ≡ false → any q (filter p es) ≡ false
any-filter_of_any p q [] h = refl
any-filter_of_any p q (e ∷ es) h = ground (arith, any-filter_of_any p q es)

pub distinct_ids-filter :
    (p : Entry → Bool) (es : List Entry)
    → distinct_ids es ≡ true
    → distinct_ids (filter p es) ≡ true
unfolding distinct_ids
distinct_ids-filter p [] h = refl
distinct_ids-filter p (e ∷ es) h =
    ground (arith, any-filter_of_any p (has_id e.id) es, distinct_ids-filter p es)

pub In-by_recency : (e : Entry) (es : List Entry) → In e es → In e (by_recency es)
unfolding by_recency
In-by_recency e [] m = elim m [ ]
In-by_recency e (f ∷ fs) (inl q) = In-insert_sorted_self e f (by_recency fs) q
In-by_recency e (f ∷ fs) (inr m) = In-insert_sorted e f (by_recency fs) (In-by_recency e fs m)

-- In a sorted list, a row is among the first `n` exactly when fewer than `n` are more recent.
pub any-take-sorted :
    (n : ℕ) (e : Entry) (es : List Entry)
    → In e es
    → is_sorted es ≡ true
    → distinct_ids es ≡ true
    → any (λ id. eqb_ℤ e.id id) (map (λ f. f.id) (take n es))
      ≡ ltb (count_where (λ f. more_recent f e) es) n
unfolding is_sorted distinct_ids
any-take-sorted zero e es m s d = ground arith
any-take-sorted (suc n) e [] m s d = elim m [ ]
any-take-sorted (suc n) e (x ∷ xs) (inl q) s d =
    subst
      (λ y.
        any (λ id. eqb_ℤ y.id id) (map (λ f. f.id) (take (suc n) (x ∷ xs)))
        ≡ ltb (count_where (λ f. more_recent f y) (x ∷ xs)) (suc n))
      (sym q) (ground (arith, more_recent_irrefl x, none_before_first x xs))
any-take-sorted (suc n) e (x ∷ xs) (inr m) s d =
    ground
      (arith, all_at (more_recent x) e xs m, any_at (has_id x.id) e xs m, any-take-sorted n e xs m)
