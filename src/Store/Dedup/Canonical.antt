-- ===== src/Store/Dedup/Canonical.antt =====
-- dedup.rs: which flavor stands for a copy.
use clippo.Prelude.{
  ℕ, ◌≤◌, ◌<◌, ◌≡◌, refl, ap, true, not, List, [], ◌∷◌, ◌++◌, Option, none, some, inl, inr, ◌⊎◌,
  ltb, arith, filter, All, Option-cases, Bool-cases, ltb→lt,
}
use mathlib.Core.Option
use clippo.Prelude.Text.{Text}
use clippo.Core.Host.{Host}
use clippo.Core.Entry.{EntryKind, Flavor}
use clippo.Store.Images.{is_thumbnail}
use clippo.Store.Dedup.{rank, consider, canonical_from, canonical_flavor, hash}

module _ (kind : EntryKind) where
  -- a rank, with 0 for a flavor that cannot stand for the copy
  abbrev rank_or_zero : Flavor → ℕ
  rank_or_zero f = elim (rank kind f.mime) [ none ↦ 0 | some r ↦ r ]

  rank_pos : (mime : Text) (r : ℕ) → rank kind mime ≡ some r → 0 < r
  unfolding rank
  rank_pos mime r h = ground arith

  -- `g` is the first flavor of rank `r`, and none has a greater one
  pub record IsFirstBest (fs : List Flavor) (r : ℕ) (g : Flavor) : Type 0 where
    ahead : List Flavor
    behind : List Flavor
    pub split : fs ≡ ahead ++ g ∷ behind
    rank_of : rank kind g.mime ≡ some r
    less_ahead : All (λ f. rank_or_zero f < r) ahead
    no_more_behind : All (λ f. rank_or_zero f ≤ r) behind

  IsFirstBest-cons :
      (f : Flavor) (fs : List Flavor) (r : ℕ) (g : Flavor)
      → rank_or_zero f < r
      → IsFirstBest fs r g
      → IsFirstBest (f ∷ fs) r g
  IsFirstBest-cons f fs r g h b = record {
    ahead = f ∷ b.ahead;
    behind = b.behind;
    split = ap (◌∷◌ f) b.split;
    rank_of = b.rank_of;
    less_ahead = (h, b.less_ahead);
    no_more_behind = b.no_more_behind;
  }

  abbrev Outcome : ℕ → Flavor → List Flavor → Option (ℕ × Flavor) → Type 0
  Outcome r g fs result =
      ((result ≡ some (r, g)) × All (λ f. rank_or_zero f ≤ r) fs)
      ⊎ ((q : ℕ) × (k : Flavor) × (result ≡ some (q, k)) × (r < q) × IsFirstBest fs q k)

  consider-none :
      (best : Option (ℕ × Flavor)) (f : Flavor)
      → rank kind f.mime ≡ none
      → consider kind best f ≡ best
  unfolding consider
  consider-none best f h = ground arith

  consider-better :
      (r : ℕ) (g f : Flavor) (q : ℕ)
      → rank kind f.mime ≡ some q
      → r < q
      → consider kind (some (r, g)) f ≡ some (q, f)
  unfolding consider
  consider-better r g f q h lt = ground arith

  consider-worse :
      (r : ℕ) (g f : Flavor) (q : ℕ)
      → rank kind f.mime ≡ some q
      → q ≤ r
      → consider kind (some (r, g)) f ≡ some (r, g)
  unfolding consider
  consider-worse r g f q h le = ground arith

  extend :
      (f : Flavor) (fs : List Flavor) (r : ℕ) (g : Flavor) (result : Option (ℕ × Flavor))
      → rank_or_zero f ≤ r
      → Outcome r g fs result
      → Outcome r g (f ∷ fs) result
  extend f fs r g result h (inl (e, all_less)) = inl (e, (h, all_less))
  extend f fs r g result h (inr (q, k, e, lt, b)) =
      inr (q, k, e, lt, IsFirstBest-cons f fs q k (omega arith) b)

  restart :
      (f : Flavor) (fs : List Flavor) (r : ℕ) (g : Flavor) (q : ℕ) (result : Option (ℕ × Flavor))
      → rank kind f.mime ≡ some q
      → r < q
      → Outcome q f fs result
      → Outcome r g (f ∷ fs) result
  restart f fs r g q result h lt (inl (e, all_less)) = inr (
    q,
    f,
    e,
    lt,
    record {
      ahead = [];
      behind = fs;
      split = refl;
      rank_of = h;
      less_ahead = tt;
      no_more_behind = all_less;
    },
  )
  restart f fs r g q result h lt (inr (p, k, e, more, b)) =
      inr (p, k, e, omega arith, IsFirstBest-cons f fs p k (ground arith) b)

  canonical_from_some :
      (fs : List Flavor) (r : ℕ) (g : Flavor)
      → Outcome r g fs (canonical_from kind (some (r, g)) fs)
  unfolding canonical_from
  canonical_from_some [] r g = inl (refl, tt)
  canonical_from_some (f ∷ fs) r g = elim (Option-cases (rank kind f.mime)) [
    | inl e ↦
        rw (consider-none (some (r, g)) f e)
          (extend f fs r g _ (ground arith) (canonical_from_some fs r g))
    | inr (q, e) ↦ elim (Bool-cases (ltb r q)) [
      | inl lt ↦
          rw (consider-better r g f q e (ltb→lt r q lt))
            (restart f fs r g q _ e (ltb→lt r q lt) (canonical_from_some fs q f))
      | inr ge ↦
          rw (consider-worse r g f q e (ground arith))
            (extend f fs r g _ (ground arith) (canonical_from_some fs r g))
    ]
  ]

  Chosen : List Flavor → Option (ℕ × Flavor) → Type 0
  Chosen fs none = All (λ f. rank_or_zero f ≡ 0) fs
  Chosen fs (some (r, g)) = IsFirstBest fs r g

  Chosen-start :
      (f : Flavor) (fs : List Flavor) (q : ℕ) (result : Option (ℕ × Flavor))
      → rank kind f.mime ≡ some q
      → Outcome q f fs result
      → Chosen (f ∷ fs) result
  unfolding Chosen
  Chosen-start f fs q result h (inl (e, all_less)) = rw e (record {
    ahead = [];
    behind = fs;
    split = refl;
    rank_of = h;
    less_ahead = tt;
    no_more_behind = all_less;
  })
  Chosen-start f fs q result h (inr (p, k, e, more, b)) =
      rw e (IsFirstBest-cons f fs p k (ground arith) b)

  Chosen-skip :
      (f : Flavor) (fs : List Flavor) (result : Option (ℕ × Flavor))
      → rank kind f.mime ≡ none
      → Chosen fs result
      → Chosen (f ∷ fs) result
  unfolding Chosen
  Chosen-skip f fs none h b = (ground arith, b)
  Chosen-skip f fs (some (r, g)) h b =
      IsFirstBest-cons f fs r g (ground (arith, rank_pos g.mime r b.rank_of)) b

  consider-first :
      (f : Flavor) (q : ℕ) → rank kind f.mime ≡ some q → consider kind none f ≡ some (q, f)
  unfolding consider
  consider-first f q h = ground arith

  canonical_from-none : (fs : List Flavor) → Chosen fs (canonical_from kind none fs)
  unfolding canonical_from
  canonical_from-none [] = unfold Chosen in tt
  canonical_from-none (f ∷ fs) = elim (Option-cases (rank kind f.mime)) [
    | inl e ↦ rw (consider-none none f e) (Chosen-skip f fs _ e (canonical_from-none fs))
    | inr (q, e) ↦ rw (consider-first f q e) (Chosen-start f fs q _ e (canonical_from_some fs q f))
  ]

  abbrev pub Stands : List Flavor → Option Flavor → Type 0
  Stands fs none = All (λ f. rank_or_zero f ≡ 0) fs
  Stands fs (some g) = (r : ℕ) × IsFirstBest fs r g

  Stands-of_Chosen :
      (fs : List Flavor) (best : Option (ℕ × Flavor))
      → Chosen fs best
      → Stands fs (Option.map (λ (b : ℕ × Flavor). b.1) best)
  unfolding Chosen
  Stands-of_Chosen fs none h = h
  Stands-of_Chosen fs (some (r, g)) h = (r, h)

  -- The flavor that stands for a copy is the first of those with the greatest rank; there is none
  -- exactly when no flavor has a rank.
  pub canonical_flavor-Stands : (fs : List Flavor) → Stands fs (canonical_flavor kind fs)
  unfolding canonical_flavor
  canonical_flavor-Stands fs =
      Stands-of_Chosen fs (canonical_from kind none fs) (canonical_from-none fs)

  consider-thumbnail :
      (best : Option (ℕ × Flavor)) (f : Flavor)
      → is_thumbnail f.mime ≡ true
      → consider kind best f ≡ best
  unfolding consider rank
  consider-thumbnail best f h = ground arith

  canonical_from-filter :
      (fs : List Flavor) (best : Option (ℕ × Flavor))
      → canonical_from kind best (filter (λ f. not (is_thumbnail f.mime)) fs)
        ≡ canonical_from kind best fs
  unfolding canonical_from
  canonical_from-filter [] best = refl
  canonical_from-filter (f ∷ fs) best = elim (Bool-cases (is_thumbnail f.mime)) [
    | inl e ↦ rw (e, consider-thumbnail best f e) (canonical_from-filter fs best)
    | inr e ↦ rw e (canonical_from-filter fs (consider kind best f))
  ]

  -- A copy has the hash that it has without clippo's own thumbnails, wherever these stand among its
  -- flavors: an entry that is copied back is the entry that it was.
  hash_without_thumbnails :
      (host : Host) (fs : List Flavor)
      → hash host kind (filter (λ f. not (is_thumbnail f.mime)) fs) ≡ hash host kind fs
  unfolding hash canonical_flavor
  hash_without_thumbnails host fs = rw (canonical_from-filter fs none)
