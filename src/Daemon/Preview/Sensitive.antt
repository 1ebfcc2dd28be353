-- ===== src/Daemon/Preview/Sensitive.antt =====
-- preview.rs: when a copy is treated as a secret.
use clippo.Prelude.{
  ℕ, zero, suc, ◌≡◌, refl, ◌∙◌, Bool, true, false, ◌&&◌, ◌||◌, List, [], ◌∷◌, Option, none, some,
  is_some, any, get_elem?, arith, Bool-cases, Option-cases, inl, inr,
}
use clippo.Core.Host.{Host}
use clippo.Core.Entry.{EntryKind, Flavor}
use clippo.Core.Secrets.Masking.{SecretsConfig}
use clippo.Core.Secrets.Detect.{Signal, password_manager_hint, shape, entropy}
use clippo.Store.Dedup.{canonical_flavor}
use clippo.Daemon.Preview.{
  is_text_bearing, bearing_at, others, ordered, front, detection_flavors, signal_of, or_first,
  detect_from, detect_over_flavors, position, filter_index, index_of,
}

any-others-none :
    (q : Flavor → Bool) (fs : List Flavor)
    → any q (others none fs) ≡ any (λ f. is_text_bearing f.mime && q f) fs
any-others-none q [] = refl
any-others-none q (f ∷ fs) = ground (arith, any-others-none q fs)

abbrev holds : (Flavor → Bool) → Option Flavor → Bool
holds q none = false
holds q (some f) = q f

any-front :
    (q : Flavor → Bool) (o : Option Flavor) (rest : List Flavor)
    → any q (front o rest) ≡ (holds q o || any q rest)
any-front q none rest = refl
any-front q (some f) rest = refl

-- the flavor at the index and the others are the text-bearing ones
holds-others :
    (q : Flavor → Bool) (i : ℕ) (fs : List Flavor)
    → bearing_at fs i ≡ true
    → (holds q (get_elem? fs i) || any q (others (some i) fs))
      ≡ any (λ f. is_text_bearing f.mime && q f) fs
holds-others q i [] h = cc
holds-others q zero (f ∷ fs) h = ground (arith, any-others-none q fs)
holds-others q (suc i) (f ∷ fs) h = ground (arith, holds-others q i fs h)

any-filter_index :
    (q : Flavor → Bool) (fs : List Flavor) (o : Option ℕ)
    → any q (ordered fs (filter_index fs o)) ≡ any (λ f. is_text_bearing f.mime && q f) fs
any-filter_index q fs none = any-others-none q fs
any-filter_index q fs (some i) = elim (Bool-cases (bearing_at fs i)) [
  | inl e ↦ rw e (any-front q (get_elem? fs i) (others (some i) fs) ∙ holds-others q i fs e)
  | inr e ↦ rw e (any-others-none q fs)
]

any-index_of :
    (q : Flavor → Bool) (fs : List Flavor) (o : Option Flavor)
    → any q (ordered fs (index_of fs o)) ≡ any (λ f. is_text_bearing f.mime && q f) fs
any-index_of q fs none = any-others-none q fs
any-index_of q fs (some canonical) = any-filter_index q fs (position canonical.mime fs)

or_true : (b : Bool) → true ≡ (b || true)
or_true true = refl
or_true false = refl

is_some-or_first :
    (fallback : Option Signal) (s : Signal) (b : Bool)
    → (is_some (or_first fallback s) || b) ≡ (is_some fallback || true)
unfolding is_some
is_some-or_first none s b = refl
is_some-or_first (some t) s b = refl

module _ (host : Host) (config : SecretsConfig) where
  is_some-detect_from :
      (fallback : Option Signal) (fs : List Flavor)
      → is_some (detect_from host config fallback fs)
        ≡ (is_some fallback || any (λ f. is_some (signal_of host config f)) fs)
  unfolding detect_from is_some
  is_some-detect_from none [] = refl
  is_some-detect_from (some t) [] = refl
  is_some-detect_from fallback (f ∷ fs) = elim (Option-cases (signal_of host config f)) [
    | inl e ↦ rw (e, detect_from) (is_some-detect_from fallback fs)
    | inr (shape s, e) ↦ rw (e, detect_from) (or_true (is_some fallback))
    | inr (entropy, e) ↦
        rw (e, detect_from)
          (is_some-detect_from (or_first fallback entropy) fs ∙ is_some-or_first fallback entropy _)
    | inr (password_manager_hint, e) ↦
        rw (e, detect_from)
          (is_some-detect_from (or_first fallback password_manager_hint) fs
            ∙ is_some-or_first fallback password_manager_hint _)
  ]

  -- A copy is a secret exactly if it carries a password manager's hint or the rules fire on the value
  -- of one of its text-bearing flavors, whichever flavor stands for the copy.
  pub detect_over_flavors_lem :
      (kind : EntryKind) (flavors : List Flavor) (hinted : Bool)
      → is_some (detect_over_flavors host kind flavors hinted config)
        ≡ (hinted || any (λ f. is_text_bearing f.mime && is_some (signal_of host config f)) flavors)
  unfolding detect_over_flavors detection_flavors is_some
  detect_over_flavors_lem kind flavors true = refl
  detect_over_flavors_lem kind flavors false =
      is_some-detect_from none (detection_flavors kind flavors)
      ∙ any-index_of (λ f. is_some (signal_of host config f)) flavors
          (canonical_flavor kind flavors)
