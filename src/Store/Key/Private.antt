-- ===== src/Store/Key/Private.antt =====
-- key.rs: a data directory is clippo's alone.
use clippo.Prelude.{
  ℕ, ◌≡◌, refl, ap, ◌∙◌, Bool, true, false, List, [], Option, none, some, Result, ok, err, inl, inr,
  subst, append-nil, ◌∷◌, ◌++◌, ◌⊎◌, if◌then◌else◌,
}
use clippo.Prelude.Text.{Text, codes}
use clippo.Store.Key.{
  IoError, not_found, already_exists, other, KeyError, Metadata, bits, is_shared, Act,
  create_dir_all, make_dir, set_permissions, dir_permissions, create_dir, DirAnswers, dir_mode,
  check_again, chmod_done, narrow_from, narrow_data_dir, make, make_below, create_data_dir,
}

-- a directory that no other account gets into
abbrev IsPrivate : Result Metadata IoError → Type 0
IsPrivate r = (m : Metadata) × (r ≡ ok m) × (m.is_dir ≡ true) × (is_shared (bits m) ≡ false)

-- the directories above it are made with the permissions that the system gives them
abbrev above : Option Text → List Act
above none = []
above (some parent) = create_dir_all parent ∷ []

-- What was done: the directory was made just now, with mode 0o700, or it was there and private, or it was
-- there and is private after its mode was set to 0o700.
abbrev pub IsKept : Text → DirAnswers → List Act → Type 0
IsKept dir a acts =
    ((a.create ≡ none) × (acts ≡ above a.parent ++ make_dir dir 448 ∷ []))
    ⊎ ((a.create ≡ some already_exists) × IsPrivate a.before × (acts ≡ above a.parent))
    ⊎ ((a.create ≡ some already_exists)
        × (a.chmod ≡ none)
        × IsPrivate a.after
        × (acts ≡ above a.parent ++ set_permissions dir 448 ∷ []))

-- what narrowing a directory did
abbrev IsNarrowed : Text → DirAnswers → List Act → Type 0
IsNarrowed dir a acts =
    (IsPrivate a.before × (acts ≡ []))
    ⊎ ((a.chmod ≡ none) × IsPrivate a.after × (acts ≡ set_permissions dir 448 ∷ []))

dir_mode-ok :
    (dir : Text) (r : Result Metadata IoError) (mode : ℕ)
    → dir_mode dir r ≡ ok mode
    → is_shared mode ≡ false
    → IsPrivate r
dir_mode-ok dir (err e) mode h s = cc
dir_mode-ok dir (ok m) mode h s = go m.is_dir refl h
  where
    go :
        (b : Bool)
        → m.is_dir ≡ b
        → (if b then ok (bits m) else err (create_dir dir already_exists)) ≡ ok mode
        → IsPrivate (ok m)
    go true d q = let same : bits m ≡ mode = cc in (m, refl, d, ap is_shared same ∙ s)
    go false d q = cc

checked :
    (dir : Text) (r : Result ℕ KeyError)
    → check_again dir r ≡ none
    → (mode : ℕ) × (r ≡ ok mode) × (is_shared mode ≡ false)
checked dir (err e) h = cc
checked dir (ok mode) h = (mode, refl, go shared (is_shared mode) refl h)
  where
    shared : KeyError
    shared = dir_permissions dir mode (
        other (
          codes
            "chmod reported success but the mode did not change; the filesystem may not support unix permissions"))

    go :
        (e : KeyError) (b : Bool)
        → is_shared mode ≡ b
        → (if b then some e else none) ≡ none
        → is_shared mode ≡ false
    go e true s q = cc
    go e false s q = s

chmod_worked :
    (dir : Text) (mode : ℕ) (chmod : Option IoError) (after : Result Metadata IoError)
    → (chmod_done dir mode chmod after).1 ≡ none
    → (chmod ≡ none)
      × IsPrivate after
      × ((chmod_done dir mode chmod after).0 ≡ set_permissions dir 448 ∷ [])
chmod_worked dir mode (some e) after h = cc
chmod_worked dir mode none after h =
    let (now, at, s) = checked dir (dir_mode dir after) h in
    (refl, dir_mode-ok dir after now at s, refl)

narrowed :
    (dir : Text) (a : DirAnswers) (r : Result ℕ KeyError)
    → dir_mode dir a.before ≡ r
    → (narrow_from dir r a.chmod a.after).1 ≡ none
    → IsNarrowed dir a (narrow_from dir r a.chmod a.after).0
narrowed dir a (err e) at h = cc
narrowed dir a (ok mode) at h = go (is_shared mode) refl h
  where
    go :
        (b : Bool)
        → is_shared mode ≡ b
        → (if b then chmod_done dir mode a.chmod a.after else ([], none)).1 ≡ none
        → IsNarrowed dir a (if b then chmod_done dir mode a.chmod a.after else ([], none)).0
    go true s q = inr (chmod_worked dir mode a.chmod a.after q)
    go false s q = inl (dir_mode-ok dir a.before mode at s, refl)

IsNarrowed-IsKept :
    (dir : Text) (a : DirAnswers) (acts : List Act)
    → a.create ≡ some already_exists
    → IsNarrowed dir a acts
    → IsKept dir a (above a.parent ++ acts)
IsNarrowed-IsKept dir a acts at (inl (p, e)) =
    inr (inl (at, p, ap (λ (l : List Act). above a.parent ++ l) e ∙ append-nil (above a.parent)))
IsNarrowed-IsKept dir a acts at (inr (c, p, e)) =
    inr (inr (at, c, p, ap (λ (l : List Act). above a.parent ++ l) e))

make-IsKept :
    (dir : Text) (e : Option IoError) (a : DirAnswers)
    → a.create ≡ e
    → (make dir e a).1 ≡ none
    → IsKept dir a (above a.parent ++ (make dir e a).0)
unfolding narrow_data_dir
make-IsKept dir none a at h = inl (at, refl)
make-IsKept dir (some already_exists) a at h =
    IsNarrowed-IsKept dir a (narrow_from dir (dir_mode dir a.before) a.chmod a.after).0 at
      (narrowed dir a (dir_mode dir a.before) refl h)
make-IsKept dir (some not_found) a at h = cc
make-IsKept dir (some (other e)) a at h = cc

-- Where making the data directory answers no error, then, besides the directories above it, either it was
-- made just now with mode 0o700, and nothing else was done; or it was there, a directory that no other
-- account gets into, and nothing was done; or it was there, its mode was set to 0o700, and read again it
-- is one that no other account gets into.
pub create_data_dir-IsKept :
    (dir : Text) (a : DirAnswers)
    → (create_data_dir dir a).1 ≡ none
    → IsKept dir a (create_data_dir dir a).0
unfolding create_data_dir
create_data_dir-IsKept dir a h = go a.parent refl a.parents h
  where
    go :
        (p : Option Text)
        → a.parent ≡ p
        → (e : Option IoError) → (make_below dir p e a).1 ≡ none
        → IsKept dir a (make_below dir p e a).0
    go none at e q =
        subst (λ (p : Option Text). IsKept dir a (above p ++ (make dir a.create a).0)) at
          (make-IsKept dir a.create a refl q)
    go (some parent) at (some e) q = cc
    go (some parent) at none q =
        subst (λ (p : Option Text). IsKept dir a (above p ++ (make dir a.create a).0)) at
          (make-IsKept dir a.create a refl q)
