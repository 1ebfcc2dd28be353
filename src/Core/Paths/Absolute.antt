-- ===== src/Core/Paths/Absolute.antt =====
-- paths.rs: the history is never looked for in the directory the program happens to run in.
use clippo.Prelude.{
  ◌≡◌, refl, true, [], ◌∷◌, ◌++◌, Option, none, some, Result, ok, err, Bool-cases, inl, inr, subst,
}
use clippo.Prelude.Text.{Text, codes}
use clippo.Core.Paths.{
  is_absolute, separator, join, PathError, absolute, from_home, or_home, in_app_dir, resolve_from,
  or_error, resolve, in_dir, config_dir, config_file, data_dir, db_path,
}

-- a path, where there is one, is absolute
abbrev IsAbsolute : Option Text → Type 0
IsAbsolute none = Unit
IsAbsolute (some path) = is_absolute path ≡ true

IsAbsolute-append : (path more : Text) → is_absolute path ≡ true → is_absolute (path ++ more) ≡ true
IsAbsolute-append [] more h = cc
IsAbsolute-append (c ∷ path) more h = h

IsAbsolute-join :
    (path other : Text) → is_absolute path ≡ true → is_absolute (join path other) ≡ true
unfolding join
IsAbsolute-join path other h = elim (Bool-cases (is_absolute other)) [
  | inl e ↦ rw e e
  | inr e ↦ rw e (IsAbsolute-append path (separator path ++ other) h)
]

IsAbsolute-absolute : (path : Option Text) → IsAbsolute (absolute path)
IsAbsolute-absolute none = tt
IsAbsolute-absolute (some path) = elim (Bool-cases (is_absolute path)) [
  | inl e ↦ rw e e
  | inr e ↦ rw e tt
]

IsAbsolute-from_home :
    (home : Option Text) (rest : Text) → IsAbsolute home → IsAbsolute (from_home home rest)
IsAbsolute-from_home none rest h = tt
IsAbsolute-from_home (some home) rest h = IsAbsolute-join home rest h

IsAbsolute-or_home :
    (xdg home : Option Text) → IsAbsolute xdg → IsAbsolute home → IsAbsolute (or_home xdg home)
IsAbsolute-or_home none home h k = k
IsAbsolute-or_home (some path) home h k = h

IsAbsolute-in_app_dir : (base : Option Text) → IsAbsolute base → IsAbsolute (in_app_dir base)
IsAbsolute-in_app_dir none h = tt
IsAbsolute-in_app_dir (some base) h = IsAbsolute-join base (codes "clippo") h

IsAbsolute-resolve_from :
    (xdg home : Option Text) (rest : Text) → IsAbsolute (resolve_from xdg home rest)
unfolding resolve_from
IsAbsolute-resolve_from xdg home rest =
    let base =
      IsAbsolute-or_home (absolute xdg) (from_home (absolute home) rest) (IsAbsolute-absolute xdg)
        (IsAbsolute-from_home (absolute home) rest (IsAbsolute-absolute home)) in
    IsAbsolute-in_app_dir (or_home (absolute xdg) (from_home (absolute home) rest)) base

IsAbsolute-or_error :
    (xdg_var what : Text) (found : Option Text) (dir : Text)
    → IsAbsolute found
    → or_error xdg_var what found ≡ ok dir
    → is_absolute dir ≡ true
IsAbsolute-or_error xdg_var what none dir h k = cc
IsAbsolute-or_error xdg_var what (some found) dir h k =
    let same : found ≡ dir = cc in subst (λ (p : Text). is_absolute p ≡ true) same h

or_error-none :
    (xdg_var what : Text) (found : Option Text) (e : PathError)
    → or_error xdg_var what found ≡ err e
    → found ≡ none
or_error-none xdg_var what none e h = refl
or_error-none xdg_var what (some found) e h = cc

in_app_dir-none :
    (xdg home : Option Text) (rest : Text)
    → in_app_dir (or_home xdg (from_home home rest)) ≡ none
    → (xdg ≡ none) × (home ≡ none)
in_app_dir-none none none rest h = (refl, refl)
in_app_dir-none none (some home) rest h = cc
in_app_dir-none (some xdg) home rest h = cc

module _ (var : Text → Option Text) where
  IsAbsolute-in_dir :
      (name : Text) (r : Result Text PathError) (path : Text)
      → ((dir : Text) → r ≡ ok dir → is_absolute dir ≡ true)
      → in_dir var name r ≡ ok path
      → is_absolute path ≡ true
  IsAbsolute-in_dir name (err e) path h k = cc
  IsAbsolute-in_dir name (ok dir) path h k =
      let same : join dir name ≡ path = cc in
      subst (λ (p : Text). is_absolute p ≡ true) same (IsAbsolute-join dir name (h dir refl))

  IsAbsolute-resolve :
      (xdg_var rest what dir : Text)
      → resolve var xdg_var rest what ≡ ok dir
      → is_absolute dir ≡ true
  unfolding resolve
  IsAbsolute-resolve xdg_var rest what dir h =
      let home = var (codes "HOME") in
      IsAbsolute-or_error xdg_var what (resolve_from (var xdg_var) home rest) dir
        (IsAbsolute-resolve_from (var xdg_var) home rest) h

  -- The database and the configuration are named by absolute paths, whatever the environment holds; and
  -- the data directory is not found only where neither `XDG_DATA_HOME` nor `HOME` is an absolute path.
  pub IsAbsolute-db_path :
      (path : Text)
      → (db_path var ≡ ok path → is_absolute path ≡ true)
        × (config_file var ≡ ok path → is_absolute path ≡ true)
        × ((e : PathError)
            → data_dir var ≡ err e
            → (absolute (var (codes "XDG_DATA_HOME")) ≡ none)
              × (absolute (var (codes "HOME")) ≡ none))
  unfolding db_path config_file data_dir config_dir resolve resolve_from
  IsAbsolute-db_path path = (
    λ h. IsAbsolute-in_dir _ _ path (λ dir q. IsAbsolute-resolve _ _ _ dir q) h,
    λ h. IsAbsolute-in_dir _ _ path (λ dir q. IsAbsolute-resolve _ _ _ dir q) h,
    λ e h.
        in_app_dir-none (absolute (var (codes "XDG_DATA_HOME"))) (absolute (var (codes "HOME"))) _
          (or_error-none _ _ _ e h),
  )
