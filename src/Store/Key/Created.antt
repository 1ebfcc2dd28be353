-- ===== src/Store/Key/Created.antt =====
-- key.rs: when a key file is made.
use clippo.Prelude.{
  ℕ, ◌≡◌, refl, sym, ap, ◌∙◌, Bool, true, false, ◌||◌, List, ◌++◌, Option, none, some, Result, ok,
  err, any, any-append, arith,
}
use clippo.Prelude.Text.{Text, codes}
use clippo.Store.Key.{
  Key, IoError, not_found, KeyError, read_key_file, Act, create_file, FileAnswers,
  fall_back_to_file, ServiceAnswers, new_item, with_keyring, from_secret_service, Answers,
  from_file, by_service, by_file, acquire_in,
}
use clippo.Store.Key.KeyFile.{read_key_file-none}

module _ (lossy : List ℕ → Text) where
  -- a key file is made
  abbrev is_creation : Act → Bool
  is_creation (create_file path mode text) = true
  is_creation _ = false

  new_item-makes :
      (r : Result Key Text) (create : Option Text) → any is_creation (new_item r create).0 ≡ false
  new_item-makes (err e) create = refl
  new_item-makes (ok key) (some e) = refl
  new_item-makes (ok key) none = refl

  service-makes : (a : ServiceAnswers) → any is_creation (from_secret_service lossy a).0 ≡ false
  unfolding from_secret_service
  service-makes a = go a.keyring a.unlock a.search
    where
      go :
          (k u : Option Text) (s : Result (Option (Result (List ℕ) Text)) Text)
          → any is_creation (with_keyring lossy k u (record a { search = s })).0 ≡ false
      go (some e) u s = refl
      go none (some e) s = refl
      go none none (err e) = refl
      go none none (ok none) = new_item-makes a.random a.create
      go none none (ok (some (err e))) = refl
      go none none (ok (some (ok secret))) = refl

  fall_back-makes :
      (path : Text) (parent : Option Text) (database reason : Text) (exists : Result Bool IoError)
      (a : FileAnswers)
      → any is_creation (fall_back_to_file path parent database reason exists a).0 ≡ true
      → exists ≡ ok false
  unfolding fall_back_to_file
  fall_back-makes path parent database reason (err e) a h = cc
  fall_back-makes path parent database reason (ok true) a h = cc
  fall_back-makes path parent database reason (ok false) a h = refl

  from_file-acts :
      (path : Text) (r : List Act × Result Key KeyError) → (from_file lossy path r).0 ≡ r.0
  from_file-acts path (acts, err e) = refl
  from_file-acts path (acts, ok key) = refl

  abbrev pub HadNoOther : Answers → Type 0
  HadNoOther a =
      (a.meta ≡ err not_found)
      × (a.database ≡ ok false)
      × ((reason : Text) × ((from_secret_service lossy a.service).1 ≡ err reason))

  right_of : (a b : Bool) → (a || b) ≡ true → a ≡ false → b ≡ true
  right_of a b h k = ground arith

  by_service-HadNoOther :
      (dir : Text) (a : Answers) (r : List Act × Result Key Text)
      → a.meta ≡ err not_found
      → from_secret_service lossy a.service ≡ r
      → any is_creation (by_service lossy dir (dir ++ codes "/key") a r).0 ≡ true
      → HadNoOther a
  by_service-HadNoOther dir a (acts, ok key) m e h =
      let none_made =
        ap (λ (r : List Act × Result Key Text). any is_creation r.0) (sym e)
        ∙ service-makes a.service in
      cc
  by_service-HadNoOther dir a (acts, err reason) m e h =
      let path = dir ++ codes "/key" in
      let database = dir ++ codes "/history.db" in
      let fallback = fall_back_to_file path (some dir) database reason a.database a.file_made in
      let none_made =
        ap (λ (r : List Act × Result Key Text). any is_creation r.0) (sym e)
        ∙ service-makes a.service in
      let both = sym (any-append is_creation acts (from_file lossy path fallback).0) ∙ h in
      let later =
        right_of (any is_creation acts) (any is_creation (from_file lossy path fallback).0) both
          none_made in
      (
        m,
        fall_back-makes path (some dir) database reason a.database a.file_made
            (ap (any is_creation) (sym (from_file-acts path fallback)) ∙ later),
        (reason, ap (λ (r : List Act × Result Key Text). r.1) e),
      )

  -- A key file is made only where there was none, the Secret Service gave no key, and the system said that
  -- there is no database that an older key might open.
  pub acquire_in-HadNoOther :
      (dir : Text) (a : Answers) → any is_creation (acquire_in lossy dir a).0 ≡ true → HadNoOther a
  unfolding acquire_in
  acquire_in-HadNoOther dir a h = go (read_key_file (dir ++ codes "/key") a.meta a.text) refl h
    where
      go :
          (r : Result (Option Key) KeyError)
          → read_key_file (dir ++ codes "/key") a.meta a.text ≡ r
          → any is_creation (by_file lossy dir (dir ++ codes "/key") a r).0 ≡ true
          → HadNoOther a
      go (err e) at q = cc
      go (ok (some k)) at q = cc
      go (ok none) at q =
          by_service-HadNoOther dir a (from_secret_service lossy a.service)
            (read_key_file-none (dir ++ codes "/key") a.meta a.text at) refl q
