-- ===== src/Store/Key/Acquired.antt =====
-- key.rs: where a key may come from, and when a key file is made.
use clippo.Prelude.{
  ℕ, ◌≡◌, refl, sym, ap, ◌∙◌, Bool, true, false, List, [], ◌∷◌, ◌++◌, Option, none, some, Result,
  ok, err, inl, inr, ◌⊎◌,
}
use clippo.Prelude.Text.{Text, codes}
use clippo.Store.Key.{
  Key, KeySource, secret_service, file, IoError, not_found, KeyError, read_key_file, Act,
  create_data_dir, create_file, to_hex, FileAnswers, wrote, with_random, after_dir, create_key_file,
  fall_back_to_file, from_secret_service, from_hex, ServiceAnswers, store_item, key_of_secret,
  new_item, found_item, with_keyring, Answers, from_file, by_service, by_file, acquire_in,
}
use clippo.Store.Key.KeyFile.{IsKeyFile, read_key_file-IsKeyFile, read_key_file-none}

-- The Secret Service was reached and unlocked, and either it had an item, which is the text of the key, and
-- nothing was stored, or it had none, and a random key was stored.
abbrev pub IsServed : (List ℕ → Text) → ServiceAnswers → List Act → Key → Type 0
IsServed lossy a acts key =
    (a.keyring ≡ none)
    × (a.unlock ≡ none)
    × (((secret : List ℕ) × (a.search ≡ ok (some (ok secret)))
          × (from_hex (lossy secret) ≡ some key)
          × (acts ≡ []))
        ⊎ ((a.search ≡ ok none)
            × (a.random ≡ ok key)
            × (a.create ≡ none)
            × (acts ≡ store_item (to_hex key) ∷ [])))

-- where a key came from
abbrev pub IsFrom : (List ℕ → Text) → Text → Answers → List Act → Key → KeySource → Type 0
IsFrom lossy dir a acts key source =
    ((source ≡ file (dir ++ codes "/key")) × IsKeyFile a.meta a.text key × (acts ≡ []))
    ⊎ ((source ≡ secret_service) × (a.meta ≡ err not_found) × IsServed lossy a.service acts key)
    ⊎ ((source ≡ file (dir ++ codes "/key"))
        × (a.meta ≡ err not_found)
        × ((reason : Text) × ((from_secret_service lossy a.service).1 ≡ err reason))
        × (a.database ≡ ok false)
        × (a.file_made.random ≡ ok key)
        × (acts
            ≡ (from_secret_service lossy a.service).0
              ++ ((create_data_dir dir a.file_made.dir).0
                  ++ create_file (dir ++ codes "/key") 384 (to_hex key ++ 10 ∷ []) ∷ [])))

-- the file that is written for a key
abbrev written : Text → Key → List Act
written path key = create_file path 384 (to_hex key ++ 10 ∷ []) ∷ []

wrote_key :
    (path : Text) (made key : Key) (create write : Option IoError)
    → (wrote path made create write).1 ≡ ok key
    → (made ≡ key) × ((wrote path made create write).0 ≡ written path key)
wrote_key path made key (some e) write h = cc
wrote_key path made key none (some e) h = cc
wrote_key path made key none none h = let same : made ≡ key = cc in (same, ap (written path) same)

random_key :
    (path : Text) (random : Result Key Text) (a : FileAnswers) (key : Key)
    → (with_random path random a).1 ≡ ok key
    → (random ≡ ok key) × ((with_random path random a).0 ≡ written path key)
random_key path (err e) a key h = cc
random_key path (ok made) a key h =
    let (same, acts) = wrote_key path made key a.create a.write h in
    (ap (λ (k : Key). ok k) same, acts)

after_dir-key :
    (d : List Act × Option KeyError) (rest : List Act × Result Key KeyError) (key : Key)
    → (after_dir d rest).1 ≡ ok key
    → (rest.1 ≡ ok key) × ((after_dir d rest).0 ≡ d.0 ++ rest.0)
after_dir-key (acts, some e) rest key h = cc
after_dir-key (acts, none) (more, r) key h = (h, refl)

made_key :
    (path dir : Text) (a : FileAnswers) (key : Key)
    → (create_key_file path (some dir) a).1 ≡ ok key
    → (a.random ≡ ok key)
      × ((create_key_file path (some dir) a).0 ≡ (create_data_dir dir a.dir).0 ++ written path key)
unfolding create_key_file
made_key path dir a key h =
    let (r, joined) =
      after_dir-key (create_data_dir dir a.dir) (with_random path a.random a) key h in
    let (k, acts) = random_key path a.random a key r in
    (k, joined ∙ ap (λ (l : List Act). (create_data_dir dir a.dir).0 ++ l) acts)

fell_back :
    (path dir database reason : Text) (exists : Result Bool IoError) (a : FileAnswers) (key : Key)
    → (fall_back_to_file path (some dir) database reason exists a).1 ≡ ok key
    → (exists ≡ ok false)
      × (a.random ≡ ok key)
      × ((fall_back_to_file path (some dir) database reason exists a).0
          ≡ (create_data_dir dir a.dir).0 ++ written path key)
unfolding fall_back_to_file
fell_back path dir database reason (err e) a key h = cc
fell_back path dir database reason (ok true) a key h = cc
fell_back path dir database reason (ok false) a key h =
    let (k, acts) = made_key path dir a key h in (refl, k, acts)

secret-key : (o : Option Key) (key : Key) → key_of_secret o ≡ ok key → o ≡ some key
secret-key none key h = cc
secret-key (some k) key h = cc

stored_key :
    (random : Result Key Text) (create : Option Text) (acts : List Act) (key : Key)
    → new_item random create ≡ (acts, ok key)
    → (random ≡ ok key) × (create ≡ none) × (acts ≡ store_item (to_hex key) ∷ [])
stored_key (err e) create acts key h = cc
stored_key (ok k) (some e) acts key h = cc
stored_key (ok k) none acts key h =
    let same : k ≡ key = cc in
    let stored : store_item (to_hex k) ∷ [] ≡ acts = cc in
    (cc, refl, sym stored ∙ ap (λ (x : Key). store_item (to_hex x) ∷ []) same)

module _ (lossy : List ℕ → Text) where
  found_item-IsServed :
      (a : ServiceAnswers) (r : Result (Option (Result (List ℕ) Text)) Text) (acts : List Act)
      (key : Key)
      → a.keyring ≡ none
      → a.unlock ≡ none
      → a.search ≡ r
      → found_item lossy r a ≡ (acts, ok key)
      → IsServed lossy a acts key
  found_item-IsServed a (err e) acts key k u s h = cc
  found_item-IsServed a (ok none) acts key k u s h =
      let (random, create, stored) = stored_key a.random a.create acts key h in
      (k, u, inr (s, random, create, stored))
  found_item-IsServed a (ok (some (err e))) acts key k u s h = cc
  found_item-IsServed a (ok (some (ok secret))) acts key k u s h =
      let found : key_of_secret (from_hex (lossy secret)) ≡ ok key = cc in
      (k, u, inl (secret, s, secret-key (from_hex (lossy secret)) key found, cc))

  from_secret_service-IsServed :
      (a : ServiceAnswers) (acts : List Act) (key : Key)
      → from_secret_service lossy a ≡ (acts, ok key)
      → IsServed lossy a acts key
  unfolding from_secret_service
  from_secret_service-IsServed a acts key h = go a.keyring a.unlock refl refl h
    where
      go :
          (k u : Option Text)
          → a.keyring ≡ k
          → a.unlock ≡ u
          → with_keyring lossy k u a ≡ (acts, ok key)
          → IsServed lossy a acts key
      go (some e) u at ut q = cc
      go none (some e) at ut q = cc
      go none none at ut q = found_item-IsServed a a.search acts key at ut refl q

  from_file-ok :
      (path : Text) (r : List Act × Result Key KeyError) (key : Key) (source : KeySource)
      → (from_file lossy path r).1 ≡ ok (key, source)
      → (r.1 ≡ ok key) × (source ≡ file path) × ((from_file lossy path r).0 ≡ r.0)
  from_file-ok path (acts, err e) key source h = cc
  from_file-ok path (acts, ok k) key source h = (cc, cc, refl)

  by_service-IsFrom :
      (dir : Text) (a : Answers) (r : List Act × Result Key Text) (key : Key) (source : KeySource)
      → a.meta ≡ err not_found
      → from_secret_service lossy a.service ≡ r
      → (by_service lossy dir (dir ++ codes "/key") a r).1 ≡ ok (key, source)
      → IsFrom lossy dir a (by_service lossy dir (dir ++ codes "/key") a r).0 key source
  by_service-IsFrom dir a (acts, ok k) key source m e h =
      let same : k ≡ key = cc in
      let from : source ≡ secret_service = cc in
      inr (
        inl (
          from,
          m,
          from_secret_service-IsServed a.service acts key (e ∙ ap (λ (x : Key). (acts, ok x)) same),
        ))
  by_service-IsFrom dir a (acts, err reason) key source m e h =
      let path = dir ++ codes "/key" in
      let database = dir ++ codes "/history.db" in
      let fallback = fall_back_to_file path (some dir) database reason a.database a.file_made in
      let (r, s, same) = from_file-ok path fallback key source h in
      let (d, k, made) = fell_back path dir database reason a.database a.file_made key r in
      let asked = ap (λ (r : List Act × Result Key Text). r.0) e in
      let gave_none = ap (λ (r : List Act × Result Key Text). r.1) e in
      inr (
        inr (
          s,
          m,
          (reason, gave_none),
          d,
          k,
          ap (λ (l : List Act). acts ++ l) (same ∙ made)
              ∙ ap
                  (λ (l : List Act).
                    l ++ ((create_data_dir dir a.file_made.dir).0 ++ written path key))
                  (sym asked),
        ))

  -- A key that is acquired is the one of a key file that only its owner reads, where there is one, and then
  -- nothing is written; or, where there is none, that of the Secret Service: the key whose text the item
  -- found there holds, or, where no item is found, a new random one that was stored there; or, where the
  -- Secret Service gives none either, a new random one, of which the last thing done is to write it to the
  -- key file, with mode 0o600, and then only if the system says that there is no database.
  pub acquire_in-IsFrom :
      (dir : Text) (a : Answers) (key : Key) (source : KeySource)
      → (acquire_in lossy dir a).1 ≡ ok (key, source)
      → IsFrom lossy dir a (acquire_in lossy dir a).0 key source
  unfolding acquire_in
  acquire_in-IsFrom dir a key source h =
      go (read_key_file (dir ++ codes "/key") a.meta a.text) refl h
    where
      go :
          (r : Result (Option Key) KeyError)
          → read_key_file (dir ++ codes "/key") a.meta a.text ≡ r
          → (by_file lossy dir (dir ++ codes "/key") a r).1 ≡ ok (key, source)
          → IsFrom lossy dir a (by_file lossy dir (dir ++ codes "/key") a r).0 key source
      go (err e) at q = cc
      go (ok (some k)) at q =
          let same : some k ≡ some key = cc in
          let from : source ≡ file (dir ++ codes "/key") = cc in
          inl (
            from,
            read_key_file-IsKeyFile (dir ++ codes "/key") a.meta a.text key
                (at ∙ ap (λ (o : Option Key). ok o) same),
            refl,
          )
      go (ok none) at q =
          by_service-IsFrom dir a (from_secret_service lossy a.service) key source
            (read_key_file-none (dir ++ codes "/key") a.meta a.text at) refl q
