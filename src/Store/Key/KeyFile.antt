-- ===== src/Store/Key/KeyFile.antt =====
-- key.rs: what a key file has to be.
use clippo.Prelude.{
  ◌≡◌, ◌≢◌, refl, Bool, true, false, not, [], ◌∷◌, ◌++◌, Option, none, some, Result, ok, err,
  if◌then◌else◌,
}
use clippo.Prelude.Text.{Text, is_whitespace}
use clippo.Store.Key.{
  Key, to_hex, from_hex, IoError, not_found, already_exists, other, malformed_file,
  file_permissions, Metadata, bits, is_shared, hex_or_malformed, read_text, read_key_file,
  create_file, wrote,
}
use clippo.Store.Key.Hex.{IsKey, from_hex-to_hex}

-- the file is one that only its owner reads, with a key as its text
abbrev pub IsKeyFile : Result Metadata IoError → Result Text IoError → Key → Type 0
IsKeyFile meta text key =
    (m : Metadata) × (t : Text) × (meta ≡ ok m)
    × (m.is_file ≡ true)
    × (is_shared (bits m) ≡ false)
    × (text ≡ ok t)
    × (from_hex t ≡ some key)

read_text-IsKeyFile :
    (path : Text) (text : Result Text IoError) (key : Key)
    → read_text path text ≡ ok (some key)
    → (t : Text) × (text ≡ ok t) × (from_hex t ≡ some key)
read_text-IsKeyFile path (err e) key h = cc
read_text-IsKeyFile path (ok t) key h = (t, refl, go (from_hex t) h)
  where
    go : (o : Option Key) → hex_or_malformed path o ≡ ok (some key) → o ≡ some key
    go none q = cc
    go (some k) q = cc

-- the flags of a file that is there, and the answer that they lead to
by_flags :
    (path : Text) (m : Metadata) (text : Result Text IoError) (f s : Bool) (found : Option Key)
    → m.is_file ≡ f
    → is_shared (bits m) ≡ s
    → (if not f
        then err (malformed_file path)
        else if s
        then err (file_permissions path (bits m))
        else read_text path text)
      ≡ ok found
    → (m.is_file ≡ true) × (is_shared (bits m) ≡ false) × (read_text path text ≡ ok found)
by_flags path m text false s found e e' h = cc
by_flags path m text true true found e e' h = cc
by_flags path m text true false found e e' h = (e, e', h)

read_text-some : (path : Text) (text : Result Text IoError) → read_text path text ≢ ok none
read_text-some path (err e) h = cc
read_text-some path (ok t) h = go (from_hex t) h
  where
    go : (o : Option Key) → hex_or_malformed path o ≢ ok none
    go none q = cc
    go (some k) q = cc

pub read_key_file-IsKeyFile :
    (path : Text) (meta : Result Metadata IoError) (text : Result Text IoError) (key : Key)
    → read_key_file path meta text ≡ ok (some key)
    → IsKeyFile meta text key
unfolding read_key_file
read_key_file-IsKeyFile path (err not_found) text key h = cc
read_key_file-IsKeyFile path (err already_exists) text key h = cc
read_key_file-IsKeyFile path (err (other e)) text key h = cc
read_key_file-IsKeyFile path (ok m) text key h =
    let (f, s, r) = by_flags path m text m.is_file (is_shared (bits m)) (some key) refl refl h in
    let (t, at, k) = read_text-IsKeyFile path text key r in (m, t, refl, f, s, at, k)

-- no key file is there
pub read_key_file-none :
    (path : Text) (meta : Result Metadata IoError) (text : Result Text IoError)
    → read_key_file path meta text ≡ ok none
    → meta ≡ err not_found
unfolding read_key_file
read_key_file-none path (err not_found) text h = refl
read_key_file-none path (err already_exists) text h = cc
read_key_file-none path (err (other e)) text h = cc
read_key_file-none path (ok m) text h =
    let (f, s, r) = by_flags path m text m.is_file (is_shared (bits m)) none refl refl h in
    absurd (read_text-some path text r)

-- A key file that is made is one that is read back as the same key, by what was written into it.
wrote-IsKeyFile :
    (path : Text) (key : Key) (meta : Metadata)
    → IsKey key
    → meta.is_file ≡ true
    → bits meta ≡ 384
    → (wrote path key none none ≡ (create_file path 384 (to_hex key ++ 10 ∷ []) ∷ [], ok key))
      × (read_key_file path (ok meta) (ok (to_hex key ++ 10 ∷ [])) ≡ ok (some key))
unfolding read_key_file
wrote-IsKeyFile path key meta k f b =
    (refl, rw (f, b, from_hex-to_hex key [] (10 ∷ []) k refl (unfold is_whitespace in refl)) refl)
