-- ===== src/Tests/Samples.antt =====
-- What the tests run on: a host, back ends, entries and copies.
use clippo.Prelude.{
  ℕ, suc, subst, ◌≤◌, ◌+◌, ◌/◌, ◌≡◌, refl, true, false, not, ◌||◌, List, [], ◌∷◌, map, none, some,
  any, ltb, leb, arith,
}
use clippo.Prelude.Int.{pos, eqb_ℤ, pos_part}
use clippo.Prelude.Text.{codes}
use clippo.Core.Host.{Host}
use clippo.Core.Entry.{EntryId, Entry, NewEntry, Flavor, text}
use clippo.Core.Config.{default_config}
use clippo.Store.Tables.{Db}
use clippo.Store.Sql.{Backend}
use clippo.Store.Retention.{Retention}
use clippo.Store.Capture.{Limits}
use clippo.Daemon.State.{World}

abbrev sum_of : List EntryId → ℕ
sum_of [] = 0
sum_of (id ∷ ids) = pos_part id + sum_of ids

differ : (n : ℕ) (id : EntryId) → pos_part id ≤ n → (eqb_ℤ (pos (suc n)) id || false) ≡ false
differ n id h = ground arith

pub sum_fresh : (k : ℕ) (ids : List EntryId) → any (eqb_ℤ (pos (suc (k + sum_of ids)))) ids ≡ false
sum_fresh k [] = refl
sum_fresh k (id ∷ ids) =
    let e : k + pos_part id + sum_of ids ≡ k + (pos_part id + sum_of ids) = omega arith in
    let r : any (eqb_ℤ (pos (suc (k + (pos_part id + sum_of ids))))) ids ≡ false =
      subst (λ (n : ℕ). any (eqb_ℤ (pos (suc n))) ids ≡ false) e
        (sum_fresh (k + pos_part id) ids) in
    rw r (differ (k + (pos_part id + sum_of ids)) id (omega arith))

-- each character its own cluster, and a hash that is the content
abbrev pub sample_host : Host
sample_host = record {
  is_numeric = λ c. leb b'0' c;
  is_lowercase = λ c. leb b'a' c;
  is_uppercase = λ c. not (leb b'a' c);
  graphemes = map (λ c. c ∷ []);
  is_match = λ pattern value. false;
  from_utf8_lossy = λ bytes. bytes;
  blake3 = λ bytes. bytes;
  Float = ℕ;
  of_ℕ = λ n. n;
  zero_float = 0;
  div = λ a b. a / b;
  mul = λ a b. a;
  add = λ a b. a + b;
  neg = λ a. a;
  log2 = λ a. a;
  gtb = λ a b. ltb b a;
}

-- no statement fails
abbrev pub sound_backend : Backend
sound_backend = record {
  fault = λ statement db. false;
  new_rowid = λ ids. pos (suc (0 + sum_of ids));
  new_rowid_fresh = λ ids. sum_fresh 0 ids;
  thumbnail = λ bytes. none;
}

-- every statement fails
abbrev pub broken_backend : Backend
broken_backend = record {
  fault = λ statement db. true;
  new_rowid = λ ids. pos (suc (0 + sum_of ids));
  new_rowid_fresh = λ ids. sum_fresh 0 ids;
  thumbnail = λ bytes. none;
}

abbrev pub hello : Flavor
hello = record { mime = codes "text/plain"; content = codes "hello" }

abbrev pub page_of_text : Flavor
page_of_text = record { mime = codes "text/html"; content = codes "<p>hello" }

abbrev pub first_entry : Entry
first_entry = record {
  id = pos 1;
  created_at = pos 5;
  last_used_at = pos 5;
  kind = text;
  preview = codes "hello";
  hash = codes "h1";
  pinned = true;
  sensitive = false;
}

abbrev pub second_entry : Entry
second_entry = record {
  id = pos 2;
  created_at = pos 6;
  last_used_at = pos 7;
  kind = text;
  preview = codes "bye";
  hash = codes "h2";
  pinned = false;
  sensitive = false;
}

abbrev pub two_entries : Db
two_entries = record {
  entries = first_entry ∷ second_entry ∷ [];
  flavors =
      record { entry_id = pos 1; mime = codes "text/plain"; content = codes "hello" }
      ∷ record { entry_id = pos 2; mime = codes "text/plain"; content = codes "bye" }
      ∷ [];
}

abbrev pub new_copy : NewEntry
new_copy = record {
  created_at = pos 9;
  kind = text;
  preview = codes "hello";
  hash = codes "h1";
  sensitive = false;
  flavors = hello ∷ [];
}

abbrev pub one_entry_policy : Retention
one_entry_policy = record { max_entries = 1; max_age = some 3 }

abbrev pub sample_limits : Limits
sample_limits = record { retention = one_entry_policy; max_image_bytes = 100 }

abbrev pub sample_world : World
sample_world = record {
  host = sample_host;
  backend = sound_backend;
  config = default_config;
  tenths = λ a b. [];
  score = λ query preview. none;
  clipboard = some (λ flavors. false);
  keystrokes = some (λ shortcut. true);
}
