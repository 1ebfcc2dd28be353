-- ===== src/Tests/KeyTests.antt =====
-- crates/clippo-store/src/key.rs at concrete inputs.
use clippo.Prelude.{ℕ, ◌≡◌, refl, false, List, [], ◌∷◌, ◌++◌, none, some, ok, err, replicate, arith}
use clippo.Prelude.Text.{Text, codes, is_whitespace}
use clippo.Store.Key.{
  Key, to_hex, from_hex, from_pair, file, not_found, DirAnswers, ServiceAnswers, Answers,
  create_data_dir, acquire_in, read_key_file, create_key_file, fall_back_to_file,
  from_secret_service, digit_value,
}
use clippo.Store.Key.Hex.{from_hex-to_hex}
use clippo.Store.Key.Acquired.{IsFrom, acquire_in-IsFrom}
use clippo.Store.Key.Created.{HadNoOther, acquire_in-HadNoOther}
use clippo.Store.Key.Private.{IsKept, create_data_dir-IsKept}

abbrev a_key : Key
a_key = replicate 32 171

from_hex-to_hex_example : from_hex (32 ∷ [] ++ (to_hex a_key ++ 10 ∷ [])) ≡ some a_key
from_hex-to_hex_example =
    from_hex-to_hex a_key (32 ∷ []) (10 ∷ []) (refl, ground arith) (unfold is_whitespace in refl)
      (unfold is_whitespace in refl)

-- a sign is taken for the first digit of a byte
signed_pair : from_pair 43 102 ≡ some 15
unfolding from_pair digit_value
signed_pair = refl

abbrev lossy : List ℕ → Text
lossy bytes = bytes

abbrev fresh_dir : DirAnswers
fresh_dir = record {
  parent = none;
  parents = none;
  create = none;
  before = err not_found;
  chmod = none;
  after = err not_found;
}

abbrev no_keyring : ServiceAnswers
no_keyring = record {
  keyring = some (codes "no such service");
  unlock = none;
  search = ok none;
  random = ok a_key;
  create = none;
}

abbrev first_start : Answers
first_start = record {
  meta = err not_found;
  text = err not_found;
  service = no_keyring;
  database = ok false;
  file_made = record { dir = fresh_dir; random = ok a_key; create = none; write = none };
}

create_data_dir-IsKept_example :
    IsKept (codes "/data") fresh_dir (create_data_dir (codes "/data") fresh_dir).0
unfolding create_data_dir
create_data_dir-IsKept_example = create_data_dir-IsKept (codes "/data") fresh_dir refl

acquire_in-IsFrom_example :
    IsFrom lossy
      (codes "/data")
      first_start
      (acquire_in lossy (codes "/data") first_start).0
      a_key
      (file (codes "/data/key"))
unfolding acquire_in read_key_file from_secret_service fall_back_to_file create_key_file
    create_data_dir
acquire_in-IsFrom_example =
    acquire_in-IsFrom lossy (codes "/data") first_start a_key (file (codes "/data/key")) refl

acquire_in-HadNoOther_example : HadNoOther lossy first_start
unfolding acquire_in read_key_file from_secret_service fall_back_to_file create_key_file
    create_data_dir
acquire_in-HadNoOther_example = acquire_in-HadNoOther lossy (codes "/data") first_start refl
