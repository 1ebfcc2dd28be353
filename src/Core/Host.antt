-- ===== src/Core/Host.antt =====
-- What the program calls and does not implement: Unicode tables, other crates, floating point.
use clippo.Prelude.{ℕ, Bool, List}
use clippo.Prelude.Text.{Text}

pub record Host : Type 1 where
  -- `char::is_numeric`, `is_lowercase`, `is_uppercase`
  pub is_numeric : ℕ → Bool
  pub is_lowercase : ℕ → Bool
  pub is_uppercase : ℕ → Bool
  -- `unicode_segmentation`: `value.graphemes(true)`
  pub graphemes : Text → List Text
  -- `regex`: `Regex::new(pattern).is_match(value)`
  pub is_match : Text → Text → Bool
  -- `String::from_utf8_lossy`
  pub from_utf8_lossy : List ℕ → Text
  -- `blake3`, over the bytes fed to the hasher, as hexadecimal text
  pub blake3 : List ℕ → Text
  -- `f64`
  pub Float : Type 0
  pub of_ℕ : ℕ → Float
  pub zero_float : Float
  pub div : Float → Float → Float
  pub mul : Float → Float → Float
  pub add : Float → Float → Float
  pub neg : Float → Float
  pub log2 : Float → Float
  pub gtb : Float → Float → Bool
