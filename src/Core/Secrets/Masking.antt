-- ===== src/Core/Secrets/Masking.antt =====
-- crates/clippo-core/src/secrets/masking.rs: a preview that keeps a secret's middle out of sight.
pub mod Blind
use mathlib.Core.List.{flatten, reverse}
use clippo.Prelude.{
  ℕ, suc, ◌+◌, ◌-◌, ◌^◌, ◌≤◌, ◌<◌, ◌≡◌, refl, sym, ap, Bool, true, false, List, [], ◌∷◌, ◌++◌, ltb,
  leb, min, if◌then◌else◌, length, take, drop, replicate, arith, length-append, length-take,
  Bool-cases, inl, inr,
}
use clippo.Prelude.Text.{Text}
use clippo.Core.Host.{Host}

abbrev mask_bullet : ℕ
mask_bullet = 0x2022

abbrev mask_bullets : ℕ
mask_bullets = 8

-- `SecretsConfig`
pub record SecretsConfig : Type 0 where
  pub entropy_rule : Bool
  pub mask_prefix : ℕ
  pub mask_suffix : ℕ

-- `usize::saturating_add`
abbrev pub usize_max : ℕ
usize_max = 2 ^ 64 - 1

abbrev pub usize_add : ℕ → ℕ → ℕ
usize_add a b = min (a + b) usize_max

abbrev pub bullets : Text
bullets = replicate mask_bullets mask_bullet

module _ (host : Host) where
  unfoldable pub mask_with : Text → ℕ → ℕ → Text
  mask_with value prefix suffix =
      let visible = usize_add prefix suffix in
      let clusters = host.graphemes value in
      if leb (length (take (usize_add visible 1) clusters)) visible
      then bullets
      else flatten (take prefix clusters)
        ++ bullets
        ++ flatten (reverse (take suffix (reverse clusters)))

  unfoldable pub mask : Text → SecretsConfig → Text
  mask value config = mask_with value config.mask_prefix config.mask_suffix
