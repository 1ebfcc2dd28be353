-- ===== src/Core/Secrets/Detect.antt =====
-- crates/clippo-core/src/secrets.rs: the rules, tried in order.
pub mod Rules
pub mod Head
use clippo.Prelude.{
  ℕ, zero, suc, ◌+◌, ◌-◌, ◌*◌, ◌≤◌, ◌<◌, ◌≡◌, refl, Bool, true, false, not, ◌&&◌, ◌||◌, List, [],
  ◌∷◌, ◌++◌, Option, none, some, ltb, leb, ◌==◌, if◌then◌else◌, length, arith, is_some,
}
use clippo.Prelude.Text.{Text, len_utf8, len, trim}
use clippo.Core.Host.{Host}
use clippo.Core.Secrets.Masking.{SecretsConfig}
use clippo.Core.Secrets.Shapes.{Shape, matched}
use clippo.Core.Secrets.Entropy

abbrev pub detection_max_bytes : ℕ
detection_max_bytes = 64 * 1024

pub data Signal : Type 0 where
  password_manager_hint : Signal
  shape : Shape → Signal
  entropy : Signal

-- `text.is_char_boundary(end)`
unfoldable pub is_char_boundary : ℕ → Text → Bool
is_char_boundary end [] = end == 0
is_char_boundary end (c ∷ s) =
    end == 0 || (leb (len_utf8 c) end && is_char_boundary (end - len_utf8 c) s)

-- `while end > 0 && !text.is_char_boundary(end) { end -= 1; }`
unfoldable pub walk_back : ℕ → Text → ℕ
walk_back zero text = zero
walk_back (suc end) text =
    let rest = walk_back end text in if is_char_boundary (suc end) text then suc end else rest

-- `&text[..end]`, at a character boundary
unfoldable pub bytes_prefix : ℕ → Text → Text
bytes_prefix end [] = []
bytes_prefix end (c ∷ s) =
    if leb (len_utf8 c) end then c ∷ bytes_prefix (end - len_utf8 c) s else []

-- `head`, for any limit
unfoldable pub head_within : ℕ → Text → Text
head_within limit text =
    if leb (len text) limit then text else bytes_prefix (walk_back limit text) text

unfoldable pub head : Text → Text
head text = head_within detection_max_bytes text

module _ (host : Host) where
  -- the rules that look at the value, trimmed
  unfoldable pub detect_trimmed : Text → SecretsConfig → Option Signal
  detect_trimmed value config = elim (matched host (head value)) [
    | some s ↦ some (shape s)
    | none ↦ if config.entropy_rule && Entropy.fires host value then some entropy else none
  ]

  unfoldable pub detect : Text → Bool → SecretsConfig → Option Signal
  detect text hinted config =
      if hinted then some password_manager_hint else detect_trimmed (trim text) config

  unfoldable is_sensitive : Text → Bool → SecretsConfig → Bool
  unfolding detect
  is_sensitive text hinted config = is_some (detect text hinted config)
