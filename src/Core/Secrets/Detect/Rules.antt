-- ===== src/Core/Secrets/Detect/Rules.antt =====
-- secrets.rs: the order of the rules, and what makes no difference to them.
use clippo.Prelude.{◌≡◌, Bool, true, false, ◌++◌, Option, none, some, all, arith}
use clippo.Prelude.Text.{Text, is_whitespace, trim_around}
use clippo.Core.Host.{Host}
use clippo.Core.Secrets.Masking.{SecretsConfig}
use clippo.Core.Secrets.Detect.{Signal, entropy, detect_trimmed, detect}

module _ (host : Host) where
  -- White space around a value hides no secret and makes none.
  detect_around :
      (v t w : Text) (hinted : Bool) (config : SecretsConfig)
      → all is_whitespace v ≡ true
      → all is_whitespace w ≡ true
      → detect host (v ++ (t ++ w)) hinted config ≡ detect host t hinted config
  unfolding detect
  detect_around v t w hinted config h k = rw (trim_around v t w h k)

  abbrev without_entropy : Option Signal → Option Signal
  without_entropy (some entropy) = none
  without_entropy other = other

  -- Switching the entropy rule off takes away its answers and leaves those of the two other rules.
  detect_entropy_off :
      (t : Text) (hinted : Bool) (config : SecretsConfig)
      → detect host t hinted (record config { entropy_rule = false })
        ≡ without_entropy (detect host t hinted (record config { entropy_rule = true }))
  unfolding detect detect_trimmed
  detect_entropy_off t hinted config = ground arith
