-- ===== src/Core/Secrets/Hint.antt =====
-- crates/clippo-core/src/secrets/hint.rs: the password-manager marker.
use clippo.Prelude.{Bool, List, map, any}
use clippo.Prelude.Text.{Text, codes, trim, split, join, eq_ignore_case}

abbrev pub password_manager_hint_mime : Text
password_manager_hint_mime = codes "x-kde-passwordManagerHint"

unfoldable normalize : Text → Text
normalize mime = trim (join b';' (map trim (split b';' mime)))

unfoldable pub is_password_manager_hint : Text → Bool
unfolding normalize
is_password_manager_hint mime = eq_ignore_case password_manager_hint_mime (normalize mime)

unfoldable pub fires : List Text → Bool
unfolding is_password_manager_hint
fires mimes = any is_password_manager_hint mimes
