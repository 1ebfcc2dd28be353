-- ===== src/Wayland/Mime.antt =====
-- crates/clippo-wayland/src/mime.rs: the MIME types that clippo asks for.
use clippo.Prelude.{Bool, List, [], ◌∷◌, any}
use clippo.Prelude.Text.{Text, codes, eq_ignore_case, squeeze}
use clippo.Core.Secrets.Hint.{password_manager_hint_mime}

abbrev pub interesting_mimes : List Text
interesting_mimes =
    codes "text/plain;charset=utf-8"
    ∷ codes "text/plain"
    ∷ codes "text/html"
    ∷ codes "text/uri-list"
    ∷ codes "image/png"
    ∷ codes "image/jpeg"
    ∷ password_manager_hint_mime
    ∷ []

unfoldable pub is_interesting : Text → Bool
is_interesting mime = any (λ known. eq_ignore_case known (squeeze mime)) interesting_mimes

unfoldable pub same : Text → Text → Bool
same mime other = eq_ignore_case (squeeze mime) (squeeze other)
