-- ===== src/Cli/Render/Escaped.antt =====
-- render.rs: no character that hides or reorders reaches the terminal from the JSON.
use clippo.Prelude.{◌≡◌, refl, ap, false, [], ◌∷◌, any, arith}
use clippo.Prelude.Text.{Text}
use clippo.Core.Display.{is_invisible_or_reordering}
use clippo.Cli.Render.{escape_all}

escape_all-same :
    (text : Text) → any is_invisible_or_reordering text ≡ false → escape_all text ≡ text
unfolding escape_all
escape_all-same [] h = refl
escape_all-same (c ∷ text) h =
    let own : is_invisible_or_reordering c ≡ false = ground arith in
    rw own (ap (λ (t : Text). c ∷ t) (escape_all-same text (ground arith)))
