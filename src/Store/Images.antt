-- ===== src/Store/Images.antt =====
-- crates/clippo-store/src/images.rs: which stored flavors are clippo's own. Decoding and encoding of
-- images is the `image` crate's.
use clippo.Prelude.{Bool, not, List, [], ◌∷◌, any}
use clippo.Prelude.Text.{Text, codes, eq_ignore_case, squeeze}

abbrev pub thumbnail_mime : Text
thumbnail_mime = codes "image/png;clippo-thumb"

abbrev never_offered : List Text
never_offered = thumbnail_mime ∷ []

unfoldable pub same_mime : Text → Text → Bool
same_mime mime other = eq_ignore_case (squeeze mime) (squeeze other)

unfoldable pub is_thumbnail : Text → Bool
is_thumbnail mime = same_mime mime thumbnail_mime

unfoldable pub is_offerable : Text → Bool
is_offerable mime = not (any (same_mime mime) never_offered)
