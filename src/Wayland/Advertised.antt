-- ===== src/Wayland/Advertised.antt =====
-- crates/clippo-wayland/src/watch.rs: the MIME types that an offer advertises, and those clippo reads.
pub mod Ceiling
use clippo.Prelude.{
  ℕ, Bool, true, false, not, ◌&&◌, ◌||◌, List, [], ◌∷◌, ◌++◌, if◌then◌else◌, any, length, drop, ltb,
  ◌==◌,
}
use clippo.Prelude.Text.{Text}
use clippo.Wayland.Mime.{is_interesting, same, interesting_mimes}

abbrev pub max_advertised_mimes : ℕ
max_advertised_mimes = 256

pub record AdvertisedMimes : Type 0 where
  pub mimes : List Text
  pub overflowed : Bool

abbrev pub no_mimes : AdvertisedMimes
no_mimes = record { mimes = []; overflowed = false }

-- `AdvertisedMimes::push`: past the ceiling, a type is recorded if clippo would read it and its like
-- is not yet recorded past the ceiling
unfoldable pub push_mime : Text → AdvertisedMimes → AdvertisedMimes
push_mime mime a =
    if ltb (length a.mimes) max_advertised_mimes
    then record a { mimes = a.mimes ++ mime ∷ [] }
    else if is_interesting mime
        && not (any (λ seen. same seen mime) (drop max_advertised_mimes a.mimes))
    then record a { mimes = a.mimes ++ mime ∷ [] }
    else record a { overflowed = true }

-- one round of the loop of `interesting_flavors`; what it refuses is only counted for the log
unfoldable pub want : List Text → Text → List Text
want wanted mime =
    if not (is_interesting mime) || any (λ seen. same seen mime) wanted
    then wanted
    else if length wanted == length interesting_mimes
    then wanted
    else wanted ++ mime ∷ []

unfoldable pub want_all : List Text → List Text → List Text
want_all wanted [] = wanted
want_all wanted (mime ∷ mimes) = want_all (want wanted mime) mimes

unfoldable pub interesting_flavors : List Text → List Text
interesting_flavors advertised = want_all [] advertised
