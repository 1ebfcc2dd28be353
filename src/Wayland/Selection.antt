-- ===== src/Wayland/Selection.antt =====
-- crates/clippo-wayland/src/lib.rs: what was read of a copy.
use clippo.Prelude.{ℕ, Bool, not, ◌&&◌, List, [], ◌∷◌, ◌++◌, map, Option, if◌then◌else◌, any, find?}
use clippo.Prelude.Text.{Text, text_eq, is_empty}
use clippo.Core.Entry.{Flavor}
use clippo.Core.Secrets.Hint.{is_password_manager_hint}
use clippo.Wayland.Mime.{is_interesting}

pub data SelectionKind : Type 0 where
  clipboard primary : SelectionKind

pub data DropReason : Type 0 where
  over_cap : ℕ → DropReason
  io : Text → DropReason
  stalled : DropReason
  setup : Text → DropReason

pub record DroppedFlavor : Type 0 where
  pub mime : Text
  pub reason : DropReason

pub record Selection : Type 0 where
  pub kind : SelectionKind
  pub advertised : List Text
  pub flavors : List Flavor
  pub dropped : List DroppedFlavor

unfoldable selection_flavor : Selection → Text → Option Flavor
selection_flavor s mime = find? (λ f. text_eq f.mime mime) s.flavors

abbrev pub selection_is_empty : Selection → Bool
selection_is_empty s = is_empty s.flavors

unfoldable pub has_password_manager_hint : Selection → Bool
has_password_manager_hint s =
    any is_password_manager_hint (s.advertised ++ map (λ (f : Flavor). f.mime) s.flavors)

-- `skipped`: the types that were not asked for, each once
unfoldable skipped_from : List Text → List Text → List Text
skipped_from skipped [] = skipped
skipped_from skipped (mime ∷ mimes) =
    skipped_from
      (if not (is_interesting mime) && not (any (text_eq mime) skipped)
        then skipped ++ mime ∷ []
        else skipped)
      mimes

unfoldable skipped : Selection → List Text
skipped s = skipped_from [] s.advertised
