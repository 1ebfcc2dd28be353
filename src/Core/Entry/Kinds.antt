-- ===== src/Core/Entry/Kinds.antt =====
-- entry.rs: kinds and their names, and the kind of a selection.
use clippo.Prelude.{◌≡◌, refl, List, [], ◌∷◌, ◌++◌, Option, ok, arith}
use clippo.Prelude.Text.{text_eq}
use clippo.Core.Entry.{
  EntryKind, text, html, uris, image, as_str, parse_kind, Flavor, from_mime, max_kind, for_flavors,
}

-- A kind's name is read back as that kind.
parse_kind-as_str : (k : EntryKind) → parse_kind (as_str k) ≡ ok k
unfolding parse_kind text_eq
parse_kind-as_str text = refl
parse_kind-as_str html = refl
parse_kind-as_str uris = refl
parse_kind-as_str image = refl

max_kind_assoc : (a b c : Option EntryKind) → max_kind a (max_kind b c) ≡ max_kind (max_kind a b) c
max_kind_assoc a b c = ground arith

max_kind_comm : (a b : Option EntryKind) → max_kind a b ≡ max_kind b a
max_kind_comm a b = ground arith

-- The kind of a selection does not depend on the order in which its flavors are advertised.
for_flavors-append :
    (fs gs : List Flavor) → for_flavors (fs ++ gs) ≡ max_kind (for_flavors fs) (for_flavors gs)
unfolding for_flavors
for_flavors-append [] gs = refl
for_flavors-append (f ∷ fs) gs = ground (
  arith,
  for_flavors-append fs gs,
  max_kind_assoc (from_mime f.mime) (for_flavors fs) (for_flavors gs),
)

-- The kind of a copy does not depend on the order that its flavors come in: exchanging two parts of the
-- list changes nothing.
for_flavors-append_comm : (fs gs : List Flavor) → for_flavors (fs ++ gs) ≡ for_flavors (gs ++ fs)
for_flavors-append_comm fs gs = ground (
  arith,
  for_flavors-append fs gs,
  for_flavors-append gs fs,
  max_kind_comm (for_flavors fs) (for_flavors gs),
)
