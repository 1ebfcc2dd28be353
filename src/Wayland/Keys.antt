-- ===== src/Wayland/Keys.antt =====
-- crates/clippo-wayland/src/keys.rs: pressing a shortcut on a virtual keyboard.
pub mod Released
use clippo.Prelude.{ℕ, List, [], ◌∷◌, ◌++◌, map, Option, none, some}
use clippo.Prelude.Text.{Text}
use clippo.Core.Chord.{Chord, modifier_keys, modifier_mask}

pub data KeyError : Type 0 where
  unsupported no_seat : KeyError
  connect keymap send_failed : Text → KeyError

-- the requests made of the virtual keyboard, and the wait between them
pub data Request : Type 0 where
  modifiers press release : ℕ → Request
  hold : Request

abbrev pub reverse : List ℕ → List ℕ
reverse [] = []
reverse (x ∷ xs) = reverse xs ++ x ∷ []

abbrev pub down : Chord → List Request
down c = modifiers (modifier_mask c) ∷ (map press (modifier_keys c) ++ press c.key ∷ [])

abbrev pub up : Chord → List Request
up c = release c.key ∷ (map release (reverse (modifier_keys c)) ++ modifiers 0 ∷ [])

abbrev sent_back : Option Text → Option KeyError
sent_back none = none
sent_back (some e) = some (send_failed e)

-- `Keystrokes::send`: the requests made, and its error, by the errors of `flush` and of `roundtrip`
abbrev send_after : Chord → Option Text → Option Text → List Request × Option KeyError
send_after c (some e) roundtrip = (down c, some (send_failed e))
send_after c none roundtrip = (down c ++ (hold ∷ up c), sent_back roundtrip)

unfoldable pub send : Chord → Option Text → Option Text → List Request × Option KeyError
send c flush roundtrip = send_after c flush roundtrip
